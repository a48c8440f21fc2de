-- ===== src/MetaNode/Inode/Codec.antt =====
-- The binary form of an inode: metanode/inode.go, Marshal to UnmarshalValue.
use cfs.Base.{
  ℕ, ◌==◌, Error, Result, ok, err, [], ◌∷◌, ◌++◌, Option, none, some, if◌then◌else◌, length, panic,
}
use cfs.Bytes.{Bytes, put_uint, read_uint, read_full, padded}
use cfs.Bytes.Fill.{Fill, field, frame, ◌>>◌}
use cfs.GoogleBtree.{BtreePackage}
use cfs.Proto.{u32}
use cfs.MetaNode.Extents
use cfs.MetaNode.Inode.{Inode}

module _ ⦃L : BtreePackage⦄ where
  -- MarshalKey
  unfoldable pub marshal_key : Inode → Bytes
  marshal_key i = put_uint 8 i.inode

  -- UnmarshalKey: Uint64 panics on fewer than eight bytes and ignores what follows them.
  key_read : Inode → Bytes → Result (ℕ × Bytes) → Option Error × Inode × Bytes
  key_read i k (err _) = (some panic, i, k)
  key_read i k (ok (v, rest)) = (none, record i { inode = v }, rest)

  unfoldable pub unmarshal_key : Fill Inode
  unfolding key_read
  unmarshal_key i k = key_read i k (read_uint 8 k)

  -- MarshalValue: the fields after the extents' place in the source's order.
  unfoldable pub marshal_tail : Inode → Bytes
  marshal_tail i =
      put_uint 4 i.nlink
      ++ (put_uint 4 i.flag ++ (put_uint 8 i.reserved ++ Extents.marshal_binary i.extents))

  unfoldable pub marshal_link : Inode → Bytes
  unfolding marshal_tail
  marshal_link i = put_uint 4 (u32 (length i.link_target)) ++ (i.link_target ++ marshal_tail i)

  unfoldable pub marshal_times : Inode → Bytes
  unfolding marshal_link
  marshal_times i =
      put_uint 8 i.create_time
      ++ (put_uint 8 i.access_time ++ (put_uint 8 i.modify_time ++ marshal_link i))

  unfoldable pub marshal_value : Inode → Bytes
  unfolding marshal_times
  marshal_value i =
      put_uint 4 i.type
      ++ (put_uint 4 i.uid
          ++ (put_uint 4 i.gid
              ++ (put_uint 8 i.size ++ (put_uint 8 i.generation ++ marshal_times i))))

  -- Marshal: key and value, each behind its length as a uint32.
  unfoldable pub marshal : Inode → Bytes
  marshal i =
      put_uint 4 (u32 (length (marshal_key i)))
      ++ (marshal_key i ++ (put_uint 4 (u32 (length (marshal_value i))) ++ marshal_value i))

  -- The target of a symbolic link, behind its length. A target that is cut short leaves the zero
  -- bytes that ReadFull did not overwrite.
  link_read : ℕ → Inode → Bytes → Result (Bytes × Bytes) → Option Error × Inode × Bytes
  link_read n i buf (ok (target, rest)) = (none, record i { link_target = target }, rest)
  link_read n i buf (err x) = (some x, record i { link_target = padded n buf }, [])

  unfoldable pub link_sized : Inode → Bytes → Result (ℕ × Bytes) → Option Error × Inode × Bytes
  unfolding link_read
  link_sized i buf (err x) = (some x, i, buf)
  link_sized i buf (ok (n, rest)) =
      if n == 0 then (none, i, rest) else link_read n i rest (read_full n rest)

  unfoldable pub unmarshal_link : Fill Inode
  unfolding link_sized
  unmarshal_link i buf = link_sized i buf (read_uint 4 buf)

  -- The extents are all that is left, if anything is.
  unfoldable pub unmarshal_extents : Fill Inode
  unmarshal_extents i [] = (none, i, [])
  unmarshal_extents i (b ∷ buf) =
      let (x, extents) = Extents.unmarshal_binary i.extents (b ∷ buf) in
      (x, record i { extents = extents }, [])

  -- UnmarshalValue
  unfoldable pub unmarshal_tail : Fill Inode
  unmarshal_tail = do
    field 4 (λ v i. record i { nlink = v })
    field 4 (λ v i. record i { flag = v })
    field 8 (λ v i. record i { reserved = v })
    unmarshal_extents

  unfoldable pub unmarshal_times : Fill Inode
  unfolding unmarshal_tail
  unmarshal_times = do
    field 8 (λ v i. record i { create_time = v })
    field 8 (λ v i. record i { access_time = v })
    field 8 (λ v i. record i { modify_time = v })
    unmarshal_link
    unmarshal_tail

  unfoldable pub unmarshal_value : Fill Inode
  unfolding unmarshal_times
  unmarshal_value = do
    field 4 (λ v i. record i { type = v })
    field 4 (λ v i. record i { uid = v })
    field 4 (λ v i. record i { gid = v })
    field 8 (λ v i. record i { size = v })
    field 8 (λ v i. record i { generation = v })
    unmarshal_times

  -- Unmarshal
  unfoldable pub unmarshal : Fill Inode
  unmarshal = do frame unmarshal_key; frame unmarshal_value
