-- ===== src/MetaNode/Inode/RoundTrip.antt =====
-- The binary form of an inode, written and read: Marshal and Unmarshal of metanode/inode.go.
use cfs.Base.{
  ◌≡◌, refl, ◌++◌, none, arith, length, append-nil, [], ◌∷◌, ◌<◌, ◌^◌, ◌∙◌, All, ◌==◌, false,
}
use native.Mathlib.Nat.{mod-eq_of_lt}
use cfs.Bytes.{Bytes, put_uint}
use cfs.Bytes.RoundTrip.{length-put_uint, read_uint-put_uint, read_full-append}
use cfs.Bytes.Fill.{Fill, ◌>>◌, field_then, frame_then, frame_last}
use cfs.GoogleBtree.{BtreePackage}
use cfs.Proto.{IsU32, IsU64, u32}
use cfs.Proto.ExtentKey.{extent_item}
use cfs.Proto.ExtentKey.RoundTrip.{Fits as KeyFits}
use cfs.MetaNode.BTree.Rebuilt.{rebuilt}
use cfs.MetaNode.BTree.{ascend}
use cfs.MetaNode.Extents
use cfs.MetaNode.Extents.{ExtentsTree}
use cfs.MetaNode.Extents.RoundTrip.{unmarshal_binary-marshal_binary_tree}
use cfs.MetaNode.Inode.{Inode}
use cfs.MetaNode.Inode.Codec.{
  marshal_key, marshal_tail, marshal_link, marshal_times, marshal_value, marshal, unmarshal_key,
  unmarshal_link, unmarshal_extents, unmarshal_tail, unmarshal_times, unmarshal_value, unmarshal,
}

module _ ⦃L : BtreePackage⦄ where
  -- Every field fits its machine word, and the value its uint32 length.
  pub record Fits (i : Inode) : Type 0 where
    pub inode_fits : IsU64 i.inode
    pub type_fits : IsU32 i.type
    pub uid_fits : IsU32 i.uid
    pub gid_fits : IsU32 i.gid
    pub size_fits : IsU64 i.size
    pub generation_fits : IsU64 i.generation
    pub create_time_fits : IsU64 i.create_time
    pub access_time_fits : IsU64 i.access_time
    pub modify_time_fits : IsU64 i.modify_time
    pub link_fits : IsU32 (length i.link_target)
    pub nlink_fits : IsU32 i.nlink
    pub flag_fits : IsU32 i.flag
    pub reserved_fits : IsU64 i.reserved
    pub extents_fit : All KeyFits (ascend i.extents)
    pub value_fits : IsU32 (length (marshal_value i))

  -- An inode as NewInode leaves it: no link target and no extents.
  pub record IsBlank (i : Inode) : Type 0 where
    pub no_link : i.link_target ≡ []
    pub no_extents : ascend i.extents ≡ []

  unmarshal_extents-binary :
      (i : Inode) (buf : Bytes)
      → unmarshal_extents i buf ≡ (
        (Extents.unmarshal_binary i.extents buf).0,
        record i { extents = (Extents.unmarshal_binary i.extents buf).1 },
        [],
      )
  unfolding unmarshal_extents Extents.unmarshal_binary
  unmarshal_extents-binary i [] = refl
  unmarshal_extents-binary i (b ∷ buf) = refl

  -- A link target behind its length; an inode that had none keeps none.
  unmarshal_link-append :
      (i₀ : Inode) (target rest : Bytes)
      → i₀.link_target ≡ []
      → IsU32 (length target)
      → unmarshal_link i₀ (put_uint 4 (u32 (length target)) ++ (target ++ rest))
        ≡ (none, record i₀ { link_target = target }, rest)
  unfolding unmarshal_link
  unmarshal_link-append i₀ [] rest b h =
      simp (read_uint-put_uint 4 0 rest (omega arith))
        (λ j. (none, record i₀ { link_target = b j }, rest))
  unmarshal_link-append i₀ (c ∷ cs) rest b h = rw (mod-eq_of_lt h) (
      rw (
        read_uint-put_uint 4 (length (c ∷ cs)) ((c ∷ cs) ++ rest) h,
        read_full-append (length (c ∷ cs)) (c ∷ cs) rest refl,
        nonempty,
      ))
    where
      nonempty : (length (c ∷ cs) == 0) ≡ false
      nonempty = ground arith

  unmarshal_link_then :
      (k : Fill Inode) (i₀ i : Inode)
      → i₀.link_target ≡ []
      → IsU32 (length i.link_target)
      → (unmarshal_link >> k) i₀ (marshal_link i)
        ≡ k (record i₀ { link_target = i.link_target }) (marshal_tail i)
  unfolding marshal_link
  unmarshal_link_then k i₀ i b h = rw (unmarshal_link-append i₀ i.link_target (marshal_tail i) b h)

module _ ⦃L : BtreePackage⦄ (i : Inode) (h : Fits i) where
  unmarshal_tail-marshal_tail :
      (i₀ : Inode)
      → ascend i₀.extents ≡ []
      → unmarshal_tail i₀ (marshal_tail i) ≡ (
        none,
        record i₀ {
          nlink = i.nlink;
          flag = i.flag;
          reserved = i.reserved;
          extents = rebuilt i₀.extents (ascend i.extents);
        },
        [],
      )
  unfolding unmarshal_tail marshal_tail
  unmarshal_tail-marshal_tail i₀ b = rw (
    field_then 4 i.nlink _ _ i₀ _ h.nlink_fits,
    field_then 4 i.flag _ _ _ _ h.flag_fits,
    field_then 8 i.reserved _ _ _ _ h.reserved_fits,
    unmarshal_extents-binary _ _,
    (unmarshal_binary-marshal_binary_tree i.extents i₀.extents b h.extents_fit).0,
  )

  unmarshal_times-marshal_times :
      (i₀ : Inode)
      → IsBlank i₀
      → unmarshal_times i₀ (marshal_times i) ≡ (
        none,
        record i₀ {
          create_time = i.create_time;
          access_time = i.access_time;
          modify_time = i.modify_time;
          link_target = i.link_target;
          nlink = i.nlink;
          flag = i.flag;
          reserved = i.reserved;
          extents = rebuilt i₀.extents (ascend i.extents);
        },
        [],
      )
  unfolding unmarshal_times marshal_times
  unmarshal_times-marshal_times i₀ b =
      rw
        (
          field_then 8 i.create_time _ _ i₀ _ h.create_time_fits,
          field_then 8 i.access_time _ _ _ _ h.access_time_fits,
          field_then 8 i.modify_time _ _ _ _ h.modify_time_fits,
        )
        (unmarshal_link_then _ dated i b.no_link h.link_fits
          ∙ unmarshal_tail-marshal_tail (record dated { link_target = i.link_target }) b.no_extents)
    where
      dated : Inode
      dated = record i₀ {
        create_time = i.create_time;
        access_time = i.access_time;
        modify_time = i.modify_time;
      }

  pub unmarshal_value-marshal_value :
      (i₀ : Inode)
      → IsBlank i₀
      → unmarshal_value i₀ (marshal_value i)
        ≡ (none, record i { inode = i₀.inode; extents = rebuilt i₀.extents (ascend i.extents) }, [])
  unfolding unmarshal_value marshal_value
  unmarshal_value-marshal_value i₀ b =
      rw
        (
          field_then 4 i.type _ _ i₀ _ h.type_fits,
          field_then 4 i.uid _ _ _ _ h.uid_fits,
          field_then 4 i.gid _ _ _ _ h.gid_fits,
          field_then 8 i.size _ _ _ _ h.size_fits,
          field_then 8 i.generation _ _ _ _ h.generation_fits,
        )
        (unmarshal_times-marshal_times _
          (record { no_link = b.no_link; no_extents = b.no_extents }))

  pub unmarshal_key-marshal_key :
      (i₀ : Inode) → unmarshal_key i₀ (marshal_key i) ≡ (none, record i₀ { inode = i.inode }, [])
  unfolding unmarshal_key marshal_key
  unmarshal_key-marshal_key i₀ =
      rw (rw append-nil at (read_uint-put_uint 8 i.inode [] h.inode_fits))

  pub length-marshal_key : length (marshal_key i) ≡ 8
  unfolding marshal_key
  length-marshal_key = length-put_uint 8 i.inode

  -- An inode whose fields fit their words is read back from what Marshal wrote, into an inode
  -- without link target and extents: every field is the same, and the extents are the same keys in
  -- the same order.
  pub unmarshal-marshal_inode :
      (i₀ : Inode)
      → IsBlank i₀
      → (e : ExtentsTree) × (unmarshal i₀ (marshal i) ≡ (none, record i { extents = e }, []))
        × (ascend e ≡ ascend i.extents)
  unfolding unmarshal marshal
  unmarshal-marshal_inode i₀ b =
      let short : length (marshal_key i) < 2 ^ 32 = omega (arith, length-marshal_key) in
      (
        rebuilt i₀.extents (ascend i.extents),
        rw (mod-eq_of_lt short, mod-eq_of_lt h.value_fits)
            (rw
              (frame_then unmarshal_key _ i₀ _ (marshal_key i) _ _ short
                (unmarshal_key-marshal_key i₀))
              (frame_last unmarshal_value _ _ (marshal_value i) _ h.value_fits (
                unmarshal_value-marshal_value (record i₀ { inode = i.inode })
                  (record { no_link = b.no_link; no_extents = b.no_extents })))),
        (unmarshal_binary-marshal_binary_tree i.extents i₀.extents b.no_extents h.extents_fit).1,
      )
