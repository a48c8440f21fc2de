-- ===== src/MetaNode/Extents.antt =====
-- metanode/extents.go: the extents of an inode, a tree ordered by file offset.
pub mod Append
pub mod RoundTrip
use cfs.Base.{
  ℕ, zero, suc, ◌+◌, ◌==◌, Bool, ◌&&◌, true, List, [], ◌∷◌, ◌++◌, Option, none, some, Error, Result,
  ok, err, if◌then◌else◌, length,
}
use cfs.Bytes.{Bytes}
use cfs.GoogleBtree.{BtreePackage}
use cfs.Proto.{u64}
use cfs.Proto.ExtentKey
use cfs.Proto.ExtentKey.{ExtentKey, extent_item}
use cfs.MetaNode.BTree.{BTree, new_btree, delete, replace_or_insert, ascend, ascend_range, max_item}

-- `&proto.ExtentKey{FileOffset: x}`, the bound of a range.
abbrev pub key_at : ℕ → ExtentKey
key_at x = record {
  file_offset = x;
  partition_id = 0;
  extent_id = 0;
  extent_offset = 0;
  size = 0;
  crc = 0;
}

-- The end of an extent in the file, as the uint64 sum.
abbrev pub end_of : ExtentKey → ℕ
end_of ext = u64 (ext.file_offset + ext.size)

abbrev pub same_extent : ExtentKey → ExtentKey → Bool
same_extent a b = (a.partition_id == b.partition_id) && (a.extent_id == b.extent_id)

module _ ⦃L : BtreePackage⦄ where
  abbrev pub ExtentsTree : Type 0
  ExtentsTree = BTree ExtentKey

  -- NewExtentsTree
  abbrev pub new_extents_tree : ExtentsTree
  new_extents_tree = new_btree

  -- The loop of Append over the keys in the way: those of another extent are deleted and returned.
  unfoldable pub drop_others :
      ExtentKey → List ExtentKey → ExtentsTree → List ExtentKey × ExtentsTree
  drop_others ext [] e = ([], e)
  drop_others ext (item ∷ rest) e =
      let (items, e') =
        drop_others ext rest (if same_extent item ext then e else (delete e item).1) in
      (if same_extent item ext then items else item ∷ items, e')

  -- Append
  unfoldable pub append : ExtentsTree → ExtentKey → List ExtentKey × ExtentsTree
  unfolding drop_others
  append e key =
      let del_items = ascend_range e key (key_at (end_of key)) in
      let (items, e') = drop_others key del_items e in (items, (replace_or_insert e' key true).1)

  -- Size: where the last extent ends.
  size_to : Option ExtentKey → ℕ
  size_to none = 0
  size_to (some ext) = end_of ext

  unfoldable pub size : ExtentsTree → ℕ
  unfolding size_to
  size e = size_to (max_item e)

  -- MarshalBinary: the keys in order.
  unfoldable pub marshal_keys : List ExtentKey → Bytes
  marshal_keys [] = []
  marshal_keys (ext ∷ rest) = ExtentKey.marshal_binary ext ++ marshal_keys rest

  unfoldable pub marshal_binary : ExtentsTree → Bytes
  unfolding marshal_keys
  marshal_binary e = marshal_keys (ascend e)

  -- The loop of UnmarshalBinary; every round reads at least one byte, so the length of the buffer
  -- is fuel enough.
  unfoldable pub unmarshal_loop : ℕ → Bytes → ExtentsTree → Option Error × ExtentsTree
  unmarshal_loop fuel [] e = (none, e)
  unmarshal_loop zero (b ∷ buf) e = (none, e)
  unmarshal_loop (suc fuel) (b ∷ buf) e = elim (ExtentKey.unmarshal_binary (b ∷ buf)) [
    | err x ↦ (some x, e)
    | ok (ext, rest) ↦ unmarshal_loop fuel rest (replace_or_insert e ext true).1
  ]

  -- UnmarshalBinary
  unfoldable pub unmarshal_binary : ExtentsTree → Bytes → Option Error × ExtentsTree
  unfolding unmarshal_loop
  unmarshal_binary e buf = unmarshal_loop (length buf) buf e
