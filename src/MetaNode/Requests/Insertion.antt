-- ===== src/MetaNode/Requests/Insertion.antt =====
-- The command that creates an inode, applied: metanode/partition_fsm.go, Apply.
use cfs.Base.{ℕ, ◌≡◌, false, [], none, some, arith, refl, ap, Option-cases, inl, inr}
use cfs.Bytes.{Bytes}
use cfs.GoogleBtree.{BtreePackage}
use cfs.Proto.ExtentKey.{extent_item}
use cfs.Proto.{op_ok}
use cfs.MetaNode.BTree.{BTree, get, replace_or_insert}
use cfs.MetaNode.Inode.{Inode, new_inode}
use cfs.MetaNode.Inode.Order.{inode_item}
use cfs.MetaNode.Inode.Codec
use cfs.MetaNode.Inode.Lookup.{get-insert_number}
use cfs.MetaNode.Partition.{MetaPartition}
use cfs.MetaNode.Partition.InodeOps.{fsm_create_inode}
use cfs.MetaNode.Partition.Apply.{
  Surroundings, status, create_inode as fsm_create, create_at_cursor, with_inode, of_status,
  upload_apply_id, dispatch, apply,
}

module _ ⦃L : BtreePackage⦄ where
  fsm_create_inode-ok :
      (mp : MetaPartition) (ino : Inode)
      → (create_at_cursor mp ino).0 ≡ op_ok
      → (get mp.inode_tree ino ≡ none)
        × ((create_at_cursor mp ino).1.inode_tree ≡ (replace_or_insert mp.inode_tree ino false).1)
  unfolding create_at_cursor fsm_create_inode replace_or_insert get
  fsm_create_inode-ok mp ino h = elim (Option-cases (get mp.inode_tree ino)) [
    | inl e ↦ (e, refl)
    | inr (i, e) ↦ absurd (ground (arith, e))
  ]

  -- The command that CreateInode submits, applied: it inserts the inode, unless its number is taken.
  pub apply-create :
      (s : Surroundings) (mp : MetaPartition) (ino : Inode) (v : Bytes) (index : ℕ)
      → Codec.unmarshal (new_inode 0 0 s.now) v ≡ (none, ino, [])
      → (apply s mp fsm_create v index).0 ≡ (status op_ok, none)
      → (get mp.inode_tree ino ≡ none)
        × ((apply s mp fsm_create v index).1.inode_tree
            ≡ (replace_or_insert mp.inode_tree ino false).1)
  unfolding apply dispatch with_inode of_status upload_apply_id
  apply-create s mp ino v index u h =
      let e : (create_at_cursor mp (Codec.unmarshal (new_inode 0 0 s.now) v).1).0 ≡ op_ok =
        ground arith in
      let decoded : (Codec.unmarshal (new_inode 0 0 s.now) v).1 ≡ ino = ap (λ x. x.1) u in
      let right : (Codec.unmarshal (new_inode 0 0 s.now) v).0 ≡ none = ap (λ x. x.0) u in
      rw (right, decoded, with_inode) (fsm_create_inode-ok mp ino (rw decoded at e))

  -- A tree into which an inode of a number that was free is inserted.
  pub inserted-found :
      (t : BTree Inode) (ino k : Inode)
      → get t ino ≡ none
      → k.inode ≡ ino.inode
      → get (replace_or_insert t ino false).1 k ≡ some ino
  inserted-found t ino k gone same = ground (arith, get-insert_number t ino k)
