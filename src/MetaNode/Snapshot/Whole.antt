-- ===== src/MetaNode/Snapshot/Whole.antt =====
-- ApplySnapshot of metanode/partition_fsm.go on a snapshot that holds inodes and dentries.
use cfs.Base.{
  ℕ, ◌≡◌, true, List, [], ◌∷◌, ◌++◌, map, All, Option, none, eof, Error, ok, refl, arith, ◌∙◌,
}
use cfs.Bytes.{Bytes, put_uint}
use cfs.GoogleBtree.{BtreePackage}
use cfs.Proto.{IsU64}
use cfs.MetaNode.BTree.{BTree, new_btree, ascend, replace_or_insert}
use cfs.MetaNode.BTree.Laws.{ascend-IsAscending, ascend-new_btree}
use cfs.MetaNode.BTree.Rebuilt.{rebuilt, ascend-rebuilt}
use cfs.MetaNode.Dentry
use cfs.MetaNode.Dentry.{Dentry}
use cfs.MetaNode.Dentry.Order.{dentry_item}
use cfs.MetaNode.Dentry.RoundTrip.{
  Fits as EntryFits, length-marshal_key, length-marshal_value, unmarshal_key-marshal_key,
  unmarshal_value-marshal_value,
}
use cfs.MetaNode.Inode.{Inode}
use cfs.MetaNode.Inode.Order.{inode_item}
use cfs.MetaNode.Inode.RoundTrip.{Fits}
use cfs.MetaNode.MetaItem
use cfs.MetaNode.MetaItem.{MetaItem, unmarshal_binary-marshal_binary_item}
use cfs.MetaNode.Partition.{MetaPartition}
use cfs.MetaNode.Partition.DentryOps.{blank_dentry}
use cfs.MetaNode.Snapshot.Iterator.{inode_data, dentry_data}
use cfs.MetaNode.Snapshot.Restore.{
  Restore, blank_restore, restore_item, restore_dentry, restore_round, restore_loop, apply_snapshot,
}
use cfs.MetaNode.Snapshot.Restored.{
  reread, highest, restore_loop-inodes, restore_round-first, ascend-restored,
}

module _ ⦃L : BtreePackage⦄ where
  -- One round restores one entry.
  restore_round-dentry :
      (now : ℕ) (r : Restore) (d : Dentry)
      → EntryFits d
      → r.index ≡ 1
      → restore_round now r (dentry_data d)
        ≡ ok (record r { dentry_tree = (replace_or_insert r.dentry_tree d true).1 })
  unfolding restore_round dentry_data restore_item restore_dentry
  restore_round-dentry now r d h one =
      let item : MetaItem = record {
        op = 2;
        k = Dentry.marshal_key d;
        v = Dentry.marshal_value d;
      } in
      let decoded : MetaItem.unmarshal_binary (record { op = 0; k = []; v = [] })
            (MetaItem.marshal_binary item)
          ≡ (none, item, []) =
        unmarshal_binary-marshal_binary_item _ item (record {
          op_fits = omega arith;
          k_fits = omega (arith, length-marshal_key d, h.name_fits);
          v_fits = omega (arith, length-marshal_value d);
        }) in
      rw (one, decoded, unmarshal_key-marshal_key blank_dentry d h)
        (rw (
          unmarshal_value-marshal_value
            (record blank_dentry { parent_id = d.parent_id; name = d.name }) d h))

  restore_loop-dentries :
      (now : ℕ) (ds : List Dentry) (r : Restore) (last : Error)
      → All EntryFits ds
      → r.index ≡ 1
      → restore_loop now r (map dentry_data ds) last
        ≡ (last, record r { dentry_tree = rebuilt r.dentry_tree ds })
  unfolding restore_loop rebuilt
  restore_loop-dentries now [] r last h one = refl
  restore_loop-dentries now (d ∷ ds) r last (p, h) one =
      rw (restore_round-dentry now r d p one, restore_loop)
        (restore_loop-dentries now ds
          (record r { dentry_tree = (replace_or_insert r.dentry_tree d true).1 }) last h one)

module _ ⦃L : BtreePackage⦄ (mp : MetaPartition) (now apply_id : ℕ) (ino : BTree Inode)
    (den : BTree Dentry) where
  -- The items that a snapshot of a partition is meant to hold.
  abbrev pub whole : List Bytes
  whole = put_uint 8 apply_id ∷ (map inode_data (ascend ino) ++ map dentry_data (ascend den))

  abbrev pub restored : Option Error × MetaPartition
  restored = apply_snapshot mp now whole eof

  restore_loop-whole :
      IsU64 apply_id
      → All Fits (ascend ino)
      → All EntryFits (ascend den)
      → restore_loop now blank_restore whole eof ≡ (
        eof,
        record {
          index = 1;
          app_index_id = apply_id;
          cursor = highest 0 (ascend ino);
          inode_tree = rebuilt new_btree (map reread (ascend ino));
          dentry_tree = rebuilt new_btree (ascend den);
        },
      )
  unfolding restore_loop
  restore_loop-whole a h k =
      rw (restore_round-first now apply_id a, restore_loop)
        (restore_loop-inodes now (ascend ino) (map dentry_data (ascend den))
            (record blank_restore { index = 1; app_index_id = apply_id }) eof h refl
          ∙ restore_loop-dentries now (ascend den) _ eof k refl)

  -- A follower that is given the index, a uint64, every inode and every entry of a partition, all
  -- of which fit their binary form, succeeds and has the index, the highest inode number as its
  -- cursor, every inode, with its extents inserted one by one into a tree of its own, and every
  -- entry.
  pub apply_snapshot-whole :
      IsU64 apply_id
      → All Fits (ascend ino)
      → All EntryFits (ascend den)
      → (restored.0 ≡ none)
        × (restored.1.apply_id ≡ apply_id)
        × (restored.1.cursor ≡ highest 0 (ascend ino))
        × (ascend restored.1.inode_tree ≡ map reread (ascend ino))
        × (ascend restored.1.dentry_tree ≡ ascend den)
  unfolding apply_snapshot
  apply_snapshot-whole a h k = rw (restore_loop-whole a h k) (
    refl,
    refl,
    refl,
    ascend-restored ino,
    ascend-rebuilt new_btree (ascend den) (rw ascend-new_btree (ascend-IsAscending den))
        ∙ rw ascend-new_btree refl,
  )
