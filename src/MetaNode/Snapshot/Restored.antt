-- ===== src/MetaNode/Snapshot/Restored.antt =====
-- ApplySnapshot of metanode/partition_fsm.go on inodes, and on what Next delivers.
use cfs.Base.{
  some, ap, ℕ, suc, ◌≡◌, true, ltb, List, [], ◌∷◌, ◌++◌, map, All, length, Option, none, eof, Error,
  Result, ok, refl, arith, if◌then◌else◌, ◌∙◌, append-nil,
}
use cfs.Bytes.{Bytes, put_uint}
use cfs.Bytes.RoundTrip.{read_uint-put_uint}
use cfs.GoogleBtree.{BtreePackage, Above, IsAscending}
use cfs.Proto.{IsU64}
use cfs.Proto.ExtentKey.{extent_item}
use cfs.MetaNode.BTree.{BTree, new_btree, ascend, replace_or_insert}
use cfs.MetaNode.BTree.Laws.{ascend-IsAscending, ascend-new_btree}
use cfs.MetaNode.BTree.Rebuilt.{rebuilt, ascend-rebuilt}
use cfs.MetaNode.Dentry.{Dentry}
use cfs.MetaNode.Dentry.Order.{dentry_item}
use cfs.MetaNode.Extents.{new_extents_tree}
use cfs.MetaNode.Inode.{Inode, new_inode}
use cfs.MetaNode.Inode.Codec
use cfs.MetaNode.Inode.Order.{inode_item}
use cfs.MetaNode.Inode.RoundTrip.{
  Fits, IsBlank, unmarshal_key-marshal_key, unmarshal_value-marshal_value, length-marshal_key,
}
use cfs.MetaNode.MetaItem
use cfs.MetaNode.MetaItem.{MetaItem, unmarshal_binary-marshal_binary_item}
use cfs.MetaNode.Partition.{MetaPartition}
use cfs.MetaNode.Snapshot.Iterator.{new_meta_item_iterator, inode_data, drain}
use cfs.MetaNode.Snapshot.Restore.{
  Restore, blank_restore, restore_item, restore_inode, restore_round, restore_loop, apply_snapshot,
}
use cfs.MetaNode.Snapshot.Sent.{drain-new_meta_item_iterator}

module _ ⦃L : BtreePackage⦄ where
  -- An inode as it is read back: the same fields, and the same extents in a tree of its own.
  abbrev pub reread : Inode → Inode
  reread i = record i { extents = rebuilt new_extents_tree (ascend i.extents) }

  new_inode-IsBlank : (now n : ℕ) → IsBlank (record (new_inode 0 0 now) { inode = n })
  unfolding new_inode
  new_inode-IsBlank now n = record { no_link = refl; no_extents = ascend-new_btree }

  -- The highest of the numbers, and of `cursor`.
  abbrev pub highest : ℕ → List Inode → ℕ
  highest cursor [] = cursor
  highest cursor (i ∷ is) = highest (if ltb cursor i.inode then i.inode else cursor) is

  -- One round restores one inode.
  restore_round-inode :
      (now : ℕ) (r : Restore) (i : Inode)
      → Fits i
      → r.index ≡ 1
      → restore_round now r (inode_data i)
        ≡ ok (record r {
          cursor = if ltb r.cursor i.inode then i.inode else r.cursor;
          inode_tree = (replace_or_insert r.inode_tree (reread i) true).1;
        })
  unfolding restore_round inode_data restore_item restore_inode
  restore_round-inode now r i h one =
      let item : MetaItem = record { op = 0; k = Codec.marshal_key i; v = Codec.marshal_value i } in
      let decoded : MetaItem.unmarshal_binary (record { op = 0; k = []; v = [] })
            (MetaItem.marshal_binary item)
          ≡ (none, item, []) =
        unmarshal_binary-marshal_binary_item _ item (record {
          op_fits = omega arith;
          k_fits = omega (arith, length-marshal_key i h);
          v_fits = h.value_fits;
        }) in
      rw (one, decoded, unmarshal_key-marshal_key i h (new_inode 0 0 now))
        (rw
          (unmarshal_value-marshal_value i h (record (new_inode 0 0 now) { inode = i.inode })
            (new_inode-IsBlank now i.inode))
          (unfold new_inode in refl))

  -- The rounds over inodes, before those over `more`.
  pub restore_loop-inodes :
      (now : ℕ) (is : List Inode) (more : List Bytes) (r : Restore) (last : Error)
      → All Fits is
      → r.index ≡ 1
      → restore_loop now r (map inode_data is ++ more) last
        ≡ restore_loop now
            (record r {
              cursor = highest r.cursor is;
              inode_tree = rebuilt r.inode_tree (map reread is);
            })
            more
            last
  unfolding restore_loop rebuilt
  restore_loop-inodes now [] more r last h one = refl
  restore_loop-inodes now (i ∷ is) more r last (p, h) one =
      rw (restore_round-inode now r i p one, restore_loop)
        (restore_loop-inodes now is more
          (record r {
            cursor = if ltb r.cursor i.inode then i.inode else r.cursor;
            inode_tree = (replace_or_insert r.inode_tree (reread i) true).1;
          })
          last h one)

  Above-reread :
      (i : Inode) (is : List Inode)
      → Above inode_item i is
      → Above inode_item (reread i) (map reread is)
  Above-reread i [] h = tt
  Above-reread i (j ∷ is) (p, h) = (p, Above-reread i is h)

  IsAscending-reread :
      (is : List Inode) → IsAscending inode_item is → IsAscending inode_item (map reread is)
  IsAscending-reread [] h = tt
  IsAscending-reread (i ∷ is) (p, h) = (Above-reread i is p, IsAscending-reread is h)

  pub restore_round-first :
      (now apply_id : ℕ)
      → IsU64 apply_id
      → restore_round now blank_restore (put_uint 8 apply_id)
        ≡ ok (record blank_restore { index = 1; app_index_id = apply_id })
  unfolding restore_round
  restore_round-first now apply_id a = rw (rw append-nil at (read_uint-put_uint 8 apply_id [] a))

  pub ascend-restored :
      (ino : BTree Inode)
      → ascend (rebuilt new_btree (map reread (ascend ino))) ≡ map reread (ascend ino)
  ascend-restored ino =
      ascend-rebuilt new_btree (map reread (ascend ino))
        (rw ascend-new_btree (IsAscending-reread (ascend ino) (ascend-IsAscending ino)))
      ∙ rw ascend-new_btree refl

module _ ⦃L : BtreePackage⦄ (mp : MetaPartition) (now : ℕ) (read_file : Bytes → Result Bytes)
    (apply_id : ℕ) (ino : BTree Inode) (den : BTree Dentry) where
  -- What the iterator of the leader's partition delivers until it fails, and the error.
  abbrev pub sent : List Bytes × Option Error
  sent =
      drain (suc (suc (length (ascend ino)))) read_file (new_meta_item_iterator apply_id ino den [])

  -- The follower to which raft hands this over, ended by EOF.
  abbrev pub follower : Option Error × MetaPartition
  follower = apply_snapshot mp now sent.0 eof

  restore_loop-sent :
      IsU64 apply_id
      → All Fits (ascend ino)
      → restore_loop now blank_restore sent.0 eof ≡ (
        eof,
        record {
          index = 1;
          app_index_id = apply_id;
          cursor = highest 0 (ascend ino);
          inode_tree = rebuilt new_btree (map reread (ascend ino));
          dentry_tree = new_btree;
        },
      )
  unfolding restore_loop
  restore_loop-sent a h =
      rw
        (
          drain-new_meta_item_iterator read_file apply_id ino den,
          restore_round-first now apply_id a,
          restore_loop,
        )
        (rw append-nil at (
          restore_loop-inodes now (ascend ino) []
            (record blank_restore { index = 1; app_index_id = apply_id }) eof h refl))

  -- Next ends with EOF on a partition without files of extents to delete, and a follower that
  -- applies what it delivers until then, where the index is a uint64 and the inodes fit their
  -- binary form, succeeds and has the index, the highest inode number as its cursor, and every
  -- inode, with its extents inserted one by one into a tree of its own. It has no directory entry.
  pub apply_snapshot-drain :
      IsU64 apply_id
      → All Fits (ascend ino)
      → (sent.1 ≡ some eof)
        × (follower.0 ≡ none)
        × (follower.1.apply_id ≡ apply_id)
        × (follower.1.cursor ≡ highest 0 (ascend ino))
        × (ascend follower.1.inode_tree ≡ map reread (ascend ino))
        × (ascend follower.1.dentry_tree ≡ [])
  unfolding apply_snapshot
  apply_snapshot-drain a h = rw (restore_loop-sent a h) (
    ap (λ (p : List Bytes × Option Error). p.1)
        (drain-new_meta_item_iterator read_file apply_id ino den),
    refl,
    refl,
    refl,
    ascend-restored ino,
    ascend-new_btree,
  )
