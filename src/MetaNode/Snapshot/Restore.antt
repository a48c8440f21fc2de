-- ===== src/MetaNode/Snapshot/Restore.antt =====
-- metanode/partition_fsm.go, ApplySnapshot: what the follower makes of it. Files of extents to
-- delete, the signal that they changed, and the log are not modelled here.
use cfs.Base.{
  ℕ, ◌==◌, ltb, true, List, [], ◌∷◌, ◌++◌, Option, none, some, Error, eof, panic, unknown_op,
  Result, ok, err, if◌then◌else◌,
}
use cfs.Bytes.{Bytes, read_uint}
use cfs.GoogleBtree.{BtreePackage}
use cfs.MetaNode.BTree.{BTree, new_btree, replace_or_insert}
use cfs.MetaNode.Dentry
use cfs.MetaNode.Dentry.{Dentry}
use cfs.MetaNode.Dentry.Order.{dentry_item}
use cfs.MetaNode.Inode.{Inode, new_inode}
use cfs.MetaNode.Inode.Codec
use cfs.MetaNode.Inode.Order.{inode_item}
use cfs.MetaNode.MetaItem
use cfs.MetaNode.MetaItem.{MetaItem}
use cfs.MetaNode.Partition.{MetaPartition}
use cfs.MetaNode.Partition.DentryOps.{blank_dentry}
use cfs.MetaNode.Snapshot.{op_fsm_create_inode, op_fsm_create_dentry, op_extent_file_snapshot}

module _ ⦃L : BtreePackage⦄ where
  -- The variables of ApplySnapshot.
  pub record Restore : Type 0 where
    pub index : ℕ
    pub app_index_id : ℕ
    pub cursor : ℕ
    pub inode_tree : BTree Inode
    pub dentry_tree : BTree Dentry

  abbrev pub blank_restore : Restore
  blank_restore = record {
    index = 0;
    app_index_id = 0;
    cursor = 0;
    inode_tree = new_btree;
    dentry_tree = new_btree;
  }

  unfoldable pub restore_inode : Restore → Option Error × Inode × Bytes → Bytes → Result Restore
  restore_inode r (some e, ino, rest) v = err e
  restore_inode r (none, ino, rest) v =
      let (x, ino', left) = Codec.unmarshal_value ino v in
      ok record r {
        cursor = if ltb r.cursor ino'.inode then ino'.inode else r.cursor;
        inode_tree = (replace_or_insert r.inode_tree ino' true).1;
      }

  unfoldable pub restore_dentry : Restore → Bytes → Bytes → Result Restore
  restore_dentry r k v =
      let (x, dentry, rest) = Dentry.unmarshal_key blank_dentry k in
      let (y, dentry', left) = Dentry.unmarshal_value dentry v in
      ok record r { dentry_tree = (replace_or_insert r.dentry_tree dentry' true).1 }

  -- One item. The errors of decoding a value are not looked at; a key that is too short panics.
  unfoldable pub restore_item : ℕ → Restore → MetaItem → Result Restore
  unfolding restore_inode restore_dentry
  restore_item now r snap =
      if snap.op == op_fsm_create_inode
      then restore_inode r (Codec.unmarshal_key (new_inode 0 0 now) snap.k) snap.v
      else (if snap.op == op_fsm_create_dentry
          then restore_dentry r snap.k snap.v
          else (if snap.op == op_extent_file_snapshot then ok r else err unknown_op))

  -- The data of one round: the index first, then items.
  restore_first : Restore → Result (ℕ × Bytes) → Result Restore
  restore_first r (err e) = err panic
  restore_first r (ok (v, rest)) = ok record r { index = 1; app_index_id = v }

  restore_data : ℕ → Restore → Option Error × MetaItem × Bytes → Result Restore
  restore_data now r (some e, snap, rest) = err e
  restore_data now r (none, snap, rest) = restore_item now r snap

  unfoldable pub restore_round : ℕ → Restore → Bytes → Result Restore
  unfolding restore_first restore_data
  restore_round now r item =
      if r.index == 0
      then restore_first r (read_uint 8 item)
      else restore_data now r (MetaItem.unmarshal_binary record { op = 0; k = []; v = [] } item)

  -- The loop over what the iterator returns, which fails with `last` in the end.
  unfoldable pub restore_loop : ℕ → Restore → List Bytes → Error → Error × Restore
  restore_loop now r [] last = (last, r)
  restore_loop now r (item ∷ rest) last = elim (restore_round now r item) [
    | err e ↦ (e, r)
    | ok r' ↦ restore_loop now r' rest last
  ]

  -- The deferred function: only EOF installs what was read.
  install : MetaPartition → Error × Restore → Option Error × MetaPartition
  install mp (eof, r) = (
    none,
    record mp {
      apply_id = r.app_index_id;
      inode_tree = r.inode_tree;
      dentry_tree = r.dentry_tree;
      cursor = r.cursor;
      store_chan =
          mp.store_chan
          ++ record {
            apply_index = r.app_index_id;
            inode_tree = r.inode_tree;
            dentry_tree = r.dentry_tree;
          }
            ∷ [];
    },
  )
  install mp (e, r) = (some e, mp)

  -- ApplySnapshot
  unfoldable pub apply_snapshot :
      MetaPartition → ℕ → List Bytes → Error → Option Error × MetaPartition
  unfolding install
  apply_snapshot mp now datas last = install mp (restore_loop now blank_restore datas last)
