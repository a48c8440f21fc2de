-- ===== src/Sdk/Meta/Rename.antt =====
-- Rename_ll of sdk/meta/api.go.
use cfs.Base.{ℕ, ◌==◌, Bool, false, ◌&&◌, none, some, if◌then◌else◌}
use cfs.Bytes.{Bytes}
use cfs.GoogleBtree.{BtreePackage}
use cfs.Proto.{is_regular}
use cfs.Sdk.Meta.{MetaStatus, Errno, eagain, enoent, status_to_errno}
use cfs.Sdk.Meta.Partition.{MetaPartition, MetaWrapper, get_partition_by_inode}
use cfs.Sdk.Meta.Operation
use cfs.Sdk.Meta.Operation.{Remote, Reply}
use cfs.Sdk.Meta.Api.{done, fails, refused, is_exist, Call, at_partition}

module _ ⦃L : BtreePackage⦄ (R : Remote) (mw : MetaWrapper) where
  -- The two names of a rename, and the partitions of its three inodes.
  pub record Rename : Type 0 where
    pub src_parent_mp : MetaPartition
    pub dst_parent_mp : MetaPartition
    pub src_mp : MetaPartition
    pub src_parent_id : ℕ
    pub src_name : Bytes
    pub dst_parent_id : ℕ
    pub dst_name : Bytes
    pub inode : ℕ
    pub mode : ℕ

  -- The last step: the inode that the new name had before loses its link.
  unfoldable pub unlink_old : R.World → ℕ → R.World
  unlink_old w old_inode = elim (get_partition_by_inode mw old_inode) [
    | none ↦ w
    | some mp ↦ if old_inode == 0 then w else (Operation.iunlink R w mp old_inode).1
  ]

  -- The new entry is taken back.
  unfoldable pub undo : Rename → R.World → ℕ → (MetaStatus × Bool) × R.World
  undo r w old_inode =
      let ((deleted, i, error), w1) =
        Operation.ddelete R w r.dst_parent_mp r.dst_parent_id r.dst_name in
      let ((updated, j, error'), w2) =
        Operation.dupdate R w r.dst_parent_mp r.dst_parent_id r.dst_name old_inode in
      if old_inode == 0 then ((deleted, error), w1) else ((updated, error'), w2)

  -- From the deletion of the old entry on.
  unfoldable pub delete_source : Rename → R.World → ℕ → Call R mw Unit
  unfolding unlink_old undo
  delete_source r w old_inode =
      let ((status, i, error), w1) =
        Operation.ddelete R w r.src_parent_mp r.src_parent_id r.src_name in
      let ((sts, e), w2) = undo r w1 old_inode in
      if refused status error
      then (
        fails (status_to_errno status),
        if refused sts e then w2 else (Operation.iunlink R w2 r.src_mp r.inode).1,
      )
      else (done tt, unlink_old (Operation.iunlink R w1 r.src_mp r.inode).1 old_inode)

  -- A failure after the link is taken back with it.
  unfoldable pub give_up : Rename → R.World → Errno → Call R mw Unit
  give_up r w e = (fails e, (Operation.iunlink R w r.src_mp r.inode).1)

  -- The status of the new entry, with the inode that it named before, or 0.
  unfoldable pub entry_made : Rename → R.World → MetaStatus → ℕ → Call R mw Unit
  unfolding delete_source give_up
  entry_made r w status old_inode =
      if refused status false
      then give_up r w (status_to_errno status)
      else delete_source r w old_inode

  -- Only regular files are overwritten.
  unfoldable pub create_destination : Rename → R.World → Call R mw Unit
  unfolding give_up entry_made
  create_destination r w =
      let ((status, error), w1) =
        Operation.dcreate R w r.dst_parent_mp r.dst_parent_id r.dst_name r.inode r.mode in
      let ((status', old_inode, error'), w2) =
        Operation.dupdate R w1 r.dst_parent_mp r.dst_parent_id r.dst_name r.inode in
      if error
      then give_up r w1 eagain
      else (if is_exist status && is_regular r.mode
          then (if error' then give_up r w2 eagain else entry_made r w2 status' old_inode)
          else entry_made r w1 status 0)

  unfoldable pub link_source : Rename → R.World → Call R mw Unit
  unfolding create_destination
  link_source r w =
      let ((status, info, error), w1) = Operation.ilink R w r.src_mp r.inode in
      if refused status error then (fails (status_to_errno status), w1) else create_destination r w1

  -- Rename_ll
  unfoldable pub rename_ll : R.World → ℕ → Bytes → ℕ → Bytes → Call R mw Unit
  unfolding link_source
  rename_ll w src_parent_id src_name dst_parent_id dst_name =
      at_partition R mw src_parent_id enoent w λ src_parent_mp.
        at_partition R mw dst_parent_id enoent w λ dst_parent_mp.
          let ((status, (inode, mode), error), w1) =
            Operation.lookup R w src_parent_mp src_parent_id src_name in
          if refused status error
          then (fails (status_to_errno status), w1)
          else at_partition R mw inode enoent w1 λ src_mp.
            link_source
              record {
                src_parent_mp = src_parent_mp;
                dst_parent_mp = dst_parent_mp;
                src_mp = src_mp;
                src_parent_id = src_parent_id;
                src_name = src_name;
                dst_parent_id = dst_parent_id;
                dst_name = dst_name;
                inode = inode;
                mode = mode;
              }
              w1
