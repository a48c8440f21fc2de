-- ===== src/Sdk/Meta/Delete.antt =====
-- Delete_ll of sdk/meta/api.go.
use cfs.Base.{ℕ, Bool, true, not, ltb, Option, none, some, if◌then◌else◌}
use cfs.Bytes.{Bytes}
use cfs.GoogleBtree.{BtreePackage}
use cfs.Proto.{is_dir}
use cfs.MetaNode.Requests.{InodeInfo}
use cfs.Sdk.Meta.{eagain, enoent, einval, enotempty, status_to_errno}
use cfs.Sdk.Meta.Partition.{MetaPartition, MetaWrapper, get_partition_by_inode}
use cfs.Sdk.Meta.Operation
use cfs.Sdk.Meta.Operation.{Remote, Reply}
use cfs.Sdk.Meta.Api.{done, fails, panics, refused, Call, at_partition}

module _ ⦃L : BtreePackage⦄ (R : Remote) (mw : MetaWrapper) where
  -- The end of Delete_ll: the inode of the entry that is gone. Its failure is not reported.
  unfoldable pub unlink_deleted : R.World → ℕ → Call R mw (Option InodeInfo)
  unlink_deleted w inode = elim (get_partition_by_inode mw inode) [
    | none ↦ (done none, w)
    | some mp ↦
        let ((status, info, error), w') = Operation.iunlink R w mp inode in
        (done (if refused status error then none else info), w')
  ]

  unfoldable pub delete_entry : R.World → MetaPartition → ℕ → Bytes → Call R mw (Option InodeInfo)
  unfolding unlink_deleted
  delete_entry w parent parent_id name =
      let ((status, inode, error), w1) = Operation.ddelete R w parent parent_id name in
      if refused status error then (fails (status_to_errno status), w1) else unlink_deleted w1 inode

  -- The check of Delete_ll that a directory is empty.
  unfoldable pub crowded : Option InodeInfo → Bool
  crowded none = true
  crowded (some info) = ltb 2 info.nlink

  unfoldable pub check_empty : R.World → MetaPartition → ℕ → Bytes → Call R mw Unit
  unfolding crowded
  check_empty w parent parent_id name =
      let ((status, (inode, mode), error), w1) = Operation.lookup R w parent parent_id name in
      if refused status error
      then (fails (status_to_errno status), w1)
      else (if not (is_dir mode)
          then (fails einval, w1)
          else elim (get_partition_by_inode mw inode) [
            | none ↦ (fails eagain, w1)
            | some mp ↦
                let ((status', info, error'), w2) = Operation.iget R w1 mp inode in
                (
                  if refused status' error'
                      then fails (status_to_errno status')
                      else (if crowded info then fails enotempty else done tt),
                  w2,
                )
          ])

  -- Delete_ll
  unfoldable pub delete_ll : R.World → ℕ → Bytes → Bool → Call R mw (Option InodeInfo)
  unfolding check_empty delete_entry
  delete_ll w parent_id name dir = at_partition R mw parent_id enoent w λ parent.
      if dir
      then elim (check_empty w parent parent_id name).0 [
        | done u ↦ delete_entry (check_empty w parent parent_id name).1 parent parent_id name
        | fails e ↦ (fails e, (check_empty w parent parent_id name).1)
        | panics ↦ (panics, (check_empty w parent parent_id name).1)
      ]
      else delete_entry w parent parent_id name
