-- ===== src/MetaNode/Partition/Apply.antt =====
-- metanode/partition_fsm.go, Apply: the state machine that the raft log drives.
use cfs.Base.{
  ℕ, false, ltb, [], ◌∷◌, ◌++◌, Option, none, some, Error, Result, ok, err, if◌then◌else◌,
}
use cfs.Bytes.{Bytes}
use cfs.GoogleBtree.{BtreePackage}
use cfs.Proto.{Status, op_ok, op_disk_err}
use cfs.MetaNode.Dentry
use cfs.MetaNode.Dentry.{Dentry}
use cfs.MetaNode.Inode.{Inode, new_inode}
use cfs.MetaNode.Inode.Codec
use cfs.MetaNode.Partition.{MetaPartition}
use cfs.MetaNode.Partition.InodeOps.{
  SetattrRequest, InodeResponse, fsm_create_inode, fsm_create_link_inode, fsm_unlink_inode,
  fsm_append_extents, fsm_extents_truncate, fsm_evict_inode, fsm_set_attr, internal_delete,
}
use cfs.MetaNode.Partition.DentryOps.{
  blank_dentry, DentryResponse, fsm_create_dentry, fsm_delete_dentry, fsm_update_dentry,
}

-- msg.Op, without opFSMDeletePartition, which stops the partition and removes its directory;
-- `other_op` is every number that has no case.
pub data Op : Type 0 where
  create_inode unlink_inode extent_truncate create_link_inode evict_inode set_attr : Op
  create_dentry delete_dentry update_dentry update_partition extents_add store_tick : Op
  internal_delete_inode internal_del_extent_file internal_del_extent_cursor other_op : Op

-- What the surroundings answer while one command is applied: the clock, encoding/json on the two
-- requests that are sent as JSON, and the disk.
pub record Surroundings : Type 0 where
  pub now : ℕ
  pub setattr_of : Bytes → Result SetattrRequest
  pub end_of_update : Bytes → Result ℕ
  pub persist_metadata : Option Error
  pub extent_file : Option Error

module _ ⦃L : BtreePackage⦄ where
  -- `resp`
  pub data Response : Type 0 where
    status : Status → Response
    inode_response : InodeResponse → Response
    dentry_response : DentryResponse → Response
    no_response : Response

  -- fsmUpdatePartition: the end is put back if it cannot be persisted.
  unfoldable pub fsm_update_partition :
      Option Error → MetaPartition → ℕ → (Status × Option Error) × MetaPartition
  fsm_update_partition none mp end = ((op_ok, none), record mp { end = end })
  fsm_update_partition (some e) mp end = ((op_disk_err, some e), mp)

  -- The handler of a command that carries an inode.
  unfoldable pub with_inode :
      ℕ
      → MetaPartition
      → Bytes
      → (Inode → Response × MetaPartition)
      → (Response × Option Error) × MetaPartition
  with_inode now mp v handler =
      let (x, ino, rest) = Codec.unmarshal (new_inode 0 0 now) v in
      let (resp, mp') = handler ino in
      elim x [ some e ↦ ((no_response, some e), mp) | none ↦ ((resp, none), mp') ]

  -- The handler of a command that carries a dentry.
  unfoldable pub with_dentry :
      MetaPartition
      → Bytes
      → (Dentry → Response × MetaPartition)
      → (Response × Option Error) × MetaPartition
  with_dentry mp v handler =
      let (x, den, rest) = Dentry.unmarshal blank_dentry v in
      let (resp, mp') = handler den in
      elim x [ some e ↦ ((no_response, some e), mp) | none ↦ ((resp, none), mp') ]

  unfoldable pub of_status : Status × MetaPartition → Response × MetaPartition
  of_status (s, mp) = (status s, mp)

  unfoldable pub of_inode : InodeResponse × MetaPartition → Response × MetaPartition
  of_inode (r, mp) = (inode_response r, mp)

  unfoldable pub of_dentry : DentryResponse × MetaPartition → Response × MetaPartition
  of_dentry (r, mp) = (dentry_response r, mp)

  -- opFSMCreateInode raises the cursor to the number of the inode first.
  unfoldable pub create_at_cursor : MetaPartition → Inode → Status × MetaPartition
  create_at_cursor mp ino =
      fsm_create_inode
        (record mp { cursor = if ltb mp.cursor ino.inode then ino.inode else mp.cursor }) ino

  -- The cases of Apply that do more than call one operation.
  unfoldable pub apply_set_attr :
      MetaPartition → ℕ → Result SetattrRequest → (Response × Option Error) × MetaPartition
  apply_set_attr mp now (err e) = ((no_response, some e), mp)
  apply_set_attr mp now (ok req) = ((no_response, none), fsm_set_attr mp now req)

  unfoldable pub apply_update :
      MetaPartition → Option Error → Result ℕ → (Response × Option Error) × MetaPartition
  apply_update mp persist (err e) = ((no_response, some e), mp)
  apply_update mp persist (ok end) =
      let ((s, x), mp') = fsm_update_partition persist mp end in ((status s, x), mp')

  unfoldable pub apply_internal_delete :
      Option Error × MetaPartition → (Response × Option Error) × MetaPartition
  apply_internal_delete (x, mp) = ((no_response, x), mp)

  -- The switch of Apply.
  unfoldable pub dispatch :
      Surroundings → MetaPartition → Op → Bytes → ℕ → (Response × Option Error) × MetaPartition
  unfolding with_inode with_dentry of_status of_inode of_dentry create_at_cursor apply_set_attr
      apply_update apply_internal_delete
  dispatch s mp create_inode v index =
      with_inode s.now mp v λ ino. of_status (create_at_cursor mp ino)
  dispatch s mp unlink_inode v index =
      with_inode s.now mp v λ ino. of_inode (fsm_unlink_inode mp ino)
  dispatch s mp extent_truncate v index =
      with_inode s.now mp v λ ino. of_inode (fsm_extents_truncate mp ino)
  dispatch s mp create_link_inode v index =
      with_inode s.now mp v λ ino. of_inode (fsm_create_link_inode mp ino)
  dispatch s mp evict_inode v index = with_inode s.now mp v λ ino. of_inode (fsm_evict_inode mp ino)
  dispatch s mp set_attr v index = apply_set_attr mp s.now (s.setattr_of v)
  dispatch s mp create_dentry v index =
      with_dentry mp v λ den. of_status (fsm_create_dentry mp s.now den false)
  dispatch s mp delete_dentry v index =
      with_dentry mp v λ den. of_dentry (fsm_delete_dentry mp s.now den)
  dispatch s mp update_dentry v index = with_dentry mp v λ den. of_dentry (fsm_update_dentry mp den)
  dispatch s mp update_partition v index = apply_update mp s.persist_metadata (s.end_of_update v)
  dispatch s mp extents_add v index =
      with_inode s.now mp v λ ino. of_status (fsm_append_extents mp ino)
  dispatch s mp store_tick v index = (
    (no_response, none),
    record mp {
      store_chan =
          mp.store_chan
          ++ record {
            apply_index = index;
            inode_tree = mp.inode_tree;
            dentry_tree = mp.dentry_tree;
          }
            ∷ [];
    },
  )
  dispatch s mp internal_delete_inode v index = apply_internal_delete (internal_delete mp s.now v)
  dispatch s mp internal_del_extent_file v index = ((no_response, s.extent_file), mp)
  dispatch s mp internal_del_extent_cursor v index = ((no_response, s.extent_file), mp)
  dispatch s mp other_op v index = ((no_response, none), mp)

  -- The deferred uploadApplyID, which a command that fails does not reach.
  unfoldable pub upload_apply_id :
      ℕ → (Response × Option Error) × MetaPartition → (Response × Option Error) × MetaPartition
  upload_apply_id index ((resp, none), mp) = ((resp, none), record mp { apply_id = index })
  upload_apply_id index ((resp, some e), mp) = ((resp, some e), mp)

  -- Apply
  unfoldable pub apply :
      Surroundings → MetaPartition → Op → Bytes → ℕ → (Response × Option Error) × MetaPartition
  unfolding upload_apply_id
  apply s mp op v index = upload_apply_id index (dispatch s mp op v index)
