-- ===== src/MetaNode/Requests/Serves.antt =====
-- One request of a client at the leader, and what it does to the partition:
-- metanode/partition_op_inode.go, partition_op_dentry.go and partition_op_extent.go.
use cfs.Base.{ℕ, ◌==◌, List, [], ◌∷◌, Result, ok, err, Bool-cases, inl, inr}
use cfs.Bytes.{Bytes}
use cfs.GoogleBtree.{BtreePackage}
use cfs.Proto.ExtentKey.{ExtentKey}
use cfs.MetaNode.Dentry.{Dentry}
use cfs.MetaNode.Inode.{new_inode}
use cfs.MetaNode.Partition.{MetaPartition, next_inode_id}
use cfs.MetaNode.Partition.InodeOps.{get_inode}
use cfs.MetaNode.Partition.Cursor.{IsCovered}
use cfs.MetaNode.Requests.{Packet, Services, Handled}
use cfs.MetaNode.Requests.Inodes.{
  CreateInoReq, create_inode, create_numbered, unlink_inode, inode_get, inode_get_batch, get_each,
  create_inode_link, evict_inode, set_attr,
}
use cfs.MetaNode.Requests.Dentries.{create_dentry, delete_dentry, update_dentry, read_dir, lookup}
use cfs.MetaNode.Requests.Extents.{extent_append, extents_list, extents_truncate}
use cfs.MetaNode.Requests.Runs.{Runs, halts, reads, numbers, Runs-IsCovered, IsRaft, put-Runs}

-- The requests, each with the fields that its handler reads.
pub data Request : Type 0 where
  create_inode_request : CreateInoReq → Request
  unlink_inode_request : ℕ → Request
  inode_get_request : ℕ → Request
  inode_get_batch_request : List ℕ → Request
  link_inode_request : ℕ → Request
  evict_inode_request : ℕ → Request
  set_attr_request : Bytes → Request
  create_dentry_request : Dentry → Request
  delete_dentry_request : ℕ → Bytes → Request
  update_dentry_request : ℕ → Bytes → ℕ → Request
  read_dir_request : ℕ → Request
  lookup_request : ℕ → Bytes → Request
  extent_append_request : ℕ → ExtentKey → Request
  extents_list_request : ℕ → Request
  extents_truncate_request : ℕ → ℕ → Request

module _ ⦃L : BtreePackage⦄ (svc : Services) where
  -- The handler of a request.
  unfoldable pub handle : MetaPartition → Packet → Request → Handled
  handle mp p (create_inode_request req) = create_inode svc mp req p
  handle mp p (unlink_inode_request number) = unlink_inode svc mp number p
  handle mp p (inode_get_request number) = inode_get svc mp number p
  handle mp p (inode_get_batch_request inodes) = inode_get_batch svc mp inodes p
  handle mp p (link_inode_request number) = create_inode_link svc mp number p
  handle mp p (evict_inode_request number) = evict_inode svc mp number p
  handle mp p (set_attr_request content) = set_attr svc mp content p
  handle mp p (create_dentry_request dentry) = create_dentry svc mp dentry p
  handle mp p (delete_dentry_request parent_id name) = delete_dentry svc mp parent_id name p
  handle mp p (update_dentry_request parent_id name number) =
      update_dentry svc mp parent_id name number p
  handle mp p (read_dir_request parent_id) = read_dir svc mp parent_id p
  handle mp p (lookup_request parent_id name) = lookup svc mp parent_id name p
  handle mp p (extent_append_request number ext) = extent_append svc mp number ext p
  handle mp p (extents_list_request number) = extents_list svc mp number p
  handle mp p (extents_truncate_request number size) = extents_truncate svc mp number size p

  get_each-Runs : (inodes : List ℕ) (mp : MetaPartition) → Runs (get_each svc mp inodes).1 mp
  unfolding get_each
  get_each-Runs [] mp = halts
  get_each-Runs (number ∷ inodes) mp =
      reads mp svc.now (new_inode number 0 svc.now)
        (get_each-Runs inodes (get_inode mp svc.now (new_inode number 0 svc.now)).1)

  module _ (raft : IsRaft svc) where
    create_numbered-Runs :
        (req : CreateInoReq) (p : Packet) (r : Result ℕ) (mp : MetaPartition)
        → Runs (create_numbered svc req p r mp).1 mp
    unfolding create_numbered
    create_numbered-Runs req p (err e) mp = halts
    create_numbered-Runs req p (ok number) mp = put-Runs svc raft mp _ _

    handle-Runs :
        (mp : MetaPartition) (p : Packet) (request : Request) → Runs (handle mp p request).1 mp
    unfolding handle create_inode unlink_inode inode_get inode_get_batch create_inode_link
        evict_inode set_attr create_dentry delete_dentry update_dentry read_dir lookup extent_append
        extents_list extents_truncate
    handle-Runs mp p (create_inode_request req) =
        numbers mp (create_numbered-Runs req p (next_inode_id mp).0 (next_inode_id mp).1)
    handle-Runs mp p (unlink_inode_request number) = put-Runs svc raft mp _ _
    handle-Runs mp p (inode_get_request number) = reads mp svc.now _ halts
    handle-Runs mp p (inode_get_batch_request inodes) = get_each-Runs inodes mp
    handle-Runs mp p (link_inode_request number) = put-Runs svc raft mp _ _
    handle-Runs mp p (evict_inode_request number) = put-Runs svc raft mp _ _
    handle-Runs mp p (set_attr_request content) = put-Runs svc raft mp _ _
    handle-Runs mp p (create_dentry_request dentry) =
        elim (Bool-cases (dentry.parent_id == dentry.inode)) [
          | inl e ↦ rw e halts
          | inr e ↦ rw e (put-Runs svc raft mp _ _)
        ]
    handle-Runs mp p (delete_dentry_request parent_id name) = put-Runs svc raft mp _ _
    handle-Runs mp p (update_dentry_request parent_id name number) =
        elim (Bool-cases (parent_id == number)) [
          | inl e ↦ rw e halts
          | inr e ↦ rw e (put-Runs svc raft mp _ _)
        ]
    handle-Runs mp p (read_dir_request parent_id) = halts
    handle-Runs mp p (lookup_request parent_id name) = halts
    handle-Runs mp p (extent_append_request number ext) = put-Runs svc raft mp _ _
    handle-Runs mp p (extents_list_request number) = reads mp svc.now _ halts
    handle-Runs mp p (extents_truncate_request number size) = put-Runs svc raft mp _ _

    -- Where raft applies what it answers for, and all numbers of the inode tree are at or below
    -- the cursor, they are so after any request of a client, whatever it answers.
    pub handle-IsCovered :
        (mp : MetaPartition) (p : Packet) (request : Request)
        → IsCovered mp
        → IsCovered (handle mp p request).1
    handle-IsCovered mp p request c = Runs-IsCovered (handle-Runs mp p request) c
