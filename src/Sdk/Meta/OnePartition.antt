-- ===== src/Sdk/Meta/OnePartition.antt =====
-- A volume of one partition, whose metanode applies every request at once and whose answers all
-- arrive: the handlers of metanode/partition_op_inode.go and partition_op_dentry.go without
-- packets, as the other end of sdk/meta/operation.go.
use cfs.Base.{ℕ, false, [], Option, none, some}
use cfs.GoogleBtree.{BtreePackage}
use cfs.Proto.{Status, op_ok}
use cfs.Proto.ExtentKey.{extent_item}
use cfs.MetaNode.Dentry.{Dentry}
use cfs.MetaNode.Inode.{Inode, new_inode}
use cfs.MetaNode.Partition.{MetaPartition}
use cfs.MetaNode.Partition.InodeOps.{
  InodeResponse, fsm_create_link_inode, fsm_unlink_inode, get_inode, fsm_evict_inode,
}
use cfs.MetaNode.Partition.DentryOps.{
  DentryResponse, blank_dentry, get_dentry, read_dir, fsm_create_dentry, fsm_delete_dentry,
  fsm_update_dentry,
}
use cfs.MetaNode.Requests.{
  InodeInfo, blank_info, Answer, unlink_ino_resp, inode_get_response, link_inode_resp,
  delete_dentry_resp, update_dentry_resp, read_dir_resp, lookup_resp, reply_info,
}
use cfs.MetaNode.Requests.Serves.{
  Request, unlink_inode_request, inode_get_request, link_inode_request, evict_inode_request,
  create_dentry_request, delete_dentry_request, update_dentry_request, read_dir_request,
  lookup_request,
}
use cfs.Sdk.Meta.Operation.{Packet, Remote}

module _ ⦃L : BtreePackage⦄ where
  -- The body of an answer with an inode.
  abbrev info_of : Option Inode → InodeInfo
  info_of none = blank_info
  info_of (some ino) = elim (reply_info ino) [ none ↦ blank_info | some info ↦ info ]

  abbrev with_info : (InodeInfo → Answer) → InodeResponse → Option Packet
  with_info answer (status, m) = some (status, some (answer (info_of m)))

  abbrev with_number : (ℕ → Answer) → DentryResponse → Option Packet
  with_number answer (status, d) = some (status, some (answer d.inode))

  abbrev with_entry : Option Dentry × Status → Option Packet
  with_entry (none, status) = some (status, none)
  with_entry (some d, status) = some (status, some (lookup_resp d.inode d.type))

  -- The answer to a request; those that the modelled sequences do not send are not answered.
  abbrev pub answer : ℕ → MetaPartition → Request → Option Packet × MetaPartition
  answer now w (unlink_inode_request number) =
      let (m, w') = fsm_unlink_inode w (new_inode number 0 now) in (with_info unlink_ino_resp m, w')
  answer now w (inode_get_request number) =
      let (m, w') = get_inode w now (new_inode number 0 now) in (with_info inode_get_response m, w')
  answer now w (link_inode_request number) =
      let (m, w') = fsm_create_link_inode w (new_inode number 0 now) in
      (with_info link_inode_resp m, w')
  answer now w (evict_inode_request number) =
      let ((status, m), w') = fsm_evict_inode w (new_inode number 0 now) in
      (some (status, none), w')
  answer now w (create_dentry_request dentry) =
      let (status, w') = fsm_create_dentry w now dentry false in (some (status, none), w')
  answer now w (delete_dentry_request parent_id name) =
      let (m, w') =
        fsm_delete_dentry w now (record blank_dentry { parent_id = parent_id; name = name }) in
      (with_number delete_dentry_resp m, w')
  answer now w (update_dentry_request parent_id name number) =
      let (m, w') =
        fsm_update_dentry w
          (record blank_dentry { parent_id = parent_id; name = name; inode = number }) in
      (with_number update_dentry_resp m, w')
  answer now w (read_dir_request parent_id) =
      (some (op_ok, some (read_dir_resp (read_dir w parent_id))), w)
  answer now w (lookup_request parent_id name) =
      (with_entry (get_dentry w (record blank_dentry { parent_id = parent_id; name = name })), w)
  answer now w other = (none, w)

  -- Each request goes to its operation at once: the packets and replyInfo of MetaNode/Requests are
  -- passed over.
  abbrev pub one_partition : ℕ → Remote
  one_partition now = record {
    World = MetaPartition;
    send = λ w mp request. answer now w request;
    setattr_json = λ req. [];
  }
