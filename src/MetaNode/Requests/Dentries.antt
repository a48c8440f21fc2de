-- ===== src/MetaNode/Requests/Dentries.antt =====
-- metanode/partition_op_dentry.go: the handlers of requests on directory entries.
use cfs.Base.{
  ℕ, ◌==◌, [], Option, none, some, Error, Result, ok, err, panic, parent_is_inode, if◌then◌else◌,
}
use cfs.Bytes.{Bytes}
use cfs.GoogleBtree.{BtreePackage}
use cfs.Proto.{Status, op_ok, op_exist_err}
use cfs.MetaNode.Dentry
use cfs.MetaNode.Dentry.{Dentry}
use cfs.MetaNode.Partition.{MetaPartition}
use cfs.MetaNode.Partition.DentryOps.{blank_dentry, get_dentry, read_dir as list_dir}
use cfs.MetaNode.Partition.Apply.{
  Response, status, dentry_response, create_dentry as fsm_create, delete_dentry as fsm_delete,
  update_dentry as fsm_update,
}
use cfs.MetaNode.Requests.{
  Answer, delete_dentry_resp, update_dentry_resp, read_dir_resp, lookup_resp, Packet,
  packet_error_with_body, packet_ok_with_body, Services, Handled,
}
use cfs.MetaNode.Requests.Inodes.{put_failed, respond}

module _ ⦃L : BtreePackage⦄ (svc : Services) where
  -- A request that names an inode as its own parent.
  abbrev own_parent : Packet → Packet × Option Error
  own_parent p =
      (packet_error_with_body p op_exist_err (svc.text parent_is_inode), some parent_is_inode)

  create_answered : Packet → Result Response → Packet × Option Error
  create_answered p (err e) = put_failed svc p e
  create_answered p (ok (status s)) = (record p { result_code = s }, none)
  create_answered p (ok resp) = (p, some panic)

  -- CreateDentry, on the fields of the request that it copies to the dentry.
  unfoldable pub create_dentry : MetaPartition → Dentry → Packet → Handled
  unfolding put_failed create_answered
  create_dentry mp req p =
      let (r, mp') = svc.put mp fsm_create (Dentry.marshal req) in
      if req.parent_id == req.inode then (own_parent p, mp) else (create_answered p r, mp')

  -- PacketOkWithBody even if the JSON failed.
  respond_ok : Packet → Answer → Packet × Option Error
  respond_ok p answer = elim (svc.json answer) [
    | ok reply ↦ (packet_ok_with_body p reply, none)
    | err e ↦ (packet_ok_with_body p [], some e)
  ]

  -- The end of DeleteDentry and of UpdateDentry.
  dentry_answered : Packet → (ℕ → Answer) → Result Response → Packet × Option Error
  dentry_answered p answer (err e) = put_failed svc p e
  dentry_answered p answer (ok (dentry_response (op_ok, d))) = respond_ok p (answer d.inode)
  dentry_answered p answer (ok (dentry_response (s, d))) = (record p { result_code = s }, none)
  dentry_answered p answer (ok resp) = (p, some panic)

  -- DeleteDentry
  unfoldable pub delete_dentry : MetaPartition → ℕ → Bytes → Packet → Handled
  unfolding put_failed respond_ok dentry_answered
  delete_dentry mp parent_id name p =
      let (r, mp') =
        svc.put mp fsm_delete
          (Dentry.marshal (record blank_dentry { parent_id = parent_id; name = name })) in
      (dentry_answered p delete_dentry_resp r, mp')

  -- UpdateDentry
  unfoldable pub update_dentry : MetaPartition → ℕ → Bytes → ℕ → Packet → Handled
  unfolding put_failed respond_ok dentry_answered
  update_dentry mp parent_id name number p =
      let (r, mp') = svc.put mp fsm_update (
        Dentry.marshal
          (record blank_dentry { parent_id = parent_id; name = name; inode = number })) in
      if parent_id == number
      then (own_parent p, mp)
      else (dentry_answered p update_dentry_resp r, mp')

  -- ReadDir
  unfoldable pub read_dir : MetaPartition → ℕ → Packet → Handled
  unfolding respond
  read_dir mp parent_id p = (respond svc p (read_dir_resp (list_dir mp parent_id)), mp)

  looked_up : Packet → Option Dentry × Status → Packet × Option Error
  looked_up p (some d, op_ok) = respond svc p (lookup_resp d.inode d.type)
  looked_up p (none, op_ok) = (p, some panic)
  looked_up p (d, s) = (packet_error_with_body p s [], none)

  -- Lookup
  unfoldable pub lookup : MetaPartition → ℕ → Bytes → Packet → Handled
  unfolding respond looked_up
  lookup mp parent_id name p =
      (looked_up p (get_dentry mp (record blank_dentry { parent_id = parent_id; name = name })), mp)
