-- ===== src/MetaNode/Requests/Inodes.antt =====
-- metanode/partition_op_inode.go: the handlers of requests on inodes. Marshal, which writes to a
-- bytes.Buffer, never fails.
use cfs.Base.{ℕ, List, [], ◌∷◌, ◌++◌, Option, none, some, Error, Result, ok, err, panic}
use cfs.Bytes.{Bytes}
use cfs.GoogleBtree.{BtreePackage}
use cfs.Proto.{op_ok, op_not_exist_err, op_err, op_again, op_inode_full_err}
use cfs.MetaNode.Inode.{Inode, new_inode}
use cfs.MetaNode.Inode.Codec
use cfs.MetaNode.Partition.{MetaPartition, next_inode_id}
use cfs.MetaNode.Partition.InodeOps.{InodeResponse, get_inode}
use cfs.MetaNode.Partition.Apply.{
  Response, status, inode_response, create_inode as fsm_create, unlink_inode as fsm_unlink,
  create_link_inode as fsm_link, evict_inode as fsm_evict, set_attr as fsm_set,
}
use cfs.MetaNode.Requests.{
  InodeInfo, blank_info, Answer, create_ino_resp, unlink_ino_resp, inode_get_response,
  batch_inode_get_response, link_inode_resp, Packet, packet_ok_reply, packet_error_with_body,
  reply_info, Services, Handled,
}

-- CreateInodeRequest
pub record CreateInoReq : Type 0 where
  pub mode : ℕ
  pub uid : ℕ
  pub gid : ℕ
  pub target : Bytes

module _ ⦃L : BtreePackage⦄ (svc : Services) where
  -- A failed Put.
  unfoldable pub put_failed : Packet → Error → Packet × Option Error
  put_failed p e = (packet_error_with_body p op_again (svc.text e), some e)

  -- An answer sent as JSON, whose failure leaves the body empty.
  unfoldable pub respond : Packet → Answer → Packet × Option Error
  respond p answer = elim (svc.json answer) [
    | ok reply ↦ (packet_error_with_body p op_ok reply, none)
    | err e ↦ (packet_error_with_body p op_err [], some e)
  ]

  -- An answer that replyInfo may refuse.
  unfoldable pub respond_info :
      Packet → (InodeInfo → Answer) → Option InodeInfo → Packet × Option Error
  unfolding respond
  respond_info p answer none = (packet_error_with_body p op_not_exist_err [], none)
  respond_info p answer (some info) = respond p (answer info)

  -- The inode that CreateInode submits.
  abbrev pub requested : CreateInoReq → ℕ → Inode
  requested req ino_id = record (new_inode ino_id req.mode svc.now) {
    uid = req.uid;
    gid = req.gid;
    link_target = req.target;
  }

  -- The end of CreateInode: the inode that it submitted is answered, whose JSON may fail.
  unfoldable pub create_ok : Packet → Option InodeInfo → Packet × Option Error
  create_ok p none = (packet_error_with_body p op_not_exist_err [], none)
  create_ok p (some info) = elim (svc.json (create_ino_resp info)) [
    | ok reply ↦ (packet_error_with_body p op_ok reply, none)
    | err e ↦ (packet_error_with_body p op_err (svc.text e), some e)
  ]

  unfoldable pub create_answered : Packet → Inode → Result Response → Packet × Option Error
  unfolding create_ok put_failed
  create_answered p ino (err e) = put_failed p e
  create_answered p ino (ok (status op_ok)) = create_ok p (reply_info ino)
  create_answered p ino (ok (status s)) = (packet_error_with_body p op_not_exist_err [], none)
  create_answered p ino (ok resp) = (p, some panic)

  unfoldable pub create_numbered : CreateInoReq → Packet → Result ℕ → MetaPartition → Handled
  unfolding create_answered
  create_numbered req p (err e) mp =
      ((packet_error_with_body p op_inode_full_err (svc.text e), some e), mp)
  create_numbered req p (ok ino_id) mp =
      let (r, mp') = svc.put mp fsm_create (Codec.marshal (requested req ino_id)) in
      (create_answered p (requested req ino_id) r, mp')

  -- CreateInode
  unfoldable pub create_inode : MetaPartition → CreateInoReq → Packet → Handled
  unfolding create_numbered
  create_inode mp req p = let (r, mp') = next_inode_id mp in create_numbered req p r mp'

  -- UnlinkInode answers even if replyInfo refuses.
  unlink_answered : Packet → Result Response → Packet × Option Error
  unlink_answered p (err e) = put_failed p e
  unlink_answered p (ok (inode_response (op_ok, some ino))) =
      respond p (unlink_ino_resp (elim (reply_info ino) [ none ↦ blank_info | some info ↦ info ]))
  unlink_answered p (ok (inode_response (op_ok, none))) = (p, some panic)
  unlink_answered p (ok (inode_response (s, m))) = (packet_error_with_body p s [], none)
  unlink_answered p (ok resp) = (p, some panic)

  unfoldable pub unlink_inode : MetaPartition → ℕ → Packet → Handled
  unfolding put_failed respond unlink_answered
  unlink_inode mp number p =
      let (r, mp') = svc.put mp fsm_unlink (Codec.marshal (new_inode number 0 svc.now)) in
      (unlink_answered p r, mp')

  -- The end of InodeGet and of CreateInodeLink.
  inode_answered : Packet → (InodeInfo → Answer) → InodeResponse → Packet × Option Error
  inode_answered p answer (op_ok, some ino) = respond_info p answer (reply_info ino)
  inode_answered p answer (op_ok, none) = (p, some panic)
  inode_answered p answer (s, m) = (packet_error_with_body p op_not_exist_err [], none)

  -- InodeGet
  unfoldable pub inode_get : MetaPartition → ℕ → Packet → Handled
  unfolding respond_info inode_answered
  inode_get mp number p =
      let (m, mp') = get_inode mp svc.now (new_inode number 0 svc.now) in
      (inode_answered p inode_get_response m, mp')

  -- The loop of InodeGetBatch.
  batch_info : InodeResponse → List InodeInfo
  batch_info (op_ok, some ino) = elim (reply_info ino) [ none ↦ [] | some info ↦ info ∷ [] ]
  batch_info (s, m) = []

  unfoldable pub get_each : MetaPartition → List ℕ → List InodeInfo × MetaPartition
  unfolding batch_info
  get_each mp [] = ([], mp)
  get_each mp (number ∷ numbers) =
      let (m, mp') = get_inode mp svc.now (new_inode number 0 svc.now) in
      let (infos, mp'') = get_each mp' numbers in (batch_info m ++ infos, mp'')

  -- InodeGetBatch
  unfoldable pub inode_get_batch : MetaPartition → List ℕ → Packet → Handled
  unfolding get_each respond
  inode_get_batch mp numbers p =
      let (infos, mp') = get_each mp numbers in (respond p (batch_inode_get_response infos), mp')

  link_answered : Packet → Result Response → Packet × Option Error
  link_answered p (err e) = put_failed p e
  link_answered p (ok (inode_response m)) = inode_answered p link_inode_resp m
  link_answered p (ok resp) = (p, some panic)

  -- CreateInodeLink
  unfoldable pub create_inode_link : MetaPartition → ℕ → Packet → Handled
  unfolding put_failed respond_info inode_answered link_answered
  create_inode_link mp number p =
      let (r, mp') = svc.put mp fsm_link (Codec.marshal (new_inode number 0 svc.now)) in
      (link_answered p r, mp')

  -- The status of the response, without a body.
  unfoldable pub status_answered : Packet → Result Response → Packet × Option Error
  unfolding put_failed
  status_answered p (err e) = put_failed p e
  status_answered p (ok (inode_response (s, m))) = (packet_error_with_body p s [], none)
  status_answered p (ok resp) = (p, some panic)

  -- EvictInode
  unfoldable pub evict_inode : MetaPartition → ℕ → Packet → Handled
  unfolding status_answered
  evict_inode mp number p =
      let (r, mp') = svc.put mp fsm_evict (Codec.marshal (new_inode number 0 svc.now)) in
      (status_answered p r, mp')

  set_answered : Packet → Result Response → Packet × Option Error
  set_answered p (err e) = put_failed p e
  set_answered p (ok resp) = (packet_ok_reply p, none)

  -- SetAttr
  unfoldable pub set_attr : MetaPartition → Bytes → Packet → Handled
  unfolding put_failed set_answered
  set_attr mp req_data p = let (r, mp') = svc.put mp fsm_set req_data in (set_answered p r, mp')
