-- ===== src/MetaNode/Requests/Extents.antt =====
-- metanode/partition_op_extent.go: the handlers of requests on the extents of a file.
use cfs.Base.{ℕ, [], Option, none, some, Error, Result, ok, err, panic}
use cfs.GoogleBtree.{BtreePackage}
use cfs.Proto.{op_ok}
use cfs.Proto.ExtentKey.{ExtentKey, extent_item}
use cfs.MetaNode.BTree.{ascend}
use cfs.MetaNode.Extents
use cfs.MetaNode.Inode.{new_inode}
use cfs.MetaNode.Inode.Codec
use cfs.MetaNode.Partition.{MetaPartition}
use cfs.MetaNode.Partition.InodeOps.{InodeResponse, get_inode}
use cfs.MetaNode.Partition.Apply.{
  Response, status, extents_add as fsm_append, extent_truncate as fsm_truncate,
}
use cfs.MetaNode.Requests.{get_extents_response, Packet, packet_error_with_body, Services, Handled}
use cfs.MetaNode.Requests.Inodes.{put_failed, respond, status_answered}

-- The permission bits, os.ModePerm.
abbrev mode_perm : ℕ
mode_perm = 511

module _ ⦃L : BtreePackage⦄ (svc : Services) where
  append_answered : Packet → Result Response → Packet × Option Error
  append_answered p (err e) = put_failed svc p e
  append_answered p (ok (status s)) = (packet_error_with_body p s [], none)
  append_answered p (ok resp) = (p, some panic)

  -- ExtentAppend
  unfoldable pub extent_append : MetaPartition → ℕ → ExtentKey → Packet → Handled
  unfolding put_failed append_answered
  extent_append mp number ext p =
      let ino = new_inode number 0 svc.now in
      let (items, extents) = Extents.append ino.extents ext in
      let (r, mp') = svc.put mp fsm_append (Codec.marshal (record ino { extents = extents })) in
      (append_answered p r, mp')

  listed : Packet → InodeResponse → Packet × Option Error
  listed p (op_ok, some ino) =
      respond svc p (get_extents_response ino.generation ino.size (ascend ino.extents))
  listed p (op_ok, none) = (p, some panic)
  listed p (s, m) = (packet_error_with_body p s [], none)

  -- ExtentsList
  unfoldable pub extents_list : MetaPartition → ℕ → Packet → Handled
  unfolding respond listed
  extents_list mp number p =
      let (m, mp') = get_inode mp svc.now (new_inode number 0 svc.now) in (listed p m, mp')

  -- ExtentsTruncate
  unfoldable pub extents_truncate : MetaPartition → ℕ → ℕ → Packet → Handled
  unfolding status_answered
  extents_truncate mp number size p =
      let ino = record (new_inode number mode_perm svc.now) { size = size } in
      let (r, mp') = svc.put mp fsm_truncate (Codec.marshal ino) in (status_answered svc p r, mp')
