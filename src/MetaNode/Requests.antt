-- ===== src/MetaNode/Requests.antt =====
-- The requests of clients, metanode/partition_op_inode.go, partition_op_dentry.go and
-- partition_op_extent.go: packets, the answers they carry, and what a handler asks of its
-- surroundings.
pub mod Inodes
pub mod Dentries
pub mod Extents
pub mod Runs
pub mod Serves
pub mod Insertion
pub mod Creation
use cfs.Base.{ℕ, ◌%◌, ◌==◌, List, [], Option, none, some, Error, Result, length, if◌then◌else◌}
use cfs.Bytes.{Bytes, take}
use cfs.GoogleBtree.{BtreePackage}
use cfs.Proto.{Status, op_ok, u32}
use cfs.Proto.ExtentKey.{ExtentKey}
use cfs.MetaNode.Inode.{Inode, should_delete}
use cfs.MetaNode.Partition.{MetaPartition}
use cfs.MetaNode.Partition.DentryOps.{DirEntry}
use cfs.MetaNode.Partition.Apply.{Response, Op}

-- InodeInfo; a time is the number of seconds that time.Unix is given.
pub record InodeInfo : Type 0 where
  pub inode : ℕ
  pub mode : ℕ
  pub nlink : ℕ
  pub size : ℕ
  pub uid : ℕ
  pub gid : ℕ
  pub generation : ℕ
  pub modify_time : ℕ
  pub create_time : ℕ
  pub access_time : ℕ
  pub target : Bytes

-- `&InodeInfo{}`
abbrev pub blank_info : InodeInfo
blank_info = record {
  inode = 0;
  mode = 0;
  nlink = 0;
  size = 0;
  uid = 0;
  gid = 0;
  generation = 0;
  modify_time = 0;
  create_time = 0;
  access_time = 0;
  target = [];
}

-- The answers that are sent as JSON.
pub data Answer : Type 0 where
  create_ino_resp : InodeInfo → Answer
  unlink_ino_resp : InodeInfo → Answer
  inode_get_response : InodeInfo → Answer
  batch_inode_get_response : List InodeInfo → Answer
  link_inode_resp : InodeInfo → Answer
  delete_dentry_resp : ℕ → Answer
  update_dentry_resp : ℕ → Answer
  read_dir_resp : List DirEntry → Answer
  lookup_resp : ℕ → ℕ → Answer
  get_extents_response : ℕ → ℕ → List ExtentKey → Answer

-- The fields of a packet that an answer writes.
pub record Packet : Type 0 where
  pub result_code : Status
  pub size : ℕ
  pub arg_len : ℕ
  pub content : Bytes

-- PacketOkReply
unfoldable pub packet_ok_reply : Packet → Packet
packet_ok_reply p = record p { result_code = op_ok; size = 0; arg_len = 0; content = [] }

-- PacketErrorWithBody
unfoldable pub packet_error_with_body : Packet → Status → Bytes → Packet
packet_error_with_body p code reply = record p {
  result_code = code;
  size = u32 (length reply);
  arg_len = 0;
  content = take (u32 (length reply)) reply;
}

-- PacketOkWithBody
unfoldable pub packet_ok_with_body : Packet → Bytes → Packet
packet_ok_with_body p reply = packet_error_with_body p op_ok reply

module _ ⦃L : BtreePackage⦄ where
  -- The fields that replyInfo copies.
  abbrev pub inode_info : Inode → InodeInfo
  inode_info ino = record {
    inode = ino.inode;
    mode = ino.type;
    nlink = ino.nlink;
    size = ino.size;
    uid = ino.uid;
    gid = ino.gid;
    generation = ino.generation;
    modify_time = ino.modify_time;
    create_time = ino.create_time;
    access_time = ino.access_time;
    target = ino.link_target;
  }

  -- replyInfo: `none` is the answer false.
  unfoldable pub reply_info : Inode → Option InodeInfo
  reply_info ino = if should_delete ino then none else some (inode_info ino)

  -- The clock, encoding/json, the texts of errors, and Put: the JSON of a command and raft, which
  -- answers what Apply returned for it, or an error. Other commands may be applied meanwhile.
  pub record Services : Type 0 where
    pub now : ℕ
    pub json : Answer → Result Bytes
    pub text : Error → Bytes
    pub put : MetaPartition → Op → Bytes → Result Response × MetaPartition

  -- What a handler leaves: the packet with the error that is returned beside it, and the partition.
  -- A type assertion or a nil pointer that panics is the error `panic`.
  abbrev pub Handled : Type 0
  Handled = (Packet × Option Error) × MetaPartition
