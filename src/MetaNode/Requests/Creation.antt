-- ===== src/MetaNode/Requests/Creation.antt =====
-- CreateInode, metanode/partition_op_inode.go, from the number to the answer.
use cfs.Base.{ℕ, ◌≡◌, none, some, ok}
use cfs.Bytes.{Bytes}
use cfs.GoogleBtree.{BtreePackage}
use cfs.Proto.{op_ok}
use cfs.MetaNode.BTree.{get}
use cfs.MetaNode.Inode.{Inode}
use cfs.MetaNode.Inode.Order.{inode_item}
use cfs.MetaNode.Inode.Codec
use cfs.MetaNode.Partition.{MetaPartition, next_inode_id}
use cfs.MetaNode.Partition.Apply.{create_inode as fsm_create}
use cfs.MetaNode.Requests.{
  InodeInfo, create_ino_resp, Packet, packet_error_with_body, reply_info, Services,
}
use cfs.MetaNode.Requests.Inodes.{CreateInoReq, requested, create_inode}
use cfs.MetaNode.Requests.Runs.{Runs}

module _ ⦃L : BtreePackage⦄ where
  -- What a request is answered once its inode exists.
  abbrev pub created_info : Services → CreateInoReq → ℕ → InodeInfo
  created_info svc req n = record {
    inode = n;
    mode = req.mode;
    nlink = (requested svc req n).nlink;
    size = 0;
    uid = req.uid;
    gid = req.gid;
    generation = 1;
    modify_time = svc.now;
    create_time = svc.now;
    access_time = svc.now;
    target = req.target;
  }

  -- An inode of the number `n` that was not there before, as the request asked for it.
  pub record Created (svc : Services) (mp mp' : MetaPartition) (req : CreateInoReq) (n : ℕ)
      : Type 0 where
    pub next : (next_inode_id mp).0 ≡ ok n
    pub before : MetaPartition
    pub earlier : Runs before (next_inode_id mp).1
    pub absent : (k : Inode) → k.inode ≡ n → get before.inode_tree k ≡ none
    pub present :
        (k : Inode)
        → k.inode ≡ n
        → (i : Inode) × (get mp'.inode_tree k ≡ some i)
          × (reply_info i ≡ some (created_info svc req n))

  -- The packet that carries the answer.
  abbrev pub Answered : Services → CreateInoReq → Packet → ℕ → Packet → Type 0
  Answered svc req p n p' =
      (reply : Bytes) × (svc.json (create_ino_resp (created_info svc req n)) ≡ ok reply)
      × (p' ≡ packet_error_with_body p op_ok reply)
