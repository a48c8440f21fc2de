-- ===== src/Tests/Requests.antt =====
-- Requests of clients at a partition whose raft applies every command at once.
use cfs.Base.{
  ◌<◌, ◌≡◌, [], ◌∷◌, Option, none, some, Error, Result, ok, err, arith, refl, subst, sym,
}
use cfs.GoogleBtree.SortedList.{sorted_list}
use cfs.Proto.{op_init_result_code}
use cfs.Proto.ExtentKey
use cfs.Proto.ExtentKey.{extent_item}
use cfs.MetaNode.Extents
use cfs.MetaNode.Inode.Order.{inode_item}
use cfs.MetaNode.Inode.Codec
use cfs.MetaNode.Partition.{MetaPartition, next_inode_id}
use cfs.MetaNode.Partition.Apply.{Response, apply}
use cfs.MetaNode.Partition.Cursor.{IsCovered}
use cfs.MetaNode.Requests.{Packet, Services}
use cfs.MetaNode.Requests.Inodes.{CreateInoReq}
use cfs.MetaNode.Requests.Runs.{Runs, halts, applies, IsRaft, next_inode_id-increasing}
use cfs.MetaNode.Requests.Serves.{handle, handle-IsCovered, create_inode_request}
use cfs.Tests.Samples.{partition, file_mode}
use cfs.Tests.Partition.{surroundings, partition-IsCovered}

-- What raft answers to what Apply returned.
abbrev answer_of : (Response × Option Error) × MetaPartition → Result Response × MetaPartition
answer_of ((resp, none), mp) = (ok resp, mp)
answer_of ((resp, some e), mp) = (err e, mp)

abbrev services : Services
services = record {
  now = 20;
  json = λ answer. ok (123 ∷ 125 ∷ []);
  text = λ e. 101 ∷ [];
  put = λ mp op v. answer_of (apply surroundings mp op v 5);
}

answer_of-ok :
    (r : (Response × Option Error) × MetaPartition) (resp : Response) (mp' : MetaPartition)
    → answer_of r ≡ (ok resp, mp')
    → r ≡ ((resp, none), mp')
answer_of-ok ((resp', none), mp) resp mp' h = ground arith
answer_of-ok ((resp', some e), mp) resp mp' h = absurd (ground arith)

answer_of-err :
    (r : (Response × Option Error) × MetaPartition) (x : Error) (mp' : MetaPartition)
    → answer_of r ≡ (err x, mp')
    → r.1 ≡ mp'
answer_of-err ((resp', none), mp) x mp' h = absurd (ground arith)
answer_of-err ((resp', some e), mp) x mp' h = ground arith

services-IsRaft : IsRaft services
services-IsRaft = record {
  answers = λ mp mp' op v resp h. record {
    before = mp;
    earlier = halts;
    surroundings = surroundings;
    index = 5;
    applied = answer_of-ok (apply surroundings mp op v 5) resp mp' h;
  };
  fails = λ mp mp' op v x h.
      applies mp surroundings op v 5 (
        subst (λ m. Runs mp' m) (sym (answer_of-err (apply surroundings mp op v 5) x mp' h)) halts);
}

abbrev request : CreateInoReq
request = record { mode = file_mode; uid = 7; gid = 8; target = [] }

abbrev packet : Packet
packet = record { result_code = op_init_result_code; size = 0; arg_len = 0; content = [] }

handle-IsCovered_example :
    IsCovered (handle services partition packet (create_inode_request request)).1
handle-IsCovered_example =
    handle-IsCovered services services-IsRaft partition packet (create_inode_request request)
      partition-IsCovered

next_inode_id-increasing_example : 10 < 11
unfolding next_inode_id
next_inode_id-increasing_example =
    next_inode_id-increasing partition (next_inode_id partition).1 10 11 refl halts refl
