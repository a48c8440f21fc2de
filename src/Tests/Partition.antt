-- ===== src/Tests/Partition.antt =====
-- The theorems on a meta partition at a concrete one.
use cfs.Base.{◌≡◌, ◌≤◌, ◌==◌, ◌⊎◌, false, some, none, ok, [], refl, arith, if◌then◌else◌}
use cfs.Bytes.{Bytes}
use cfs.GoogleBtree.SortedList.{sorted_list}
use cfs.Proto.{op_not_exist_err}
use cfs.MetaNode.BTree.{get}
use cfs.MetaNode.Dentry.Order.{dentry_item}
use cfs.MetaNode.Inode.{Inode, new_inode}
use cfs.MetaNode.Inode.Order.{inode_item}
use cfs.MetaNode.Inode.Codec
use cfs.MetaNode.Partition.{MetaPartition, next_inode_id}
use cfs.MetaNode.Partition.InodeOps.{
  SetattrRequest, has_inode, get_inode, fsm_create_link_inode, fsm_unlink_inode, fsm_evict_inode,
  fsm_set_attr,
}
use cfs.MetaNode.Partition.Apply.{Surroundings, create_inode, unlink_inode, apply}
use cfs.MetaNode.Partition.Cursor.{
  IsCovered, apply-IsCovered, next_inode_id-fresh, apply-marked_frozen,
}
use cfs.MetaNode.Partition.Links.{unlink-create_link_file, unlink-create_link_empty_dir}
use cfs.MetaNode.Partition.Files.{evict-unlink_gone, set_attr-mode_lost}
use cfs.Tests.Samples.{partition, root, empty_dir, file, marked, file_mode}

pub at_numbers :
    (k : Inode)
    → get partition.inode_tree k ≡ (
        if k.inode == 1
        then some root
        else if k.inode == 2
        then some empty_dir
        else if k.inode == 5
        then some file
        else if k.inode == 9
        then some marked
        else none)
unfolding get
at_numbers k = ground arith

pub partition-IsCovered : IsCovered partition
partition-IsCovered k i h = ground (arith, at_numbers k)

-- The clock stands still, and neither JSON nor the disk is used.
abbrev pub surroundings : Surroundings
surroundings = record {
  now = 20;
  setattr_of = λ v. ok record { inode = 5; mode = 0; uid = 0; gid = 0; valid = 0 };
  end_of_update = λ v. ok 200;
  persist_metadata = none;
  extent_file = none;
}

-- The bytes that create an inode above the cursor.
abbrev created_bytes : Bytes
created_bytes = Codec.marshal (new_inode 11 file_mode 20)

apply-IsCovered_example : IsCovered (apply surroundings partition create_inode created_bytes 5).1
apply-IsCovered_example =
    apply-IsCovered surroundings partition create_inode created_bytes 5 partition-IsCovered

next_inode_id-fresh_example :
    (10 ≤ 100)
    × ((k : Inode) → k.inode ≡ 10 → get partition.inode_tree k ≡ none)
    × ((next_inode_id partition).1.cursor ≡ 10)
    × IsCovered (next_inode_id partition).1
unfolding next_inode_id
next_inode_id-fresh_example = next_inode_id-fresh partition 10 partition-IsCovered refl

apply-marked_frozen_example :
    (get (apply surroundings partition unlink_inode (Codec.marshal marked) 5).1.inode_tree marked
      ≡ some marked)
    ⊎ (get (apply surroundings partition unlink_inode (Codec.marshal marked) 5).1.inode_tree marked
        ≡ none)
apply-marked_frozen_example =
    apply-marked_frozen surroundings partition unlink_inode (Codec.marshal marked) 5 marked marked
      (at_numbers marked) refl

abbrev file_linked : MetaPartition
file_linked = (fsm_create_link_inode partition file).1

unlink-create_link_file_example :
    ((j : Inode)
      → get (fsm_unlink_inode file_linked file).1.inode_tree j ≡ (
          if 5 == j.inode
          then some (record file { modify_time = 10 })
          else get partition.inode_tree j))
    × ((fsm_unlink_inode file_linked file).1.free_list ≡ [])
unlink-create_link_file_example =
    unlink-create_link_file partition file file (at_numbers file) refl (omega arith) refl
      (omega arith)

unlink-create_link_empty_dir_example :
    get
      (fsm_unlink_inode (fsm_create_link_inode partition empty_dir).1 empty_dir).1.inode_tree
      empty_dir
    ≡ (if 2 == 2 then none else get partition.inode_tree empty_dir)
unlink-create_link_empty_dir_example =
    unlink-create_link_empty_dir partition empty_dir empty_dir (at_numbers empty_dir) refl
      (omega arith) refl refl empty_dir

abbrev file_evicted : MetaPartition
file_evicted = (fsm_evict_inode (fsm_unlink_inode partition file).1 file).1

evict-unlink_gone_example :
    (has_inode file_evicted file ≡ false)
    × (get_inode file_evicted 20 file ≡ ((op_not_exist_err, none), file_evicted))
    × (fsm_create_link_inode file_evicted file ≡ ((op_not_exist_err, none), file_evicted))
    × (fsm_unlink_inode file_evicted file ≡ ((op_not_exist_err, none), file_evicted))
evict-unlink_gone_example =
    evict-unlink_gone partition file file (at_numbers file) refl refl refl 20

abbrev mode_request : SetattrRequest
mode_request = record { inode = 5; mode = 384; uid = 0; gid = 0; valid = 1 }

set_attr-mode_lost_example :
    get (fsm_set_attr partition 20 mode_request).inode_tree file ≡ get partition.inode_tree file
set_attr-mode_lost_example = set_attr-mode_lost partition 20 mode_request refl refl file
