-- ===== src/Tests/Meta.antt =====
-- The meta client on a volume of two ranges of inodes, and links on one partition.
use cfs.Base.{◌+◌, ◌%◌, ◌^◌, ℕ, ◌≡◌, ◌==◌, [], ◌∷◌, none, some, find, if◌then◌else◌, arith, refl}
use cfs.GoogleBtree.{equiv}
use cfs.GoogleBtree.Floor.{floor}
use cfs.GoogleBtree.SortedList.{sorted_list}
use cfs.MetaNode.BTree.{ascend, get}
use cfs.MetaNode.Dentry
use cfs.MetaNode.Dentry.{Dentry}
use cfs.MetaNode.Dentry.Order.{dentry_item}
use cfs.MetaNode.Inode.{Inode, new_inode}
use cfs.MetaNode.Inode.Order.{inode_item}
use cfs.MetaNode.Requests.{inode_info}
use cfs.Sdk.Meta.{eexist}
use cfs.Sdk.Meta.Partition
use cfs.Sdk.Meta.Partition.{partition_item, MetaWrapper, get_partition_by_inode}
use cfs.Sdk.Meta.Routing.{holds, Disjoint, get_partition_by_inode-find}
use cfs.Sdk.Meta.Api.{done, fails, link}
use cfs.Sdk.Meta.OnePartition.{one_partition}
use cfs.Sdk.Meta.Rename.{Rename, rename_ll}
use cfs.Sdk.Meta.Moves.{source, target, CanMove, rename_ll-new}
use cfs.Sdk.Meta.Links.{link_dentry, link-exists_counted, link-new_entry}
use cfs.Tests.Samples.{partition, root, empty_dir, file, entry, file_mode}

abbrev range_of : ℕ → ℕ → ℕ → Partition.MetaPartition
range_of id start end = record {
  partition_id = id;
  start = start;
  end = end;
  members = [];
  leader_addr = [];
  status = 2;
}

abbrev wrapper : MetaWrapper
wrapper = record {
  partitions = range_of 1 0 100 ∷ range_of 2 101 200 ∷ [];
  ranges = (range_of 1 0 100 ∷ range_of 2 101 200 ∷ [], ((refl, tt), (tt, tt)));
  rw_partitions = [];
  epoch = 0;
}

wrapper-Disjoint : Disjoint (ascend wrapper.ranges)
unfolding ascend
wrapper-Disjoint = ((omega arith, tt), (tt, tt))

get_partition_by_inode-find_example :
    get_partition_by_inode wrapper 150 ≡ find (holds 150) (ascend wrapper.ranges)
get_partition_by_inode-find_example = get_partition_by_inode-find wrapper 150 wrapper-Disjoint

-- The directory and the file of the sample, and the range that holds both.
root_known : get partition.inode_tree (new_inode 1 0 20) ≡ some root
unfolding get new_inode
root_known = refl

file_known : get partition.inode_tree (new_inode 5 0 20) ≡ some file
unfolding get new_inode
file_known = refl

known_range :
    (get_partition_by_inode wrapper 1 ≡ some (range_of 1 0 100))
    × (get_partition_by_inode wrapper 5 ≡ some (range_of 1 0 100))
unfolding get_partition_by_inode Partition.holding floor
known_range = (refl, refl)

taken : get partition.dentry_tree (link_dentry 1 (97 ∷ []) 5 file) ≡ some entry
unfolding get Dentry.less
taken = refl

free : get partition.dentry_tree (link_dentry 1 (99 ∷ []) 5 file) ≡ none
unfolding get Dentry.less
free = refl

link-exists_counted_example :
    ((link (one_partition 20) wrapper partition 1 (97 ∷ []) 5).0 ≡ fails eexist)
    × ((j : Inode)
        → get (link (one_partition 20) wrapper partition 1 (97 ∷ []) 5).1.inode_tree j ≡ (
            if 5 == j.inode
            then some (record file { nlink = (file.nlink + 1) % 2 ^ 32 })
            else get partition.inode_tree j))
    × ((link (one_partition 20) wrapper partition 1 (97 ∷ []) 5).1.dentry_tree
        ≡ partition.dentry_tree)
link-exists_counted_example =
    link-exists_counted 20 partition 5 file file_known refl wrapper (range_of 1 0 100)
      (range_of 1 0 100) 1 (97 ∷ []) root known_range.0 known_range.1 (λ e. absurd (omega arith))
      root_known refl refl entry taken refl

link-new_entry_example :
    ((link (one_partition 20) wrapper partition 1 (99 ∷ []) 5).0
      ≡ done (some (inode_info (record file { nlink = file.nlink + 1 }))))
    × ((e : Dentry)
        → get (link (one_partition 20) wrapper partition 1 (99 ∷ []) 5).1.dentry_tree e ≡ (
            if equiv dentry_item (link_dentry 1 (99 ∷ []) 5 file) e
            then some (link_dentry 1 (99 ∷ []) 5 file)
            else get partition.dentry_tree e))
    × ((j : Inode)
        → get (link (one_partition 20) wrapper partition 1 (99 ∷ []) 5).1.inode_tree j ≡ (
            if 1 == j.inode
            then some (record root { nlink = root.nlink + 1 })
            else if 5 == j.inode
            then some (record file { nlink = file.nlink + 1 })
            else get partition.inode_tree j))
link-new_entry_example =
    link-new_entry 20 partition 5 file file_known refl wrapper (range_of 1 0 100) (range_of 1 0 100)
      1 (99 ∷ []) root known_range.0 known_range.1 (λ e. absurd (omega arith)) root_known refl refl
      free (omega arith) (omega arith)

directory_known : get partition.inode_tree (new_inode 2 0 20) ≡ some empty_dir
unfolding get new_inode
directory_known = refl

known_directory : get_partition_by_inode wrapper 2 ≡ some (range_of 1 0 100)
unfolding get_partition_by_inode Partition.holding floor
known_directory = refl

-- The file of the root moves to the empty directory.
abbrev move : Rename (one_partition 20) wrapper
move = record {
  src_parent_mp = range_of 1 0 100;
  dst_parent_mp = range_of 1 0 100;
  src_mp = range_of 1 0 100;
  src_parent_id = 1;
  src_name = 97 ∷ [];
  dst_parent_id = 2;
  dst_name = 99 ∷ [];
  inode = 5;
  mode = file_mode;
}

move-CanMove : CanMove 20 wrapper partition move file empty_dir
unfolding get Dentry.less
move-CanMove = record {
  src_parent_known = known_range.0;
  dst_parent_known = known_directory;
  known = known_range.1;
  d = entry;
  entry = refl;
  names = (refl, refl);
  free = refl;
  found = file_known;
  live = refl;
  file = refl;
  counted = omega arith;
  parent = directory_known;
  parent_live = refl;
  parent_dir = refl;
  dst_other = λ e. absurd (omega arith);
  src_other = λ e. absurd (omega arith);
}

rename_ll-new_example :
    ((rename_ll (one_partition 20) wrapper partition 1 (97 ∷ []) 2 (99 ∷ [])).0 ≡ done tt)
    × ((e : Dentry)
        → get
            (rename_ll (one_partition 20) wrapper partition 1 (97 ∷ []) 2 (99 ∷ [])).1.dentry_tree
            e
          ≡ (if equiv dentry_item (source 20 wrapper partition move file empty_dir) e
              then none
              else if equiv dentry_item (target 20 wrapper partition move file empty_dir) e
              then some (target 20 wrapper partition move file empty_dir)
              else get partition.dentry_tree e))
    × (get
          (rename_ll (one_partition 20) wrapper partition 1 (97 ∷ []) 2 (99 ∷ [])).1.inode_tree
          (new_inode 5 0 20)
        ≡ some (record file { modify_time = 20 }))
rename_ll-new_example = rename_ll-new 20 wrapper partition move file empty_dir move-CanMove
