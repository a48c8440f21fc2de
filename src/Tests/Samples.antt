-- ===== src/Tests/Samples.antt =====
-- Inodes, dentries and a partition to run the operations on.
use cfs.Base.{ℕ, ◌+◌, ◌^◌, [], ◌∷◌, refl}
use cfs.GoogleBtree.SortedList.{sorted_list}
use cfs.Proto.ExtentKey.{ExtentKey, extent_item}
use cfs.MetaNode.Extents.{ExtentsTree}
use cfs.MetaNode.Dentry.{Dentry}
use cfs.MetaNode.Dentry.Order.{dentry_item}
use cfs.MetaNode.Inode.{Inode}
use cfs.MetaNode.Inode.Order.{inode_item}
use cfs.MetaNode.Partition.{MetaPartition}

abbrev pub extent : ℕ → ℕ → ℕ → ExtentKey
extent offset id size = record {
  file_offset = offset;
  partition_id = 1;
  extent_id = id;
  extent_offset = 0;
  size = size;
  crc = 0;
}

abbrev pub no_extents : ExtentsTree
no_extents = ([], tt)

abbrev pub two_extents : ExtentsTree
two_extents = (extent 0 7 100 ∷ extent 100 8 50 ∷ [], ((refl, tt), (tt, tt)))

abbrev pub sample : ℕ → ℕ → ℕ → ℕ → ExtentsTree → Inode
sample number type nlink flag extents = record {
  inode = number;
  type = type;
  uid = 0;
  gid = 0;
  size = 150;
  generation = 1;
  create_time = 10;
  access_time = 10;
  modify_time = 10;
  link_target = 97 ∷ 98 ∷ [];
  nlink = nlink;
  flag = flag;
  reserved = 0;
  extents = extents;
}

abbrev pub dir_mode : ℕ
dir_mode = 2 ^ 31 + 493

abbrev pub file_mode : ℕ
file_mode = 420

abbrev pub root : Inode
root = sample 1 dir_mode 3 0 no_extents

abbrev pub empty_dir : Inode
empty_dir = sample 2 dir_mode 2 0 no_extents

abbrev pub file : Inode
file = sample 5 file_mode 1 0 two_extents

abbrev pub marked : Inode
marked = sample 9 file_mode 0 1 no_extents

abbrev pub entry : Dentry
entry = record { parent_id = 1; name = 97 ∷ []; inode = 5; type = file_mode }

abbrev pub new_entry : Dentry
new_entry = record { parent_id = 1; name = 98 ∷ []; inode = 2; type = dir_mode }

abbrev pub partition : MetaPartition
partition = record {
  cursor = 9;
  end = 100;
  apply_id = 4;
  inode_tree = (
    root ∷ empty_dir ∷ file ∷ marked ∷ [],
    ((refl, (refl, (refl, tt))), ((refl, (refl, tt)), ((refl, tt), (tt, tt)))),
  );
  dentry_tree = (entry ∷ [], (tt, tt));
  free_list = [];
  ext_del = [];
  store_chan = [];
}
