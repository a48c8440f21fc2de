-- ===== src/Tests/Entries.antt =====
-- The theorems on directory entries at a concrete partition.
use cfs.Base.{
  ◌+◌, ℕ, ◌≡◌, ◌==◌, false, some, none, [], ◌∷◌, map, filter, refl, arith, if◌then◌else◌,
}
use cfs.GoogleBtree.{equiv}
use cfs.GoogleBtree.SortedList.{sorted_list}
use cfs.Proto.{op_ok}
use cfs.MetaNode.BTree.{get, ascend}
use cfs.MetaNode.Dentry.{Dentry, less}
use cfs.MetaNode.Dentry.Order.{dentry_item}
use cfs.MetaNode.Inode.{Inode, new_inode}
use cfs.MetaNode.Inode.Order.{inode_item}
use cfs.MetaNode.Partition.{MetaPartition}
use cfs.MetaNode.Partition.DentryOps.{
  fsm_create_dentry, fsm_delete_dentry, fsm_update_dentry, read_dir,
}
use cfs.MetaNode.Partition.Entries.{create_dentry_new, delete-create_dentry}
use cfs.MetaNode.Partition.Listing.{read_dir-children}
use cfs.Tests.Samples.{partition, root, entry, new_entry, dir_mode}

root_found : (now : ℕ) → get partition.inode_tree (new_inode 1 0 now) ≡ some root
unfolding get new_inode
root_found now = refl

entry_found : get partition.dentry_tree entry ≡ some entry
unfolding get less
entry_found = refl

new_entry_absent : get partition.dentry_tree new_entry ≡ none
unfolding get less
new_entry_absent = refl

-- An entry whose parent is the file 5.
abbrev in_file : Dentry
in_file = record { parent_id = 5; name = 97 ∷ []; inode = 2; type = dir_mode }

create_dentry_new_example :
    ((fsm_create_dentry partition 20 new_entry false).0 ≡ op_ok)
    × ((e : Dentry)
        → get (fsm_create_dentry partition 20 new_entry false).1.dentry_tree e
          ≡ (if equiv dentry_item new_entry e then some new_entry else get partition.dentry_tree e))
    × ((j : Inode)
        → get (fsm_create_dentry partition 20 new_entry false).1.inode_tree j ≡ (
            if 1 == j.inode
            then some (record root { nlink = root.nlink + 1 })
            else get partition.inode_tree j))
create_dentry_new_example =
    create_dentry_new partition 20 new_entry root (root_found 20) refl refl new_entry_absent
      (omega arith)

abbrev after_create : MetaPartition
after_create = (fsm_create_dentry partition 20 new_entry false).1

delete-create_dentry_example :
    ((e : Dentry)
      → get (fsm_delete_dentry after_create 21 new_entry).1.dentry_tree e
        ≡ get partition.dentry_tree e)
    × ((j : Inode)
        → get (fsm_delete_dentry after_create 21 new_entry).1.inode_tree j
          ≡ get partition.inode_tree j)
delete-create_dentry_example =
    delete-create_dentry partition 20 21 new_entry root (root_found 20) refl refl new_entry_absent
      (omega arith) (omega arith)

-- A request to point the entry at the inode 2.
abbrev repoint : Dentry
repoint = record entry { inode = 2 }

abbrev repointed : MetaPartition
repointed = (fsm_update_dentry partition repoint).1

repoint_found : get partition.dentry_tree repoint ≡ some entry
unfolding get less
repoint_found = refl

read_dir-children_example :
    read_dir partition 1
    ≡ map
        (λ d. record { inode = d.inode; type = d.type; name = d.name })
        (filter (λ d. d.parent_id == 1) (ascend partition.dentry_tree))
read_dir-children_example = read_dir-children partition 1 (omega arith)
