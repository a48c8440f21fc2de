-- ===== src/MetaNode/Partition.antt =====
-- The state of a meta partition, metanode/partition.go, and its inode counter. An *Inode that waits
-- in the free list is named by its number; `ext_del` lists what was sent on extDelCh and
-- `store_chan` what was sent on storeChan, oldest first.
pub mod InodeOps
pub mod DentryOps
pub mod Apply
pub mod Links
pub mod Files
pub mod Entries
pub mod Renames
pub mod Listing
pub mod Follows
pub mod Steps
pub mod Cursor
use cfs.Base.{ℕ, ◌+◌, ◌≡◌, Bool, leb, List, Result, ok, err, inode_id_out_of_range, if◌then◌else◌}
use cfs.GoogleBtree.{BtreePackage}
use cfs.Proto.ExtentKey.{ExtentKey}
use cfs.MetaNode.BTree.{BTree}
use cfs.MetaNode.Dentry.{Dentry}
use cfs.MetaNode.Dentry.Order.{dentry_item}
use cfs.MetaNode.Inode.{Inode}
use cfs.MetaNode.Inode.Order.{inode_item}

module _ ⦃L : BtreePackage⦄ where
  -- The message of a store tick: the trees as they were at `apply_index`.
  pub record StoreMsg : Type 0 where
    pub apply_index : ℕ
    pub inode_tree : BTree Inode
    pub dentry_tree : BTree Dentry

  pub record MetaPartition : Type 0 where
    pub cursor : ℕ
    pub end : ℕ
    pub apply_id : ℕ
    pub inode_tree : BTree Inode
    pub dentry_tree : BTree Dentry
    pub free_list : List ℕ
    pub ext_del : List ExtentKey
    pub store_chan : List StoreMsg

  -- nextInodeID: the round of its loop whose compare-and-swap succeeds.
  unfoldable pub next_inode_id : MetaPartition → Result ℕ × MetaPartition
  next_inode_id mp =
      if leb mp.end mp.cursor
      then (err inode_id_out_of_range, mp)
      else (ok (mp.cursor + 1), record mp { cursor = mp.cursor + 1 })
