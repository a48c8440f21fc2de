-- ===== src/MetaNode.antt =====
-- The metanode: package metanode.
pub mod BTree
pub mod Dentry
pub mod Extents
pub mod Inode
pub mod FreeList
pub mod MetaItem
pub mod Members
pub mod Partition
pub mod Snapshot
pub mod Requests
