-- ===== src/MetaNode/Snapshot.antt =====
-- How a partition is copied to a follower. The items pass through the raft library, which calls Next
-- until it fails and hands the follower what it got, with that error.
pub mod Iterator
pub mod Restore
pub mod Sent
pub mod Restored
pub mod Whole
pub mod Endless
use cfs.Base.{ℕ}

-- The operations that a snapshot holds.
abbrev pub op_fsm_create_inode : ℕ
op_fsm_create_inode = 0

abbrev pub op_fsm_create_dentry : ℕ
op_fsm_create_dentry = 2

abbrev pub op_extent_file_snapshot : ℕ
op_extent_file_snapshot = 19
