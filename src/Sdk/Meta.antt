-- ===== src/Sdk/Meta.antt =====
-- sdk/meta: the client of the metanodes. Here the statuses and errors of meta.go.
pub mod Partition
pub mod Routing
pub mod Operation
pub mod Api
pub mod Create
pub mod Delete
pub mod Rename
pub mod OnePartition
pub mod Answers
pub mod Links
pub mod Moves
use cfs.Proto.{
  Status, op_ok, op_exist_err, op_not_exist_err, op_arg_mismatch_err, op_disk_err, op_err, op_again,
  op_inode_full_err, op_not_perm, op_init_result_code,
}

pub data MetaStatus : Type 0 where
  status_unknown status_ok status_exist status_noent status_full : MetaStatus
  status_again status_error status_inval status_not_perm : MetaStatus

-- The errors of package syscall.
pub data Errno : Type 0 where
  eagain eexist enoent enomem einval eperm eio enotempty : Errno

-- parseStatus
unfoldable pub parse_status : Status → MetaStatus
parse_status op_ok = status_ok
parse_status op_exist_err = status_exist
parse_status op_not_exist_err = status_noent
parse_status op_inode_full_err = status_full
parse_status op_again = status_again
parse_status op_arg_mismatch_err = status_inval
parse_status op_not_perm = status_not_perm
parse_status other = status_error

-- statusToErrno
unfoldable pub status_to_errno : MetaStatus → Errno
status_to_errno status_ok = eagain
status_to_errno status_exist = eexist
status_to_errno status_noent = enoent
status_to_errno status_full = enomem
status_to_errno status_again = eagain
status_to_errno status_inval = einval
status_to_errno status_not_perm = eperm
status_to_errno status_error = eperm
status_to_errno status_unknown = eio
