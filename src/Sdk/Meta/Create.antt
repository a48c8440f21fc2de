-- ===== src/Sdk/Meta/Create.antt =====
-- Create_ll of sdk/meta/api.go.
use cfs.Base.{
  ℕ, zero, suc, ◌+◌, ◌-◌, ◌%◌, ◌^◌, ◌==◌, not, ltb, List, Option, none, some, length, get_elem?,
  if◌then◌else◌,
}
use cfs.Bytes.{Bytes}
use cfs.GoogleBtree.{BtreePackage}
use cfs.Int64.{int_add}
use cfs.Proto.{u64}
use cfs.MetaNode.Requests.{InodeInfo}
use cfs.Sdk.Meta.{eexist, enoent, enomem, status_to_errno}
use cfs.Sdk.Meta.Partition.{MetaPartition, MetaWrapper, get_partition_by_inode, get_rw_partitions}
use cfs.Sdk.Meta.Operation
use cfs.Sdk.Meta.Operation.{Remote, Reply}
use cfs.Sdk.Meta.Api.{Outcome, done, fails, panics, refused, is_exist, unless_refused, Call}

-- `rwPartitions[(int(epoch) + i) % length]`, where Go's remainder has the sign of the dividend and
-- a negative index panics.
unfoldable pub pick : List MetaPartition → ℕ → ℕ → Option MetaPartition
pick partitions epoch i =
    let n = int_add epoch i in
    if ltb n (2 ^ 63)
    then get_elem? partitions (n % length partitions)
    else (if (2 ^ 64 - n) % length partitions == 0 then get_elem? partitions 0 else none)

module _ ⦃L : BtreePackage⦄ (R : Remote) (mw : MetaWrapper) where
  -- The end of Create_ll: the entry of the new inode `info` on `mp`.
  unfoldable pub create_entry :
      R.World
      → MetaPartition
      → MetaPartition
      → ℕ
      → Bytes
      → ℕ
      → Option InodeInfo
      → Call R mw (Option InodeInfo)
  create_entry w parent mp parent_id name mode none = (panics, w)
  create_entry w parent mp parent_id name mode (some info) =
      let ((status, error), w1) = Operation.dcreate R w parent parent_id name info.inode mode in
      let (r2, w2) = Operation.iunlink R w1 mp info.inode in
      let (r3, w3) = Operation.ievict R w2 mp info.inode in
      if not (refused status error)
      then (done (some info), w1)
      else (if is_exist status then (fails eexist, w1) else (fails (status_to_errno status), w3))

  -- The loop of Create_ll: `left` partitions are still to be tried, the next one at `i`.
  unfoldable pub create_loop :
      List MetaPartition
      → ℕ
      → ℕ
      → ℕ
      → R.World
      → (R.World → MetaPartition → Outcome (Option InodeInfo × MetaPartition) × R.World)
      → Outcome (Option InodeInfo × MetaPartition) × R.World
  create_loop partitions epoch zero i w try = (fails enomem, w)
  create_loop partitions epoch (suc left) i w try = elim (pick partitions epoch i) [
    | none ↦ (panics, w)
    | some mp ↦ elim (try w mp).0 [
      | done created ↦ (done created, (try w mp).1)
      | fails e ↦ create_loop partitions epoch left (i + 1) (try w mp).1 try
      | panics ↦ (panics, (try w mp).1)
    ]
  ]

  -- One round of it.
  unfoldable pub try_create :
      ℕ
      → ℕ
      → ℕ
      → Bytes
      → R.World
      → MetaPartition
      → Outcome (Option InodeInfo × MetaPartition) × R.World
  try_create mode uid gid target w mp =
      let ((status, info, error), w') = Operation.icreate R w mp mode uid gid target in
      (unless_refused status error (info, mp), w')

  -- Create_ll, with the wrapper's epoch after it.
  unfoldable pub create_ll :
      R.World → ℕ → Bytes → ℕ → ℕ → ℕ → Bytes → Call R mw (Option InodeInfo) × ℕ
  unfolding create_entry create_loop try_create
  create_ll w parent_id name mode uid gid target =
      let partitions = get_rw_partitions mw in
      let epoch = u64 (mw.epoch + 1) in
      let (r, w1) =
        create_loop partitions epoch (length partitions) 0 w (try_create mode uid gid target) in
      elim (get_partition_by_inode mw parent_id) [
        | none ↦ ((fails enoent, w), mw.epoch)
        | some parent ↦ elim r [
          | done created ↦ (create_entry w1 parent created.1 parent_id name mode created.0, epoch)
          | fails e ↦ ((fails e, w1), epoch)
          | panics ↦ ((panics, w1), epoch)
        ]
      ]
