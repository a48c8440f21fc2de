-- ===== src/Sdk/Meta/Api.antt =====
-- sdk/meta/api.go: the operations of the file system, each a sequence of requests to partitions.
-- BatchInodeGet, which sends from goroutines, is not modelled.
use cfs.Base.{ℕ, Bool, true, false, not, List, Option, none, some, if◌then◌else◌}
use cfs.Bytes.{Bytes}
use cfs.GoogleBtree.{BtreePackage}
use cfs.Proto.ExtentKey.{ExtentKey}
use cfs.MetaNode.Partition.InodeOps.{SetattrRequest}
use cfs.MetaNode.Partition.DentryOps.{DirEntry}
use cfs.MetaNode.Requests.{InodeInfo}
use cfs.Sdk.Meta.{
  MetaStatus, status_ok, status_exist, Errno, eagain, eexist, enoent, einval, status_to_errno,
}
use cfs.Sdk.Meta.Partition.{MetaPartition, MetaWrapper, get_partition_by_inode}
use cfs.Sdk.Meta.Operation
use cfs.Sdk.Meta.Operation.{Remote, Reply}

-- What a call returns: a value with a nil error, an error, or a panic.
pub data Outcome (A : Type 0) : Type 0 where
  done : A → Outcome A
  fails : Errno → Outcome A
  panics : Outcome A

-- `err != nil || status != statusOK`
unfoldable pub refused : MetaStatus → Bool → Bool
refused status_ok error = error
refused other error = true

unfoldable pub is_exist : MetaStatus → Bool
is_exist status_exist = true
is_exist other = false

-- A failed request becomes an error, another goes on.
unfoldable pub unless_refused : {A : Type 0} → MetaStatus → Bool → A → Outcome A
unless_refused status error a =
    if refused status error then fails (status_to_errno status) else done a

module _ ⦃L : BtreePackage⦄ (R : Remote) (mw : MetaWrapper) where
  abbrev pub World : Type 0
  World = R.World

  abbrev pub Call : Type 0 → Type 0
  Call A = Outcome A × World

  -- A call on the partition that holds an inode, or an error if none does.
  unfoldable pub at_partition : {A : Type 0} → ℕ → Errno → World → (MetaPartition → Call A) → Call A
  at_partition inode e w call = elim (get_partition_by_inode mw inode) [
    | none ↦ (fails e, w)
    | some mp ↦ call mp
  ]

  -- Lookup_ll
  unfoldable pub lookup_ll : World → ℕ → Bytes → Call (ℕ × ℕ)
  lookup_ll w parent_id name = at_partition parent_id enoent w λ mp.
      let ((status, entry, error), w') = Operation.lookup R w mp parent_id name in
      (unless_refused status error entry, w')

  -- InodeGet_ll
  unfoldable pub inode_get_ll : World → ℕ → Call (Option InodeInfo)
  inode_get_ll w inode = at_partition inode enoent w λ mp.
      let ((status, info, error), w') = Operation.iget R w mp inode in
      (unless_refused status error info, w')

  -- ReadDir_ll
  unfoldable pub read_dir_ll : World → ℕ → Call (List DirEntry)
  read_dir_ll w parent_id = at_partition parent_id enoent w λ mp.
      let ((status, children, error), w') = Operation.readdir R w mp parent_id in
      (unless_refused status error children, w')

  -- AppendExtentKey
  unfoldable pub append_extent_key : World → ℕ → ExtentKey → Call Unit
  append_extent_key w inode ek = at_partition inode enoent w λ mp.
      let ((status, error), w') = Operation.append_extent_key R w mp inode ek in
      (unless_refused status error tt, w')

  -- GetExtents
  unfoldable pub get_extents : World → ℕ → Call (ℕ × ℕ × List ExtentKey)
  get_extents w inode = at_partition inode enoent w λ mp.
      let ((status, extents, error), w') = Operation.get_extents R w mp inode in
      (unless_refused status error extents, w')

  -- Truncate
  unfoldable pub truncate : World → ℕ → ℕ → Call Unit
  truncate w inode size = at_partition inode enoent w λ mp.
      let ((status, error), w') = Operation.truncate R w mp inode size in
      (unless_refused status error tt, w')

  -- Evict
  unfoldable pub evict : World → ℕ → Call Unit
  evict w inode = at_partition inode einval w λ mp.
      let ((status, error), w') = Operation.ievict R w mp inode in
      (unless_refused status error tt, w')

  -- Setattr
  unfoldable pub setattr : World → SetattrRequest → Call Unit
  setattr w req = at_partition req.inode einval w λ mp.
      let ((status, error), w') = Operation.setattr R w mp req in
      (unless_refused status error tt, w')

  -- Link
  unfoldable pub link_entry :
      World
      → MetaPartition
      → MetaPartition
      → ℕ
      → Bytes
      → ℕ
      → Option InodeInfo
      → Call (Option InodeInfo)
  link_entry w parent mp parent_id name ino none = (panics, w)
  link_entry w parent mp parent_id name ino (some info) =
      let ((status, error), w1) = Operation.dcreate R w parent parent_id name ino info.mode in
      let (r2, w2) = Operation.iunlink R w1 mp ino in
      if not (refused status error)
      then (done (some info), w1)
      else (if is_exist status then (fails eexist, w1) else (fails eagain, w2))

  unfoldable pub link : World → ℕ → Bytes → ℕ → Call (Option InodeInfo)
  unfolding link_entry
  link w parent_id name ino = at_partition parent_id enoent w λ parent.
      at_partition ino enoent w λ mp.
        let ((status, info, error), w1) = Operation.ilink R w mp ino in
        if refused status error
        then (fails (status_to_errno status), w1)
        else link_entry w1 parent mp parent_id name ino info
