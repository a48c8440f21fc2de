-- ===== src/Sdk/Meta/Partition.antt =====
-- sdk/meta/partition.go and updateMetaPartitions of sdk/meta/view.go: the partitions that a client
-- knows, by their number and by the inodes that they hold. The lock is not modelled.
use cfs.Base.{
  ℕ, ◌+◌, ◌≡◌, ◌⊎◌, ◌==◌, Bool, true, false, not, ltb, List, [], ◌∷◌, ◌++◌, filter, find, Option,
  none, some, Result, ok, err, panic, head?, if◌then◌else◌, arith,
}
use cfs.Bytes.{Bytes}
use cfs.GoogleBtree.{BtreeItem, BtreePackage}
use cfs.GoogleBtree.Floor.{floor}
use cfs.Proto.{u64}
use cfs.MetaNode.BTree.{BTree, delete, replace_or_insert, ascend_greater_or_equal, max_item}

-- An address is a string's bytes.
pub record MetaPartition : Type 0 where
  pub partition_id : ℕ
  pub start : ℕ
  pub end : ℕ
  pub members : List Bytes
  pub leader_addr : Bytes
  pub status : ℕ

-- Less
abbrev pub less : MetaPartition → MetaPartition → Bool
less this that = ltb this.start that.start

pub less_irrefl : (a : MetaPartition) → less a a ≡ false
less_irrefl a = ground arith

pub less_trans : (a b c : MetaPartition) → less a b ≡ true → less b c ≡ true → less a c ≡ true
less_trans a b c h k = ground arith

pub less_weak : (a b c : MetaPartition) → less a c ≡ true → (less a b ≡ true) ⊎ (less b c ≡ true)
less_weak a b c h = ground arith

instance abbrev pub partition_item : BtreeItem MetaPartition
partition_item = record {
  less = less;
  less_irrefl = less_irrefl;
  less_trans = less_trans;
  less_weak = less_weak;
}

-- `&MetaPartition{Start: start}`
abbrev pub starting : ℕ → MetaPartition
starting start = record {
  partition_id = 0;
  start = start;
  end = 0;
  members = [];
  leader_addr = [];
  status = 0;
}

-- proto.ReadWrite
abbrev read_write : ℕ
read_write = 2

-- `partitions[id]`, which is the partition of that number.
unfoldable pub partition_of : List MetaPartition → ℕ → Option MetaPartition
partition_of partitions id = find (λ m. m.partition_id == id) partitions

-- `delete(partitions, id)`
unfoldable pub without_id : List MetaPartition → ℕ → List MetaPartition
without_id partitions id = filter (λ m. not (m.partition_id == id)) partitions

-- getPartitionByInode, on the partition that DescendLessOrEqual visits.
unfoldable pub holding : ℕ → Option MetaPartition → Option MetaPartition
holding ino none = none
holding ino (some mp) = if ltb mp.end ino then none else if ltb ino mp.start then none else some mp

-- The partitions of a view that can be written.
unfoldable pub writable : List MetaPartition → List MetaPartition
writable view = filter (λ m. m.status == read_write) view

module _ ⦃L : BtreePackage⦄ where
  -- MetaWrapper. The map by number is the list of its values, in the order of a range over it.
  pub record MetaWrapper : Type 0 where
    pub partitions : List MetaPartition
    pub ranges : BTree MetaPartition
    pub rw_partitions : List MetaPartition
    pub epoch : ℕ

  -- addPartition
  unfoldable pub add_partition : MetaWrapper → MetaPartition → MetaWrapper
  add_partition mw mp = record mw {
    partitions = without_id mw.partitions mp.partition_id ++ mp ∷ [];
    ranges = (replace_or_insert mw.ranges mp true).1;
  }

  -- deletePartition
  unfoldable pub delete_partition : MetaWrapper → MetaPartition → MetaWrapper
  delete_partition mw mp = record mw {
    partitions = without_id mw.partitions mp.partition_id;
    ranges = (delete mw.ranges mp).1;
  }

  -- replaceOrInsertPartition
  unfoldable pub replace_or_insert_partition : MetaWrapper → MetaPartition → MetaWrapper
  replace_or_insert_partition mw mp = elim (partition_of mw.partitions mp.partition_id) [
    | none ↦ add_partition mw mp
    | some found ↦ add_partition (delete_partition mw found) mp
  ]

  -- getPartitionByID
  unfoldable pub get_partition_by_id : MetaWrapper → ℕ → Option MetaPartition
  get_partition_by_id mw id = partition_of mw.partitions id

  -- getPartitionByInode
  unfoldable pub get_partition_by_inode : MetaWrapper → ℕ → Option MetaPartition
  get_partition_by_inode mw ino = holding ino (floor mw.ranges (starting ino))

  -- getRWPartitions
  unfoldable pub get_rw_partitions : MetaWrapper → List MetaPartition
  get_rw_partitions mw = elim mw.rw_partitions [ [] ↦ mw.partitions | m ∷ ms ↦ m ∷ ms ]

  -- getNextPartition
  unfoldable pub get_next_partition : MetaWrapper → ℕ → Option MetaPartition
  get_next_partition mw ino = head? (ascend_greater_or_equal mw.ranges (starting (u64 (ino + 1))))

  -- getLatestPartition: Max of an empty tree is nil, whose type assertion panics.
  unfoldable pub get_latest_partition : MetaWrapper → Result MetaPartition
  get_latest_partition mw = elim (max_item mw.ranges) [ none ↦ err panic | some mp ↦ ok mp ]

  -- The loop of updateMetaPartitions.
  unfoldable pub replace_all : MetaWrapper → List MetaPartition → MetaWrapper
  replace_all mw [] = mw
  replace_all mw (mp ∷ mps) = replace_all (replace_or_insert_partition mw mp) mps

  -- updateMetaPartitions, on the view that fetchVolumeView answered.
  unfoldable pub update_meta_partitions : MetaWrapper → List MetaPartition → MetaWrapper
  unfolding replace_all writable
  update_meta_partitions mw view = elim (writable view) [
    | [] ↦ replace_all mw view
    | m ∷ ms ↦ record (replace_all mw view) { rw_partitions = writable view }
  ]
