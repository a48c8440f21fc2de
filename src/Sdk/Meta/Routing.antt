-- ===== src/Sdk/Meta/Routing.antt =====
-- getPartitionByInode, sdk/meta/partition.go: the partition that holds an inode.
use cfs.Base.{
  ℕ, ◌≤◌, ◌<◌, ◌≡◌, Bool, not, ltb, leb, ◌&&◌, List, [], ◌∷◌, filter, find, get_last?,
  get_last?-cons, arith, refl, Option-cases, Bool-cases, inl, inr, ◌∙◌, ap, All,
}
use cfs.GoogleBtree.{BtreePackage}
use cfs.GoogleBtree.Floor.{floor-ascend}
use cfs.MetaNode.BTree.{ascend}
use cfs.Sdk.Meta.Partition.{
  MetaPartition, partition_item, starting, MetaWrapper, holding, get_partition_by_inode,
}

-- The inodes of a partition.
abbrev pub holds : ℕ → MetaPartition → Bool
holds ino mp = leb mp.start ino && leb ino mp.end

-- Every partition starts after `e`.
abbrev pub StartAfter : ℕ → List MetaPartition → Type 0
StartAfter e ms = All (λ m. e < m.start) ms

-- No inode belongs to two partitions.
abbrev pub Disjoint : List MetaPartition → Type 0
Disjoint [] = Unit
Disjoint (m ∷ ms) = StartAfter m.end ms × Disjoint ms

abbrev started : ℕ → List MetaPartition → List MetaPartition
started ino ms = filter (λ m. not (ltb ino m.start)) ms

started-After :
    (e ino : ℕ) (ms : List MetaPartition) → StartAfter e ms → ino ≤ e → started ino ms ≡ []
started-After e ino [] h l = refl
started-After e ino (m ∷ ms) (p, h) l = ground (arith, started-After e ino ms h l)

last-holding :
    (ino : ℕ) (ms : List MetaPartition)
    → Disjoint ms
    → holding ino (get_last? (started ino ms)) ≡ find (holds ino) ms
unfolding holding
last-holding ino [] d = refl
last-holding ino (m ∷ ms) (a, d) = elim (Option-cases (get_last? (started ino ms))) [
  | inl e ↦ ground (arith, e, get_last?-cons m (started ino ms), last-holding ino ms d)
  | inr (k, e) ↦ elim (Bool-cases (leb ino m.end)) [
    | inl l ↦ absurd (ground (arith, e, started-After m.end ino ms a))
    | inr l ↦ ground (arith, e, get_last?-cons m (started ino ms), last-holding ino ms d)
  ]
]

module _ ⦃L : BtreePackage⦄ (mw : MetaWrapper) where
  -- Where each range of the tree ends below the start of every later one, getPartitionByInode
  -- finds the partition of the tree whose range holds the inode, and none if no range does.
  pub get_partition_by_inode-find :
      (ino : ℕ)
      → Disjoint (ascend mw.ranges)
      → get_partition_by_inode mw ino ≡ find (holds ino) (ascend mw.ranges)
  unfolding get_partition_by_inode
  get_partition_by_inode-find ino d =
      ap (holding ino) (floor-ascend mw.ranges (starting ino))
      ∙ last-holding ino (ascend mw.ranges) d
