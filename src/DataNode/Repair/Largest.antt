-- ===== src/DataNode/Repair/Largest.antt =====
-- prepareRepairTasks, datanode/data_partition_repair.go: the largest copy of each extent.
use cfs.Base.{
  ℕ, ◌≤◌, ◌≡◌, refl, sym, ap, ◌∙◌, subst, false, ltb, ◌==◌, if◌then◌else◌, List, [], ◌∷◌, All,
  Option, none, some, arith, Bool-cases, inl, inr, if_intro, ==_iff,
}
use mathlib.Core.Option.{some-injective}
use cfs.Storage.{ExtentInfo}
use cfs.DataNode.Repair.{
  ExtentMap, DataPartitionRepairTask, lookup, put, larger, collect_one, collect, collect_all,
}

-- Every number is used once.
abbrev pub Once : ExtentMap → Type 0
Once [] = Unit
Once (e ∷ es) = (lookup e.file_id es ≡ none) × Once es

-- A visit of a map meets each entry once, in some order.
pub record IsVisit (visit : ExtentMap → ExtentMap) : Type 0 where
  pub once : (m : ExtentMap) → Once m → Once (visit m)
  pub same : (m : ExtentMap) (id : ℕ) → Once m → lookup id (visit m) ≡ lookup id m

-- The better of what was found so far and of what a replica has.
abbrev pub better : Option ExtentInfo → Option ExtentInfo → Option ExtentInfo
better best none = best
better none (some e) = if e.is_deleted then none else some e
better (some b) (some e) =
    if e.is_deleted then some b else (if ltb b.size e.size then some e else some b)

abbrev pub largest_from : Option ExtentInfo → ℕ → List DataPartitionRepairTask → Option ExtentInfo
largest_from best id [] = best
largest_from best id (t ∷ tasks) = largest_from (better best (lookup id t.extents)) id tasks

-- The largest copy that is not deleted, of the first replica that has one of that size.
abbrev pub largest_of : ℕ → List DataPartitionRepairTask → Option ExtentInfo
largest_of id tasks = largest_from none id tasks

pub lookup-put :
    (id : ℕ) (e : ExtentInfo) (m : ExtentMap)
    → lookup id (put e m) ≡ (if e.file_id == id then some e else lookup id m)
unfolding lookup put
lookup-put id e [] = refl
lookup-put id e (d ∷ m) = ground (arith, lookup-put id e m)

pub Once-put : (e : ExtentInfo) (m : ExtentMap) → Once m → Once (put e m)
unfolding put lookup
Once-put e [] o = (refl, tt)
Once-put e (d ∷ m) (h, o) = elim (Bool-cases (d.file_id == e.file_id)) [
  | inl s ↦ rw s (ground (arith, h), o)
  | inr s ↦ rw s (ground (arith, h, lookup-put d.file_id e m), Once-put e m o)
]

lookup-collect_one :
    (id : ℕ) (e : ExtentInfo) (m : ExtentMap)
    → lookup id (collect_one e m)
      ≡ (if e.file_id == id then better (lookup e.file_id m) (some e) else lookup id m)
unfolding collect_one larger
lookup-collect_one id e m = elim (Bool-cases (e.file_id == id)) [
  | inl s ↦
      let same = (==_iff e.file_id id).0 s in
      ground (arith, lookup-put id e m, ap (λ i. lookup i m) same)
  | inr s ↦ ground (arith, lookup-put id e m)
]

Once-collect_one : (e : ExtentInfo) (m : ExtentMap) → Once m → Once (collect_one e m)
unfolding collect_one
Once-collect_one e m o =
    if_intro Once e.is_deleted m _ (λ d. o)
      λ d. if_intro Once (larger e (lookup e.file_id m)) (put e m) m (λ l. Once-put e m o) (λ l. o)

Once-collect : (m : ExtentMap) (es : List ExtentInfo) → Once m → Once (collect m es)
unfolding collect
Once-collect m [] o = o
Once-collect m (e ∷ es) o = Once-collect (collect_one e m) es (Once-collect_one e m o)

lookup-collect :
    (id : ℕ) (m : ExtentMap) (es : List ExtentInfo)
    → Once es
    → lookup id (collect m es) ≡ better (lookup id m) (lookup id es)
unfolding collect lookup
lookup-collect id m [] o = refl
lookup-collect id m (e ∷ es) (h, o) = elim (Bool-cases (e.file_id == id)) [
  | inl s ↦
      let same = (==_iff e.file_id id).0 s in
      let last : lookup id es ≡ none = subst (λ i. lookup i es ≡ none) same h in
      ground (
        arith,
        lookup-collect id (collect_one e m) es o,
        lookup-collect_one id e m,
        ap (λ i. lookup i m) same,
      )
  | inr s ↦ ground (arith, lookup-collect id (collect_one e m) es o, lookup-collect_one id e m)
]

-- The map that prepareRepairTasks collects holds the largest copies.
pub lookup-collect_all :
    (visit : ExtentMap → ExtentMap) (id : ℕ) (m : ExtentMap) (tasks : List DataPartitionRepairTask)
    → IsVisit visit
    → All (λ (t : DataPartitionRepairTask). Once t.extents) tasks
    → lookup id (collect_all visit m tasks) ≡ largest_from (lookup id m) id tasks
unfolding collect_all
lookup-collect_all visit id m [] v o = refl
lookup-collect_all visit id m (t ∷ tasks) v (p, o) =
    lookup-collect_all visit id (collect m (visit t.extents)) tasks v o
    ∙ ap (λ b. largest_from b id tasks)
        (lookup-collect id m (visit t.extents) (v.once t.extents p)
          ∙ ap (better (lookup id m)) (v.same t.extents id p))

pub Once-collect_all :
    (visit : ExtentMap → ExtentMap) (m : ExtentMap) (tasks : List DataPartitionRepairTask)
    → Once m
    → Once (collect_all visit m tasks)
unfolding collect_all
Once-collect_all visit m [] o = o
Once-collect_all visit m (t ∷ tasks) o =
    Once-collect_all visit (collect m (visit t.extents)) tasks (Once-collect m (visit t.extents) o)

-- The task's copy of the extent, if it has one that is not deleted, is at most `size` long.
abbrev pub AtMost : ℕ → ℕ → DataPartitionRepairTask → Type 0
AtMost id size t =
    (e : ExtentInfo) → lookup id t.extents ≡ some e → e.is_deleted ≡ false → e.size ≤ size

better-le :
    (best o : Option ExtentInfo) (e : ExtentInfo)
    → best ≡ some e
    → (d : ExtentInfo) × (better best o ≡ some d) × (e.size ≤ d.size)
unfolding larger
better-le best none e h = (e, h, omega arith)
better-le best (some c) e h = elim (Bool-cases (c.is_deleted)) [
  | inl d ↦ (e, ground arith, omega arith)
  | inr d ↦ elim (Bool-cases (ltb e.size c.size)) [
    | inl l ↦ (c, ground (arith, h, d, l), ground arith)
    | inr l ↦ (e, ground (arith, h, d, l), omega arith)
  ]
]

-- What a replica has is no larger than what is kept.
better-new :
    (best : Option ExtentInfo) (e : ExtentInfo)
    → e.is_deleted ≡ false
    → (d : ExtentInfo) × (better best (some e) ≡ some d) × (e.size ≤ d.size)
unfolding larger
better-new none e h = (e, ground arith, omega arith)
better-new (some b) e h = elim (Bool-cases (ltb b.size e.size)) [
  | inl l ↦ (e, ground arith, omega arith)
  | inr l ↦ (b, ground arith, ground arith)
]

largest_from-le :
    (best : Option ExtentInfo) (id : ℕ) (tasks : List DataPartitionRepairTask) (e : ExtentInfo)
    → best ≡ some e
    → (d : ExtentInfo) × (largest_from best id tasks ≡ some d) × (e.size ≤ d.size)
largest_from-le best id [] e h = (e, h, omega arith)
largest_from-le best id (t ∷ tasks) e h =
    let (c, k, l) = better-le best (lookup id t.extents) e h in
    let (d, j, i) = largest_from-le (better best (lookup id t.extents)) id tasks c k in
    (d, j, omega arith)

pub largest_from-AtMost :
    (best : Option ExtentInfo) (id : ℕ) (tasks : List DataPartitionRepairTask) (m : ExtentInfo)
    → largest_from best id tasks ≡ some m
    → All (AtMost id m.size) tasks
largest_from-AtMost best id [] m h = tt
largest_from-AtMost best id (t ∷ tasks) m h = (
  λ e f g.
      let (d, k, l) = better-new best e g in
      let (c, j, i) =
        largest_from-le (better best (lookup id t.extents)) id tasks d (ap (better best) f ∙ k) in
      let same : c ≡ m = some-injective c m (sym j ∙ h) in
      omega (arith, l, i, ap (λ (x : ExtentInfo). x.size) same),
  largest_from-AtMost (better best (lookup id t.extents)) id tasks m h,
)
