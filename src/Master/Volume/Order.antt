-- ===== src/Master/Volume/Order.antt =====
-- Meta partitions in the order of their numbers, each range before the next: the maps of a volume in
-- master/vol.go.
use cfs.Base.{
  ℕ, ◌+◌, ◌≤◌, ◌<◌, ◌≡◌, false, ◌==◌, List, [], ◌∷◌, ◌++◌, All, All-append, find-passes, ==_iff,
  some, arith, refl, sym, subst, Bool-cases, inl, inr,
}
use cfs.Master.Volume.{
  MetaPartition, max_partition_id, add_meta_partition, set_end, set_max_node_id, meta_partition,
}

-- Every partition has a number above `id`, and only inodes above `end`.
abbrev pub Above : ℕ → ℕ → List MetaPartition → Type 0
Above id end mps = All (λ m. (id < m.partition_id) × (end < m.start)) mps

abbrev pub Ordered : List MetaPartition → Type 0
Ordered [] = Unit
Ordered (m ∷ mps) = Above m.partition_id m.end mps × Ordered mps

abbrev pub UpTo : ℕ → List MetaPartition → Type 0
UpTo id mps = All (λ m. m.partition_id ≤ id) mps

-- Every partition has a number up to `id`, and only inodes below `start`.
abbrev pub Below : ℕ → ℕ → List MetaPartition → Type 0
Below id start mps = All (λ m. (m.partition_id ≤ id) × (m.end < start)) mps

UpTo-le : (a b : ℕ) (mps : List MetaPartition) → a ≤ b → UpTo a mps → UpTo b mps
UpTo-le a b [] h u = tt
UpTo-le a b (m ∷ mps) h (p, u) = (omega arith, UpTo-le a b mps h u)

pub UpTo-max_partition_id : (mps : List MetaPartition) → UpTo (max_partition_id mps) mps
unfolding max_partition_id
UpTo-max_partition_id [] = tt
UpTo-max_partition_id (m ∷ mps) =
    (ground arith, UpTo-le (max_partition_id mps) _ mps (ground arith) (UpTo-max_partition_id mps))

-- A change of ends or of reports leaves the numbers and the starts.
Above-set_end :
    (a b id end : ℕ) (mps : List MetaPartition) → Above a b mps → Above a b (set_end id end mps)
unfolding set_end
Above-set_end a b id end [] h = tt
Above-set_end a b id end (k ∷ mps) (p, h) = (ground arith, Above-set_end a b id end mps h)

Above-set_max_node_id :
    (a b id n : ℕ) (mps : List MetaPartition) → Above a b mps → Above a b (set_max_node_id id n mps)
unfolding set_max_node_id
Above-set_max_node_id a b id n [] h = tt
Above-set_max_node_id a b id n (k ∷ mps) (p, h) =
    (ground arith, Above-set_max_node_id a b id n mps h)

set_end-other :
    (id end : ℕ) (m : MetaPartition) (mps : List MetaPartition)
    → (m.partition_id == id) ≡ false
    → set_end id end (m ∷ mps) ≡ m ∷ set_end id end mps
unfolding set_end
set_end-other id end m mps h = rw h

Ordered-one : (id end : ℕ) (m : MetaPartition) → Ordered (set_end id end (m ∷ []))
unfolding set_end
Ordered-one id end m = (tt, tt)

pub Ordered-set_end :
    (id end : ℕ) (mps : List MetaPartition)
    → UpTo id mps
    → Ordered mps
    → Ordered (set_end id end mps)
unfolding set_end
Ordered-set_end id end [] u o = tt
Ordered-set_end id end (m ∷ []) u o = Ordered-one id end m
Ordered-set_end id end (m ∷ k ∷ mps) (p, u) (f, o) =
    subst Ordered (sym (set_end-other id end m (k ∷ mps) (ground arith)))
      (Above-set_end m.partition_id m.end id end (k ∷ mps) f, Ordered-set_end id end (k ∷ mps) u o)

pub Ordered-set_max_node_id :
    (id n : ℕ) (mps : List MetaPartition) → Ordered mps → Ordered (set_max_node_id id n mps)
unfolding set_max_node_id
Ordered-set_max_node_id id n [] o = tt
Ordered-set_max_node_id id n (m ∷ mps) (f, o) = elim (Bool-cases (m.partition_id == id)) [
  | inl e ↦
      rw e
        (Above-set_max_node_id m.partition_id m.end id n mps f, Ordered-set_max_node_id id n mps o)
  | inr e ↦
      rw e
        (Above-set_max_node_id m.partition_id m.end id n mps f, Ordered-set_max_node_id id n mps o)
]

pub max_partition_id-set_end :
    (id end : ℕ) (mps : List MetaPartition)
    → max_partition_id (set_end id end mps) ≡ max_partition_id mps
unfolding max_partition_id set_end
max_partition_id-set_end id end [] = refl
max_partition_id-set_end id end (m ∷ mps) = ground (arith, max_partition_id-set_end id end mps)

pub max_partition_id-set_max_node_id :
    (id n : ℕ) (mps : List MetaPartition)
    → max_partition_id (set_max_node_id id n mps) ≡ max_partition_id mps
unfolding max_partition_id set_max_node_id
max_partition_id-set_max_node_id id n [] = refl
max_partition_id-set_max_node_id id n (m ∷ mps) =
    ground (arith, max_partition_id-set_max_node_id id n mps)

-- Every partition starts at or below `b`.
abbrev pub StartUpTo : ℕ → List MetaPartition → Type 0
StartUpTo b mps = All (λ m. m.start ≤ b) mps

pub StartUpTo-set_max_node_id :
    (b id n : ℕ) (mps : List MetaPartition)
    → StartUpTo b mps
    → StartUpTo b (set_max_node_id id n mps)
unfolding set_max_node_id
StartUpTo-set_max_node_id b id n [] h = tt
StartUpTo-set_max_node_id b id n (m ∷ mps) (p, h) =
    (ground arith, StartUpTo-set_max_node_id b id n mps h)

-- The partition with the highest number ends where it is told; all others end below its start.
pub Below-set_end :
    (id end : ℕ) (mps : List MetaPartition)
    → max_partition_id mps ≡ id
    → Ordered mps
    → StartUpTo end mps
    → Below id (end + 1) (set_end id end mps)
unfolding set_end max_partition_id
Below-set_end id end [] u o h = tt
Below-set_end id end (m ∷ []) u o h = (ground arith, tt)
Below-set_end id end (m ∷ k ∷ mps) u (f, o) (q, h) =
    let most = (UpTo-max_partition_id (k ∷ mps)).0 in
    let same : max_partition_id (k ∷ mps) ≡ id = ground arith in
    let other : (m.partition_id == id) ≡ false = ground arith in
    (rw other (omega arith, omega arith), Below-set_end id end (k ∷ mps) same o h)

pub add_meta_partition-append :
    (id start : ℕ) (mp : MetaPartition) (mps : List MetaPartition)
    → id < mp.partition_id
    → Below id start mps
    → add_meta_partition mps mp ≡ mps ++ mp ∷ []
unfolding add_meta_partition
add_meta_partition-append id start mp [] h b = refl
add_meta_partition-append id start mp (m ∷ mps) h (p, b) =
    ground (arith, add_meta_partition-append id start mp mps h b)

Above-append :
    (a b : ℕ) (mp : MetaPartition) (mps : List MetaPartition)
    → Above a b mps
    → a < mp.partition_id
    → b < mp.start
    → Above a b (mps ++ mp ∷ [])
Above-append a b mp mps h i l =
    All-append (λ m. (a < m.partition_id) × (b < m.start)) mps (mp ∷ []) h ((i, l), tt)

Ordered-append :
    (id : ℕ) (mp : MetaPartition) (mps : List MetaPartition)
    → id < mp.partition_id
    → Below id mp.start mps
    → Ordered mps
    → Ordered (mps ++ mp ∷ [])
Ordered-append id mp [] h b o = (tt, tt)
Ordered-append id mp (m ∷ mps) h (p, b) (f, o) =
    (Above-append m.partition_id m.end mp mps f (omega arith) p.1, Ordered-append id mp mps h b o)

pub Ordered-add_meta_partition :
    (id : ℕ) (mp : MetaPartition) (mps : List MetaPartition)
    → id < mp.partition_id
    → Below id mp.start mps
    → Ordered mps
    → Ordered (add_meta_partition mps mp)
Ordered-add_meta_partition id mp mps h b o =
    rw (add_meta_partition-append id mp.start mp mps h b) (Ordered-append id mp mps h b o)

pub max_partition_id-le :
    (id : ℕ) (mps : List MetaPartition) → UpTo id mps → max_partition_id mps ≤ id
unfolding max_partition_id
max_partition_id-le id [] u = omega arith
max_partition_id-le id (m ∷ mps) (p, u) = ground (arith, max_partition_id-le id mps u)

pub UpTo-add_meta_partition :
    (id start : ℕ) (mp : MetaPartition) (mps : List MetaPartition)
    → id < mp.partition_id
    → Below id start mps
    → UpTo mp.partition_id (add_meta_partition mps mp)
unfolding add_meta_partition
UpTo-add_meta_partition id start mp [] h b = (omega arith, tt)
UpTo-add_meta_partition id start mp (m ∷ mps) h (p, b) =
    let other : (m.partition_id == mp.partition_id) ≡ false = ground arith in
    rw other (omega arith, UpTo-add_meta_partition id start mp mps h b)

pub partition_id-meta_partition :
    (mps : List MetaPartition) (id : ℕ) (k : MetaPartition)
    → meta_partition mps id ≡ some k
    → k.partition_id ≡ id
unfolding meta_partition
partition_id-meta_partition mps id k e =
    (==_iff k.partition_id id).0 (find-passes (λ (m : MetaPartition). m.partition_id == id) mps k e)
