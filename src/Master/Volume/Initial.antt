-- ===== src/Master/Volume/Initial.antt =====
-- The partitions that a volume starts with: initMetaPartitions of master/vol.go.
use cfs.Base.{
  ℕ, zero, suc, ◌+◌, ◌-◌, ◌*◌, ◌≤◌, ◌<◌, ◌^◌, ◌≡◌, arith, false, List, [], ◌∷◌, Option, none, some,
  Error, ltb, ◌==◌, if◌then◌else◌, All, Option-cases, inl, inr,
}
use cfs.Proto.{u64}
use cfs.Master.{RocksDb, Strconv, MetadataFsm}
use cfs.Master.IdAllocator.{Submit, Master, submitted, allocate_meta_partition_id}
use cfs.Master.Ids.{IsStrconv, IsRaft, AtLeast, meta_partitions}
use cfs.Master.Volume.{
  MetaPartition, Surroundings, Cluster, max_partition_id, add_meta_partition, new_meta_partition,
  created, numbered, create_meta_partition, init_loop, init_meta_partitions,
  default_meta_partition_inode_id_step, default_init_meta_partition_count,
}
use cfs.Master.Volume.Order.{UpTo, Below, UpTo-max_partition_id}
use cfs.Master.Volume.Ranges.{IsValid, CanCount, create_meta_partition-IsValid}

-- Every partition ends below `b`.
abbrev EndBelow : ℕ → List MetaPartition → Type 0
EndBelow b mps = All (λ m. m.end < b) mps

EndBelow-le : (a b : ℕ) (mps : List MetaPartition) → a ≤ b → EndBelow a mps → EndBelow b mps
EndBelow-le a b [] h e = tt
EndBelow-le a b (m ∷ mps) h (p, e) = (omega arith, EndBelow-le a b mps h e)

Below-EndBelow :
    (id b : ℕ) (mps : List MetaPartition) → UpTo id mps → EndBelow b mps → Below id b mps
Below-EndBelow id b [] u e = tt
Below-EndBelow id b (m ∷ mps) (p, u) (q, e) = ((p, q), Below-EndBelow id b mps u e)

EndBelow-add_meta_partition :
    (b : ℕ) (mp : MetaPartition) (mps : List MetaPartition)
    → mp.end < b
    → EndBelow b mps
    → EndBelow b (add_meta_partition mps mp)
unfolding add_meta_partition
EndBelow-add_meta_partition b mp [] h e = (h, tt)
EndBelow-add_meta_partition b mp (m ∷ mps) h (p, e) =
    ground (arith, EndBelow-add_meta_partition b mp mps h e)

module _ ⦃R : RocksDb⦄ (s : Strconv) (submit : Submit) where
  submitted-counter :
      (id : ℕ) (m : Master) (r : Option Error × MetadataFsm)
      → m.id_alloc.meta_partition_id ≤ id
      → (submitted id (λ a. record a { meta_partition_id = id }) m r).1.id_alloc.meta_partition_id
        ≤ id
  unfolding submitted
  submitted-counter id m (none, fsm) h = omega arith
  submitted-counter id m (some e, fsm) h = h

  allocate-counter :
      (m : Master)
      → m.id_alloc.meta_partition_id + 1 < 2 ^ 64
      → (allocate_meta_partition_id s submit m).1.id_alloc.meta_partition_id
        ≤ m.id_alloc.meta_partition_id + 1
  unfolding allocate_meta_partition_id
  allocate-counter m h =
      let fits : u64 (m.id_alloc.meta_partition_id + 1) ≡ m.id_alloc.meta_partition_id + 1 =
        omega arith in
      rw fits (submitted-counter (m.id_alloc.meta_partition_id + 1) m _ (omega arith))

  -- What a creation may change: one more number, and one more partition with the range asked for.
  record Grown (b : ℕ) (c c' : Cluster) : Type 0 where
    counter : c'.master.id_alloc.meta_partition_id ≤ c.master.id_alloc.meta_partition_id + 1
    ends : EndBelow b c'.meta_partitions

  created-Grown :
      (b : ℕ) (replicas sync_add : Option Error) (c c' : Cluster) (id start end : ℕ)
      → end < b
      → Grown b c c'
      → Grown b c (created replicas sync_add c' id start end).1
  unfolding created new_meta_partition
  created-Grown b (some e) sync_add c c' id start end h g = g
  created-Grown b none (some e) c c' id start end h g = g
  created-Grown b none none c c' id start end h g = record {
    counter = g.counter;
    ends =
        EndBelow-add_meta_partition b (new_meta_partition id start end) c'.meta_partitions h g.ends;
  }

  numbered-Grown :
      (b : ℕ) (env : Surroundings) (c : Cluster) (start end : ℕ) (r : (ℕ × Option Error) × Master)
      → r.1.id_alloc.meta_partition_id ≤ c.master.id_alloc.meta_partition_id + 1
      → end < b
      → EndBelow b c.meta_partitions
      → Grown b c (numbered env c start end r).1
  unfolding numbered
  numbered-Grown b env c start end ((id, some e), m) h l o = record { counter = h; ends = o }
  numbered-Grown b env c start end ((id, none), m) h l o =
      created-Grown b env.replicas env.sync_add c (record c { master = m }) id start end l
        (record { counter = h; ends = o })

  create_meta_partition-Grown :
      (b : ℕ) (env : Surroundings) (c : Cluster) (start end : ℕ)
      → CanCount s c
      → end < b
      → EndBelow b c.meta_partitions
      → Grown b c (create_meta_partition s submit env c start end).1
  unfolding create_meta_partition
  create_meta_partition-Grown b env c start end n l o = elim (Option-cases env.hosts) [
    | inl e ↦ rw e (
        numbered-Grown b env c start end (allocate_meta_partition_id s submit c.master)
          (allocate-counter c.master n) l o)
    | inr (x, e) ↦ rw e (record { counter = omega arith; ends = o })
  ]

  module _ (strconv : IsStrconv s) (raft : IsRaft s submit) where
    -- A creation where every range ends below the start.
    round-IsValid :
        (env : Surroundings) (c : Cluster) (start end : ℕ)
        → CanCount s c
        → EndBelow start c.meta_partitions
        → IsValid s c
        → IsValid s (create_meta_partition s submit env c start end).1
    round-IsValid env c start end n o v =
        create_meta_partition-IsValid s strconv submit raft env c start end n
          (Below-EndBelow _ start c.meta_partitions (UpTo-max_partition_id c.meta_partitions) o) v

    -- The rounds before the last leave every range below the next start.
    init_loop-IsValid :
        (env : ℕ → Surroundings) (c : Cluster) (left index start end : ℕ)
        → index + left < 2 ^ 39
        → (if index == 0 then start else u64 (end + 1)) ≤ 2 ^ 24 * index + 1
        → EndBelow (if index == 0 then start else u64 (end + 1)) c.meta_partitions
        → c.master.id_alloc.meta_partition_id + left < 2 ^ 64
        → IsValid s c
        → IsValid s (init_loop s submit env c left index start end)
    unfolding init_loop
    init_loop-IsValid env c zero index start end b l o n v = v
    init_loop-IsValid env c (suc zero) index start end b l o n v =
        round-IsValid (env index) c _ _ (omega arith) o v
    init_loop-IsValid env c (suc (suc left)) index start end b l o n v =
        let start' = if index == 0 then start else u64 (end + 1) in
        let end' = u64 (default_meta_partition_inode_id_step * (index + 1)) in
        let fits : u64 (end' + 1) ≡ 2 ^ 24 * (index + 1) + 1 = omega arith in
        let lower : start' ≤ u64 (end' + 1) = omega arith in
        let g =
          create_meta_partition-Grown (u64 (end' + 1)) (env index) c start' end' (omega arith)
            (omega arith) (EndBelow-le start' (u64 (end' + 1)) c.meta_partitions lower o) in
        let later : (index + 1 == 0) ≡ false = ground arith in
        let more : (suc left == 0) ≡ false = ground arith in
        rw more (
          init_loop-IsValid env (create_meta_partition s submit (env index) c start' end').1
            (suc left) (index + 1) start' end' (omega arith) (rw later (omega (arith, fits)))
            (rw later g.ends) (omega (arith, g.counter))
            (round-IsValid (env index) c start' end' (omega arith) o v))

    pub init_meta_partitions-IsValid :
        (env : ℕ → Surroundings) (m : Master) (count : ℕ)
        → count < 2 ^ 39 - 3
        → m.id_alloc.meta_partition_id + count + 3 < 2 ^ 64
        → AtLeast s meta_partitions 0 m
        → IsValid s
            (init_meta_partitions s submit env (record { master = m; meta_partitions = [] }) count)
    unfolding init_meta_partitions max_partition_id
    init_meta_partitions-IsValid env m count b n a =
        let rounds =
          if ltb count default_init_meta_partition_count
          then default_init_meta_partition_count
          else count in
        init_loop-IsValid env (record { master = m; meta_partitions = [] }) rounds 0 0 0
          (ground arith) (omega arith) tt (ground arith) (record { ordered = tt; numbered = a })
