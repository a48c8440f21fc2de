-- ===== src/Master/Volume/Ranges.antt =====
-- The ranges of the meta partitions of a volume over requests, reports and checks: master/cluster.go,
-- master/meta_partition.go, master/cluster_task.go and master/vol.go.
use cfs.Base.{
  ℕ, ◌+◌, ◌-◌, ◌≤◌, ◌<◌, ◌^◌, ◌≡◌, refl, sym, subst, ap, inl, inr, Bool, false, not, ◌||◌, ltb,
  ◌==◌, if◌then◌else◌, Option, none, some, Error, arith, Option-cases, if_intro, find-All,
}
use cfs.Proto.{u64}
use cfs.Master.{RocksDb, Strconv}
use cfs.Master.IdAllocator.{Submit, Master}
use cfs.Master.Ids.{IsStrconv, IsRaft, meta_partitions, AtLeast, allocate}
use cfs.Master.Increasing.{allocate-number, allocate-AtLeast}
use cfs.Master.Volume.{
  MetaPartition, default_max_meta_partition_inode_id, default_meta_partition_inode_id_step,
  new_meta_partition, Surroundings, max_partition_id, set_end, set_max_node_id, meta_partition,
  Cluster, created, numbered, create_meta_partition, update_inode_id_range, split_at_request,
  upper_bound, update_inode_id_upper_bound, update_meta_node, check_end,
}
use cfs.Master.Volume.Order.{
  Ordered, partition_id-meta_partition, StartUpTo, StartUpTo-set_max_node_id, Below,
  UpTo-max_partition_id, Ordered-set_end, Ordered-set_max_node_id, max_partition_id-set_end,
  max_partition_id-set_max_node_id, Below-set_end, Ordered-add_meta_partition, max_partition_id-le,
  UpTo-add_meta_partition,
}

module _ ⦃R : RocksDb⦄ (s : Strconv) where
  -- The partitions are in order, and the allocator is past their numbers, also after a restart.
  pub record IsValid (c : Cluster) : Type 0 where
    pub ordered : Ordered c.meta_partitions
    pub numbered : AtLeast s meta_partitions (max_partition_id c.meta_partitions) c.master

  abbrev Leaves : Option Error × Cluster → Type 0
  Leaves p = IsValid p.1

  AtLeast-le :
      (a b : ℕ) (m : Master) → a ≤ b → AtLeast s meta_partitions b m → AtLeast s meta_partitions a m
  AtLeast-le a b m h l = record {
    counted = omega (arith, l.counted);
    held = l.held;
    reads = l.reads;
    restorable = l.restorable;
  }

  -- One more number can be counted.
  abbrev pub CanCount : Cluster → Type 0
  CanCount c = c.master.id_alloc.meta_partition_id + 1 < 2 ^ 64

  module _ (strconv : IsStrconv s) (submit : Submit) (raft : IsRaft s submit) where
    created-IsValid :
        (replicas sync_add : Option Error) (c : Cluster) (id start end : ℕ)
        → max_partition_id c.meta_partitions < id
        → Below (max_partition_id c.meta_partitions) start c.meta_partitions
        → Ordered c.meta_partitions
        → AtLeast s meta_partitions id c.master
        → IsValid (created replicas sync_add c id start end).1
    unfolding created new_meta_partition
    created-IsValid (some e) sync_add c id start end h b o a = record {
      ordered = o;
      numbered = AtLeast-le _ id c.master (omega arith) a;
    }
    created-IsValid none (some e) c id start end h b o a = record {
      ordered = o;
      numbered = AtLeast-le _ id c.master (omega arith) a;
    }
    created-IsValid none none c id start end h b o a =
        let mp = new_meta_partition id start end in
        let up = UpTo-add_meta_partition _ start mp c.meta_partitions h b in
        record {
          ordered = Ordered-add_meta_partition _ mp c.meta_partitions h b o;
          numbered = AtLeast-le _ id c.master (max_partition_id-le id _ up) a;
        }

    numbered-IsValid :
        (env : Surroundings) (c : Cluster) (start end : ℕ) (r : (ℕ × Option Error) × Master)
        → CanCount c
        → Below (max_partition_id c.meta_partitions) start c.meta_partitions
        → IsValid c
        → allocate s submit meta_partitions c.master ≡ r
        → IsValid (numbered env c start end r).1
    unfolding numbered
    numbered-IsValid env c start end ((id, some x), m) n b v e =
        let after =
          allocate-AtLeast s strconv submit raft meta_partitions meta_partitions _ c.master n
            v.numbered in
        record {
          ordered = v.ordered;
          numbered =
              subst (λ m. AtLeast s meta_partitions (max_partition_id c.meta_partitions) m)
                (ap (λ p. p.1) e) after;
        }
    numbered-IsValid env c start end ((id, none), m) n b v e =
        let (same, a) =
          allocate-number s strconv submit raft meta_partitions c.master id n (ap (λ p. p.0) e) in
        created-IsValid env.replicas env.sync_add (record c { master = m }) id start end
          (omega (arith, same, v.numbered.counted)) b v.ordered
          (subst (AtLeast s meta_partitions id) (ap (λ p. p.1) e) a)

    pub create_meta_partition-IsValid :
        (env : Surroundings) (c : Cluster) (start end : ℕ)
        → CanCount c
        → Below (max_partition_id c.meta_partitions) start c.meta_partitions
        → IsValid c
        → IsValid (create_meta_partition s submit env c start end).1
    unfolding create_meta_partition
    create_meta_partition-IsValid env c start end n b v = elim (Option-cases env.hosts) [
      | inl e ↦ rw e (numbered-IsValid env c start end _ n b v refl)
      | inr (x, e) ↦ rw e v
    ]

    set_end-IsValid :
        (c : Cluster) (end : ℕ)
        → IsValid c
        → IsValid (record c {
          meta_partitions = set_end (max_partition_id c.meta_partitions) end c.meta_partitions;
        })
    set_end-IsValid c end v =
        let mps = c.meta_partitions in
        record {
          ordered =
              Ordered-set_end (max_partition_id mps) end mps (UpTo-max_partition_id mps) v.ordered;
          numbered = rw (max_partition_id-set_end (max_partition_id mps) end mps) v.numbered;
        }

    -- The partition with the highest number, cut at an inode that is not below its range.
    cut-IsValid :
        (env : Surroundings) (c : Cluster) (end : ℕ)
        → CanCount c
        → StartUpTo end c.meta_partitions
        → IsValid c
        → IsValid
            (create_meta_partition s submit env
              (record c {
                meta_partitions =
                    set_end (max_partition_id c.meta_partitions) end c.meta_partitions;
              })
              (end + 1)
              default_max_meta_partition_inode_id).1
    cut-IsValid env c end n h v =
        let mps = c.meta_partitions in
        let id = max_partition_id mps in
        let below = Below-set_end id end mps refl v.ordered h in
        create_meta_partition-IsValid env _ (end + 1) default_max_meta_partition_inode_id n
          (subst (λ i. Below i (end + 1) (set_end id end mps))
            (sym (max_partition_id-set_end id end mps)) below)
          (set_end-IsValid c end v)

    least : (a b : ℕ) → a ≤ b → ltb a b ≡ false → a ≡ b
    least a b h l = ground arith

    same_of_test : (a b : ℕ) → not (a == b) ≡ false → a ≡ b
    same_of_test a b h = ground arith

    next_fits :
        (end : ℕ)
        → ltb (default_max_meta_partition_inode_id - default_meta_partition_inode_id_step) end
          ≡ false
        → u64 (end + 1) ≡ end + 1
    next_fits end h = ground arith

    update_inode_id_range-IsValid :
        (env : Surroundings) (c : Cluster) (mp : MetaPartition) (end : ℕ)
        → CanCount c
        → mp.partition_id ≡ max_partition_id c.meta_partitions
        → StartUpTo end c.meta_partitions
        → IsValid c
        → IsValid (update_inode_id_range s submit env c mp end).1
    unfolding update_inode_id_range
    update_inode_id_range-IsValid env c mp end n e h v =
        if_intro Leaves
          (ltb (default_max_meta_partition_inode_id - default_meta_partition_inode_id_step) end)
          (none, c) _ (λ l. v)
          λ l.
            if_intro Leaves (not env.has_leader) (none, c) _ (λ b. v)
              λ b. elim (Option-cases env.sync_update) [
                | inr (x, u) ↦ rw u v
                | inl u ↦
                    let fits = next_fits end l in rw (u, e, fits) (cut-IsValid env c end n h v)
              ]

    pub split_at_request-IsValid :
        (env : Surroundings) (c : Cluster) (start : ℕ)
        → CanCount c
        → StartUpTo start c.meta_partitions
        → IsValid c
        → IsValid (split_at_request s submit env c start).1
    unfolding split_at_request
    split_at_request-IsValid env c start n h v =
        elim (Option-cases
          (meta_partition c.meta_partitions (max_partition_id c.meta_partitions))) [
            | inl e ↦ rw (e, split_at_request) v
            | inr (k, e) ↦
                let same = partition_id-meta_partition c.meta_partitions _ k e in
                let cut = update_inode_id_range s submit env c k start in
                let led = if not env.has_leader then (some Error.no_leader, c) else cut in
                rw (e, split_at_request)
                  (if_intro Leaves (ltb start k.max_node_id) (some Error.invalid_mp_start, c) led
                    (λ l. v)
                    λ l.
                      if_intro Leaves (not env.has_leader) (some Error.no_leader, c) cut (λ b. v)
                        λ b. update_inode_id_range-IsValid env c k start n same h v)
          ]

    pub check_end-IsValid :
        (env : Surroundings) (c : Cluster) (mp : MetaPartition) (seen : ℕ)
        → IsValid c
        → IsValid (check_end env c mp seen)
    unfolding check_end
    check_end-IsValid env c mp seen v =
        if_intro IsValid (ltb mp.partition_id seen) c _ (λ l. v)
          λ l.
            if_intro IsValid (not (mp.partition_id == max_partition_id c.meta_partitions)) c _
              (λ b. v)
              λ b.
                if_intro IsValid (mp.end == default_max_meta_partition_inode_id) c _ (λ d. v)
                  λ d. elim (Option-cases env.sync_update) [
                    | inr (x, u) ↦ rw u v
                    | inl u ↦
                        let same = same_of_test mp.partition_id _ b in
                        rw (u, same) (set_end-IsValid c default_max_meta_partition_inode_id v)
                  ]

    set_max_node_id-IsValid :
        (c : Cluster) (id n : ℕ)
        → IsValid c
        → IsValid (record c { meta_partitions = set_max_node_id id n c.meta_partitions })
    set_max_node_id-IsValid c id n v = record {
      ordered = Ordered-set_max_node_id id n c.meta_partitions v.ordered;
      numbered = rw (max_partition_id-set_max_node_id id n c.meta_partitions) v.numbered;
    }

    upper_bound-IsValid :
        (env : Surroundings) (c : Cluster) (mp : MetaPartition) (start n : ℕ) (threshold : Bool)
        → CanCount c
        → StartUpTo (upper_bound start n) c.meta_partitions
        → mp.partition_id ≤ max_partition_id c.meta_partitions
        → IsValid c
        → IsValid (update_inode_id_upper_bound s submit env c mp start n threshold)
    unfolding update_inode_id_upper_bound
    upper_bound-IsValid env c mp start n threshold a h u v =
        if_intro IsValid (not threshold || not env.has_leader) c _ (λ l. v)
          λ l.
            if_intro IsValid (ltb mp.partition_id (max_partition_id c.meta_partitions)) c _ (λ b. v)
              λ b.
                if_intro IsValid (mp.end == default_max_meta_partition_inode_id) _ c
                  (λ d.
                    if_intro IsValid env.has_enough _ c
                      (λ f.
                        update_inode_id_range-IsValid env c mp _ a (least mp.partition_id _ u b) h
                          v)
                      (λ f. v))
                  (λ d. v)

    pub update_meta_node-IsValid :
        (env : Surroundings) (c : Cluster) (id start n : ℕ) (threshold : Bool)
        → CanCount c
        → StartUpTo (upper_bound start n) c.meta_partitions
        → IsValid c
        → IsValid (update_meta_node s submit env c id start n threshold)
    unfolding update_meta_node
    update_meta_node-IsValid env c id start n threshold a h v =
        elim (Option-cases (meta_partition c.meta_partitions id)) [
          | inl e ↦ rw (e, update_meta_node) v
          | inr (mp, e) ↦
              let mps = c.meta_partitions in
              let u =
                find-All (λ (m : MetaPartition). m.partition_id ≤ max_partition_id mps)
                  (λ m. m.partition_id == id) mps mp (UpTo-max_partition_id mps) e in
              let reported = record c { meta_partitions = set_max_node_id id n mps } in
              rw (e, update_meta_node)
                (if_intro
                  (λ d. IsValid (update_inode_id_upper_bound s submit env d mp start n threshold))
                  env.is_host reported c
                  (λ b.
                    upper_bound-IsValid env reported mp start n threshold a
                      (StartUpTo-set_max_node_id _ id n mps h)
                      (rw (max_partition_id-set_max_node_id id n mps) u)
                      (set_max_node_id-IsValid c id n v))
                  (λ b. upper_bound-IsValid env c mp start n threshold a h u v))
        ]
