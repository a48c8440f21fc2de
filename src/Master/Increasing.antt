-- ===== src/Master/Increasing.antt =====
-- The numbers that master/id_allocator.go hands out increase.
use cfs.Base.{
  ℕ, ◌+◌, ◌≤◌, ◌<◌, ◌^◌, ◌≡◌, refl, sym, ap, subst, inl, inr, false, Option, none, some, Error, ok,
  arith, Result-cases,
}
use cfs.Proto.{u64}
use cfs.Master.{Key, same_key, RocksDb, Strconv, MetadataFsm}
use cfs.Master.IdAllocator.{IdAllocator, read_id, Submit, Master, restore_id, restore, submitted}
use cfs.Master.Ids.{
  IsStrconv, Kind, data_partitions, meta_partitions, commons, key_of, id_of, set_id, stored,
  command, AtLeast, AtLeast-keep, read_id-format_uint, Others-stored, IsRaft, allocate,
  allocate_lem, Runs, halts, allocates, restores, commands, Applied-own, Applied-apart, keys_differ,
}

module _ ⦃R : RocksDb⦄ (s : Strconv) where
  id_of-set_id : (j : Kind) (n : ℕ) (a : IdAllocator) → id_of j (set_id j n a) ≡ n
  id_of-set_id j n a = ground arith

  id_of-other :
      (j k : Kind) (n : ℕ) (a : IdAllocator)
      → same_key (key_of j) (key_of k) ≡ false
      → id_of k (set_id j n a) ≡ id_of k a
  unfolding same_key
  id_of-other j k n a d = ground arith

  module _ (strconv : IsStrconv s) (submit : Submit) (raft : IsRaft s submit) where
    -- The command s of an allocation that was applied stores the number; the counter is at it or below.
    AtLeast-stored :
        (kind : Kind) (n id : ℕ) (m : Master)
        → id < 2 ^ 64
        → stored s kind m.fsm ≡ s.format_uint id
        → n ≤ id_of kind m.id_alloc
        → id_of kind m.id_alloc ≤ id
        → AtLeast s kind n m
    AtLeast-stored kind n id m b e l h = record {
      counted = l;
      held = id;
      reads = rw e (read_id-format_uint s strconv id b);
      restorable = h;
    }

    -- The same kind.
    submitted-own :
        (kind : Kind) (n : ℕ) (m : Master) (r : Option Error × MetadataFsm)
        → id_of kind m.id_alloc + 1 < 2 ^ 64
        → submit m.fsm (command s kind (id_of kind m.id_alloc + 1)) ≡ r
        → AtLeast s kind n m
        → AtLeast s kind n
            (submitted (id_of kind m.id_alloc + 1) (set_id kind (id_of kind m.id_alloc + 1)) m r).1
    unfolding submitted
    submitted-own kind n m (none, fsm) b e a =
        let id = id_of kind m.id_alloc + 1 in
        let c = id_of-set_id kind id m.id_alloc in
        AtLeast-stored kind n id _ b (Applied-own s kind id (raft.answers m.fsm fsm _ e))
          (omega (arith, c, a.counted)) (omega (arith, c))
    submitted-own kind n m (some x, fsm) b e a = elim (raft.fails m.fsm fsm _ x e) [
      | inl o ↦ AtLeast-keep s kind n m _ (Others-stored s o kind) refl a
      | inr o ↦
          AtLeast-stored kind n (id_of kind m.id_alloc + 1) _ b (Applied-own s kind _ o) a.counted
            (omega arith)
    ]

    submitted-other :
        (j k : Kind) (n id : ℕ) (m : Master) (r : Option Error × MetadataFsm)
        → same_key (key_of j) (key_of k) ≡ false
        → submit m.fsm (command s j id) ≡ r
        → AtLeast s k n m
        → AtLeast s k n (submitted id (set_id j id) m r).1
    unfolding submitted
    submitted-other j k n id m (none, fsm) d e a =
        AtLeast-keep s k n m _ (Applied-apart s j k id d (raft.answers m.fsm fsm _ e))
          (id_of-other j k id m.id_alloc d) a
    submitted-other j k n id m (some x, fsm) d e a = elim (raft.fails m.fsm fsm _ x e) [
      | inl o ↦ AtLeast-keep s k n m _ (Others-stored s o k) refl a
      | inr o ↦ AtLeast-keep s k n m _ (Applied-apart s j k id d o) refl a
    ]

    u64-id : (n : ℕ) → n < 2 ^ 64 → u64 n ≡ n
    u64-id n h = omega arith

    pub allocate-AtLeast :
        (j k : Kind) (n : ℕ) (m : Master)
        → id_of j m.id_alloc + 1 < 2 ^ 64
        → AtLeast s k n m
        → AtLeast s k n (allocate s submit j m).1
    allocate-AtLeast j k n m b a = rw (allocate_lem s submit j m) (elim (keys_differ s j k) [
      | inl e ↦ rw (u64-id _ b) (
          subst
            (λ i.
              AtLeast s i n
                (submitted (id_of j m.id_alloc + 1) (set_id j (id_of j m.id_alloc + 1)) m
                  (submit m.fsm (command s j (id_of j m.id_alloc + 1)))).1)
            e (submitted-own j n m _ b refl (subst (λ i. AtLeast s i n m) (sym e) a)))
      | inr d ↦ submitted-other j k n _ m _ d refl a
    ])

    restore_id-content :
        (db : R.Db) (k : Key) (n : ℕ) → restore_id s db k ≡ ok n → read_id s (R.content db k) ≡ ok n
    unfolding restore_id
    restore_id-content db k n h = elim (Result-cases (R.get_bytes db k)) [
      | inl (bytes, e) ↦ rw (sym (R.get_bytes-content db k bytes e)) (ground (arith, h, e))
      | inr (x, e) ↦ ground (arith, h, e)
    ]

    restore-content :
        (mf : MetadataFsm) (a : IdAllocator) (kind : Kind)
        → restore s mf.store ≡ ok a
        → read_id s (stored s kind mf) ≡ ok (id_of kind a)
    unfolding restore
    restore-content mf a data_partitions h = restore_id-content _ _ _ (ground (arith, h))
    restore-content mf a meta_partitions h = restore_id-content _ _ _ (ground (arith, h))
    restore-content mf a commons h = restore_id-content _ _ _ (ground (arith, h))

    restore-AtLeast :
        (kind : Kind) (n : ℕ) (m : Master) (a : IdAllocator)
        → restore s m.fsm.store ≡ ok a
        → AtLeast s kind n m
        → AtLeast s kind n (record m { id_alloc = a })
    restore-AtLeast kind n m a h l =
        let e = restore-content m.fsm a kind h in
        let same : l.held ≡ id_of kind a = ground (arith, e, l.reads) in
        record {
          counted = omega (arith, same, l.counted, l.restorable);
          held = id_of kind a;
          reads = e;
          restorable = omega arith;
        }

    pub Runs-AtLeast :
        {m' m : Master} (kind : Kind) (n : ℕ)
        → Runs s submit m' m
        → AtLeast s kind n m
        → AtLeast s kind n m'
    Runs-AtLeast kind n halts a = a
    Runs-AtLeast kind n (allocates m j b r) a =
        Runs-AtLeast kind n r (allocate-AtLeast j kind n m b a)
    Runs-AtLeast kind n (restores m x h r) a =
        Runs-AtLeast kind n r (restore-AtLeast kind n m x h a)
    Runs-AtLeast kind n (commands m fsm o r) a =
        Runs-AtLeast kind n r (AtLeast-keep s kind n m _ (Others-stored s o kind) refl a)

    submitted-number :
        (kind : Kind) (m : Master) (id n : ℕ) (r : Option Error × MetadataFsm)
        → id < 2 ^ 64
        → submit m.fsm (command s kind id) ≡ r
        → (submitted id (set_id kind id) m r).0 ≡ (n, none)
        → (id ≡ n) × AtLeast s kind n (submitted id (set_id kind id) m r).1
    unfolding submitted
    submitted-number kind m id n (none, fsm) b e h =
        let c = id_of-set_id kind id m.id_alloc in
        let f : id ≡ n = ap (λ p. p.0) h in
        (
          f,
          AtLeast-stored kind n id _ b (Applied-own s kind id (raft.answers m.fsm fsm _ e))
              (omega (arith, c, f)) (omega (arith, c)),
        )
    submitted-number kind m id n (some x, fsm) b e h = ground (arith, h)

    pub allocate-number :
        (kind : Kind) (m : Master) (n : ℕ)
        → id_of kind m.id_alloc + 1 < 2 ^ 64
        → (allocate s submit kind m).0 ≡ (n, none)
        → (id_of kind m.id_alloc + 1 ≡ n) × AtLeast s kind n (allocate s submit kind m).1
    allocate-number kind m n b h =
        rw (allocate_lem s submit kind m, u64-id _ b)
          (submitted-number kind m _ n _ b refl
            (rw (allocate_lem s submit kind m, u64-id _ b) at h))

    -- Where strconv reads back what it writes, and an answer of raft means that the command was
    -- applied and an error that it may have been, a number that allocateDataPartitionID,
    -- allocateMetaPartitionID or allocateCommonID returns without an error is above every number
    -- of its kind that was so returned before, whatever allocations, restores and commands on
    -- other keys ran in between, as long as no counter reaches 2 ^ 64.
    pub allocate-increasing :
        (kind : Kind) (m m' : Master) (n n' : ℕ)
        → id_of kind m.id_alloc + 1 < 2 ^ 64
        → id_of kind m'.id_alloc + 1 < 2 ^ 64
        → (allocate s submit kind m).0 ≡ (n, none)
        → Runs s submit m' (allocate s submit kind m).1
        → (allocate s submit kind m').0 ≡ (n', none)
        → n < n'
    allocate-increasing kind m m' n n' b b' h r h' =
        let a = Runs-AtLeast kind n r (allocate-number kind m n b h).1 in
        omega (arith, a.counted, (allocate-number kind m' n' b' h').0)
