-- ===== src/Master/Ids.antt =====
-- The numbers that master/id_allocator.go hands out, over allocations that succeed or fail, restarts, and the
-- commands that others submit.
use cfs.Base.{
  ℕ, ◌+◌, ◌≤◌, ◌<◌, ◌^◌, ◌≡◌, ◌≢◌, ◌⊎◌, refl, ◌∙◌, true, false, [], ◌∷◌, Option, none, some, Error,
  Result, ok, err, arith,
}
use cfs.Bytes.{Bytes}
use cfs.Proto.{u64}
use cfs.Master.{
  Key, applied_key, max_data_partition_id_key, max_meta_partition_id_key, max_common_id_key,
  same_key, Batch, value_after, RocksDb, Strconv, CmdOp, sync_alloc_data_partition_id,
  sync_alloc_meta_partition_id, sync_alloc_common_id, RaftCmd, is_delete, MetadataFsm, cmd_map,
  others, delete_key_and_put_index, written, apply,
}
use cfs.Master.IdAllocator.{
  IdAllocator, read_id, Submit, Master, restore, submitted, allocate_data_partition_id,
  allocate_meta_partition_id, allocate_common_id,
}

-- What strconv promises: a number is read back, and there is no number in no bytes.
pub record IsStrconv (s : Strconv) : Type 0 where
  pub reads_back : (n : ℕ) → n < 2 ^ 64 → s.parse_uint (s.format_uint n) ≡ ok n
  pub writes : (n : ℕ) → s.format_uint n ≢ []

pub data Kind : Type 0 where
  data_partitions meta_partitions commons : Kind

abbrev pub key_of : Kind → Key
key_of data_partitions = max_data_partition_id_key
key_of meta_partitions = max_meta_partition_id_key
key_of commons = max_common_id_key

abbrev pub id_of : Kind → IdAllocator → ℕ
id_of data_partitions a = a.data_partition_id
id_of meta_partitions a = a.meta_partition_id
id_of commons a = a.common_id

abbrev op_of : Kind → CmdOp
op_of data_partitions = sync_alloc_data_partition_id
op_of meta_partitions = sync_alloc_meta_partition_id
op_of commons = sync_alloc_common_id

abbrev pub set_id : Kind → ℕ → IdAllocator → IdAllocator
set_id data_partitions n a = record a { data_partition_id = n }
set_id meta_partitions n a = record a { meta_partition_id = n }
set_id commons n a = record a { common_id = n }

module _ ⦃R : RocksDb⦄ (s : Strconv) where
  abbrev pub stored : Kind → MetadataFsm → Bytes
  stored kind mf = R.content mf.store (key_of kind)

  written-ok :
      (index : ℕ) (r : Result R.Db) (mf : MetadataFsm) → written index r ≡ ok mf → r ≡ ok mf.store
  unfolding written
  written-ok index (ok db) mf h = ground arith
  written-ok index (err e) mf h = ground arith

  unfoldable batch_of : RaftCmd → ℕ → Batch
  unfolding is_delete cmd_map others
  batch_of cmd index = elim (is_delete cmd.op) [
    | true ↦ (cmd.k, []) ∷ others cmd.k (cmd_map s cmd index)
    | false ↦ cmd_map s cmd index
  ]

  apply-write :
      (mf mf' : MetadataFsm) (cmd : RaftCmd) (index : ℕ)
      → apply s mf cmd index ≡ ok mf'
      → R.write mf.store (batch_of cmd index) ≡ ok mf'.store
  unfolding apply delete_key_and_put_index is_delete batch_of
  apply-write mf mf' cmd index h = written-ok index _ mf' (ground (arith, h))

  apply-content :
      (mf mf' : MetadataFsm) (cmd : RaftCmd) (index : ℕ) (k : Key)
      → apply s mf cmd index ≡ ok mf'
      → R.content mf'.store k ≡ value_after (batch_of cmd index) k (R.content mf.store k)
  apply-content mf mf' cmd index k h =
      R.write-content mf.store mf'.store (batch_of cmd index) k (apply-write mf mf' cmd index h)

  applied-other : (kind : Kind) → same_key applied_key (key_of kind) ≡ false
  unfolding same_key
  applied-other data_partitions = refl
  applied-other meta_partitions = refl
  applied-other commons = refl

  -- A command leaves the other keys alone, where they are not the index that was applied.
  batch_of-others :
      (cmd : RaftCmd) (index : ℕ) (kind : Kind) (v : Bytes)
      → same_key cmd.k (key_of kind) ≡ false
      → value_after (batch_of cmd index) (key_of kind) v ≡ v
  unfolding value_after is_delete cmd_map others batch_of
  batch_of-others cmd index kind v h = ground (arith, h, applied-other kind)

  abbrev pub command : Kind → ℕ → RaftCmd
  command kind id = record { op = op_of kind; k = key_of kind; v = s.format_uint id }

  apply-own :
      (mf mf' : MetadataFsm) (kind : Kind) (id index : ℕ)
      → apply s mf (command kind id) index ≡ ok mf'
      → stored kind mf' ≡ s.format_uint id
  unfolding value_after same_key is_delete cmd_map batch_of
  apply-own mf mf' data_partitions id index h =
      apply-content mf mf' _ index max_data_partition_id_key h
  apply-own mf mf' meta_partitions id index h =
      apply-content mf mf' _ index max_meta_partition_id_key h
  apply-own mf mf' commons id index h = apply-content mf mf' _ index max_common_id_key h

  -- What a successful allocation and a restore leave: the counter is at least `n`, and what a
  -- restore would read is at least the counter.
  pub record AtLeast (kind : Kind) (n : ℕ) (m : Master) : Type 0 where
    pub counted : n ≤ id_of kind m.id_alloc
    pub held : ℕ
    pub reads : read_id s (stored kind m.fsm) ≡ ok held
    pub restorable : id_of kind m.id_alloc ≤ held

  read_id-parse :
      (bytes : Bytes) (n : ℕ) → bytes ≢ [] → s.parse_uint bytes ≡ ok n → read_id s bytes ≡ ok n
  unfolding read_id
  read_id-parse [] n h e = absurd (h refl)
  read_id-parse (b ∷ bytes) n h e = ground (arith, e)

  pub read_id-format_uint : IsStrconv s → (n : ℕ) → n < 2 ^ 64 → read_id s (s.format_uint n) ≡ ok n
  read_id-format_uint c n h = read_id-parse (s.format_uint n) n (c.writes n) (c.reads_back n h)

  -- Commands on other keys than the three of the allocator.
  pub data Others (mf' : MetadataFsm) : MetadataFsm → Type 0 where
    no_more : Others mf' mf'
    other :
        (mf before : MetadataFsm) (cmd : RaftCmd) (index : ℕ)
        → ((kind : Kind) → same_key cmd.k (key_of kind) ≡ false)
        → apply s mf cmd index ≡ ok before
        → Others mf' before
        → Others mf' mf

  pub Others-stored :
      {mf' mf : MetadataFsm} → Others mf' mf → (kind : Kind) → stored kind mf' ≡ stored kind mf
  Others-stored no_more kind = refl
  Others-stored (other mf before cmd index d h r) kind =
      Others-stored r kind
      ∙ apply-content mf before cmd index (key_of kind) h
      ∙ batch_of-others cmd index kind (stored kind mf) (d kind)

  -- The state machine after a command that was applied, others having been applied before it.
  pub record Applied (mf mf' : MetadataFsm) (cmd : RaftCmd) : Type 0 where
    pub before : MetadataFsm
    pub earlier : Others before mf
    pub index : ℕ
    pub result : apply s before cmd index ≡ ok mf'

  -- What raft owes: an answer without an error means that the command was applied; after an error
  -- it may have been applied or not.
  pub record IsRaft (submit : Submit) : Type 0 where
    pub answers :
        (mf mf' : MetadataFsm) (cmd : RaftCmd) → submit mf cmd ≡ (none, mf') → Applied mf mf' cmd
    pub fails :
        (mf mf' : MetadataFsm) (cmd : RaftCmd) (e : Error)
        → submit mf cmd ≡ (some e, mf')
        → Others mf' mf ⊎ Applied mf mf' cmd

  abbrev pub allocate : Submit → Kind → Master → (ℕ × Option Error) × Master
  allocate submit data_partitions m = allocate_data_partition_id s submit m
  allocate submit meta_partitions m = allocate_meta_partition_id s submit m
  allocate submit commons m = allocate_common_id s submit m

  pub allocate_lem :
      (submit : Submit) (kind : Kind) (m : Master)
      → allocate submit kind m ≡ (
          let id = u64 (id_of kind m.id_alloc + 1) in
          submitted id (set_id kind id) m (submit m.fsm (command kind id)))
  unfolding allocate_data_partition_id allocate_meta_partition_id allocate_common_id
  allocate_lem submit data_partitions m = refl
  allocate_lem submit meta_partitions m = refl
  allocate_lem submit commons m = refl

  -- Allocations, restarts and other commands, from one moment to another.
  pub data Runs (submit : Submit) (m' : Master) : Master → Type 0 where
    halts : Runs submit m' m'
    allocates :
        (m : Master) (kind : Kind)
        → id_of kind m.id_alloc + 1 < 2 ^ 64
        → Runs submit m' (allocate submit kind m).1
        → Runs submit m' m
    restores :
        (m : Master) (a : IdAllocator)
        → restore s m.fsm.store ≡ ok a
        → Runs submit m' (record m { id_alloc = a })
        → Runs submit m' m
    commands :
        (m : Master) (fsm : MetadataFsm)
        → Others fsm m.fsm
        → Runs submit m' (record m { fsm = fsm })
        → Runs submit m' m

  pub Applied-own :
      {mf mf' : MetadataFsm} (kind : Kind) (id : ℕ)
      → Applied mf mf' (command kind id)
      → stored kind mf' ≡ s.format_uint id
  Applied-own kind id a = apply-own a.before _ kind id a.index a.result

  -- A command of one kind leaves what is stored for another.
  pub keys_differ : (j k : Kind) → (j ≡ k) ⊎ (same_key (key_of j) (key_of k) ≡ false)
  unfolding same_key
  keys_differ j k = ground arith

  pub Applied-apart :
      {mf mf' : MetadataFsm} (j k : Kind) (id : ℕ)
      → same_key (key_of j) (key_of k) ≡ false
      → Applied mf mf' (command j id)
      → stored k mf' ≡ stored k mf
  Applied-apart j k id d a =
      apply-content a.before _ (command j id) a.index (key_of k) a.result
      ∙ batch_of-others (command j id) a.index k (stored k a.before) d
      ∙ Others-stored a.earlier k

  pub AtLeast-keep :
      (kind : Kind) (n : ℕ) (m m' : Master)
      → stored kind m'.fsm ≡ stored kind m.fsm
      → id_of kind m'.id_alloc ≡ id_of kind m.id_alloc
      → AtLeast kind n m
      → AtLeast kind n m'
  AtLeast-keep kind n m m' e f a = record {
    counted = omega (arith, f, a.counted);
    held = a.held;
    reads = rw e a.reads;
    restorable = omega (arith, f, a.restorable);
  }
