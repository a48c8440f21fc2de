-- ===== src/Master/IdAllocator.antt =====
-- The numbers of data partitions, of meta partitions, and of nodes and node sets:
-- master/id_allocator.go. Locks are not modelled: each method runs alone.
use cfs.Base.{ℕ, ◌+◌, [], ◌∷◌, Option, none, some, Error, Result, ok, err, ◌>>=◌}
use cfs.Bytes.{Bytes}
use cfs.Proto.{u64}
use cfs.Master.{
  Key, max_data_partition_id_key, max_meta_partition_id_key, max_common_id_key, RocksDb, Strconv,
  sync_alloc_data_partition_id, sync_alloc_meta_partition_id, sync_alloc_common_id, RaftCmd,
  MetadataFsm,
}

pub record IdAllocator : Type 0 where
  pub data_partition_id : ℕ
  pub meta_partition_id : ℕ
  pub common_id : ℕ

-- What restoreMaxDataPartitionID and its like read from the bytes under their key.
unfoldable pub read_id : Strconv → Bytes → Result ℕ
read_id s [] = ok 0
read_id s (b ∷ bytes) = elim (s.parse_uint (b ∷ bytes)) [ ok id ↦ ok id | err _ ↦ err Error.panic ]

module _ ⦃R : RocksDb⦄ where
  -- RaftCmd.Marshal and raft's Submit: an error or none, and the state machine afterwards.
  abbrev pub Submit : Type 0
  Submit = MetadataFsm → RaftCmd → Option Error × MetadataFsm

  -- An allocator with the store that it shares with the state machine.
  pub record Master : Type 0 where
    pub id_alloc : IdAllocator
    pub fsm : MetadataFsm

  unfoldable pub restore_id : Strconv → R.Db → Key → Result ℕ
  unfolding read_id
  restore_id s db key = elim (R.get_bytes db key) [
    | ok bytes ↦ read_id s bytes
    | err _ ↦ err Error.panic
  ]

  unfoldable pub restore : Strconv → R.Db → Result IdAllocator
  unfolding restore_id
  restore s db = do
    data_partition_id ← restore_id s db max_data_partition_id_key
    meta_partition_id ← restore_id s db max_meta_partition_id_key
    common_id ← restore_id s db max_common_id_key
    ok (record {
      data_partition_id = data_partition_id;
      meta_partition_id = meta_partition_id;
      common_id = common_id;
    })

  -- The number and the error that are returned; the counter is set only if raft answered.
  unfoldable pub submitted :
      ℕ
      → (IdAllocator → IdAllocator)
      → Master
      → Option Error × MetadataFsm
      → (ℕ × Option Error) × Master
  submitted id set m (none, fsm) = ((id, none), record { id_alloc = set m.id_alloc; fsm = fsm })
  submitted id set m (some e, fsm) = ((id, some e), record m { fsm = fsm })

  unfoldable pub allocate_data_partition_id :
      Strconv → Submit → Master → (ℕ × Option Error) × Master
  unfolding submitted
  allocate_data_partition_id s submit m =
      let id = u64 (m.id_alloc.data_partition_id + 1) in
      let cmd : RaftCmd = record {
        op = sync_alloc_data_partition_id;
        k = max_data_partition_id_key;
        v = s.format_uint id;
      } in
      submitted id (λ a. record a { data_partition_id = id }) m (submit m.fsm cmd)

  unfoldable pub allocate_meta_partition_id :
      Strconv → Submit → Master → (ℕ × Option Error) × Master
  unfolding submitted
  allocate_meta_partition_id s submit m =
      let id = u64 (m.id_alloc.meta_partition_id + 1) in
      let cmd : RaftCmd = record {
        op = sync_alloc_meta_partition_id;
        k = max_meta_partition_id_key;
        v = s.format_uint id;
      } in
      submitted id (λ a. record a { meta_partition_id = id }) m (submit m.fsm cmd)

  unfoldable pub allocate_common_id : Strconv → Submit → Master → (ℕ × Option Error) × Master
  unfolding submitted
  allocate_common_id s submit m =
      let id = u64 (m.id_alloc.common_id + 1) in
      let cmd : RaftCmd = record {
        op = sync_alloc_common_id;
        k = max_common_id_key;
        v = s.format_uint id;
      } in
      submitted id (λ a. record a { common_id = id }) m (submit m.fsm cmd)
