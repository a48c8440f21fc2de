-- ===== src/Master.antt =====
-- The store of the master's metadata: raftstore/store_rocksdb.go on gorocksdb, and the commands that
-- raft applies to it, RaftCmd (master/metadata_fsm_op.go) and Apply (master/metadata_fsm.go).
pub mod IdAllocator
pub mod Ids
pub mod Increasing
pub mod Volume
use cfs.Base.{
  ℕ, ◌≡◌, Bool, true, false, ◌&&◌, ◌==◌, if◌then◌else◌, List, [], ◌∷◌, Option, none, some, Error,
  Result, ok, err,
}
use cfs.Bytes.{Bytes}

-- The keys: the index that was applied, the largest numbers, and every other key by its name.
pub data Key : Type 0 where
  applied_key max_data_partition_id_key max_meta_partition_id_key max_common_id_key : Key
  named : Bytes → Key

unfoldable pub same_bytes : Bytes → Bytes → Bool
same_bytes [] [] = true
same_bytes (x ∷ xs) (y ∷ ys) = (x == y) && same_bytes xs ys
same_bytes _ _ = false

unfoldable pub same_key : Key → Key → Bool
unfolding same_bytes
same_key applied_key applied_key = true
same_key max_data_partition_id_key max_data_partition_id_key = true
same_key max_meta_partition_id_key max_meta_partition_id_key = true
same_key max_common_id_key max_common_id_key = true
same_key (named a) (named b) = same_bytes a b
same_key _ _ = false

-- A write batch of gorocksdb: what is put under a key, or `[]` where the key is deleted.
abbrev pub Batch : Type 0
Batch = List (Key × Bytes)

unfoldable pub value_after : Batch → Key → Bytes → Bytes
value_after [] k v = v
value_after ((key, w) ∷ batch) k v = value_after batch k (if same_key key k then w else v)

-- gorocksdb: a database, whose reads and writes may fail. A key that is missing reads as no bytes.
pub record RocksDb : Type 1 where
  pub Db : Type 0
  pub write : Db → Batch → Result Db
  pub get_bytes : Db → Key → Result Bytes
  pub content : Db → Key → Bytes
  pub get_bytes-content : (db : Db) (k : Key) (v : Bytes) → get_bytes db k ≡ ok v → v ≡ content db k
  pub write-content :
      (db db' : Db) (batch : Batch) (k : Key)
      → write db batch ≡ ok db'
      → content db' k ≡ value_after batch k (content db k)

-- strconv's FormatUint and ParseUint in base 10, of 64 bits.
pub record Strconv : Type 0 where
  pub format_uint : ℕ → Bytes
  pub parse_uint : Bytes → Result ℕ

-- The codes of RaftCmd.Op, and any other.
pub data CmdOp : Type 0 where
  sync_add_meta_node sync_add_data_node sync_add_data_partition sync_add_vol : CmdOp
  sync_add_meta_partition sync_update_data_partition sync_update_meta_partition : CmdOp
  sync_delete_data_node sync_delete_meta_node : CmdOp
  sync_alloc_data_partition_id sync_alloc_meta_partition_id sync_alloc_common_id : CmdOp
  sync_put_cluster sync_update_vol sync_delete_vol sync_delete_data_partition : CmdOp
  sync_delete_meta_partition sync_add_node_set sync_update_node_set unknown : CmdOp

pub record RaftCmd : Type 0 where
  pub op : CmdOp
  pub k : Key
  pub v : Bytes

unfoldable pub is_delete : CmdOp → Bool
is_delete sync_delete_data_node = true
is_delete sync_delete_meta_node = true
is_delete sync_delete_vol = true
is_delete sync_delete_data_partition = true
is_delete sync_delete_meta_partition = true
is_delete _ = false

module _ ⦃R : RocksDb⦄ where
  pub record MetadataFsm : Type 0 where
    pub store : R.Db
    pub applied : ℕ

  -- cmdMap, whose entry for `applied` is set last
  unfoldable pub cmd_map : Strconv → RaftCmd → ℕ → Batch
  unfolding same_key
  cmd_map s cmd index =
      let entry : Key × Bytes = (applied_key, s.format_uint index) in
      if same_key cmd.k applied_key then entry ∷ [] else (cmd.k, cmd.v) ∷ entry ∷ []

  -- RocksDBStore.DeleteKeyAndPutIndex: the entries of other keys are put
  unfoldable pub others : Key → Batch → Batch
  unfolding same_key
  others key [] = []
  others key ((k, v) ∷ batch) =
      let rest = others key batch in if same_key k key then rest else (k, v) ∷ rest

  unfoldable pub delete_key_and_put_index : R.Db → Key → Batch → Result R.Db
  unfolding others
  delete_key_and_put_index db key batch = R.write db ((key, []) ∷ others key batch)

  unfoldable pub written : ℕ → Result R.Db → Result MetadataFsm
  written index (ok db) = ok (record { store = db; applied = index })
  written index (err _) = err Error.panic

  -- Apply; a write that fails is a panic.
  unfoldable pub apply : Strconv → MetadataFsm → RaftCmd → ℕ → Result MetadataFsm
  unfolding is_delete cmd_map delete_key_and_put_index written
  apply s mf cmd index =
      let batch = cmd_map s cmd index in
      if is_delete cmd.op
      then written index (delete_key_and_put_index mf.store cmd.k batch)
      else written index (R.write mf.store batch)
