-- ===== src/DataNode/Repair.antt =====
-- datanode/data_partition_repair.go: which replicas lack what, and the leader's part of the repair. A map
-- from numbers to extents is a list in which each number is used once, and Go visits it in any order.
pub mod Largest
pub mod Fixes
use cfs.Base.{
  ℕ, suc, ◌+◌, Bool, true, false, not, ltb, ◌==◌, if◌then◌else◌, List, [], ◌∷◌, ◌++◌, find, Option,
  none, some, Error,
}
use cfs.Bytes.{Bytes}
use cfs.Storage.{ExtentInfo, is_tiny_extent}

abbrev pub ExtentMap : Type 0
ExtentMap = List ExtentInfo

pub record DataPartitionRepairTask : Type 0 where
  pub addr : Bytes
  pub extents : ExtentMap
  pub extents_to_be_created : List ExtentInfo
  pub extents_to_be_repaired : List ExtentInfo
  pub leader_tiny_delete_file_size : ℕ
  pub leader_addr : Bytes

-- `m[id]`
unfoldable pub lookup : ℕ → ExtentMap → Option ExtentInfo
lookup id m = find (λ (e : ExtentInfo). e.file_id == id) m

-- `m[e.FileID] = e`
unfoldable pub put : ExtentInfo → ExtentMap → ExtentMap
put e [] = e ∷ []
put e (d ∷ m) = let rest = put e m in if d.file_id == e.file_id then e ∷ m else d ∷ rest

unfoldable pub with_source : Bytes → List ExtentInfo → ExtentMap → ExtentMap
unfolding put
with_source source [] m = m
with_source source (e ∷ es) m = with_source source es (put (record e { source = source }) m)

-- The address is set by the callers.
unfoldable pub new_data_partition_repair_task :
    List ExtentInfo → ℕ → Bytes → Bytes → DataPartitionRepairTask
unfolding with_source
new_data_partition_repair_task extent_files tiny_delete_file_size source leader_addr = record {
  addr = [];
  extents = with_source source extent_files [];
  extents_to_be_created = [];
  extents_to_be_repaired = [];
  leader_tiny_delete_file_size = tiny_delete_file_size;
  leader_addr = leader_addr;
}

-- The body of the inner loop of prepareRepairTasks.
unfoldable pub larger : ExtentInfo → Option ExtentInfo → Bool
larger e none = true
larger e (some m) = ltb m.size e.size

unfoldable pub collect_one : ExtentInfo → ExtentMap → ExtentMap
unfolding lookup put larger
collect_one e m = if e.is_deleted then m else if larger e (lookup e.file_id m) then put e m else m

unfoldable pub collect : ExtentMap → List ExtentInfo → ExtentMap
unfolding collect_one
collect m [] = m
collect m (e ∷ es) = collect (collect_one e m) es

unfoldable pub collect_all :
    (ExtentMap → ExtentMap) → ExtentMap → List DataPartitionRepairTask → ExtentMap
unfolding collect
collect_all visit m [] = m
collect_all visit m (t ∷ tasks) = collect_all visit (collect m (visit t.extents)) tasks

-- The extent that a repair asks for.
unfoldable pub wanted : ExtentInfo → ExtentInfo
wanted e = record {
  file_id = e.file_id;
  size = e.size;
  crc = 0;
  is_deleted = false;
  modify_time = 0;
  source = e.source;
}

unfoldable pub create_on : ExtentInfo → DataPartitionRepairTask → DataPartitionRepairTask
unfolding wanted lookup is_tiny_extent
create_on info t = if is_tiny_extent info.file_id then t else elim (lookup info.file_id t.extents) [
  | some _ ↦ t
  | none ↦ if info.is_deleted then t else record t {
    extents_to_be_created = t.extents_to_be_created ++ wanted info ∷ [];
    extents_to_be_repaired = t.extents_to_be_repaired ++ wanted info ∷ [];
  }
]

abbrev pub each :
    (DataPartitionRepairTask → DataPartitionRepairTask)
    → List DataPartitionRepairTask
    → List DataPartitionRepairTask
each f [] = []
each f (t ∷ tasks) = f t ∷ each f tasks

-- buildExtentCreationTasks, on the extents in the order of the visit.
unfoldable pub build_extent_creation_tasks :
    List ExtentInfo → List DataPartitionRepairTask → List DataPartitionRepairTask
unfolding create_on
build_extent_creation_tasks [] tasks = tasks
build_extent_creation_tasks (info ∷ infos) tasks =
    build_extent_creation_tasks infos (each (create_on info) tasks)

-- Whether the replica has the extent, not deleted, and shorter.
unfoldable pub is_short : ExtentInfo → DataPartitionRepairTask → Bool
unfolding lookup
is_short info t = elim (lookup info.file_id t.extents) [
  | none ↦ false
  | some e ↦ if e.is_deleted then false else ltb e.size info.size
]

unfoldable pub repair_on : ExtentInfo → DataPartitionRepairTask → DataPartitionRepairTask
unfolding is_short wanted
repair_on info t =
    if is_short info t
    then record t { extents_to_be_repaired = t.extents_to_be_repaired ++ wanted info ∷ [] }
    else t

-- hasBeenRepaired
unfoldable pub none_short : ExtentInfo → List DataPartitionRepairTask → Bool
unfolding is_short
none_short info [] = true
none_short info (t ∷ tasks) =
    let rest = none_short info tasks in if is_short info t then false else rest

pub record Sorted : Type 0 where
  pub tasks : List DataPartitionRepairTask
  pub available_tiny_extents : List ℕ
  pub broken_tiny_extents : List ℕ

unfoldable pub sort_tiny : ExtentInfo → Bool → Sorted → Sorted
unfolding is_tiny_extent
sort_tiny info repaired r =
    if is_tiny_extent info.file_id
    then (if repaired
        then record r { available_tiny_extents = r.available_tiny_extents ++ info.file_id ∷ [] }
        else record r { broken_tiny_extents = r.broken_tiny_extents ++ info.file_id ∷ [] })
    else r

unfoldable pub build_extent_repair_tasks : List ExtentInfo → Sorted → Sorted
unfolding repair_on none_short sort_tiny
build_extent_repair_tasks [] r = r
build_extent_repair_tasks (info ∷ infos) r =
    build_extent_repair_tasks infos (
      sort_tiny info (none_short info r.tasks) (record r { tasks = each (repair_on info) r.tasks }))

-- prepareRepairTasks; the maps are visited in the orders given.
unfoldable pub prepare_repair_tasks :
    (visit creating repairing : ExtentMap → ExtentMap) → List DataPartitionRepairTask → Sorted
unfolding collect_all build_extent_creation_tasks build_extent_repair_tasks
prepare_repair_tasks visit creating repairing tasks =
    let largest = collect_all visit [] tasks in
    build_extent_repair_tasks (repairing largest) (record {
      tasks = build_extent_creation_tasks (creating largest) tasks;
      available_tiny_extents = [];
      broken_tiny_extents = [];
    })
