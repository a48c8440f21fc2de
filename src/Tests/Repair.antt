-- ===== src/Tests/Repair.antt =====
-- The theorem on the repair of a data partition at three replicas, of which one is behind.
use cfs.Base.{ℕ, refl, [], ◌∷◌, false, List}
use cfs.Storage.{ExtentInfo}
use cfs.DataNode.Repair.{
  ExtentMap, DataPartitionRepairTask, new_data_partition_repair_task, prepare_repair_tasks, lookup,
  put,
}
use cfs.DataNode.Repair.Largest.{IsVisit}
use cfs.DataNode.Repair.Fixes.{IsFresh, EachAsked, prepare_repair_tasks-asked}

abbrev extent : ℕ → ℕ → ExtentInfo
extent id size = record {
  file_id = id;
  size = size;
  crc = 0;
  is_deleted = false;
  modify_time = 0;
  source = [];
}

abbrev as_listed : ExtentMap → ExtentMap
as_listed m = m

as_listed-IsVisit : IsVisit as_listed
as_listed-IsVisit = record { once = λ m o. o; same = λ m id o. refl }

-- The leader has two extents, one follower a longer one and the other neither.
abbrev tasks : List DataPartitionRepairTask
tasks =
    new_data_partition_repair_task (extent 1024 10 ∷ extent 1025 5 ∷ []) 0 (1 ∷ []) (1 ∷ [])
    ∷ new_data_partition_repair_task (extent 1024 20 ∷ []) 0 (2 ∷ []) (1 ∷ [])
    ∷ new_data_partition_repair_task [] 0 (3 ∷ []) (1 ∷ [])
    ∷ []

IsFresh-leader :
    IsFresh
      (new_data_partition_repair_task (extent 1024 10 ∷ extent 1025 5 ∷ []) 0 (1 ∷ []) (1 ∷ []))
unfolding new_data_partition_repair_task lookup put
IsFresh-leader = record {
  nothing_created = refl;
  nothing_repaired = refl;
  once = (refl, (refl, tt));
}

IsFresh-follower :
    IsFresh (new_data_partition_repair_task (extent 1024 20 ∷ []) 0 (2 ∷ []) (1 ∷ []))
unfolding new_data_partition_repair_task lookup
IsFresh-follower = record { nothing_created = refl; nothing_repaired = refl; once = (refl, tt) }

IsFresh-empty : IsFresh (new_data_partition_repair_task [] 0 (3 ∷ []) (1 ∷ []))
unfolding new_data_partition_repair_task
IsFresh-empty = record { nothing_created = refl; nothing_repaired = refl; once = tt }

prepare_repair_tasks-asked_example :
    EachAsked tasks tasks (prepare_repair_tasks as_listed as_listed as_listed tasks).tasks
prepare_repair_tasks-asked_example =
    prepare_repair_tasks-asked as_listed as_listed as_listed tasks as_listed-IsVisit
      as_listed-IsVisit as_listed-IsVisit (IsFresh-leader, (IsFresh-follower, (IsFresh-empty, tt)))
