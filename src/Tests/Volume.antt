-- ===== src/Tests/Volume.antt =====
-- The theorems on the ranges of meta partitions at a volume with three.
use cfs.Base.{◌+◌, ◌*◌, ◌-◌, ◌≤◌, ◌^◌, ◌≡◌, refl, arith, [], none, some, true}
use cfs.Bytes.{put_uint}
use cfs.Master.{value_after, apply, same_key, is_delete, cmd_map, written}
use cfs.Master.IdAllocator.{submitted, allocate_meta_partition_id, read_id}
use cfs.Master.Ids.{AtLeast, meta_partitions}
use cfs.Master.Volume.{
  MetaPartition, Surroundings, Cluster, new_meta_partition, created, numbered,
  create_meta_partition, split_at_request, max_partition_id, add_meta_partition, meta_partition,
  init_meta_partitions, init_loop,
}
use cfs.Master.Volume.Order.{Ordered}
use cfs.Master.Volume.Events.{halts, requests, init_meta_partitions-Ordered}
use cfs.Master.Volume.Overlap.{Succeeds, split_at_request-overlap}
use cfs.Tests.Master.{table, strconv, strconv-IsStrconv, submit, submit-IsRaft, fresh, answered}

abbrev well : Surroundings
well = record {
  hosts = none;
  replicas = none;
  sync_add = none;
  sync_update = none;
  is_host = true;
  has_leader = true;
  has_enough = true;
}

abbrev volume : Cluster
volume =
    init_meta_partitions strconv submit (λ _. well)
      (record { master = fresh; meta_partitions = [] }) 3

fresh-AtLeast : AtLeast strconv meta_partitions 0 fresh
unfolding read_id table fresh
fresh-AtLeast = record { counted = omega arith; held = 0; reads = refl; restorable = omega arith }

abbrev cut_volume : Cluster
cut_volume = (split_at_request strconv submit well volume (2 ^ 24 * 4)).1

init_meta_partitions-Ordered_example : Ordered cut_volume.meta_partitions
unfolding table fresh init_meta_partitions init_loop create_meta_partition numbered created
    new_meta_partition add_meta_partition allocate_meta_partition_id submitted answered apply
    is_delete cmd_map written value_after same_key put_uint
init_meta_partitions-Ordered_example =
    init_meta_partitions-Ordered strconv submit strconv-IsStrconv submit-IsRaft (λ _. well) fresh 3
      cut_volume (omega arith) (omega arith) fresh-AtLeast
      (requests volume well (2 ^ 24 * 4) (omega arith) (omega arith) halts)

well-Succeeds : Succeeds strconv submit well
well-Succeeds = record {
  hosts = refl;
  replicas = refl;
  sync_add = refl;
  sync_update = refl;
  has_leader = refl;
}

-- The second partition and the last, which has not reported.
abbrev second : MetaPartition
second = record { partition_id = 2; start = 2 ^ 24 + 1; end = 2 ^ 25; max_node_id = 0 }

abbrev last : MetaPartition
last = record { partition_id = 3; start = 2 ^ 25 + 1; end = 2 ^ 63 - 1; max_node_id = 0 }

split_at_request-overlap_example :
    ((split_at_request strconv submit well volume (2 ^ 24 + 7)).0 ≡ none)
    × (meta_partition (split_at_request strconv submit well volume (2 ^ 24 + 7)).1.meta_partitions 2
        ≡ some second)
    × (meta_partition (split_at_request strconv submit well volume (2 ^ 24 + 7)).1.meta_partitions 4
        ≡ some (new_meta_partition 4 (2 ^ 24 + 8) (2 ^ 63 - 1)))
    × ((2 ^ 24 + 1 ≤ 2 ^ 24 + 8) × (2 ^ 24 + 8 ≤ 2 ^ 25))
unfolding table fresh init_meta_partitions init_loop create_meta_partition numbered created
    new_meta_partition add_meta_partition allocate_meta_partition_id submitted answered apply
    is_delete cmd_map written value_after same_key put_uint meta_partition max_partition_id
split_at_request-overlap_example =
    split_at_request-overlap strconv submit well volume (2 ^ 24 + 7) 4
      (allocate_meta_partition_id strconv submit volume.master).1 second last well-Succeeds refl
      refl refl (omega arith) (omega arith) (omega arith) (omega arith) (omega arith, omega arith)
