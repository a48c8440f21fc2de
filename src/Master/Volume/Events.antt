-- ===== src/Master/Volume/Events.antt =====
-- What happens to a volume: an administrator's requests (master/cluster.go), the reports of its
-- replicas (master/cluster_task.go) and the checks of the master (master/vol.go).
use cfs.Base.{ℕ, ◌+◌, ◌-◌, ◌<◌, ◌^◌, Bool, []}
use cfs.Master.{RocksDb, Strconv}
use cfs.Master.IdAllocator.{Submit, Master}
use cfs.Master.Ids.{IsStrconv, IsRaft, AtLeast, meta_partitions, Runs}
use cfs.Master.Increasing.{Runs-AtLeast}
use cfs.Master.Volume.{
  MetaPartition, Surroundings, Cluster, split_at_request, upper_bound, update_meta_node, check_end,
  init_meta_partitions, max_partition_id,
}
use cfs.Master.Volume.Initial.{init_meta_partitions-IsValid}
use cfs.Master.Volume.Order.{Ordered, StartUpTo}
use cfs.Master.Volume.Ranges.{
  IsValid, CanCount, split_at_request-IsValid, check_end-IsValid, update_meta_node-IsValid,
}

module _ ⦃R : RocksDb⦄ (s : Strconv) (submit : Submit) where
  -- A request or a report cuts the volume at an inode that is at or above the start of every partition.
  pub data Events (c' : Cluster) : Cluster → Type 0 where
    halts : Events c' c'
    requests :
        (c : Cluster) (env : Surroundings) (start : ℕ)
        → CanCount s c
        → StartUpTo start c.meta_partitions
        → Events c' (split_at_request s submit env c start).1
        → Events c' c
    reports :
        (c : Cluster) (env : Surroundings) (id start max_inode_id : ℕ) (threshold : Bool)
        → CanCount s c
        → StartUpTo (upper_bound start max_inode_id) c.meta_partitions
        → Events c' (update_meta_node s submit env c id start max_inode_id threshold)
        → Events c' c
    checks :
        (c : Cluster) (env : Surroundings) (mp : MetaPartition) (seen : ℕ)
        → Events c' (check_end env c mp seen)
        → Events c' c
    others :
        (c : Cluster) (m : Master)
        → Runs s submit m c.master
        → Events c' (record c { master = m })
        → Events c' c

  module _ (strconv : IsStrconv s) (raft : IsRaft s submit) where
    pub Events-IsValid : {c' c : Cluster} → Events c' c → IsValid s c → IsValid s c'
    Events-IsValid halts v = v
    Events-IsValid (requests c env start n h r) v =
        Events-IsValid r (split_at_request-IsValid s strconv submit raft env c start n h v)
    Events-IsValid (reports c env id start i threshold n h r) v =
        Events-IsValid r
          (update_meta_node-IsValid s strconv submit raft env c id start i threshold n h v)
    Events-IsValid (checks c env mp seen r) v =
        Events-IsValid r (check_end-IsValid s strconv submit raft env c mp seen v)
    Events-IsValid (others c m q r) v = Events-IsValid r (record {
      ordered = v.ordered;
      numbered =
          Runs-AtLeast s strconv submit raft meta_partitions (max_partition_id c.meta_partitions) q
            v.numbered;
    })

    -- A volume starts without partitions, with a stored counter; then, after initMetaPartitions,
    -- whatever creations fail in it, and after any requests to cut it and reports of its replicas
    -- at inodes at or above the start of every partition, checks of its last partition, and
    -- commands on the log that leave its numbers as they are, each of its partitions ends below
    -- the start of every partition with a larger number; provided that strconv reads back what it
    -- writes, that an answer of raft means that the command was applied, that the volume is made
    -- of fewer than 2 ^ 39 - 3 partitions and that no counter reaches 2 ^ 64.
    pub init_meta_partitions-Ordered :
        (env : ℕ → Surroundings) (m : Master) (count : ℕ) (c' : Cluster)
        → count < 2 ^ 39 - 3
        → m.id_alloc.meta_partition_id + count + 3 < 2 ^ 64
        → AtLeast s meta_partitions 0 m
        → Events c'
            (init_meta_partitions s submit env (record { master = m; meta_partitions = [] }) count)
        → Ordered c'.meta_partitions
    init_meta_partitions-Ordered env m count c' b n a r =
        (Events-IsValid r
          (init_meta_partitions-IsValid s submit strconv raft env m count b n a)).ordered
