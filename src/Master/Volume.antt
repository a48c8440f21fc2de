-- ===== src/Master/Volume.antt =====
-- The meta partitions of a volume and the ranges of their inodes: initMetaPartitions of master/vol.go,
-- createMetaPartition and updateInodeIDRange of master/cluster.go, updateInodeIDRange and checkEnd of
-- master/meta_partition.go, updateInodeIDUpperBound of master/cluster_task.go. Locks are not modelled:
-- each runs alone. The map of the partitions is a list, each id once.
pub mod Order
pub mod Ranges
pub mod Events
pub mod Initial
pub mod Overlap
use cfs.Base.{
  ℕ, zero, suc, ◌+◌, ◌-◌, ◌*◌, ◌^◌, Bool, true, false, ◌||◌, not, ltb, ◌==◌, if◌then◌else◌, List,
  [], ◌∷◌, map, find, Option, none, some, Error,
}
use cfs.Proto.{u64}
use cfs.Master.{RocksDb, Strconv}
use cfs.Master.IdAllocator.{Submit, Master, allocate_meta_partition_id}

-- The range of a partition, and the largest inode that one of its replicas has reported.
pub record MetaPartition : Type 0 where
  pub partition_id : ℕ
  pub start : ℕ
  pub end : ℕ
  pub max_node_id : ℕ

abbrev pub default_max_meta_partition_inode_id : ℕ
default_max_meta_partition_inode_id = 2 ^ 63 - 1

abbrev pub default_meta_partition_inode_id_step : ℕ
default_meta_partition_inode_id_step = 2 ^ 24

abbrev pub default_init_meta_partition_count : ℕ
default_init_meta_partition_count = 3

unfoldable pub new_meta_partition : ℕ → ℕ → ℕ → MetaPartition
new_meta_partition partition_id start end = record {
  partition_id = partition_id;
  start = start;
  end = end;
  max_node_id = 0;
}

-- The master at work on one volume that exists: its errors are those of the choice of hosts, of the
-- creation of the replicas, and of the records of a partition in raft.
pub record Surroundings : Type 0 where
  pub hosts : Option Error
  pub replicas : Option Error
  pub sync_add : Option Error
  pub sync_update : Option Error
  pub is_host : Bool
  pub has_leader : Bool
  pub has_enough : Bool

-- maxPartitionID
unfoldable pub max_partition_id : List MetaPartition → ℕ
max_partition_id [] = 0
max_partition_id (mp ∷ mps) =
    let rest = max_partition_id mps in if ltb rest mp.partition_id then mp.partition_id else rest

-- addMetaPartition
unfoldable pub add_meta_partition : List MetaPartition → MetaPartition → List MetaPartition
add_meta_partition [] mp = mp ∷ []
add_meta_partition (m ∷ mps) mp =
    let rest = add_meta_partition mps mp in
    if m.partition_id == mp.partition_id then mp ∷ mps else m ∷ rest

-- The volume with another end for one partition.
unfoldable pub set_end : ℕ → ℕ → List MetaPartition → List MetaPartition
set_end id end =
    map λ (m : MetaPartition). if m.partition_id == id then record m { end = end } else m

unfoldable pub set_max_node_id : ℕ → ℕ → List MetaPartition → List MetaPartition
set_max_node_id id n =
    map λ (m : MetaPartition). if m.partition_id == id then record m { max_node_id = n } else m

-- metaPartition
unfoldable pub meta_partition : List MetaPartition → ℕ → Option MetaPartition
meta_partition mps id = find (λ (m : MetaPartition). m.partition_id == id) mps

module _ ⦃R : RocksDb⦄ where
  pub record Cluster : Type 0 where
    pub master : Master
    pub meta_partitions : List MetaPartition

  -- The part of createMetaPartition after the number: the partition is kept only if its replicas
  -- have been created and the record of it has been written.
  unfoldable pub created :
      Option Error → Option Error → Cluster → ℕ → ℕ → ℕ → Option Error × Cluster
  unfolding new_meta_partition
  created (some e) sync_add c partition_id start end = (some e, c)
  created none (some e) c partition_id start end = (some e, c)
  created none none c partition_id start end =
      let mp = new_meta_partition partition_id start end in
      (none, record c { meta_partitions = add_meta_partition c.meta_partitions mp })

  unfoldable pub numbered :
      Surroundings → Cluster → ℕ → ℕ → (ℕ × Option Error) × Master → Option Error × Cluster
  unfolding created
  numbered env c start end ((_, some e), m) = (some e, record c { master = m })
  numbered env c start end ((id, none), m) =
      created env.replicas env.sync_add (record c { master = m }) id start end

  unfoldable pub create_meta_partition :
      Strconv → Submit → Surroundings → Cluster → ℕ → ℕ → Option Error × Cluster
  unfolding numbered
  create_meta_partition s submit env c start end = elim env.hosts [
    | some e ↦ (some e, c)
    | none ↦ numbered env c start end (allocate_meta_partition_id s submit c.master)
  ]

  -- MetaPartition.updateInodeIDRange; without a leader there is no task, and no error.
  unfoldable pub update_inode_id_range :
      Strconv → Submit → Surroundings → Cluster → MetaPartition → ℕ → Option Error × Cluster
  unfolding set_end create_meta_partition
  update_inode_id_range s submit env c mp end =
      if ltb (default_max_meta_partition_inode_id - default_meta_partition_inode_id_step) end
      then (none, c)
      else if not env.has_leader
      then (none, c)
      else elim env.sync_update [
        | some e ↦ (some Error.persistence_by_raft, c)
        | none ↦
            let c' = record c { meta_partitions = set_end mp.partition_id end c.meta_partitions } in
            create_meta_partition s submit env c' (u64 (end + 1))
              default_max_meta_partition_inode_id
      ]

  -- Cluster.updateInodeIDRange, which an administrator asks for.
  unfoldable pub split_at_request :
      Strconv → Submit → Surroundings → Cluster → ℕ → Option Error × Cluster
  unfolding max_partition_id meta_partition update_inode_id_range
  split_at_request s submit env c start =
      elim (meta_partition c.meta_partitions (max_partition_id c.meta_partitions)) [
        | none ↦ (some Error.meta_partition_not_exists, c)
        | some mp ↦
            if ltb start mp.max_node_id
            then (some Error.invalid_mp_start, c)
            else if not env.has_leader
            then (some Error.no_leader, c)
            else update_inode_id_range s submit env c mp start
      ]

  -- updateMetaPartition, as far as the ranges depend on it, and then updateInodeIDUpperBound.
  unfoldable pub upper_bound : ℕ → ℕ → ℕ
  upper_bound start max_inode_id =
      if max_inode_id == 0
      then u64 (start + default_meta_partition_inode_id_step)
      else u64 (max_inode_id + default_meta_partition_inode_id_step)

  unfoldable pub update_inode_id_upper_bound :
      Strconv → Submit → Surroundings → Cluster → MetaPartition → ℕ → ℕ → Bool → Cluster
  unfolding max_partition_id upper_bound update_inode_id_range
  update_inode_id_upper_bound s submit env c mp start max_inode_id threshold =
      if not threshold || not env.has_leader
      then c
      else if ltb mp.partition_id (max_partition_id c.meta_partitions)
      then c
      else if mp.end == default_max_meta_partition_inode_id
      then (if env.has_enough
          then (update_inode_id_range s submit env c mp (upper_bound start max_inode_id)).1
          else c)
      else c

  unfoldable pub update_meta_node :
      Strconv → Submit → Surroundings → Cluster → ℕ → ℕ → ℕ → Bool → Cluster
  unfolding meta_partition set_max_node_id update_inode_id_upper_bound
  update_meta_node s submit env c id start max_inode_id threshold =
      elim (meta_partition c.meta_partitions id) [
        | none ↦ c
        | some mp ↦
            let reported = set_max_node_id id max_inode_id c.meta_partitions in
            let c' = if env.is_host then record c { meta_partitions = reported } else c in
            update_inode_id_upper_bound s submit env c' mp start max_inode_id threshold
      ]

  -- checkEnd; `seen` is the largest id when the round of checks began.
  unfoldable pub check_end : Surroundings → Cluster → MetaPartition → ℕ → Cluster
  unfolding max_partition_id set_end
  check_end env c mp seen =
      if ltb mp.partition_id seen
      then c
      else if not (mp.partition_id == max_partition_id c.meta_partitions)
      then c
      else if mp.end == default_max_meta_partition_inode_id
      then c
      else elim env.sync_update [
        | some e ↦ c
        | none ↦ record c {
          meta_partitions =
              set_end mp.partition_id default_max_meta_partition_inode_id c.meta_partitions;
        }
      ]

  -- The loop of initMetaPartitions from `index` on, with `left` rounds left, and `end` from the round
  -- before. A creation that fails is logged.
  unfoldable pub init_loop :
      Strconv → Submit → (ℕ → Surroundings) → Cluster → ℕ → ℕ → ℕ → ℕ → Cluster
  unfolding create_meta_partition
  init_loop s submit env c zero index start end = c
  init_loop s submit env c (suc left) index start end =
      let start' = if index == 0 then start else u64 (end + 1) in
      let end' =
        if left == 0
        then default_max_meta_partition_inode_id
        else u64 (default_meta_partition_inode_id_step * (index + 1)) in
      init_loop s submit env (create_meta_partition s submit (env index) c start' end').1 left
        (index + 1) start' end'

  unfoldable pub init_meta_partitions :
      Strconv → Submit → (ℕ → Surroundings) → Cluster → ℕ → Cluster
  unfolding init_loop
  init_meta_partitions s submit env c count =
      let rounds =
        if ltb count default_init_meta_partition_count
        then default_init_meta_partition_count
        else count in
      init_loop s submit env c rounds 0 0 0
