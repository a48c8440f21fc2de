-- ===== src/Master/Volume/Overlap.antt =====
-- A request to cut a volume below a partition that has not reported: updateInodeIDRange of
-- master/cluster.go.
use cfs.Base.{
  ℕ, ◌+◌, ◌-◌, ◌≤◌, ◌<◌, ◌^◌, ◌≡◌, refl, arith, true, false, List, [], ◌∷◌, none, some, ltb, ◌==◌,
  if◌then◌else◌, ◌∙◌,
}
use cfs.Proto.{u64}
use cfs.Master.{RocksDb, Strconv}
use cfs.Master.IdAllocator.{Submit, Master, allocate_meta_partition_id}
use cfs.Master.Volume.{
  MetaPartition, Surroundings, Cluster, new_meta_partition, created, numbered,
  create_meta_partition, update_inode_id_range, split_at_request, max_partition_id, set_end,
  add_meta_partition, meta_partition, default_max_meta_partition_inode_id,
  default_meta_partition_inode_id_step,
}
use cfs.Master.Volume.Order.{partition_id-meta_partition}

meta_partition-add_meta_partition :
    (id : ℕ) (mp : MetaPartition) (mps : List MetaPartition)
    → meta_partition (add_meta_partition mps mp) id
      ≡ (if mp.partition_id == id then some mp else meta_partition mps id)
unfolding meta_partition add_meta_partition
meta_partition-add_meta_partition id mp [] = refl
meta_partition-add_meta_partition id mp (m ∷ mps) =
    ground (arith, meta_partition-add_meta_partition id mp mps)

meta_partition-set_end :
    (id other end : ℕ) (mps : List MetaPartition)
    → (other == id) ≡ false
    → meta_partition (set_end other end mps) id ≡ meta_partition mps id
unfolding meta_partition set_end
meta_partition-set_end id other end [] h = refl
meta_partition-set_end id other end (m ∷ mps) h =
    ground (arith, meta_partition-set_end id other end mps h)

module _ ⦃R : RocksDb⦄ (s : Strconv) (submit : Submit) where
  -- Everything that a creation asks of its surroundings succeeds.
  pub record Succeeds (env : Surroundings) : Type 0 where
    pub hosts : env.hosts ≡ none
    pub replicas : env.replicas ≡ none
    pub sync_add : env.sync_add ≡ none
    pub sync_update : env.sync_update ≡ none
    pub has_leader : env.has_leader ≡ true

  create_meta_partition-Succeeds :
      (env : Surroundings) (c : Cluster) (start end id : ℕ) (m : Master)
      → Succeeds env
      → allocate_meta_partition_id s submit c.master ≡ ((id, none), m)
      → create_meta_partition s submit env c start end ≡ (
        none,
        record {
          master = m;
          meta_partitions = add_meta_partition c.meta_partitions (new_meta_partition id start end);
        },
      )
  unfolding create_meta_partition numbered created
  create_meta_partition-Succeeds env c start end id m w e =
      ground (arith, w.hosts, w.replicas, w.sync_add, e)

  cut : Cluster → Master → MetaPartition → ℕ → ℕ → Cluster
  cut c a k start id = record {
    master = a;
    meta_partitions =
        add_meta_partition (set_end k.partition_id start c.meta_partitions)
          (new_meta_partition id (start + 1) default_max_meta_partition_inode_id);
  }

  split_at_request-cut :
      (env : Surroundings) (c : Cluster) (start id : ℕ) (a : Master) (k : MetaPartition)
      → Succeeds env
      → allocate_meta_partition_id s submit c.master ≡ ((id, none), a)
      → meta_partition c.meta_partitions (max_partition_id c.meta_partitions) ≡ some k
      → k.max_node_id ≤ start
      → start ≤ 2 ^ 63 - 1 - 2 ^ 24
      → split_at_request s submit env c start ≡ (none, cut c a k start id)
  unfolding split_at_request update_inode_id_range cut
  split_at_request-cut env c start id a k w e f n b =
      let fits : u64 (start + 1) ≡ start + 1 = omega arith in
      let reported : ltb start k.max_node_id ≡ false = ground arith in
      let small : ltb (default_max_meta_partition_inode_id - default_meta_partition_inode_id_step)
            start
          ≡ false =
        ground arith in
      rw (f, split_at_request, reported, w.has_leader, small, w.sync_update, fits)
        (create_meta_partition-Succeeds env _ (start + 1) default_max_meta_partition_inode_id id a w
          e)

  -- Where every call of updateInodeIDRange succeeds, the largest inode reported for the last
  -- partition is at or below a start that an older partition covers the successor of, and that
  -- leaves room for a step, and the new partition gets a number above all others, it answers no
  -- error, keeps the older partition as it is and makes one that begins at that successor: an
  -- inode of both.
  pub split_at_request-overlap :
      (env : Surroundings) (c : Cluster) (start id : ℕ) (a : Master) (m k : MetaPartition)
      → Succeeds env
      → allocate_meta_partition_id s submit c.master ≡ ((id, none), a)
      → meta_partition c.meta_partitions (max_partition_id c.meta_partitions) ≡ some k
      → meta_partition c.meta_partitions m.partition_id ≡ some m
      → m.partition_id < max_partition_id c.meta_partitions
      → max_partition_id c.meta_partitions < id
      → k.max_node_id ≤ start
      → start ≤ 2 ^ 63 - 1 - 2 ^ 24
      → (m.start ≤ start + 1) × (start + 1 ≤ m.end)
      → ((split_at_request s submit env c start).0 ≡ none)
        × (meta_partition (split_at_request s submit env c start).1.meta_partitions m.partition_id
            ≡ some m)
        × (meta_partition (split_at_request s submit env c start).1.meta_partitions id
            ≡ some (new_meta_partition id (start + 1) (2 ^ 63 - 1)))
        × ((m.start ≤ start + 1) × (start + 1 ≤ m.end))
  unfolding cut new_meta_partition
  split_at_request-overlap env c start id a m k w e f g l h n b o =
      let same =
        partition_id-meta_partition c.meta_partitions (max_partition_id c.meta_partitions) k f in
      let new = new_meta_partition id (start + 1) default_max_meta_partition_inode_id in
      let mps = set_end k.partition_id start c.meta_partitions in
      let fresh : (id == m.partition_id) ≡ false = ground arith in
      let apart : (k.partition_id == m.partition_id) ≡ false = ground arith in
      let itself : (id == id) ≡ true = ground arith in
      let kept : meta_partition mps m.partition_id ≡ some m =
        meta_partition-set_end m.partition_id k.partition_id start c.meta_partitions apart ∙ g in
      rw (split_at_request-cut env c start id a k w e f n b) (
        refl,
        meta_partition-add_meta_partition m.partition_id new mps ∙ (rw fresh kept),
        meta_partition-add_meta_partition id new mps ∙ (rw itself refl),
        o,
      )
