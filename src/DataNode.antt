-- ===== src/DataNode.antt =====
-- The repair of the replicas of a data partition: datanode/data_partition_repair.go.
pub mod Repair
pub mod Stream
