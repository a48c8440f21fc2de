-- ===== src/Lib.antt =====
-- CFS (ChubaoFS): a distributed file system, its metadata and the extents of its data.
--
-- Files and directories live in meta partitions, each a replicated state machine over two ordered
-- trees: inodes by number, and directory entries by parent and name. A client's request is numbered
-- (metanode/partition.go, nextInodeID), written to the raft log, and applied on every replica
-- (metanode/partition_fsm.go, Apply), which dispatches to the operations on inodes
-- (metanode/partition_fsmop_inode.go) and on dentries (metanode/partition_fsmop_dentry.go). These
-- read and write the trees, put inodes without links on the free list, and send the extents of the
-- data that no file holds any more to the deletion channel.
--
-- The master hands out the numbers of partitions and cuts the inode numbers of a volume into the
-- ranges of its meta partitions (master/vol.go). A client (sdk/meta) finds the partition of an inode by
-- those ranges, and turns reads and writes of a file into requests for extents (sdk/data/stream).
-- These lie in the stores of the data nodes (storage/extent_store.go), which compare their replicas
-- and copy what one of them lacks (datanode/data_partition_repair.go).
--
-- Which file models what:
--   Base           names of the libraries passed on, tests on numbers, lemmas on lists, results.
--   Bytes          encoding/binary in big-endian order and bytes.Buffer: what the codecs write and
--                  read. Bytes/RoundTrip and Bytes/Fill: a field is read back.
--   GoogleBtree    the interface of util/btree, a copy of google/btree: a parameter, with the
--                  documented behaviour of its operations as laws over the items in order.
--                  GoogleBtree/SortedList: an instance that runs, which meets all of them.
--   Proto          proto/fs_proto.go: modes, the attribute mask, and the result codes.
--   Proto/ExtentKey          proto/extent_key.go: ExtentKey, Less, MarshalBinary, UnmarshalBinary.
--   Master         the store of the master, on gorocksdb, a parameter with its documented behaviour, and
--                  Apply of master/metadata_fsm.go. Master/IdAllocator: master/id_allocator.go.
--   Master/Volume  the meta partitions of a volume and their ranges: master/vol.go, newMetaPartition,
--                  updateInodeIDRange and checkEnd of master/meta_partition.go, updateInodeIDRange and
--                  createMetaPartition of master/cluster.go, and updateMetaNode of
--                  master/cluster_task.go.
--   Master/Ids     what may happen to the allocator, and what strconv and raft owe to it.
--   Storage        ExtentInfo (storage/extent.go) and the numbers of tiny extents
--                  (storage/extent_store.go). Storage/File: files of package os, a parameter with the
--                  documented behaviour of ReadAt and WriteAt.
--   Storage/Extent storage/extent.go: Write, WriteTiny, Read and ReadTiny, and PersistenceBlockCrc of
--                  storage/persistence_crc.go.
--   Storage/Store  storage/extent_store.go: ExtentStore, Write, Read, Watermark, HasExtent,
--                  GetTinyExtentOffset and extentWithHeader, with a cache that evicts nothing.
--   DataNode/Repair          datanode/data_partition_repair.go: NewDataPartitionRepairTask,
--                            prepareRepairTasks and what it calls. DataNode/Stream:
--                            streamRepairExtent.
--   MetaNode/BTree           metanode/btree.go: the wrapper of the tree.
--   MetaNode/Dentry          metanode/dentry.go: Dentry, Less, Marshal, Unmarshal and their parts.
--   MetaNode/Extents         metanode/extents.go: Append, Size, MarshalBinary, UnmarshalBinary.
--   MetaNode/Inode           metanode/inode.go: Inode, its methods; Inode/Codec: its binary form.
--   MetaNode/FreeList        metanode/free_list.go.
--   MetaNode/Partition       metanode/partition.go: the state, and nextInodeID.
--   MetaNode/Partition/InodeOps    metanode/partition_fsmop_inode.go: fsmCreateInode to fsmSetAttr.
--   MetaNode/Partition/DentryOps   metanode/partition_fsmop_dentry.go: fsmCreateDentry to readDir.
--   MetaNode/Partition/Apply       metanode/partition_fsm.go: Apply, uploadApplyID, and
--                                  fsmUpdatePartition of metanode/partition_fsmop.go.
--   MetaNode/MetaItem        metanode/partition_item.go: MetaItem and its binary form.
--   MetaNode/Snapshot/Iterator     metanode/partition_item.go: NewMetaItemIterator and Next.
--   MetaNode/Snapshot/Restore      metanode/partition_fsm.go: ApplySnapshot, on the items that the raft
--                                  library hands over and the error that ends them.
--   MetaNode/Members         confAddNode, confRemoveNode (metanode/partition_fsmop.go) and
--                            ApplyMemberChange (metanode/partition_fsm.go), with their own state.
--   MetaNode/Requests        packets and their answers: replyInfo (metanode/partition_op_inode.go) and the
--                            Packet methods of proto/packet.go.
--   MetaNode/Requests/Inodes       metanode/partition_op_inode.go: CreateInode to SetAttr.
--   MetaNode/Requests/Dentries     metanode/partition_op_dentry.go: CreateDentry to Lookup.
--   MetaNode/Requests/Extents      metanode/partition_op_extent.go.
--   MetaNode/Requests/Runs         what may happen to a partition between two moments of a client, and
--                                  what raft owes to the handlers, as relations.
--   Int64          Go's int on 64 bits.
--   Sdk/ExtentCache          sdk/data/stream/extent_cache.go: the extents of an open file, Get, Append, and
--                            the requests of a read and of a write.
--   Sdk/Meta                 the statuses of sdk/meta/meta.go.
--   Sdk/Meta/Partition       sdk/meta/partition.go, and updateMetaPartitions of sdk/meta/view.go.
--   Sdk/Meta/Operation       sdk/meta/operation.go: the single requests to a partition.
--   Sdk/Meta/Api             sdk/meta/api.go: the calls composed of them. Sdk/Meta/Create,
--                            Delete and Rename: Create_ll, Delete_ll and Rename_ll.
--   Sdk/Meta/OnePartition    a network that joins Sdk/Meta/Operation to MetaNode/Partition.
--   The other files below Master, MetaNode, Sdk, Storage and DataNode hold proofs, and are named for what they are about.
--   Tests          concrete inodes, dentries and a partition, and the theorems at them.
--
-- How state corresponds: an operation takes the partition and returns its answer and the partition
-- after it. CopyGet hands out the item that the tree holds, so a write to that item is a write to
-- the tree at its key (write_back). A *Inode on the free list is named by its number. What is sent
-- on a channel is appended to a list of the state. The clock, encoding/json and the disk are
-- arguments (Surroundings). Locks are not modelled: the log applies one command at a time. A handler
-- takes the partition and the packet, and raft, encoding/json and the texts of errors are arguments
-- (Services). What chooses hosts, creates replicas and writes to the log is an argument of the master's
-- operations (Surroundings of Master/Volume), and the order in which Go visits a map is one of
-- prepareRepairTasks. The client's calls thread the state of all that lies behind the network (Remote).
--
-- Numbers are natural numbers with the wrap-around of uint32 and uint64 written out (u32, u64);
-- signed fields hold their two's-complement bit pattern. Two loops run on fuel: the reader of
-- extent keys, with the length of the buffer, since a round that goes on takes forty bytes; and
-- internalDelete, with one more than the length, since a round takes eight bytes and the end of the
-- buffer ends it. The calls of Next until it fails (drain) take fuel as well, with a result of its
-- own where it runs out: one call for the index, one for each inode and one for the end. The loop
-- of streamRepairExtent takes as fuel the size that is asked for, since a round that goes on moves the
-- offset. All else is structural recursion.
--
-- Not modelled: the JSON envelope of a command (Apply takes its operation and its value), the
-- command that deletes a partition, which stops it and removes its directory, the files that a
-- snapshot writes, the removal of a member's own partition, sockets, HTTP, metrics and logs, the proxy
-- that passes a request on to the leader, the retries of sendToMetaPartition, BatchInodeGet, whose
-- requests run at once, the master but for its numbers, Apply and the ranges of the meta
-- partitions, the nodes on which partitions are placed, the data nodes but for the repair of
-- extents, the creation and deletion of extents and the eviction from their cache, the crc that a
-- read computes, the crcs that are computed in the background, the FUSE clients and the raft
-- library.
pub mod Base
pub mod Bytes
pub mod GoogleBtree
pub mod Int64
pub mod Proto
pub mod Storage
pub mod DataNode
pub mod Master
pub mod MetaNode
pub mod Sdk
pub mod Tests
