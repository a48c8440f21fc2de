-- ===== src/Tests.antt =====
-- Tests and instances of the theorems at concrete inputs, over trees that are ascending lists.
mod ExtentCache
mod Codecs
mod Entries
mod Extents
mod Master
mod Volume
mod Extent
mod Stream
mod Repair
mod Members
mod Meta
mod Partition
mod Requests
mod Snapshot
pub mod Samples
