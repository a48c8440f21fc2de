-- ===== src/Storage.antt =====
-- The extents of a data partition: storage/extent.go, storage/extent_store.go and
-- storage/persistence_crc.go.
pub mod File
pub mod Extent
pub mod Store
use cfs.Base.{ℕ, ◌+◌, Bool, leb, ltb, ◌&&◌}
use cfs.Bytes.{Bytes}

-- What a replica tells of an extent.
pub record ExtentInfo : Type 0 where
  pub file_id : ℕ
  pub size : ℕ
  pub crc : ℕ
  pub is_deleted : Bool
  pub modify_time : ℕ
  pub source : Bytes

abbrev pub tiny_extent_start_id : ℕ
tiny_extent_start_id = 1

abbrev pub tiny_extent_count : ℕ
tiny_extent_count = 64

unfoldable pub is_tiny_extent : ℕ → Bool
is_tiny_extent extent_id =
    leb tiny_extent_start_id extent_id && ltb extent_id (tiny_extent_start_id + tiny_extent_count)
