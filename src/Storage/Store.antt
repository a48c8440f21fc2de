-- ===== src/Storage/Store.antt =====
-- storage/extent_store.go: the numbers of a store's extents, and the extents that are open. The cache
-- (storage/extent_cache.go) is a list from which nothing is evicted, and what loadExtentFromDisk answers
-- is an argument.
pub mod Writes
use cfs.Base.{
  ℕ, ◌+◌, ◌*◌, ◌==◌, Bool, not, ◌||◌, if◌then◌else◌, List, [], ◌∷◌, map, find, Option, none, some,
  Error, Result, true, false, ok, err,
}
use cfs.Bytes.{Bytes}
use cfs.Storage.{ExtentInfo, is_tiny_extent}
use cfs.Storage.File.{Files}
use cfs.Storage.Extent.{
  Extent, Opened, check_offset_and_size, page_up, persistence_block_crc, write as write_extent,
  read as read_extent,
}

-- `extentInfoMap[id]`
unfoldable pub info : ℕ → List ExtentInfo → Option ExtentInfo
info id m = find (λ (e : ExtentInfo). e.file_id == id) m

-- A write to the record that the map points to.
unfoldable pub set_info : ExtentInfo → List ExtentInfo → List ExtentInfo
set_info ei = map λ (d : ExtentInfo). if d.file_id == ei.file_id then ei else d

module _ ⦃F : Files⦄ where
  pub record ExtentStore : Type 0 where
    pub extent_info_map : List ExtentInfo
    pub cache : List Extent
    pub verify_extent_fp : F.File

  unfoldable pub has_extent : ExtentStore → ℕ → Bool
  unfolding info
  has_extent s extent_id = elim (info extent_id s.extent_info_map) [ none ↦ false | some _ ↦ true ]

  unfoldable pub watermark : ExtentStore → ℕ → Result ExtentInfo
  unfolding info
  watermark s extent_id = elim (info extent_id s.extent_info_map) [
    | none ↦ err Error.extent_not_found
    | some ei ↦ ok ei
  ]

  unfoldable pub get_tiny_extent_offset : ExtentStore → ℕ → Result ℕ
  unfolding watermark page_up
  get_tiny_extent_offset s extent_id = elim (watermark s extent_id) [
    | err x ↦ err x
    | ok ei ↦ ok (page_up ei.size)
  ]

  -- A write to the extent that the cache points to.
  unfoldable pub set_extent : Extent → List Extent → List Extent
  set_extent e = map λ (d : Extent). if d.extent_id == e.extent_id then e else d

  unfoldable pub extent_with_header :
      (ℕ → Result Extent) → ExtentStore → Option ExtentInfo → Result Extent × ExtentStore
  extent_with_header disk s none = (err Error.extent_not_found, s)
  extent_with_header disk s (some ei) =
      let cached = find (λ (e : Extent). e.extent_id == ei.file_id) s.cache in
      if ei.is_deleted then (err Error.extent_not_found, s) else elim cached [
        | some e ↦ (ok e, s)
        | none ↦ elim (disk ei.file_id) [
          | err x ↦ (err x, s)
          | ok e ↦ (ok e, record s { cache = e ∷ s.cache })
        ]
      ]

  -- UpdateExtentInfo with the crc 0, as Write calls it.
  unfoldable pub update_extent_info : Extent → ExtentInfo → ExtentInfo
  update_extent_info e ei =
      let sized = record ei { size = e.data_size } in
      if is_tiny_extent ei.file_id
      then sized
      else record sized { crc = 0; modify_time = e.modify_time }

  -- The checkOffsetAndSize of the store.
  unfoldable pub check_write : ℕ → ℕ → ℕ → Option Error
  unfolding check_offset_and_size
  check_write extent_id offset size =
      if is_tiny_extent extent_id then none else check_offset_and_size offset size

  -- The extent and its record after the write to the extent.
  unfoldable pub settled :
      ExtentInfo → ExtentStore → Option Error × Opened → Option Error × ExtentStore
  unfolding set_info set_extent update_extent_info
  settled ei s (x, o) =
      let kept = record s {
        cache = set_extent o.e s.cache;
        verify_extent_fp = o.verify_extent_fp;
      } in
      elim x [
        | some y ↦ (some y, kept)
        | none ↦ (
          none,
          record kept { extent_info_map = set_info (update_extent_info o.e ei) s.extent_info_map },
        )
      ]

  unfoldable pub write_found :
      ℕ
      → ℕ
      → ℕ
      → Bytes
      → ℕ
      → Bool
      → Bool
      → ℕ
      → Option ExtentInfo
      → Result Extent × ExtentStore
      → Option Error × ExtentStore
  unfolding check_write settled
  write_found id offset size bytes crc is_update_size is_sync now found (err x, s) = (some x, s)
  write_found id offset size bytes crc is_update_size is_sync now none (ok e, s) =
      (some Error.panic, s)
  write_found id offset size bytes crc is_update_size is_sync now (some ei) (ok e, s) =
      let o : Opened = record { e = e; verify_extent_fp = s.verify_extent_fp } in
      elim (check_write id offset size) [
        | some x ↦ (some x, s)
        | none ↦
            settled ei s (
              write_extent persistence_block_crc bytes offset size crc is_update_size is_sync now o)
      ]

  unfoldable pub write :
      (ℕ → Result Extent)
      → ℕ
      → ℕ
      → ℕ
      → Bytes
      → ℕ
      → Bool
      → Bool
      → ℕ
      → ExtentStore
      → Option Error × ExtentStore
  unfolding info extent_with_header write_found
  write disk id offset size bytes crc is_update_size is_sync now s =
      let found = info id s.extent_info_map in
      write_found id offset size bytes crc is_update_size is_sync now found
        (extent_with_header disk s found)

  unfoldable pub read_found :
      ℕ → ℕ → ℕ → ℕ → Bool → Result Extent × ExtentStore → (Bytes × Option Error) × ExtentStore
  unfolding check_write
  read_found id room offset size is_repair_read (err x, s) = (([], some x), s)
  read_found id room offset size is_repair_read (ok e, s) = elim (check_write id offset size) [
    | some x ↦ (([], some x), s)
    | none ↦ (read_extent room offset size is_repair_read e, s)
  ]

  -- Read into a buffer of `room` bytes.
  unfoldable pub read :
      (ℕ → Result Extent)
      → ℕ
      → ℕ
      → ℕ
      → ℕ
      → Bool
      → ExtentStore
      → (Bytes × Option Error) × ExtentStore
  unfolding info extent_with_header read_found
  read disk id room offset size is_repair_read s =
      read_found id room offset size is_repair_read
        (extent_with_header disk s (info id s.extent_info_map))
