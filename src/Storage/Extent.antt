-- ===== src/Storage/Extent.antt =====
-- storage/extent.go, and PersistenceBlockCrc of storage/persistence_crc.go. Go's int64 is a bit pattern
-- (Int64). The header holds four bytes for each block, the crc: it is a function from blocks here.
-- Locks are not modelled: the store calls each operation with the lock of the extent.
pub mod Checks
pub mod Crcs
pub mod Numbers
pub mod RoundTrip
pub mod Tiny
use cfs.Base.{
  ℕ, zero, suc, ◌+◌, ◌-◌, ◌*◌, ◌/◌, ◌%◌, ◌^◌, Bool, true, false, not, ◌&&◌, ◌||◌, ltb, leb, ◌==◌,
  if◌then◌else◌, List, [], ◌∷◌, ◌++◌, length, Option, none, some, Error,
}
use cfs.Bytes.{Bytes, take, put_uint}
use cfs.Int64.{int_add, int_lt, int_le}
use cfs.Proto.{u64}
use cfs.Storage.{is_tiny_extent}
use cfs.Storage.File.{Files}

abbrev pub block_size : ℕ
block_size = 131072

abbrev pub block_count : ℕ
block_count = 1024

abbrev pub page_size : ℕ
page_size = 4096

abbrev pub per_block_crc_size : ℕ
per_block_crc_size = 4

abbrev pub block_header_size : ℕ
block_header_size = 4096

abbrev pub max_uint32 : ℕ
max_uint32 = 2 ^ 32 - 1

unfoldable pub set_crc : (ℕ → ℕ) → ℕ → ℕ → ℕ → ℕ
set_crc header block_no crc b = if b == block_no then crc else header b

-- checkOffsetAndSize
unfoldable pub check_offset_and_size : ℕ → ℕ → Option Error
unfolding int_add int_lt int_le
check_offset_and_size offset size =
    if int_lt (block_size * block_count) (int_add offset size)
    then some Error.parameter_mismatch
    else if int_le (block_count * block_size) offset || size == 0
    then some Error.parameter_mismatch
    else if int_lt block_size size
    then some Error.parameter_mismatch
    else none

-- `data[:size]`
unfoldable pub front : ℕ → Bytes → Option Bytes
unfolding take
front size bytes = if leb size (length bytes) then some (take size bytes) else none

-- A size up to the end of its page; a negative one, which Go rounds otherwise, is not modelled.
unfoldable pub page_up : ℕ → ℕ
page_up n = if n % page_size == 0 then n else n + (page_size - n % page_size)

module _ ⦃F : Files⦄ where
  pub record Extent : Type 0 where
    pub file : F.File
    pub extent_id : ℕ
    pub modify_time : ℕ
    pub data_size : ℕ
    pub header : ℕ → ℕ

  -- An extent, and the file of the store with the crcs of all extents.
  pub record Opened : Type 0 where
    pub e : Extent
    pub verify_extent_fp : F.File

  abbrev pub UpdateCrcFunc : Type 0
  UpdateCrcFunc = Opened → ℕ → ℕ → Option Error × Opened

  unfoldable pub verified : Opened → Option Error × F.File → Option Error × Opened
  verified o (e, fp) = (e, record o { verify_extent_fp = fp })

  -- A block past the header is a panic.
  unfoldable pub persistence_block_crc : UpdateCrcFunc
  unfolding set_crc verified int_add
  persistence_block_crc o block_no crc =
      let start_idx = block_no * per_block_crc_size in
      let verify_start = int_add start_idx (u64 (block_header_size * o.e.extent_id)) in
      let e' = record o.e { header = set_crc o.e.header block_no crc } in
      if ltb block_no block_count
      then verified (record o { e = e' })
          (F.write_at o.verify_extent_fp (put_uint per_block_crc_size crc) verify_start)
      else (some Error.panic, o)

  unfoldable pub tiny_written :
      ℕ → Bool → Bool → Opened → Option Error × F.File → Option Error × Opened
  unfolding page_up
  tiny_written index is_update_size is_sync o (some x, fp) =
      (some x, record o { e = record o.e { file = fp } })
  tiny_written index is_update_size is_sync o (none, fp) =
      let kept = record o { e = record o.e { file = fp } } in
      let grown = record o { e = record o.e { file = fp; data_size = page_up index } } in
      let synced = if is_sync then F.sync fp else none in
      elim synced [
        | some x ↦ (some x, kept)
        | none ↦ (none, if is_update_size then grown else kept)
      ]

  unfoldable pub write_tiny : Bytes → ℕ → ℕ → Bool → Bool → Opened → Option Error × Opened
  unfolding int_add int_le front tiny_written
  write_tiny bytes offset size is_update_size is_sync o =
      let index = int_add offset size in
      if int_le max_uint32 index then (some Error.extent_is_full, o) else elim (front size bytes) [
        | none ↦ (some Error.panic, o)
        | some part ↦ tiny_written index is_update_size is_sync o (F.write_at o.e.file part offset)
      ]

  -- The deferred update: the extent grows to the end of what was written. math.Max rounds to a
  -- float64, which is exact below 2 ^ 53, far above the size of an extent.
  unfoldable pub grow : ℕ → ℕ → Option Error × Opened → Option Error × Opened
  unfolding int_lt
  grow now index (x, o) = (
    x,
    record o {
      e = record o.e {
        data_size = if int_lt o.e.data_size index then index else o.e.data_size;
        modify_time = now;
      };
    },
  )

  unfoldable pub crc_then :
      Option Error × Opened → (Opened → Option Error × Opened) → Option Error × Opened
  crc_then (some x, o) next = (some x, o)
  crc_then (none, o) next = next o

  -- What follows the write of the data.
  unfoldable pub update_crcs : UpdateCrcFunc → ℕ → ℕ → ℕ → Bool → Opened → Option Error × Opened
  unfolding int_add int_le crc_then
  update_crcs crc_func offset size crc is_sync o =
      let block_no = offset / block_size in
      let offset_in_block = offset % block_size in
      let synced = if is_sync then F.sync o.e.file else none in
      elim synced [
        | some x ↦ (some x, o)
        | none ↦
            if offset_in_block == 0 && size == block_size
            then crc_func o block_no crc
            else if int_le (int_add offset_in_block size) block_size
            then crc_func o block_no 0
            else crc_then (crc_func o block_no 0) λ o'. crc_func o' (block_no + 1) 0
      ]

  unfoldable pub data_written :
      UpdateCrcFunc → ℕ → ℕ → ℕ → Bool → ℕ → Opened → Option Error × F.File → Option Error × Opened
  unfolding int_add grow update_crcs
  data_written crc_func offset size crc is_sync now o (some x, fp) =
      (some x, record o { e = record o.e { file = fp } })
  data_written crc_func offset size crc is_sync now o (none, fp) =
      grow now (int_add offset size)
        (update_crcs crc_func offset size crc is_sync (record o { e = record o.e { file = fp } }))

  unfoldable pub write :
      UpdateCrcFunc → Bytes → ℕ → ℕ → ℕ → Bool → Bool → ℕ → Opened → Option Error × Opened
  unfolding write_tiny check_offset_and_size front data_written
  write crc_func bytes offset size crc is_update_size is_sync now o =
      if is_tiny_extent o.e.extent_id
      then write_tiny bytes offset size is_update_size is_sync o
      else elim (check_offset_and_size offset size) [
        | some x ↦ (some x, o)
        | none ↦ elim (front size bytes) [
          | none ↦ (some Error.panic, o)
          | some part ↦
              data_written crc_func offset size crc is_sync now o (F.write_at o.e.file part offset)
        ]
      ]

  -- Read into `size` bytes, of which there is room for `room`; the crc is left out.
  unfoldable pub read_tiny : ℕ → ℕ → Bool → Extent → Bytes × Option Error
  read_tiny offset size is_repair_read e =
      let (bytes, x) = F.read_at e.file offset size in
      elim x [
        | some Error.eof ↦ (bytes, if is_repair_read then none else some Error.eof)
        | other ↦ (bytes, other)
      ]

  unfoldable pub read : ℕ → ℕ → ℕ → Bool → Extent → Bytes × Option Error
  unfolding read_tiny check_offset_and_size
  read room offset size is_repair_read e =
      let checked =
        if is_tiny_extent e.extent_id then none else check_offset_and_size offset size in
      elim checked [
        | some x ↦ ([], some x)
        | none ↦
            if ltb room size
            then ([], some Error.panic)
            else if is_tiny_extent e.extent_id
            then read_tiny offset size is_repair_read e
            else F.read_at e.file offset size
      ]
