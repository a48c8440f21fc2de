-- ===== src/Sdk/ExtentCache.antt =====
-- sdk/data/stream/extent_cache.go: the extents of an open file, as the client knows them, and the
-- requests that a read or a write is cut into. The lock is not modelled. An int holds its bit
-- pattern; a slice of `data` that is out of range, which panics, is cut at the end of `data`, and the
-- callers pass as much data as the size says.
pub mod Chain
pub mod Requests
pub mod Slices
pub mod Tiles
pub mod Rounds
pub mod Reads
pub mod Writes
pub mod Refreshed
use cfs.Base.{
  ℕ, zero, suc, ◌+◌, ◌-◌, ◌==◌, Bool, true, false, not, ltb, leb, ◌&&◌, List, [], ◌∷◌, ◌++◌, Option,
  none, some, if◌then◌else◌, Error, Result, ok, err,
}
use cfs.Bytes.{Bytes, take, drop}
use cfs.GoogleBtree.{BtreePackage}
use cfs.GoogleBtree.Floor.{floor}
use cfs.Int64.{int_add, int_sub, int_lt, int_le}
use cfs.Proto.{u64}
use cfs.Proto.ExtentKey.{ExtentKey, extent_item}
use cfs.MetaNode.BTree.{BTree, new_btree, delete, replace_or_insert, ascend, ascend_range, max_item}
use cfs.MetaNode.Extents.{key_at, end_of}

-- ExtentRequest; `bytes` is Data.
pub record ExtentRequest : Type 0 where
  pub file_offset : ℕ
  pub size : ℕ
  pub bytes : Bytes
  pub extent_key : Option ExtentKey

-- `data[lo:hi]`
unfoldable pub slice : Bytes → ℕ → ℕ → Bytes
slice xs lo hi = take (hi - lo) (drop lo xs)

-- NewExtentRequest(lo, hi-lo, data[lo-offset:hi-offset], ek), as every call has it.
unfoldable pub new_extent_request : ℕ → Bytes → ℕ → ℕ → Option ExtentKey → ExtentRequest
new_extent_request offset bytes lo hi ek = record {
  file_offset = lo;
  size = int_sub hi lo;
  bytes = slice bytes (int_sub lo offset) (int_sub hi offset);
  extent_key = ek;
}

-- What one call of a callback adds to the requests, the new `start`, and whether it goes on.
abbrev pub Round : Type 0
Round = List ExtentRequest × ℕ × Bool

-- `int(ek.FileOffset) + int(ek.Size)`
abbrev pub int_end : ExtentKey → ℕ
int_end ek = int_add ek.file_offset ek.size

-- The callback of PrepareReadRequests.
unfoldable pub read_round : ℕ → ℕ → Bytes → ℕ → ExtentKey → Round
read_round offset end bytes start ek =
    let req = new_extent_request offset bytes in
    let ek_start = ek.file_offset in
    let ek_end = int_end ek in
    if int_lt start ek_start
    then (if int_le end ek_start
        then ([], start, false)
        else (if int_lt end ek_end
            then (req start ek_start none ∷ req ek_start end (some ek) ∷ [], end, false)
            else (req start ek_start none ∷ req ek_start ek_end (some ek) ∷ [], ek_end, true)))
    else (if int_lt start ek_end
        then (if int_le end ek_end
            then (req start end (some ek) ∷ [], end, false)
            else (req start ek_end (some ek) ∷ [], ek_end, true))
        else ([], start, true))

-- The callback of PrepareWriteRequests: an extent that the write covers whole is passed over.
unfoldable pub write_round : ℕ → ℕ → Bytes → ℕ → ExtentKey → Round
write_round offset end bytes start ek =
    let req = new_extent_request offset bytes in
    let ek_start = ek.file_offset in
    let ek_end = int_end ek in
    if int_le start ek_start
    then (if int_le end ek_start
        then ([], start, false)
        else (if int_lt end ek_end
            then (
              (if int_lt start ek_start
                  then req start ek_start none ∷ req ek_start end (some ek) ∷ []
                  else req ek_start end (some ek) ∷ []),
              end,
              false,
            )
            else ([], start, true)))
    else (if int_lt start ek_end
        then (if int_le end ek_end
            then (req start end (some ek) ∷ [], end, false)
            else (req start ek_end (some ek) ∷ [], ek_end, true))
        else ([], start, true))

-- AscendRange over the keys in range with such a callback: the requests, and `start` at the end.
unfoldable pub rounds : (ℕ → ExtentKey → Round) → ℕ → List ExtentKey → List ExtentRequest × ℕ
rounds round start [] = ([], start)
rounds round start (ek ∷ eks) =
    let (added, start', more) = round start ek in
    let (later, last) = rounds round start' eks in
    if more then (added ++ later, last) else (added, start')

-- The last hole.
unfoldable pub finish : ℕ → ℕ → Bytes → List ExtentRequest × ℕ → List ExtentRequest
finish offset end bytes (requests, start) =
    if int_lt start end
    then requests ++ new_extent_request offset bytes start end none ∷ []
    else requests

-- Get, on the key that DescendLessOrEqual visits.
covering : ℕ → Option ExtentKey → Option ExtentKey
covering offset none = none
covering offset (some ek) =
    if leb ek.file_offset offset && ltb offset (end_of ek) then some ek else none

-- `lower`, whose file offset is 0 if no key is at or below the pivot.
unfoldable pub lower_offset : Option ExtentKey → ℕ
lower_offset none = 0
lower_offset (some ek) = ek.file_offset

module _ ⦃L : BtreePackage⦄ where
  pub record ExtentCache : Type 0 where
    pub inode : ℕ
    pub gen : ℕ
    pub size : ℕ
    pub root : BTree ExtentKey

  -- NewExtentCache
  unfoldable pub new_extent_cache : ℕ → ExtentCache
  new_extent_cache inode = record { inode = inode; gen = 0; size = 0; root = new_btree }

  unfoldable pub insert_all : BTree ExtentKey → List ExtentKey → BTree ExtentKey
  insert_all root [] = root
  insert_all root (ek ∷ eks) = insert_all (replace_or_insert root ek true).1 eks

  -- update
  unfoldable pub update : ExtentCache → ℕ → ℕ → List ExtentKey → ExtentCache
  unfolding insert_all
  update cache gen size eks =
      if not (cache.gen == 0) && leb gen cache.gen
      then cache
      else record cache { gen = gen; size = size; root = insert_all new_btree eks }

  -- Refresh, on what getExtents answered.
  unfoldable pub refresh :
      ExtentCache → Result (ℕ × ℕ × List ExtentKey) → Option Error × ExtentCache
  refresh cache (err e) = (some e, cache)
  refresh cache (ok (gen, size, extents)) = (none, update cache gen size extents)

  unfoldable pub delete_keys : BTree ExtentKey → List ExtentKey → BTree ExtentKey
  delete_keys root [] = root
  delete_keys root (key ∷ keys) = delete_keys (delete root key).1 keys

  -- Append
  unfoldable pub append : ExtentCache → ExtentKey → Bool → ExtentCache
  unfolding delete_keys
  append cache ek sync =
      let ek_end = end_of ek in
      let discard = ascend_range cache.root (key_at ek.file_offset) (key_at ek_end) in
      record cache {
        root = (replace_or_insert (delete_keys cache.root discard) ek true).1;
        gen = if sync then u64 (cache.gen + 1) else cache.gen;
        size = if ltb cache.size ek_end then ek_end else cache.size;
      }

  -- SetSize
  unfoldable pub set_size : ExtentCache → ℕ → Bool → ExtentCache
  set_size cache size sync = record cache {
    size = size;
    gen = if sync then u64 (cache.gen + 1) else cache.gen;
  }

  -- List
  unfoldable pub list : ExtentCache → List ExtentKey
  list cache = ascend cache.root

  unfoldable pub get : ExtentCache → ℕ → Option ExtentKey
  unfolding covering
  get cache offset = covering offset (floor cache.root (key_at offset))

  unfoldable pub in_range : ExtentCache → ℕ → ℕ → List ExtentKey
  in_range cache offset end =
      ascend_range cache.root (key_at (lower_offset (floor cache.root (key_at offset))))
        (key_at end)

  -- PrepareReadRequests
  unfoldable pub prepare_read_requests : ExtentCache → ℕ → ℕ → Bytes → List ExtentRequest
  prepare_read_requests cache offset size bytes =
      let end = int_add offset size in
      finish offset end bytes
        (rounds (read_round offset end bytes) offset (in_range cache offset end))

  -- PrepareWriteRequests
  unfoldable pub prepare_write_requests : ExtentCache → ℕ → ℕ → Bytes → List ExtentRequest
  prepare_write_requests cache offset size bytes =
      let end = int_add offset size in
      finish offset end bytes
        (rounds (write_round offset end bytes) offset (in_range cache offset end))
