-- ===== src/Tests/ExtentCache.antt =====
-- Reads and writes of an open file with two extents.
use cfs.Base.{All, ℕ, List, none, ok, inl, refl, ◌+◌, ◌≡◌, [], ◌∷◌, arith, some}
use cfs.Bytes.{Bytes, take}
use cfs.GoogleBtree.SortedList.{sorted_list}
use cfs.Proto.ExtentKey.{ExtentKey, extent_item}
use cfs.MetaNode.BTree.{ascend}
use cfs.Sdk.ExtentCache.{
  ExtentCache, get, list, refresh, prepare_read_requests, prepare_write_requests,
}
use cfs.Sdk.ExtentCache.Chain.{EndsInt, serving}
use cfs.Sdk.ExtentCache.Requests.{key_of}
use cfs.Sdk.ExtentCache.Reads.{IsSound, prepare_read_requests-get}
use cfs.Sdk.ExtentCache.Refreshed.{refresh-serving}
use cfs.Sdk.ExtentCache.Tiles.{IsWhole, Tiles, carried}
use cfs.Sdk.ExtentCache.Writes.{prepare_write_requests-Tiles, prepare_write_requests-carried}
use cfs.Tests.Samples.{extent, no_extents, two_extents}

abbrev cache : ExtentCache
cache = record { inode = 5; gen = 1; size = 150; root = two_extents }

abbrev data_of_write : Bytes
data_of_write = 1 ∷ 2 ∷ 3 ∷ 4 ∷ []

cache-EndsInt : EndsInt (ascend cache.root)
unfolding ascend
cache-EndsInt = (omega arith, (omega arith, tt))

cache-IsSound : IsSound cache
unfolding ascend
cache-IsSound = record { apart = ((omega arith, tt), (tt, tt)); bounded = cache-EndsInt }

-- A read of the bytes 98 to 101 goes to the first extent up to 99.
prepare_read_requests-get_example :
    key_of 101 (prepare_read_requests cache 98 4 data_of_write) ≡ some (get cache 101)
prepare_read_requests-get_example =
    prepare_read_requests-get cache cache-IsSound 98 4 data_of_write 101 (omega arith) (omega arith)
      (omega arith)

prepare_write_requests-Tiles_example :
    Tiles 148 data_of_write 148 (148 + 4) (prepare_write_requests cache 148 4 data_of_write)
prepare_write_requests-Tiles_example =
    prepare_write_requests-Tiles cache 148 4 data_of_write cache-EndsInt (omega arith) (omega arith)

prepare_write_requests-carried_example :
    All IsWhole (prepare_write_requests cache 148 4 data_of_write)
    × (carried (prepare_write_requests cache 148 4 data_of_write) ≡ take 4 data_of_write)
prepare_write_requests-carried_example =
    prepare_write_requests-carried cache 148 4 data_of_write cache-EndsInt (omega arith)
      (omega arith) (omega arith)

-- The cache before its first refresh.
abbrev unread : ExtentCache
unread = record cache { gen = 0; size = 0; root = no_extents }

abbrev answered : List ExtentKey
answered = extent 0 7 100 ∷ extent 100 8 50 ∷ []

refresh-serving_example :
    ((refresh unread (ok (1, 150, answered))).0 ≡ none)
    × ((x : ℕ) → get (refresh unread (ok (1, 150, answered))).1 x ≡ serving x answered)
    × (list (refresh unread (ok (1, 150, answered))).1 ≡ answered)
    × ((refresh unread (ok (1, 150, answered))).1.gen ≡ 1)
    × ((refresh unread (ok (1, 150, answered))).1.size ≡ 150)
refresh-serving_example =
    refresh-serving unread 1 150 answered (inl refl) ((refl, tt), (tt, tt))
      ((omega arith, tt), (tt, tt)) (omega arith, (omega arith, tt))
