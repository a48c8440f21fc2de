-- ===== src/Sdk/ExtentCache/Reads.antt =====
-- PrepareReadRequests and Get: which extent serves an offset.
use cfs.Base.{ℕ, ◌+◌, ◌≤◌, ◌<◌, ◌≡◌, some, arith, get_last?, Option-cases, inl, inr, ◌∙◌, ap, sym}
use cfs.Bytes.{Bytes}
use cfs.GoogleBtree.{BtreePackage}
use cfs.GoogleBtree.Floor.{floor, floor-ascend}
use cfs.Int64.{IsInt, int_add-add}
use cfs.Proto.ExtentKey.{ExtentKey, extent_item}
use cfs.MetaNode.BTree.{ascend}
use cfs.MetaNode.BTree.Laws.{ascend_range-ascend}
use cfs.MetaNode.Extents.{key_at}
use cfs.Sdk.ExtentCache.{
  ExtentRequest, ExtentCache, Round, read_round, rounds, finish, get, in_range, lower_offset,
  prepare_read_requests, new_extent_request,
}
use cfs.Sdk.ExtentCache.Chain.{
  Chained, EndsInt, covering, serving, up_to, last-serving, last-Clears, serving-between,
  filter-Chained, filter-EndsInt, last-EndsInt, last-le, Clears-zero,
}
use cfs.Sdk.ExtentCache.Rounds.{served}
use cfs.Sdk.ExtentCache.Requests.{key_of}

module _ ⦃L : BtreePackage⦄ (cache : ExtentCache) where
  -- The extents of the cache do not overlap, and end below 2 ^ 63.
  pub record IsSound : Type 0 where
    pub apart : Chained (ascend cache.root)
    pub bounded : EndsInt (ascend cache.root)

  floor-last : (x : ℕ) → floor cache.root (key_at x) ≡ get_last? (up_to x (ascend cache.root))
  floor-last x = floor-ascend cache.root (key_at x)

module _ ⦃L : BtreePackage⦄ (cache : ExtentCache) (sound : IsSound cache) where
  pub get-serving : (x : ℕ) → get cache x ≡ serving x (ascend cache.root)
  unfolding get
  get-serving x =
      rw (floor-last cache x) (elim (Option-cases (get_last? (up_to x (ascend cache.root)))) [
        | inl e ↦ rw e (ap (covering x) (sym e) ∙ last-serving x (ascend cache.root) sound.apart)
        | inr (k, e) ↦ rw e (
            covered k (
              last-EndsInt (up_to x (ascend cache.root)) k
                (filter-EndsInt _ (ascend cache.root) sound.bounded) e)
            ∙ ap (covering x) (sym e)
            ∙ last-serving x (ascend cache.root) sound.apart)
      ])
    where
      covered :
          (k : ExtentKey)
          → IsInt (k.file_offset + k.size)
          → cfs.Sdk.ExtentCache.covering x (some k) ≡ covering x (some k)
      covered k h = unfold cfs.Sdk.ExtentCache.covering in ground arith

  -- The keys in range serve the offsets in range as all keys do.
  serving-in_range :
      (offset end x : ℕ)
      → offset ≤ x
      → x < end
      → serving x (in_range cache offset end) ≡ serving x (ascend cache.root)
  unfolding in_range lower_offset
  serving-in_range offset end x from before =
      rw
        (
          ascend_range-ascend cache.root (key_at (lower_offset (floor cache.root (key_at offset))))
              (key_at end),
          floor-last cache offset,
        )
        (elim (Option-cases (get_last? (up_to offset (ascend cache.root)))) [
          | inl e ↦ rw e (
              serving-between 0 end x (ascend cache.root) (Clears-zero (ascend cache.root))
                (omega arith) before)
          | inr (k, e) ↦ rw e (
              serving-between k.file_offset end x (ascend cache.root)
                (last-Clears offset (ascend cache.root) k sound.apart e)
                (omega (arith, last-le offset (ascend cache.root) k e)) before)
        ])

  in_range_sound :
      (offset end : ℕ) → Chained (in_range cache offset end) × EndsInt (in_range cache offset end)
  unfolding in_range
  in_range_sound offset end =
      rw
        (ascend_range-ascend cache.root (key_at (lower_offset (floor cache.root (key_at offset))))
          (key_at end))
        (
          filter-Chained _ (ascend cache.root) sound.apart,
          filter-EndsInt _ (ascend cache.root) sound.bounded,
        )

  -- Where the extents of the cache do not overlap and end below 2 ^ 63, each offset of a read that
  -- ends there belongs to a request of PrepareReadRequests, and the first such request names the
  -- extent that Get finds at the offset, or a hole if Get finds none.
  pub prepare_read_requests-get :
      (offset size : ℕ) (bytes : Bytes) (x : ℕ)
      → IsInt (offset + size)
      → offset ≤ x
      → x < offset + size
      → key_of x (prepare_read_requests cache offset size bytes) ≡ some (get cache x)
  unfolding prepare_read_requests
  prepare_read_requests-get offset size bytes x fits from before =
      rw (int_add-add offset size fits) (
        served offset (offset + size) bytes x fits before offset
          (in_range cache offset (offset + size)) (in_range_sound offset (offset + size)).0
          (in_range_sound offset (offset + size)).1 from
        ∙ ap some (serving-in_range offset (offset + size) x from before ∙ sym (get-serving x)))
