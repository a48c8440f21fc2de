-- ===== src/Sdk/ExtentCache/Writes.antt =====
-- PrepareReadRequests and PrepareWriteRequests: how a call is cut into requests.
use cfs.Base.{
  All, length, ℕ, ◌+◌, ◌-◌, ◌≤◌, ◌<◌, ◌≡◌, Bool, true, false, ltb, leb, [], ◌∷◌, none, some, arith,
  refl, Bool-cases, inl, inr, subst, ap, ◌∙◌,
}
use cfs.Bytes.{Bytes, take}
use cfs.GoogleBtree.{BtreePackage}
use cfs.Int64.{IsInt, int_add, int_lt, int_le, int_add-add, int_lt-ltb, int_le-leb}
use cfs.Proto.ExtentKey.{ExtentKey, extent_item}
use cfs.MetaNode.BTree.{ascend}
use cfs.GoogleBtree.Floor.{floor}
use cfs.MetaNode.Extents.{key_at}
use cfs.MetaNode.BTree.Laws.{ascend_range-ascend}
use cfs.Sdk.ExtentCache.{
  ExtentCache, new_extent_request, write_round, in_range, lower_offset, prepare_write_requests,
}
use cfs.Sdk.ExtentCache.Chain.{EndsInt, filter-EndsInt}
use cfs.Sdk.ExtentCache.Slices.{slice-take}
use cfs.Sdk.ExtentCache.Tiles.{
  IsWhole, Tiles-IsWhole, carried, Tiles-carried, Tiles, Tiles-cons, new_extent_request-IsPiece,
  Advances, finish-rounds-Tiles,
}

module _ (offset end : ℕ) (bytes : Bytes) (fits : IsInt end) (start : ℕ) (k : ExtentKey)
    (from : offset ≤ start) (before : start < end) (ends : IsInt (k.file_offset + k.size)) where
  -- Nothing is added.
  stands : (more : Bool) → Advances offset bytes end fits start ([], start, more)
  stands more = record { tiled = refl; inside = omega arith; short = λ e. before }

  -- One request, up to `hi`.
  one :
      (hi : ℕ) (more : Bool)
      → k.file_offset ≤ start
      → start < hi
      → hi ≤ k.file_offset + k.size
      → hi ≤ end
      → (more ≡ true → hi < end)
      → Advances offset bytes end fits start
          (new_extent_request offset bytes start hi (some k) ∷ [], hi, more)
  one hi more p q r s t = record {
    tiled =
        Tiles-cons offset bytes start hi hi _ []
          (new_extent_request-IsPiece offset bytes start hi (some k) (omega arith) from q (p, r))
          refl;
    inside = s;
    short = t;
  }

  -- The start of the extent, up to the end.
  from_start :
      start ≡ k.file_offset
      → end ≤ k.file_offset + k.size
      → Advances offset bytes end fits start
          (new_extent_request offset bytes k.file_offset end (some k) ∷ [], end, false)
  from_start p q =
      subst
        (λ s.
          Advances offset bytes end fits start
            (new_extent_request offset bytes s end (some k) ∷ [], end, false))
        p (one end false (omega arith) before q (omega arith) (λ e. absurd (ground arith)))

  -- A hole and the start of the extent, up to the end.
  two :
      start < k.file_offset
      → k.file_offset < end
      → end ≤ k.file_offset + k.size
      → Advances offset bytes end fits start (
        new_extent_request offset bytes start k.file_offset none
            ∷ new_extent_request offset bytes k.file_offset end (some k)
            ∷ [],
        end,
        false,
      )
  two p q r = record {
    tiled =
        Tiles-cons offset bytes start k.file_offset end _
          (new_extent_request offset bytes k.file_offset end (some k) ∷ [])
          (new_extent_request-IsPiece offset bytes start k.file_offset none (omega arith) from p tt)
          (Tiles-cons offset bytes k.file_offset end end _ []
            (new_extent_request-IsPiece offset bytes k.file_offset end (some k) fits (omega arith) q
              (omega arith, r))
            refl);
    inside = omega arith;
    short = λ e. absurd (ground arith);
  }

  -- The bounds of the extent as naturals.
  comparisons :
      (int_add k.file_offset k.size ≡ k.file_offset + k.size)
      × (int_le start k.file_offset ≡ leb start k.file_offset)
      × (int_le end k.file_offset ≡ leb end k.file_offset)
      × (int_lt start k.file_offset ≡ ltb start k.file_offset)
      × (int_lt end (k.file_offset + k.size) ≡ ltb end (k.file_offset + k.size))
      × (int_lt start (k.file_offset + k.size) ≡ ltb start (k.file_offset + k.size))
      × (int_le end (k.file_offset + k.size) ≡ leb end (k.file_offset + k.size))
  comparisons = (
    int_add-add k.file_offset k.size ends,
    int_le-leb start k.file_offset (omega arith) (omega arith),
    int_le-leb end k.file_offset fits (omega arith),
    int_lt-ltb start k.file_offset (omega arith) (omega arith),
    int_lt-ltb end (k.file_offset + k.size) fits ends,
    int_lt-ltb start (k.file_offset + k.size) (omega arith) ends,
    int_le-leb end (k.file_offset + k.size) fits ends,
  )

  write_round-Advances : Advances offset bytes end fits start (write_round offset end bytes start k)
  unfolding write_round
  write_round-Advances =
      rw
        (
          comparisons.0, comparisons.1, comparisons.2, comparisons.3, comparisons.4, comparisons.5,
          comparisons.6,
        )
        (elim (Bool-cases (leb start k.file_offset)) [
          | inl p ↦ rw p (elim (Bool-cases (leb end k.file_offset)) [
            | inl q ↦ rw q (stands false)
            | inr q ↦ rw q (elim (Bool-cases (ltb end (k.file_offset + k.size))) [
              | inl r ↦ rw r (elim (Bool-cases (ltb start k.file_offset)) [
                | inl s ↦ rw s (two (ground arith) (ground arith) (ground arith))
                | inr s ↦ rw s (from_start (ground arith) (ground arith))
              ])
              | inr r ↦ rw r (stands true)
            ])
          ])
          | inr p ↦ rw p (elim (Bool-cases (ltb start (k.file_offset + k.size))) [
            | inl q ↦ rw q (elim (Bool-cases (leb end (k.file_offset + k.size))) [
              | inl r ↦ rw r (
                  one end false (ground arith) (ground arith) (ground arith) (omega arith)
                    (λ e. absurd (ground arith)))
              | inr r ↦ rw r (
                  one (k.file_offset + k.size) true (ground arith) (ground arith) (omega arith)
                    (ground arith) (λ e. ground arith))
            ])
            | inr q ↦ rw q (stands true)
          ])
        ])

module _ ⦃L : BtreePackage⦄ (cache : ExtentCache) where
  in_range-EndsInt :
      (offset end : ℕ) → EndsInt (ascend cache.root) → EndsInt (in_range cache offset end)
  unfolding in_range
  in_range-EndsInt offset end h =
      rw
        (ascend_range-ascend cache.root (key_at (lower_offset (floor cache.root (key_at offset))))
          (key_at end))
        (filter-EndsInt _ (ascend cache.root) h)

  -- Where the extents of the cache end below 2 ^ 63, the requests of a write that is not empty and
  -- ends there follow each other without gap or overlap from its first offset to its last; none is
  -- empty, each carries its part of the data, and a request that overwrites an extent lies in the
  -- range of that extent.
  pub prepare_write_requests-Tiles :
      (offset size : ℕ) (bytes : Bytes)
      → EndsInt (ascend cache.root)
      → IsInt (offset + size)
      → 0 < size
      → Tiles offset bytes offset (offset + size) (prepare_write_requests cache offset size bytes)
  unfolding prepare_write_requests
  prepare_write_requests-Tiles offset size bytes h fits l = rw (int_add-add offset size fits) (
      finish-rounds-Tiles offset bytes (offset + size) fits
        (write_round offset (offset + size) bytes)
        (write_round-Advances offset (offset + size) bytes fits)
        (in_range cache offset (offset + size)) (in_range-EndsInt offset (offset + size) h)
        (omega arith))

  -- Where the extents of the cache end below 2 ^ 63, and the data has as many bytes as the size
  -- says or more, no slice of a write that is not empty and ends there is out of range: each of
  -- its requests carries as many bytes as its own size says, and together they carry, one after
  -- the other, the first bytes of the data, as many as the size of the write.
  pub prepare_write_requests-carried :
      (offset size : ℕ) (bytes : Bytes)
      → EndsInt (ascend cache.root)
      → IsInt (offset + size)
      → 0 < size
      → size ≤ length bytes
      → All IsWhole (prepare_write_requests cache offset size bytes)
        × (carried (prepare_write_requests cache offset size bytes) ≡ take size bytes)
  prepare_write_requests-carried offset size bytes h fits l b =
      let tiles = prepare_write_requests-Tiles offset size bytes h fits l in
      (
        Tiles-IsWhole offset bytes offset (offset + size)
            (prepare_write_requests cache offset size bytes) tiles (omega arith) (omega arith),
        Tiles-carried offset bytes offset (offset + size)
              (prepare_write_requests cache offset size bytes) tiles (omega arith)
            ∙ rw (slice-take bytes (offset - offset) (offset + size - offset) (omega arith))
                (ap (λ n. take n bytes) (omega arith)),
      )
