-- ===== src/Sdk/ExtentCache/Tiles.antt =====
-- Requests that cover a range of a file from end to end, each with its part of the data.
use cfs.Base.{
  All, length, ap, ◌∙◌, ℕ, ◌+◌, ◌-◌, ◌≤◌, ◌<◌, ◌≡◌, true, ltb, List, [], ◌∷◌, ◌++◌, Option, none,
  some, arith, refl, Bool-cases, inl, inr, subst, sym,
}
use cfs.Bytes.{Bytes}
use cfs.Int64.{IsInt, int_lt-ltb}
use cfs.Proto.ExtentKey.{ExtentKey}
use cfs.Sdk.ExtentCache.{ExtentRequest, new_extent_request, slice, Round, rounds, finish}
use cfs.Sdk.ExtentCache.Chain.{EndsInt}
use cfs.Sdk.ExtentCache.Slices.{length-slice, slice-nil, slice-append}
use cfs.Sdk.ExtentCache.Requests.{
  new_extent_request-file_offset, new_extent_request-size, new_extent_request-bytes,
  new_extent_request-extent_key,
}

-- A range lies in the extent.
abbrev pub Within : ℕ → ℕ → Option ExtentKey → Type 0
Within lo hi none = Unit
Within lo hi (some ek) = (ek.file_offset ≤ lo) × (hi ≤ ek.file_offset + ek.size)

-- A request for the range from `lo` to `hi` of a call at `offset` with `bytes`.
pub record IsPiece (offset : ℕ) (bytes : Bytes) (lo hi : ℕ) (r : ExtentRequest) : Type 0 where
  pub starts : r.file_offset ≡ lo
  pub ends : lo + r.size ≡ hi
  pub nonempty : lo < hi
  pub carries : r.bytes ≡ slice bytes (lo - offset) (hi - offset)
  pub within : Within lo hi r.extent_key

-- The requests follow each other without a gap from `lo` to `hi`.
abbrev pub Tiles : ℕ → Bytes → ℕ → ℕ → List ExtentRequest → Type 0
Tiles offset bytes lo hi [] = lo ≡ hi
Tiles offset bytes lo hi (r ∷ rs) =
    IsPiece offset bytes lo (lo + r.size) r × Tiles offset bytes (lo + r.size) hi rs

module _ (offset : ℕ) (bytes : Bytes) where
  pub new_extent_request-IsPiece :
      (lo hi : ℕ) (ek : Option ExtentKey)
      → IsInt hi
      → offset ≤ lo
      → lo < hi
      → Within lo hi ek
      → IsPiece offset bytes lo hi (new_extent_request offset bytes lo hi ek)
  new_extent_request-IsPiece lo hi ek h k l w = record {
    starts = new_extent_request-file_offset offset bytes lo hi ek;
    ends = omega (arith, new_extent_request-size offset bytes lo hi ek h);
    nonempty = l;
    carries = new_extent_request-bytes offset bytes lo hi ek h k (omega arith);
    within = rw (new_extent_request-extent_key offset bytes lo hi ek) w;
  }

  pub Tiles-cons :
      (lo mid hi : ℕ) (r : ExtentRequest) (rs : List ExtentRequest)
      → IsPiece offset bytes lo mid r
      → Tiles offset bytes mid hi rs
      → Tiles offset bytes lo hi (r ∷ rs)
  Tiles-cons lo mid hi r rs p t = rw p.ends (p, t)

  Tiles-append :
      (lo mid hi : ℕ) (rs qs : List ExtentRequest)
      → Tiles offset bytes lo mid rs
      → Tiles offset bytes mid hi qs
      → Tiles offset bytes lo hi (rs ++ qs)
  Tiles-append lo mid hi [] qs e t = rw e t
  Tiles-append lo mid hi (r ∷ rs) qs (p, s) t = (p, Tiles-append (lo + r.size) mid hi rs qs s t)

  Tiles-le : (lo hi : ℕ) (rs : List ExtentRequest) → Tiles offset bytes lo hi rs → lo ≤ hi
  Tiles-le lo hi [] e = omega arith
  Tiles-le lo hi (r ∷ rs) (p, t) = omega (arith, Tiles-le (lo + r.size) hi rs t)

  -- What one call of a callback keeps: its requests lead from `start` to the new `start`.
  module _ (end : ℕ) (fits : IsInt end) where
    pub record Advances (start : ℕ) (r : Round) : Type 0 where
      pub tiled : Tiles offset bytes start r.1 r.0
      pub inside : r.1 ≤ end
      pub short : r.2 ≡ true → r.1 < end

    finish-Tiles :
        (lo start : ℕ) (rs : List ExtentRequest)
        → Tiles offset bytes lo start rs
        → offset ≤ start
        → start ≤ end
        → Tiles offset bytes lo end (finish offset end bytes (rs, start))
    unfolding finish
    finish-Tiles lo start rs t o l = elim (Bool-cases (ltb start end)) [
      | inl e ↦
          rw (int_lt-ltb start end (omega arith) fits, e)
            (Tiles-append lo start end rs _ t (
              Tiles-cons start end end _ []
                (new_extent_request-IsPiece start end none fits o (ground arith) tt) refl))
      | inr e ↦
          let same : start ≡ end = ground arith in
          rw (int_lt-ltb start end (omega arith) fits, e, sym same) t
    ]

    module _ (round : ℕ → ExtentKey → Round)
        (advances : (start : ℕ) (k : ExtentKey)
          → offset ≤ start
          → start < end
          → IsInt (k.file_offset + k.size)
          → Advances start (round start k)) where
      rounds-Tiles :
          (start : ℕ) (ks : List ExtentKey)
          → EndsInt ks
          → offset ≤ start
          → start < end
          → Tiles offset bytes start (rounds round start ks).1 (rounds round start ks).0
            × ((rounds round start ks).1 ≤ end)
      unfolding rounds
      rounds-Tiles start [] i o l = (refl, omega arith)
      rounds-Tiles start (k ∷ ks) (i, is) o l =
          let a = advances start k o l i in
          elim (Bool-cases (round start k).2) [
            | inl e ↦
                let later =
                  rounds-Tiles (round start k).1 ks is
                    (omega (arith, Tiles-le start (round start k).1 (round start k).0 a.tiled))
                    (a.short e) in
                rw e (
                  Tiles-append start (round start k).1 _ (round start k).0 _ a.tiled later.0,
                  later.1,
                )
            | inr e ↦ rw e (a.tiled, a.inside)
          ]

      pub finish-rounds-Tiles :
          (ks : List ExtentKey)
          → EndsInt ks
          → offset < end
          → Tiles offset bytes offset end (finish offset end bytes (rounds round offset ks))
      finish-rounds-Tiles ks i l =
          let t = rounds-Tiles offset ks i (omega arith) l in
          finish-Tiles offset (rounds round offset ks).1 (rounds round offset ks).0 t.0
            (Tiles-le offset (rounds round offset ks).1 (rounds round offset ks).0 t.0) t.1

-- What the requests carry, one after the other.
abbrev pub carried : List ExtentRequest → Bytes
carried [] = []
carried (r ∷ rs) = r.bytes ++ carried rs

pub Tiles-carried :
    (offset : ℕ) (bytes : Bytes) (lo hi : ℕ) (rs : List ExtentRequest)
    → Tiles offset bytes lo hi rs
    → offset ≤ lo
    → carried rs ≡ slice bytes (lo - offset) (hi - offset)
Tiles-carried offset bytes lo hi [] e l =
    rw (subst (λ h. lo - offset ≡ h - offset) e refl) (sym (slice-nil bytes (hi - offset)))
Tiles-carried offset bytes lo hi (r ∷ rs) (p, t) l =
    rw (p.carries, Tiles-carried offset bytes (lo + r.size) hi rs t (omega arith))
      (slice-append bytes (lo - offset) (lo + r.size - offset) (hi - offset) (omega arith)
        (omega (arith, Tiles-le offset bytes (lo + r.size) hi rs t)))

-- A request that carries as many bytes as its size says.
abbrev pub IsWhole : ExtentRequest → Type 0
IsWhole r = length r.bytes ≡ r.size

-- Where the data is long enough, no slice is out of range.
pub Tiles-IsWhole :
    (offset : ℕ) (bytes : Bytes) (lo hi : ℕ) (rs : List ExtentRequest)
    → Tiles offset bytes lo hi rs
    → offset ≤ lo
    → hi - offset ≤ length bytes
    → All IsWhole rs
Tiles-IsWhole offset bytes lo hi [] t l b = tt
Tiles-IsWhole offset bytes lo hi (r ∷ rs) (p, t) l b =
    let below = Tiles-le offset bytes (lo + r.size) hi rs t in
    (
      ap length p.carries
          ∙ length-slice bytes (lo - offset) (lo + r.size - offset) (omega arith) (omega arith)
          ∙ omega arith,
      Tiles-IsWhole offset bytes (lo + r.size) hi rs t (omega arith) b,
    )
