-- ===== src/MetaNode/Inode/Truncate/Search.antt =====
-- Keys in a list that ascends: the ones at and above an offset, and the last one.
use cfs.Base.{
  ℕ, ◌+◌, ◌-◌, ◌≤◌, ◌<◌, ◌^◌, ◌≡◌, ◌==◌, Bool, true, false, not, ltb, Option, some, none,
  if◌then◌else◌, arith, refl, List, [], ◌∷◌, find, filter, get_last?,
}
use cfs.GoogleBtree.{equiv, Above, IsAscending}
use cfs.Proto.{IsU32, u64, u32}
use cfs.Proto.ExtentKey.{ExtentKey, extent_item, less}
use cfs.MetaNode.Extents.{key_at}

-- Some key of the list lies at the offset `x`.
abbrev pub at : ℕ → List ExtentKey → Bool
at x [] = false
at x (d ∷ ds) = let later = at x ds in if d.file_offset == x then true else later

abbrev pub below : ℕ → Option ExtentKey → Option ExtentKey
below length none = none
below length (some a) = if ltb a.file_offset length then some a else none

pub at-Above :
    (length : ℕ) (i : ExtentKey) (xs : List ExtentKey)
    → Above extent_item i xs
    → at i.file_offset (filter (λ y. not (less y (key_at length))) xs) ≡ false
at-Above length i [] h = refl
at-Above length i (y ∷ ys) (p, h) = ground (arith, at-Above length i ys h)

pub at-find :
    (length x : ℕ) (xs : List ExtentKey)
    → IsAscending extent_item xs
    → (if at x (filter (λ y. not (less y (key_at length))) xs)
        then none
        else find (equiv extent_item (key_at x)) xs)
      ≡ below length (find (equiv extent_item (key_at x)) xs)
at-find length x [] h = refl
at-find length x (y ∷ ys) (p, h) = ground (arith, at-find length x ys h, at-Above length y ys p)

-- The last of ascending keys is found, and none that is found lies above it.
pub last-Above :
    (i m : ExtentKey) (xs : List ExtentKey)
    → Above extent_item i xs
    → get_last? xs ≡ some m
    → i.file_offset < m.file_offset
last-Above i m [] h e = cc
last-Above i m (y ∷ []) (p, h) e = ground arith
last-Above i m (y ∷ z ∷ ys) (p, h) e = last-Above i m (z ∷ ys) h e

pub find-last :
    (m : ExtentKey) (xs : List ExtentKey)
    → IsAscending extent_item xs
    → get_last? xs ≡ some m
    → find (equiv extent_item (key_at m.file_offset)) xs ≡ some m
find-last m [] h e = cc
find-last m (y ∷ []) (p, h) e = ground arith
find-last m (y ∷ z ∷ ys) (p, h) e =
    ground (arith, find-last m (z ∷ ys) h e, last-Above y m (z ∷ ys) p e)

pub found-le-last :
    (x : ℕ) (a m : ExtentKey) (xs : List ExtentKey)
    → IsAscending extent_item xs
    → get_last? xs ≡ some m
    → find (equiv extent_item (key_at x)) xs ≡ some a
    → (a.file_offset ≡ x) × (x ≤ m.file_offset)
found-le-last x a m [] h e f = cc
found-le-last x a m (y ∷ []) (p, h) e f = (ground arith, ground arith)
found-le-last x a m (y ∷ z ∷ ys) (p, h) e f =
    ground (arith, found-le-last x a m (z ∷ ys) h e, last-Above y m (z ∷ ys) p e)

pub last_nonempty : (y : ExtentKey) (ys : List ExtentKey) → get_last? (y ∷ ys) ≡ none → ⊥
last_nonempty y [] e = cc
last_nonempty y (z ∷ ys) e = last_nonempty z ys e

pub find-no_last :
    (x : ℕ) (xs : List ExtentKey)
    → get_last? xs ≡ none
    → find (equiv extent_item (key_at x)) xs ≡ none
find-no_last x [] e = refl
find-no_last x (y ∷ ys) e = absurd (last_nonempty y ys e)

pub cut_size :
    (offset size length : ℕ)
    → length < 2 ^ 64
    → offset < length
    → length < offset + size
    → IsU32 size
    → u32 (u64 (length + 2 ^ 64 - offset)) ≡ length - offset
cut_size offset size length fits under over sized = omega arith
