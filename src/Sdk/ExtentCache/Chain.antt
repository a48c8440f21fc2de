-- ===== src/Sdk/ExtentCache/Chain.antt =====
-- Extents of a file that do not overlap, as a list in the order of their offsets, and the one that
-- covers an offset.
use cfs.Base.{
  ℕ, ◌+◌, ◌≤◌, ◌<◌, ◌≡◌, Bool, not, ltb, leb, ◌&&◌, List, [], ◌∷◌, Option, none, some,
  if◌then◌else◌, arith, refl, All, filter, get_last?, get_last?-cons, Option-cases, inl, inr, subst,
  subst,
}
use cfs.Int64.{IsInt}
use cfs.Proto.ExtentKey.{ExtentKey}

-- Every key starts at or after `e`.
abbrev pub After : ℕ → List ExtentKey → Type 0
After e [] = Unit
After e (k ∷ ks) = (e ≤ k.file_offset) × After e ks

-- No two extents overlap.
abbrev pub Chained : List ExtentKey → Type 0
Chained [] = Unit
Chained (k ∷ ks) = After (k.file_offset + k.size) ks × Chained ks

abbrev pub EndsInt : List ExtentKey → Type 0
EndsInt ks = All (λ k. IsInt (k.file_offset + k.size)) ks

abbrev pub covers : ExtentKey → ℕ → Bool
covers k x = leb k.file_offset x && ltb x (k.file_offset + k.size)

-- The extent that covers an offset.
abbrev pub serving : ℕ → List ExtentKey → Option ExtentKey
serving x [] = none
serving x (k ∷ ks) = let later = serving x ks in if covers k x then some k else later

pub serving-After : (e x : ℕ) (ks : List ExtentKey) → After e ks → x < e → serving x ks ≡ none
serving-After e x [] h l = refl
serving-After e x (k ∷ ks) (p, h) l = ground (arith, serving-After e x ks h l)

-- The keys that start at or before `x`.
abbrev pub up_to : ℕ → List ExtentKey → List ExtentKey
up_to x ks = filter (λ k. not (ltb x k.file_offset)) ks

-- The last key that passes a test: it passes, and starts after what all keys start after.
pub last-After :
    (e x : ℕ) (ks : List ExtentKey) (j : ExtentKey)
    → After e ks
    → get_last? (up_to x ks) ≡ some j
    → (e ≤ j.file_offset) × (j.file_offset ≤ x)
last-After e x [] j h l = absurd (ground arith)
last-After e x (k ∷ ks) j (p, h) l =
    ground (arith, get_last?-cons k (up_to x ks), last-After e x ks j h)

abbrev pub covering : ℕ → Option ExtentKey → Option ExtentKey
covering x none = none
covering x (some k) = if covers k x then some k else none

pub last-serving :
    (x : ℕ) (ks : List ExtentKey) → Chained ks → covering x (get_last? (up_to x ks)) ≡ serving x ks
last-serving x [] h = refl
last-serving x (k ∷ ks) (p, h) = elim (Option-cases (get_last? (up_to x ks))) [
  | inl e ↦ ground (arith, e, get_last?-cons k (up_to x ks), last-serving x ks h)
  | inr (j, e) ↦ ground (
    arith,
    e,
    get_last?-cons k (up_to x ks),
    last-serving x ks h,
    last-After (k.file_offset + k.size) x ks j p e,
  )
]

-- No key that starts below `low` reaches past it.
abbrev pub Clears : ℕ → List ExtentKey → Type 0
Clears low ks = All (λ k. k.file_offset < low → k.file_offset + k.size ≤ low) ks

Clears-After : (low e : ℕ) (ks : List ExtentKey) → After e ks → low ≤ e → Clears low ks
Clears-After low e [] h l = tt
Clears-After low e (k ∷ ks) (p, h) l = (λ m. absurd (omega arith), Clears-After low e ks h l)

pub last-Clears :
    (x : ℕ) (ks : List ExtentKey) (j : ExtentKey)
    → Chained ks
    → get_last? (up_to x ks) ≡ some j
    → Clears j.file_offset ks
last-Clears x [] j h l = tt
last-Clears x (k ∷ ks) j (p, h) l = elim (Option-cases (get_last? (up_to x ks))) [
  | inl e ↦
      let same : k ≡ j = ground (arith, e, get_last?-cons k (up_to x ks)) in
      subst (λ i. Clears i.file_offset (k ∷ ks)) same
        (
          λ m. absurd (omega arith),
          Clears-After k.file_offset (k.file_offset + k.size) ks p (omega arith),
        )
  | inr (i, e) ↦
      let same : i ≡ j = ground (arith, e, get_last?-cons k (up_to x ks)) in
      subst (λ i. Clears i.file_offset (k ∷ ks)) same
        (λ m. (last-After (k.file_offset + k.size) x ks i p e).0, last-Clears x ks i h e)
]

-- Between the last start at or before an offset and the end of a range, the keys in range serve as
-- all keys do.
abbrev pub between : ℕ → ℕ → List ExtentKey → List ExtentKey
between low high ks = filter (λ k. not (ltb k.file_offset low) && ltb k.file_offset high) ks

pub serving-between :
    (low high x : ℕ) (ks : List ExtentKey)
    → Clears low ks
    → low ≤ x
    → x < high
    → serving x (between low high ks) ≡ serving x ks
serving-between low high x [] c l m = refl
serving-between low high x (k ∷ ks) (p, c) l m =
    ground (arith, p, serving-between low high x ks c l m)

module _ (p : ExtentKey → Bool) where
  filter-After : (e : ℕ) (ks : List ExtentKey) → After e ks → After e (filter p ks)
  filter-After e [] h = tt
  filter-After e (k ∷ ks) (q, h) = ground (arith, filter-After e ks h)

  pub filter-Chained : (ks : List ExtentKey) → Chained ks → Chained (filter p ks)
  filter-Chained [] h = tt
  filter-Chained (k ∷ ks) (q, h) =
      ground (arith, filter-Chained ks h, filter-After (k.file_offset + k.size) ks q)

  pub filter-EndsInt : (ks : List ExtentKey) → EndsInt ks → EndsInt (filter p ks)
  filter-EndsInt [] h = tt
  filter-EndsInt (k ∷ ks) (q, h) = ground (arith, filter-EndsInt ks h)

pub last-EndsInt :
    (ks : List ExtentKey) (j : ExtentKey)
    → EndsInt ks
    → get_last? ks ≡ some j
    → IsInt (j.file_offset + j.size)
last-EndsInt [] j h l = absurd (ground arith)
last-EndsInt (k ∷ ks) j (q, h) l = ground (arith, get_last?-cons k ks, last-EndsInt ks j h)

pub last-le :
    (x : ℕ) (ks : List ExtentKey) (j : ExtentKey)
    → get_last? (up_to x ks) ≡ some j
    → j.file_offset ≤ x
last-le x [] j l = absurd (ground arith)
last-le x (k ∷ ks) j l = ground (arith, get_last?-cons k (up_to x ks), last-le x ks j)

pub Clears-zero : (ks : List ExtentKey) → Clears 0 ks
Clears-zero [] = tt
Clears-zero (k ∷ ks) = (λ m. absurd (omega arith), Clears-zero ks)
