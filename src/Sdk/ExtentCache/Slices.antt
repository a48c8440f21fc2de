-- ===== src/Sdk/ExtentCache/Slices.antt =====
-- Parts of a byte slice that lie next to each other.
use cfs.Base.{
  ℕ, zero, suc, ◌+◌, ◌-◌, ◌≤◌, ◌≡◌, [], ◌∷◌, ◌++◌, length, arith, refl, ap, ◌∙◌, sym, subst,
}
use cfs.Bytes.{Bytes, take, drop, length-take, length-drop}
use cfs.Sdk.ExtentCache.{slice}

take-nil : (n : ℕ) → take n [] ≡ []
unfolding take
take-nil zero = refl
take-nil (suc n) = refl

drop-nil : (n : ℕ) → drop n [] ≡ []
unfolding drop
drop-nil zero = refl
drop-nil (suc n) = refl

shift : (m n : ℕ) → suc m + n ≡ suc (m + n)
shift m n = omega arith

take-add : (m n : ℕ) (xs : Bytes) → take (m + n) xs ≡ take m xs ++ take n (drop m xs)
unfolding take drop
take-add zero n xs = ap (λ k. take k xs) (omega arith)
take-add (suc m) n [] = rw (take-nil (suc m + n), take-nil n) refl
take-add (suc m) n (x ∷ xs) =
    ap (λ k. take k (x ∷ xs)) (shift m n) ∙ ap (λ ys. x ∷ ys) (take-add m n xs)

drop-add : (m n : ℕ) (xs : Bytes) → drop n (drop m xs) ≡ drop (m + n) xs
unfolding drop
drop-add zero n xs = ap (λ k. drop k xs) (omega arith)
drop-add (suc m) n [] = rw (drop-nil (suc m + n), drop-nil n) refl
drop-add (suc m) n (x ∷ xs) = drop-add m n xs ∙ ap (λ k. drop k (x ∷ xs)) (sym (shift m n))

pub slice-nil : (xs : Bytes) (a : ℕ) → slice xs a a ≡ []
unfolding slice take
slice-nil xs a = let none_left : a - a ≡ 0 = omega arith in rw none_left refl

pub slice-append :
    (xs : Bytes) (a b c : ℕ) → a ≤ b → b ≤ c → slice xs a b ++ slice xs b c ≡ slice xs a c
unfolding slice
slice-append xs a b c p q =
    let at_b : drop (b - a) (drop a xs) ≡ drop b xs =
      drop-add a (b - a) xs ∙ ap (λ n. drop n xs) (omega arith) in
    rw (sym at_b)
      (sym (take-add (b - a) (c - b) (drop a xs)) ∙ ap (λ n. take n (drop a xs)) (omega arith))

pub slice-take : (xs : Bytes) (a b : ℕ) → a ≡ 0 → slice xs a b ≡ take b xs
unfolding slice drop
slice-take xs a b e =
    subst (λ z. slice xs z b ≡ take b xs) (sym e) (ap (λ n. take n xs) (omega arith))

-- A slice that is in range has all its bytes.
pub length-slice : (xs : Bytes) (a b : ℕ) → a ≤ b → b ≤ length xs → length (slice xs a b) ≡ b - a
unfolding slice
length-slice xs a b p q = length-take (b - a) (drop a xs) (omega (arith, length-drop a xs))
