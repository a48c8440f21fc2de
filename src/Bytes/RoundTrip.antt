-- ===== src/Bytes/RoundTrip.antt =====
-- What the reads of a buffer return on bytes that were written to it.
use cfs.Base.{
  ℕ, zero, suc, ◌+◌, ◌*◌, ◌/◌, ◌%◌, ◌^◌, ◌<◌, ◌≡◌, refl, [], ◌∷◌, ◌++◌, some, ok, length,
  length-append, arith,
}
use native.Mathlib.Nat.{pow-suc}
use cfs.Bytes.{
  Bytes, put_uint, uint_from, split_at, read_full, read_uint, Get, ◌>>=◌, padded, drop, buffer_read,
}

uint_from-append :
    (acc : ℕ) (xs ys : Bytes) → uint_from acc (xs ++ ys) ≡ uint_from (uint_from acc xs) ys
unfolding uint_from
uint_from-append acc [] ys = refl
uint_from-append acc (x ∷ xs) ys = uint_from-append (acc * 256 + x) xs ys

uint_from-put_uint : (n v : ℕ) → v < 256 ^ n → uint_from 0 (put_uint n v) ≡ v
unfolding put_uint uint_from
uint_from-put_uint zero v h = omega arith
uint_from-put_uint (suc n) v h =
    rw
      (
        uint_from-append 0 (put_uint n (v / 256)) (v % 256 ∷ []),
        uint_from-put_uint n (v / 256) (omega (arith, pow-suc 256 n)),
      )
      (omega arith)

pub length-put_uint : (n v : ℕ) → length (put_uint n v) ≡ n
unfolding put_uint
length-put_uint zero v = refl
length-put_uint (suc n) v =
    omega (arith, length-append (put_uint n (v / 256)) (v % 256 ∷ []), length-put_uint n (v / 256))

split_at-append : (xs rest : Bytes) → split_at (length xs) (xs ++ rest) ≡ some (xs, rest)
unfolding split_at
split_at-append [] rest = refl
split_at-append (x ∷ xs) rest = rw (split_at-append xs rest)

-- Reading as many bytes as were written returns them and leaves the rest.
pub read_full-append :
    (n : ℕ) (xs rest : Bytes) → length xs ≡ n → read_full n (xs ++ rest) ≡ ok (xs, rest)
unfolding read_full
read_full-append n xs rest h = rw (← h, split_at-append xs rest, read_full)

-- An integer that fits its width is read back, and what follows it is left.
pub read_uint-put_uint :
    (n v : ℕ) (rest : Bytes) → v < 256 ^ n → read_uint n (put_uint n v ++ rest) ≡ ok (v, rest)
unfolding read_uint
read_uint-put_uint n v rest h =
    rw (read_full-append n (put_uint n v) rest (length-put_uint n v), read_uint)
      (rw (uint_from-put_uint n v h))

-- One step of a chain of reads.
module _ {B : Type 0} (rest : Bytes) (f : ℕ → Get B) where
  pub bind-read_uint :
      (n v : ℕ) → v < 256 ^ n → (read_uint n >>= f) (put_uint n v ++ rest) ≡ f v rest
  bind-read_uint n v h = rw (read_uint-put_uint n v rest h, ◌>>=◌)

module _ {A B : Type 0} (m : Get A) (f : A → Get B) where
  pub bind-ok : {buf rest : Bytes} {a : A} → m buf ≡ ok (a, rest) → (m >>= f) buf ≡ f a rest
  bind-ok h = rw (h, ◌>>=◌)

padded-append : (xs rest : Bytes) → padded (length xs) (xs ++ rest) ≡ xs
unfolding padded
padded-append [] rest = refl
padded-append (x ∷ xs) rest = rw (padded-append xs rest)

drop-append : (xs rest : Bytes) → drop (length xs) (xs ++ rest) ≡ rest
unfolding drop
drop-append [] rest = refl
drop-append (x ∷ xs) rest = drop-append xs rest

-- A buffer that holds enough is read exactly.
pub buffer_read-append : (xs rest : Bytes) → buffer_read (length xs) (xs ++ rest) ≡ ok (xs, rest)
unfolding buffer_read
buffer_read-append [] rest = refl
buffer_read-append (x ∷ xs) rest = rw (padded-append xs rest, drop-append xs rest)
