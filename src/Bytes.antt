-- ===== src/Bytes.antt =====
-- Bytes, the big-endian integers of encoding/binary, and reading from a bytes.Buffer.
pub mod RoundTrip
pub mod Fill
use cfs.Base.{
  ◌-◌, ◌≤◌, ◌≡◌, refl, length, arith, ℕ, zero, suc, ◌+◌, ◌*◌, ◌/◌, ◌%◌, List, [], ◌∷◌, ◌++◌, Option,
  none, some, Error, Result, ok, err, eof, unexpected_eof,
}

-- A byte slice; every element is below 256 where that matters.
abbrev pub Bytes : Type 0
Bytes = List ℕ

-- binary.Write and PutUint32/PutUint64 of the `n`-byte unsigned integer `v`, big-endian.
unfoldable pub put_uint : ℕ → ℕ → Bytes
put_uint zero v = []
put_uint (suc n) v = put_uint n (v / 256) ++ (v % 256) ∷ []

-- Uint32/Uint64 of the bytes, read from the front onto `acc`.
unfoldable pub uint_from : ℕ → Bytes → ℕ
uint_from acc [] = acc
uint_from acc (b ∷ bs) = uint_from (acc * 256 + b) bs

-- The first `n` bytes and the rest; `none` if there are fewer.
unfoldable pub split_at : ℕ → Bytes → Option (Bytes × Bytes)
split_at zero buf = some ([], buf)
split_at (suc n) [] = none
split_at (suc n) (b ∷ buf) = elim (split_at n buf) [
  | none ↦ none
  | some (front, back) ↦ some (b ∷ front, back)
]

-- Reading from a buffer: the value and what is left, or an error.
abbrev pub Get : Type 0 → Type 0
Get A = Bytes → Result (A × Bytes)

-- io.ReadFull fails with EOF on an empty buffer, with ErrUnexpectedEOF on a short one.
abbrev short_read : Bytes → Error
short_read [] = eof
short_read (_ ∷ _) = unexpected_eof

unfoldable pub read_full : ℕ → Get Bytes
unfolding split_at
read_full n buf = elim (split_at n buf) [ none ↦ err (short_read buf) | some p ↦ ok p ]

-- binary.Read of an `n`-byte unsigned integer.
unfoldable pub read_uint : ℕ → Get ℕ
unfolding read_full uint_from
read_uint n buf = elim (read_full n buf) [
  | ok (bs, rest) ↦ ok (uint_from 0 bs, rest)
  | err e ↦ err e
]

-- Sequencing of reads.
infixl 5 ◌>>=◌
abbrev pub ◌>>=◌ : {A B : Type 0} → Get A → (A → Get B) → Get B
◌>>=◌ m f buf = elim (m buf) [ ok (a, rest) ↦ f a rest | err e ↦ err e ]

abbrev pub pure : {A : Type 0} → A → Get A
pure a buf = ok (a, buf)

-- bytes.Buffer.Read into a slice of `n` zero bytes: a short buffer fills the front of the slice and
-- is no error, and an empty one is EOF unless nothing was asked for.
unfoldable pub padded : ℕ → Bytes → Bytes
padded zero buf = []
padded (suc n) [] = 0 ∷ padded n []
padded (suc n) (b ∷ buf) = b ∷ padded n buf

unfoldable pub take : ℕ → Bytes → Bytes
take zero xs = []
take (suc n) [] = []
take (suc n) (x ∷ xs) = x ∷ take n xs

unfoldable pub drop : ℕ → Bytes → Bytes
drop zero buf = buf
drop (suc n) [] = []
drop (suc n) (b ∷ buf) = drop n buf

pub length-take : (n : ℕ) (bs : Bytes) → n ≤ length bs → length (take n bs) ≡ n
unfolding take
length-take zero bs h = refl
length-take (suc n) [] h = absurd (omega arith)
length-take (suc n) (b ∷ bs) h = omega (arith, length-take n bs (omega arith))

pub length-drop : (n : ℕ) (bs : Bytes) → length (drop n bs) ≡ length bs - n
unfolding drop
length-drop zero bs = omega arith
length-drop (suc n) [] = omega arith
length-drop (suc n) (b ∷ bs) = omega (arith, length-drop n bs)

unfoldable pub buffer_read : ℕ → Get Bytes
unfolding padded drop
buffer_read zero buf = ok ([], buf)
buffer_read (suc n) [] = err eof
buffer_read (suc n) (b ∷ buf) = ok (padded (suc n) (b ∷ buf), drop (suc n) (b ∷ buf))
