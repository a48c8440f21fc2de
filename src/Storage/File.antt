-- ===== src/Storage/File.antt =====
-- Files of package os, which storage/extent.go reads and writes at offsets: a parameter, with the
-- documented behaviour of ReadAt and WriteAt.
use cfs.Base.{
  ℕ, zero, suc, ◌+◌, ◌-◌, ◌<◌, ◌^◌, ◌≡◌, ◌&&◌, ltb, leb, if◌then◌else◌, [], ◌∷◌, length, Option,
  none, Error,
}
use cfs.Bytes.{Bytes}

-- The byte at a place, and 0 past the end.
unfoldable pub byte_of : Bytes → ℕ → ℕ
byte_of [] i = 0
byte_of (b ∷ bs) zero = b
byte_of (b ∷ bs) (suc i) = byte_of bs i

pub record Files : Type 1 where
  pub File : Type 0
  pub size : File → ℕ
  pub byte : File → ℕ → ℕ
  -- an error, and the file afterwards, of which nothing is known after an error
  pub write_at : File → Bytes → ℕ → Option Error × File
  -- as many bytes as there are, at most the number asked for, and io.EOF if there are fewer
  pub read_at : File → ℕ → ℕ → Bytes × Option Error
  pub sync : File → Option Error
  pub write_at-byte :
      (f f' : File) (bs : Bytes) (offset i : ℕ)
      → write_at f bs offset ≡ (none, f')
      → byte f' i
        ≡ (if leb offset i && ltb i (offset + length bs) then byte_of bs (i - offset) else byte f i)
  pub write_at-size :
      (f f' : File) (bs : Bytes) (offset : ℕ)
      → write_at f bs offset ≡ (none, f')
      → size f' ≡ (if ltb (size f) (offset + length bs) then offset + length bs else size f)
  pub write_at-negative :
      (f f' : File) (bs : Bytes) (offset : ℕ) → write_at f bs offset ≡ (none, f') → offset < 2 ^ 63
  pub read_at-length :
      (f : File) (offset n : ℕ) (bs : Bytes) → read_at f offset n ≡ (bs, none) → length bs ≡ n
  pub read_at-byte :
      (f : File) (offset n : ℕ) (bs : Bytes) (e : Option Error) (i : ℕ)
      → read_at f offset n ≡ (bs, e)
      → i < length bs
      → byte_of bs i ≡ byte f (offset + i)
