-- ===== src/Tests/Extent.antt =====
-- The theorems on extents at a file that is a list of bytes.
use cfs.Base.{
  ℕ, zero, suc, ◌+◌, ◌-◌, ◌≤◌, ◌<◌, ◌%◌, ◌^◌, ◌≡◌, refl, sym, ap, arith, true, false, ◌&&◌, ltb,
  leb, if◌then◌else◌, [], ◌∷◌, length, Option, none, some, Error, subst, Bool-cases, inl, inr, ◌∙◌,
}
use cfs.Bytes.{Bytes, take, put_uint}
use cfs.Int64.{int_add, int_le, int_lt}
use cfs.Storage.{is_tiny_extent}
use cfs.Storage.File.{Files, byte_of}
use cfs.Storage.Extent.{
  Opened, persistence_block_crc, check_offset_and_size, front, page_up, tiny_written, write_tiny,
  update_crcs, crc_then, data_written, grow, write, read, set_crc, verified, max_uint32, page_size,
}
use cfs.Storage.Extent.Checks.{some-none}
use cfs.Storage.Extent.Crcs.{crc_after, write-crcs}
use cfs.Storage.Extent.RoundTrip.{read-write}
use cfs.Storage.Extent.Tiny.{write_tiny-size}

-- A file: its size, and a byte at each place.
pub record Content : Type 0 where
  size : ℕ
  byte : ℕ → ℕ

abbrev slice : (ℕ → ℕ) → ℕ → ℕ → Bytes
slice f offset zero = []
slice f offset (suc n) = f offset ∷ slice f (offset + 1) n

length-slice : (f : ℕ → ℕ) (offset n : ℕ) → length (slice f offset n) ≡ n
length-slice f offset zero = refl
length-slice f offset (suc n) = omega (arith, length-slice f (offset + 1) n)

byte_of-slice : (f : ℕ → ℕ) (offset n i : ℕ) → i < n → byte_of (slice f offset n) i ≡ f (offset + i)
unfolding byte_of
byte_of-slice f offset zero i h = elim h [ ]
byte_of-slice f offset (suc n) zero h = ap f (omega arith)
byte_of-slice f offset (suc n) (suc i) h =
    rw (byte_of-slice f (offset + 1) n i (omega arith)) (ap f (omega arith))

abbrev write_content : Content → Bytes → ℕ → Option Error × Content
write_content f bs offset =
    if ltb offset (2 ^ 63)
    then (
      none,
      record {
        size = if ltb f.size (offset + length bs) then offset + length bs else f.size;
        byte = λ i.
            if leb offset i && ltb i (offset + length bs)
            then byte_of bs (i - offset)
            else f.byte i;
      },
    )
    else (some Error.parameter_mismatch, f)

abbrev read_content : Content → ℕ → ℕ → Bytes × Option Error
read_content f offset n =
    if leb (offset + n) f.size
    then (slice f.byte offset n, none)
    else (slice f.byte offset (f.size - offset), some Error.eof)

pub content-after :
    (f f' : Content) (bs : Bytes) (offset : ℕ)
    → write_content f bs offset ≡ (none, f')
    → (offset < 2 ^ 63)
      × (f' ≡ record {
        size = if ltb f.size (offset + length bs) then offset + length bs else f.size;
        byte = λ i.
            if leb offset i && ltb i (offset + length bs)
            then byte_of bs (i - offset)
            else f.byte i;
      })
content-after f f' bs offset h = elim (Bool-cases (ltb offset (2 ^ 63))) [
  | inl x ↦ (ground arith, sym (ap (λ (p : Option Error × Content). p.1) (rw x at h)))
  | inr x ↦
      absurd
        (some-none Error.parameter_mismatch (ap (λ (p : Option Error × Content). p.0) (rw x at h)))
]

pub content-length :
    (f : Content) (offset n : ℕ) (bs : Bytes) → read_content f offset n ≡ (bs, none) → length bs ≡ n
content-length f offset n bs h = elim (Bool-cases (leb (offset + n) f.size)) [
  | inl x ↦
      ap length (sym (ap (λ (p : Bytes × Option Error). p.0) (rw x at h)))
      ∙ length-slice f.byte offset n
  | inr x ↦ absurd (some-none Error.eof (ap (λ (p : Bytes × Option Error). p.1) (rw x at h)))
]

pub content-byte :
    (f : Content) (offset n : ℕ) (bs : Bytes) (e : Option Error) (i : ℕ)
    → read_content f offset n ≡ (bs, e)
    → i < length bs
    → byte_of bs i ≡ f.byte (offset + i)
content-byte f offset n bs e i h k = elim (Bool-cases (leb (offset + n) f.size)) [
  | inl x ↦
      let b : slice f.byte offset n ≡ bs = ap (λ (p : Bytes × Option Error). p.0) (rw x at h) in
      let m = length-slice f.byte offset n in
      let k' : i < n = subst (λ c. i < c) (sym (ap length b) ∙ m) k in
      subst (λ c. byte_of c i ≡ f.byte (offset + i)) b (byte_of-slice f.byte offset n i k')
  | inr x ↦
      let b : slice f.byte offset (f.size - offset) ≡ bs =
        ap (λ (p : Bytes × Option Error). p.0) (rw x at h) in
      let m = length-slice f.byte offset (f.size - offset) in
      let k' : i < f.size - offset = subst (λ c. i < c) (sym (ap length b) ∙ m) k in
      subst (λ c. byte_of c i ≡ f.byte (offset + i)) b
        (byte_of-slice f.byte offset (f.size - offset) i k')
]

instance unfoldable pub contents : Files
unfolding content-after
contents = record {
  File = Content;
  size = λ f. f.size;
  byte = λ f i. f.byte i;
  write_at = write_content;
  read_at = read_content;
  sync = λ f. none;
  write_at-byte =
      λ f f' bs offset i h. ap (λ (c : Content). c.byte i) (content-after f f' bs offset h).1;
  write_at-size =
      λ f f' bs offset h. ap (λ (c : Content). c.size) (content-after f f' bs offset h).1;
  write_at-negative = λ f f' bs offset h. (content-after f f' bs offset h).0;
  read_at-length = content-length;
  read_at-byte = content-byte;
}

-- A file of two bytes, in an extent of data.
abbrev pub data_file : Opened
unfolding contents
data_file = record {
  e = record {
    file = record { size = 2; byte = λ i. 7 };
    extent_id = 1025;
    modify_time = 0;
    data_size = 2;
    header = λ b. 8;
  };
  verify_extent_fp = record { size = 0; byte = λ i. 0 };
}

abbrev tiny_file : Opened
unfolding contents
tiny_file = record data_file { e = record data_file.e { extent_id = 1 } }

data_file_after : Opened
unfolding data_file contents write write_tiny check_offset_and_size front page_up tiny_written
    update_crcs crc_then data_written grow persistence_block_crc verified set_crc int_add int_le
    int_lt put_uint take
data_file_after = (write persistence_block_crc (5 ∷ 6 ∷ []) 1 2 9 true true 40 data_file).1

write-crcs_example : data_file_after.e.header 0 ≡ crc_after (λ b. 8) 1 2 9 0
unfolding data_file_after data_file contents write write_tiny check_offset_and_size front page_up
    tiny_written update_crcs crc_then data_written grow persistence_block_crc verified set_crc
    int_add int_le int_lt put_uint take is_tiny_extent
write-crcs_example =
    write-crcs (5 ∷ 6 ∷ []) 1 2 9 true true 40 data_file data_file_after refl (omega arith) refl 0

read-write_example : 5 ∷ 6 ∷ [] ≡ take 2 (5 ∷ 6 ∷ [])
unfolding data_file_after data_file contents write write_tiny check_offset_and_size front page_up
    tiny_written update_crcs crc_then data_written grow persistence_block_crc verified set_crc
    int_add int_le int_lt put_uint take is_tiny_extent read byte_of
read-write_example =
    read-write (5 ∷ 6 ∷ []) 1 2 9 true true 40 data_file data_file_after 2 false (5 ∷ 6 ∷ []) refl
      (omega arith) refl refl

tiny_file_after : Opened
unfolding tiny_file contents write_tiny front page_up tiny_written int_add int_le take
tiny_file_after = (write_tiny (5 ∷ 6 ∷ []) 4095 2 true true tiny_file).1

write_tiny-size_example :
    (4095 + 2 < max_uint32)
    × (4095 + 2 ≤ tiny_file_after.e.data_size)
    × (tiny_file_after.e.data_size < 4095 + 2 + page_size)
    × (tiny_file_after.e.data_size % page_size ≡ 0)
unfolding tiny_file_after tiny_file contents write_tiny front page_up tiny_written int_add int_le
    take
write_tiny-size_example =
    write_tiny-size (5 ∷ 6 ∷ []) 4095 2 true tiny_file tiny_file_after (omega arith) (omega arith)
      refl
