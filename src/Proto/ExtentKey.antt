-- ===== src/Proto/ExtentKey.antt =====
-- proto/extent_key.go: the key of an extent and its binary form.
pub mod RoundTrip
use cfs.Base.{ℕ, ◌+◌, ◌≡◌, Bool, true, false, ◌⊎◌, ltb, ◌++◌, arith, ok, err}
use cfs.Bytes.{Bytes, Get, put_uint, read_uint, ◌>>=◌, pure}
use cfs.GoogleBtree.{BtreeItem}

pub record ExtentKey : Type 0 where
  pub file_offset : ℕ
  pub partition_id : ℕ
  pub extent_id : ℕ
  pub extent_offset : ℕ
  pub size : ℕ
  pub crc : ℕ

-- Less
abbrev pub less : ExtentKey → ExtentKey → Bool
less k that = ltb k.file_offset that.file_offset

pub less_irrefl : (a : ExtentKey) → less a a ≡ false
less_irrefl a = ground arith

pub less_trans : (a b c : ExtentKey) → less a b ≡ true → less b c ≡ true → less a c ≡ true
less_trans a b c h k = ground arith

pub less_weak : (a b c : ExtentKey) → less a c ≡ true → (less a b ≡ true) ⊎ (less b c ≡ true)
less_weak a b c h = ground arith

instance abbrev pub extent_item : BtreeItem ExtentKey
extent_item = record {
  less = less;
  less_irrefl = less_irrefl;
  less_trans = less_trans;
  less_weak = less_weak;
}

-- MarshalBinary: six big-endian fields, 40 bytes.
unfoldable pub marshal_binary : ExtentKey → Bytes
marshal_binary k =
    put_uint 8 k.file_offset
    ++ (put_uint 8 k.partition_id
        ++ (put_uint 8 k.extent_id
            ++ (put_uint 8 k.extent_offset ++ (put_uint 4 k.size ++ put_uint 4 k.crc))))

-- UnmarshalBinary
unfoldable pub unmarshal_binary : Get ExtentKey
unmarshal_binary = do
  file_offset ← read_uint 8
  partition_id ← read_uint 8
  extent_id ← read_uint 8
  extent_offset ← read_uint 8
  size ← read_uint 4
  crc ← read_uint 4
  pure (record {
    file_offset = file_offset;
    partition_id = partition_id;
    extent_id = extent_id;
    extent_offset = extent_offset;
    size = size;
    crc = crc;
  })
