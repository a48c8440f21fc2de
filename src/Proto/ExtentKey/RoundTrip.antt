-- ===== src/Proto/ExtentKey/RoundTrip.antt =====
-- The binary form of an extent key, written and read: proto/extent_key.go.
use cfs.Base.{◌≡◌, ◌++◌, ok, append_assoc, length, length-append}
use cfs.Bytes.{Bytes}
use cfs.Bytes.RoundTrip.{bind-read_uint, length-put_uint}
use cfs.Proto.{IsU32, IsU64}
use cfs.Proto.ExtentKey.{ExtentKey, marshal_binary, unmarshal_binary}

-- Every field fits its machine word.
pub record Fits (k : ExtentKey) : Type 0 where
  pub file_offset_fits : IsU64 k.file_offset
  pub partition_id_fits : IsU64 k.partition_id
  pub extent_id_fits : IsU64 k.extent_id
  pub extent_offset_fits : IsU64 k.extent_offset
  pub size_fits : IsU32 k.size
  pub crc_fits : IsU32 k.crc

-- An extent key whose fields fit their words is read back from what MarshalBinary wrote, and the
-- bytes that follow it are left in the buffer.
pub unmarshal_binary-marshal_binary :
    (k : ExtentKey) (rest : Bytes)
    → Fits k
    → unmarshal_binary (marshal_binary k ++ rest) ≡ ok (k, rest)
unfolding unmarshal_binary marshal_binary
unmarshal_binary-marshal_binary k rest h = simp append_assoc (
    rw (
      bind-read_uint _ _ 8 k.file_offset h.file_offset_fits,
      bind-read_uint _ _ 8 k.partition_id h.partition_id_fits,
      bind-read_uint _ _ 8 k.extent_id h.extent_id_fits,
      bind-read_uint _ _ 8 k.extent_offset h.extent_offset_fits,
      bind-read_uint _ _ 4 k.size h.size_fits,
      bind-read_uint _ _ 4 k.crc h.crc_fits,
    ))

pub length-marshal_binary : (k : ExtentKey) → length (marshal_binary k) ≡ 40
unfolding marshal_binary
length-marshal_binary k = simp (length-append, length-put_uint)
