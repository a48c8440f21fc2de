-- ===== src/Tests/Stream.antt =====
-- The theorems on the repair of an extent at a store that has its first two bytes.
use cfs.Base.{
  ℕ, ◌≡◌, refl, subst, arith, false, [], ◌∷◌, Option, none, some, Error, Result, ok, err,
}
use cfs.Bytes.{take, put_uint}
use cfs.Int64.{int_add, int_le, int_lt}
use cfs.Proto.{op_ok}
use cfs.Storage.{ExtentInfo, is_tiny_extent}
use cfs.Storage.Extent.{
  Extent, persistence_block_crc, check_offset_and_size, front, page_up, tiny_written, write_tiny,
  update_crcs, crc_then, data_written, grow, write as write_extent, set_crc, verified,
}
use cfs.Storage.Store.{
  info, set_info, ExtentStore, has_extent, watermark, set_extent, extent_with_header,
  update_extent_info, check_write, settled, write_found, write as write_store,
}
use cfs.Storage.Store.Writes.{IsNumbered}
use cfs.DataNode.Stream.{
  Packet, Surroundings, is_op_ok, is_answer, accepted, fix, fix_round, fix_loop,
  stream_repair_extent,
}
use cfs.DataNode.Stream.Ends.{IsPacket, stream_repair_extent-ends}
use cfs.DataNode.Stream.Sized.{Repaired, stream_repair_extent-size}
use cfs.Tests.Extent.{contents, data_file}

abbrev extent_info : ℕ → ExtentInfo
extent_info size = record {
  file_id = 1025;
  size = size;
  crc = 0;
  is_deleted = false;
  modify_time = 0;
  source = [];
}

abbrev store : ExtentStore
unfolding contents
store = record {
  extent_info_map = extent_info 2 ∷ [];
  cache = data_file.e ∷ [];
  verify_extent_fp = data_file.verify_extent_fp;
}

abbrev disk : ℕ → Result Extent
disk id = err Error.eof

disk-IsNumbered : IsNumbered disk
disk-IsNumbered id e h = cc

abbrev two_bytes : Packet
two_bytes = record {
  result_code = op_ok;
  req_id = 3;
  partition_id = 9;
  extent_id = 1025;
  size = 2;
  extent_offset = 2;
  bytes = 5 ∷ 6 ∷ [];
  crc = 0;
}

abbrev surroundings : Surroundings
surroundings = record {
  connect = none;
  send = none;
  reply = λ n. ok two_bytes;
  checksum_ieee = λ bs. 0;
  req_id = 3;
  now = λ n. 40;
}

two_bytes-IsPacket : IsPacket surroundings disk two_bytes
two_bytes-IsPacket = record { size = omega arith; fits = omega arith }

reply-IsPacket : (n : ℕ) (p : Packet) → surroundings.reply n ≡ ok p → IsPacket surroundings disk p
reply-IsPacket n p h =
    let same : two_bytes ≡ p = cc in
    subst (λ q. IsPacket surroundings disk q) same two_bytes-IsPacket

stream_repair_extent-ends_example :
    (r : Option Error × ExtentStore) × (stream_repair_extent surroundings disk 4 9
        (extent_info 4)
        store
      ≡ some r)
stream_repair_extent-ends_example =
    stream_repair_extent-ends surroundings disk 4 9 (extent_info 4) store disk-IsNumbered
      reply-IsPacket (omega arith)

abbrev repaired : Option (Option Error × ExtentStore) → ExtentStore
repaired none = store
repaired (some (_, s)) = s

store_after : ExtentStore
unfolding contents info set_info watermark has_extent extent_with_header set_extent
    update_extent_info check_write settled write_found write_store write_extent write_tiny
    check_offset_and_size front page_up tiny_written update_crcs crc_then data_written grow
    persistence_block_crc verified set_crc int_add int_le int_lt put_uint take is_tiny_extent
    is_op_ok is_answer accepted fix fix_round fix_loop stream_repair_extent
store_after = repaired (stream_repair_extent surroundings disk 4 9 (extent_info 4) store)

stream_repair_extent-size_example : Repaired surroundings disk 1025 4 store store_after
unfolding contents info set_info watermark has_extent extent_with_header set_extent
    update_extent_info check_write settled write_found write_store write_extent write_tiny
    check_offset_and_size front page_up tiny_written update_crcs crc_then data_written grow
    persistence_block_crc verified set_crc int_add int_le int_lt put_uint take is_tiny_extent
    is_op_ok is_answer accepted fix fix_round fix_loop stream_repair_extent store_after
stream_repair_extent-size_example =
    stream_repair_extent-size surroundings disk 4 9 (extent_info 4) store store_after
      disk-IsNumbered reply-IsPacket refl refl refl
