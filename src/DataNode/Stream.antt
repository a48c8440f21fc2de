-- ===== src/DataNode/Stream.antt =====
-- streamRepairExtent, datanode/data_partition_repair.go: the rest of an extent is read from the replica
-- that has the largest copy. What comes from the network is an argument. The loop takes fuel, and
-- answers nothing of the two where it runs out.
pub mod Ends
pub mod Sized
use cfs.Base.{
  ℕ, zero, suc, ◌+◌, ◌-◌, Bool, true, false, not, ◌&&◌, leb, ltb, ◌==◌, if◌then◌else◌, Option, none,
  some, Error, Result, ok, err,
}
use cfs.Bytes.{Bytes}
use cfs.Proto.{Status, op_ok, u64}
use cfs.Storage.{ExtentInfo}
use cfs.Storage.File.{Files}
use cfs.Storage.Extent.{Extent, front}
use cfs.Storage.Store.{ExtentStore, has_extent, watermark, write}

-- The fields of a packet that are looked at.
pub record Packet : Type 0 where
  pub result_code : Status
  pub req_id : ℕ
  pub partition_id : ℕ
  pub extent_id : ℕ
  pub size : ℕ
  pub extent_offset : ℕ
  pub bytes : Bytes
  pub crc : ℕ

-- GetConnect, WriteToConn, the replies as ReadFromConn reads them one after the other, crc32, the number
-- of the request, and the clock.
pub record Surroundings : Type 0 where
  pub connect : Option Error
  pub send : Option Error
  pub reply : ℕ → Result Packet
  pub checksum_ieee : Bytes → ℕ
  pub req_id : ℕ
  pub now : ℕ → ℕ

unfoldable pub is_op_ok : Status → Bool
is_op_ok op_ok = true
is_op_ok _ = false

-- Whether a reply is that of the request at the offset.
unfoldable pub is_answer : ℕ → ℕ → ℕ → ℕ → Packet → Bool
is_answer req_id partition_id extent_id curr_fix_offset reply =
    reply.req_id == req_id
    && (reply.partition_id == partition_id
        && (reply.extent_id == extent_id
            && (not (reply.size == 0) && reply.extent_offset == curr_fix_offset)))

module _ ⦃F : Files⦄ (env : Surroundings) (disk : ℕ → Result Extent) where
  -- The data of a reply, or the error on which the loop is left.
  unfoldable pub accepted : ℕ → ℕ → ℕ → Packet → Option Error
  unfolding is_op_ok is_answer front
  accepted partition_id extent_id curr_fix_offset reply =
      if not (is_op_ok reply.result_code)
      then some Error.unknown_result_code
      else if not (is_answer env.req_id partition_id extent_id curr_fix_offset reply)
      then some Error.invalid_reply
      else elim (front reply.size reply.bytes) [
        | none ↦ some Error.panic
        | some part ↦ if reply.crc == env.checksum_ieee part then none else some Error.crc_mismatch
      ]

  -- A round: its error, the size of the reply, and the store.
  pub record Round : Type 0 where
    pub error : Option Error
    pub size : ℕ
    pub store : ExtentStore

  unfoldable pub fix : ℕ → ℕ → ℕ → ℕ → ExtentStore → Packet → Round
  unfolding accepted write
  fix n partition_id extent_id curr_fix_offset s reply =
      elim (accepted partition_id extent_id curr_fix_offset reply) [
        | some x ↦ record { error = some x; size = 0; store = s }
        | none ↦
            let (x, s') =
              write disk extent_id curr_fix_offset reply.size reply.bytes reply.crc true false
                (env.now n) s in
            record { error = x; size = reply.size; store = s' }
      ]

  unfoldable pub fix_round : ℕ → ℕ → ℕ → ℕ → ExtentStore → Round
  unfolding fix
  fix_round n partition_id extent_id curr_fix_offset s = elim (env.reply n) [
    | err x ↦ record { error = some x; size = 0; store = s }
    | ok reply ↦ fix n partition_id extent_id curr_fix_offset s reply
  ]

  unfoldable pub fix_loop :
      ℕ → ℕ → ℕ → ExtentInfo → ℕ → ExtentStore → Option (Option Error × ExtentStore)
  unfolding fix_round
  fix_loop zero n partition_id remote curr_fix_offset s =
      if ltb curr_fix_offset remote.size then none else some (none, s)
  fix_loop (suc fuel) n partition_id remote curr_fix_offset s =
      let r = fix_round n partition_id remote.file_id curr_fix_offset s in
      let rest =
        fix_loop fuel (n + 1) partition_id remote (u64 (curr_fix_offset + r.size)) r.store in
      elim (ltb curr_fix_offset remote.size) [
        | false ↦ some (none, s)
        | true ↦ elim r.error [ some x ↦ some (some x, r.store) | none ↦ rest ]
      ]

  unfoldable pub stream_repair_extent :
      ℕ → ℕ → ExtentInfo → ExtentStore → Option (Option Error × ExtentStore)
  unfolding has_extent watermark fix_loop
  stream_repair_extent fuel partition_id remote s =
      if not (has_extent s remote.file_id)
      then some (none, s)
      else elim (watermark s remote.file_id) [
        | err x ↦ some (some x, s)
        | ok local ↦ if leb remote.size local.size then some (none, s) else elim env.connect [
          | some x ↦ some (some x, s)
          | none ↦ elim env.send [
            | some x ↦ some (some x, s)
            | none ↦ fix_loop fuel 0 partition_id remote local.size s
          ]
        ]
      ]
