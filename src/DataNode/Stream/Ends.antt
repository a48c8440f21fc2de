-- ===== src/DataNode/Stream/Ends.antt =====
-- The loop of streamRepairExtent ends, whatever the replies are.
use cfs.Base.{
  ℕ, zero, suc, ◌+◌, ◌≤◌, ◌<◌, ◌^◌, ◌≡◌, refl, ap, ◌∙◌, true, false, leb, ltb, length, Option, none,
  some, Error, Result, ok, arith, Option-cases, Bool-cases, Result-cases, inl, inr,
}
use cfs.Proto.{u64}
use cfs.Storage.{ExtentInfo}
use cfs.Storage.File.{Files}
use cfs.Storage.Extent.{Extent}
use cfs.Storage.Extent.Checks.{some-none}
use cfs.Storage.Store.{ExtentStore, has_extent, watermark, write}
use cfs.Storage.Store.Writes.{IsNumbered, write-Stored, write_extent-offset}
use cfs.DataNode.Stream.{
  Packet, Surroundings, Round, accepted, is_answer, fix, fix_round, fix_loop, stream_repair_extent,
}

module _ ⦃F : Files⦄ (env : Surroundings) (disk : ℕ → Result Extent) where
  -- A packet has a size of 32 bits, and data that fits an int.
  pub record IsPacket (p : Packet) : Type 0 where
    pub size : p.size < 2 ^ 32
    pub fits : length p.bytes < 2 ^ 63

  accepted-size :
      (partition_id extent_id curr : ℕ) (p : Packet)
      → accepted env disk partition_id extent_id curr p ≡ none
      → 0 < p.size
  unfolding accepted is_answer
  accepted-size partition_id extent_id curr p h = ground (arith, h)

  -- A round without an error: its reply, and the write that it made.
  pub record Made (n partition_id extent_id curr : ℕ) (s : ExtentStore) (r : Round env disk)
      : Type 0 where
    pub reply : Packet
    pub came : env.reply n ≡ ok reply
    pub accepts : accepted env disk partition_id extent_id curr reply ≡ none
    pub sized : r.size ≡ reply.size
    pub writes :
        write disk extent_id curr reply.size reply.bytes reply.crc true false (env.now n) s
        ≡ (none, r.store)

  pub fix_round-Made :
      (n partition_id extent_id curr : ℕ) (s : ExtentStore)
      → (fix_round env disk n partition_id extent_id curr s).error ≡ none
      → Made n partition_id extent_id curr s (fix_round env disk n partition_id extent_id curr s)
  unfolding fix_round fix
  fix_round-Made n partition_id extent_id curr s h = elim (Result-cases (env.reply n)) [
    | inr (x, e) ↦ absurd (some-none x (rw (e, fix_round) at h))
    | inl (p, e) ↦ elim (Option-cases (accepted env disk partition_id extent_id curr p)) [
      | inr (x, a) ↦ absurd (some-none x (rw (e, a, fix_round, fix) at h))
      | inl a ↦
          let w = write disk extent_id curr p.size p.bytes p.crc true false (env.now n) s in
          let k : w.0 ≡ none = rw (e, a, fix_round, fix) at h in
          record {
            reply = p;
            came = e;
            accepts = a;
            sized = rw (e, fix_round, a, fix) refl;
            writes = ap (λ (x : Option Error). (x, w.1)) k ∙ (rw (e, fix_round, a, fix) refl);
          }
    ]
  ]

  -- It moves on, and does not wrap around.
  pub moves-Made :
      (n partition_id extent_id curr : ℕ) (s : ExtentStore) (r : Round env disk)
      → IsNumbered disk
      → ((n : ℕ) (p : Packet) → env.reply n ≡ ok p → IsPacket p)
      → Made n partition_id extent_id curr s r
      → (0 < r.size) × (curr + r.size < 2 ^ 64)
  moves-Made n partition_id extent_id curr s r d k m =
      let is = k n m.reply m.came in
      let w =
        write-Stored disk extent_id curr m.reply.size m.reply.bytes m.reply.crc true false
          (env.now n) s r.store d m.writes in
      let low =
        write_extent-offset m.reply.bytes curr m.reply.size m.reply.crc true false (env.now n)
          w.before w.after is.fits w.wrote in
      let positive = accepted-size partition_id extent_id curr m.reply m.accepts in
      let small = is.size in let sized = m.sized in (omega arith, omega arith)

  pub fix_loop-next :
      (fuel n partition_id curr : ℕ) (remote : ExtentInfo) (s : ExtentStore)
      → ltb curr remote.size ≡ true
      → (fix_round env disk n partition_id remote.file_id curr s).error ≡ none
      → curr + (fix_round env disk n partition_id remote.file_id curr s).size < 2 ^ 64
      → fix_loop env disk (suc fuel) n partition_id remote curr s
        ≡ fix_loop env disk fuel
            (n + 1)
            partition_id
            remote
            (curr + (fix_round env disk n partition_id remote.file_id curr s).size)
            (fix_round env disk n partition_id remote.file_id curr s).store
  unfolding fix_loop
  fix_loop-next fuel n partition_id curr remote s l e w =
      let r = fix_round env disk n partition_id remote.file_id curr s in
      let next : u64 (curr + r.size) ≡ curr + r.size = omega arith in rw (fix_loop, l, e, next) refl

  fix_loop-ends :
      (fuel n partition_id curr : ℕ) (remote : ExtentInfo) (s : ExtentStore)
      → IsNumbered disk
      → ((n : ℕ) (p : Packet) → env.reply n ≡ ok p → IsPacket p)
      → remote.size ≤ curr + fuel
      → (r : Option Error × ExtentStore) × (fix_loop env disk fuel n partition_id remote curr s
          ≡ some r)
  unfolding fix_loop
  fix_loop-ends zero n partition_id curr remote s d k b =
      let over : ltb curr remote.size ≡ false = ground arith in ((none, s), rw over refl)
  fix_loop-ends (suc fuel) n partition_id curr remote s d k b =
      let r = fix_round env disk n partition_id remote.file_id curr s in
      elim (Bool-cases (ltb curr remote.size)) [
        | inr l ↦ ((none, s), rw (fix_loop, l) refl)
        | inl l ↦ elim (Option-cases r.error) [
          | inr (x, e) ↦ ((some x, r.store), rw (fix_loop, l, e) refl)
          | inl e ↦
              let (m, w) =
                moves-Made n partition_id remote.file_id curr s r d k
                  (fix_round-Made n partition_id remote.file_id curr s e) in
              let (q, h) =
                fix_loop-ends fuel (n + 1) partition_id (curr + r.size) remote r.store d k
                  (omega arith) in
              (q, fix_loop-next fuel n partition_id curr remote s l e w ∙ h)
        ]
      ]

  -- Where the files have the numbers of their extents, and packets have sizes of 32 bits and data
  -- that fits an int, streamRepairExtent ends, whatever the replies are: as many rounds as the
  -- size that is asked for are enough.
  pub stream_repair_extent-ends :
      (fuel partition_id : ℕ) (remote : ExtentInfo) (s : ExtentStore)
      → IsNumbered disk
      → ((n : ℕ) (p : Packet) → env.reply n ≡ ok p → IsPacket p)
      → remote.size ≤ fuel
      → (r : Option Error × ExtentStore) × (stream_repair_extent env disk fuel partition_id remote s
          ≡ some r)
  unfolding stream_repair_extent
  stream_repair_extent-ends fuel partition_id remote s d k b =
      elim (Bool-cases (has_extent s remote.file_id)) [
        | inr h ↦ ((none, s), rw h refl)
        | inl h ↦ elim (Result-cases (watermark s remote.file_id)) [
          | inr (x, w) ↦ ((some x, s), rw (h, w) refl)
          | inl (local, w) ↦ elim (Bool-cases (leb remote.size local.size)) [
            | inl l ↦ ((none, s), rw (h, w, l) refl)
            | inr l ↦ elim (Option-cases env.connect) [
              | inr (x, c) ↦ ((some x, s), rw (h, w, l, c) refl)
              | inl c ↦ elim (Option-cases env.send) [
                | inr (x, e) ↦ ((some x, s), rw (h, w, l, c, e) refl)
                | inl e ↦
                    let (q, g) =
                      fix_loop-ends fuel 0 partition_id local.size remote s d k (omega arith) in
                    (q, rw (h, w, l, c, e) g)
              ]
            ]
          ]
        ]
      ]
