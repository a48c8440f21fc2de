-- ===== src/DataNode/Stream/Sized.antt =====
-- What streamRepairExtent has done when it answers no error.
use cfs.Base.{
  ℕ, refl, zero, suc, ◌+◌, ◌≤◌, ◌<◌, ◌^◌, ◌≡◌, sym, ap, ◌∙◌, subst, true, false, leb, ltb, Option,
  none, some, Error, Result, ok, err, arith, Option-cases, Bool-cases, Result-cases, inl, inr,
}
use cfs.Storage.{ExtentInfo, is_tiny_extent}
use cfs.Int64.{int_add, int_lt, int_add-add}
use cfs.Storage.File.{Files}
use cfs.Storage.Extent.{Extent, Opened, grow, persistence_block_crc}
use cfs.Storage.Extent.Checks.{write-Written}
use cfs.Storage.Store.{info, ExtentStore, has_extent, watermark, update_extent_info}
use cfs.Storage.Store.Writes.{IsNumbered, Others, write-Stored}
use cfs.DataNode.Stream.{Packet, Surroundings, Round, fix_round, fix_loop, stream_repair_extent}
use cfs.DataNode.Stream.Ends.{IsPacket, Made, fix_round-Made, moves-Made, fix_loop-next}

module _ ⦃F : Files⦄ (env : Surroundings) (disk : ℕ → Result Extent) where
  -- The store has a record of the extent with this size at least.
  abbrev pub Reaches : ℕ → ℕ → ExtentStore → Type 0
  Reaches id size s = (ei : ExtentInfo) × (info id s.extent_info_map ≡ some ei) × (size ≤ ei.size)

  -- So it has, and the records of the other extents are as before.
  abbrev pub Repaired : ℕ → ℕ → ExtentStore → ExtentStore → Type 0
  Repaired id size s s' = Reaches id size s' × Others id s.extent_info_map s'.extent_info_map

  grow-reaches :
      (now index : ℕ) (set : Opened)
      → index < 2 ^ 63
      → index ≤ (grow now index (none, set)).1.e.data_size
  unfolding grow int_lt
  grow-reaches now index set b = ground arith

  size-update_extent_info :
      (e : Extent) (ei : ExtentInfo) → (update_extent_info e ei).size ≡ e.data_size
  unfolding update_extent_info
  size-update_extent_info e ei = ground arith

  Repaired-Made :
      (n partition_id id curr : ℕ) (s : ExtentStore) (r : Round env disk)
      → IsNumbered disk
      → ((n : ℕ) (p : Packet) → env.reply n ≡ ok p → IsPacket env disk p)
      → is_tiny_extent id ≡ false
      → Made env disk n partition_id id curr s r
      → Repaired id (curr + r.size) s r.store
  Repaired-Made n partition_id id curr s r d k t m =
      let p = m.reply in
      let is = k n p m.came in
      let st =
        write-Stored disk id curr p.size p.bytes p.crc true false (env.now n) s r.store d
          m.writes in
      let w =
        write-Written persistence_block_crc p.bytes curr p.size p.crc true false (env.now n)
          st.before st.after (ap is_tiny_extent st.numbered ∙ t) is.fits st.wrote in
      let plain : int_add curr p.size ≡ curr + p.size =
        int_add-add curr p.size (omega (arith, w.in_range)) in
      let range = w.in_range in
      let long : curr + r.size ≤ (update_extent_info st.after.e st.ei).size = omega (
        arith,
        m.sized,
        size-update_extent_info st.after.e st.ei,
        ap (λ (o : Opened). o.e.data_size) w.result,
        grow-reaches (env.now n) (int_add curr p.size) w.set (omega arith),
      ) in
      ((update_extent_info st.after.e st.ei, st.recorded, long), st.others)

  nothing-done :
      (s : ExtentStore) → ◌≡◌ {A = Option (Option Error × ExtentStore)} none (some (none, s)) → ⊥
  nothing-done s h = cc

  failed-done :
      (x : Error) (s s' : ExtentStore)
      → ◌≡◌ {A = Option (Option Error × ExtentStore)} (some (some x, s)) (some (none, s'))
      → ⊥
  failed-done x s s' h = cc

  done-injective :
      (s s' : ExtentStore)
      → ◌≡◌ {A = Option (Option Error × ExtentStore)} (some (none, s)) (some (none, s'))
      → s ≡ s'
  done-injective s s' h = cc

  at_end :
      (curr : ℕ) (remote : ExtentInfo) (s s' : ExtentStore)
      → Reaches remote.file_id curr s
      → ltb curr remote.size ≡ false
      → ◌≡◌ {A = Option (Option Error × ExtentStore)} (some (none, s)) (some (none, s'))
      → Repaired remote.file_id remote.size s s'
  at_end curr remote s s' (ei, i, b) l h =
      subst (λ z. Repaired remote.file_id remote.size s z) (done-injective s s' h)
        ((ei, i, ground arith), λ j o. refl)

  fix_loop-Repaired :
      (fuel n partition_id curr : ℕ) (remote : ExtentInfo) (s s' : ExtentStore)
      → IsNumbered disk
      → ((n : ℕ) (p : Packet) → env.reply n ≡ ok p → IsPacket env disk p)
      → is_tiny_extent remote.file_id ≡ false
      → Reaches remote.file_id curr s
      → fix_loop env disk fuel n partition_id remote curr s ≡ some (none, s')
      → Repaired remote.file_id remote.size s s'
  unfolding fix_loop
  fix_loop-Repaired zero n partition_id curr remote s s' d k t a h =
      elim (Bool-cases (ltb curr remote.size)) [
        | inl l ↦ absurd (nothing-done s' (rw l at h))
        | inr l ↦ at_end curr remote s s' a l (rw l at h)
      ]
  fix_loop-Repaired (suc fuel) n partition_id curr remote s s' d k t a h =
      let r = fix_round env disk n partition_id remote.file_id curr s in
      elim (Bool-cases (ltb curr remote.size)) [
        | inr l ↦ at_end curr remote s s' a l (rw (l, fix_loop) at h)
        | inl l ↦ elim (Option-cases r.error) [
          | inr (x, e) ↦ absurd (failed-done x r.store s' (rw (l, e, fix_loop) at h))
          | inl e ↦
              let made = fix_round-Made env disk n partition_id remote.file_id curr s e in
              let (_, w) = moves-Made env disk n partition_id remote.file_id curr s r d k made in
              let (at_r, before) =
                Repaired-Made n partition_id remote.file_id curr s r d k t made in
              let (reached, after) =
                fix_loop-Repaired fuel (n + 1) partition_id (curr + r.size) remote r.store s' d k t
                  at_r (sym (fix_loop-next env disk fuel n partition_id curr remote s l e w) ∙ h) in
              (reached, λ j o. after j o ∙ before j o)
        ]
      ]

  unknown-known :
      (ei : ExtentInfo) → ◌≡◌ {A = Result ExtentInfo} (err Error.extent_not_found) (ok ei) → ⊥
  unknown-known ei h = cc

  known-injective : (d e : ExtentInfo) → ◌≡◌ {A = Result ExtentInfo} (ok d) (ok e) → d ≡ e
  known-injective d e h = cc

  watermark-info :
      (s : ExtentStore) (id : ℕ) (ei : ExtentInfo)
      → watermark s id ≡ ok ei
      → info id s.extent_info_map ≡ some ei
  unfolding watermark
  watermark-info s id ei h = elim (Option-cases (info id s.extent_info_map)) [
    | inl i ↦ absurd (unknown-known ei (rw (i, watermark) at h))
    | inr (e, i) ↦ i ∙ ap some (known-injective e ei (rw (i, watermark) at h))
  ]

  -- Where the store has a record of the extent, which is none of the tiny ones, the files have the
  -- numbers of their extents, and packets have sizes of 32 bits and data that fits an int, a
  -- streamRepairExtent that answers no error leaves a record of the extent with at least the size
  -- that was asked for, and the records of all other extents as they were, whatever the replies
  -- were.
  pub stream_repair_extent-size :
      (fuel partition_id : ℕ) (remote : ExtentInfo) (s s' : ExtentStore)
      → IsNumbered disk
      → ((n : ℕ) (p : Packet) → env.reply n ≡ ok p → IsPacket env disk p)
      → is_tiny_extent remote.file_id ≡ false
      → has_extent s remote.file_id ≡ true
      → stream_repair_extent env disk fuel partition_id remote s ≡ some (none, s')
      → Repaired remote.file_id remote.size s s'
  unfolding stream_repair_extent
  stream_repair_extent-size fuel partition_id remote s s' d k t has h =
      elim (Result-cases (watermark s remote.file_id)) [
        | inr (x, w) ↦ absurd (failed-done x s s' (rw (has, w) at h))
        | inl (local, w) ↦
            let now_at : Reaches remote.file_id local.size s =
              (local, watermark-info s remote.file_id local w, omega arith) in
            elim (Bool-cases (leb remote.size local.size)) [
              | inl l ↦ at_end local.size remote s s' now_at (ground arith) (rw (has, w, l) at h)
              | inr l ↦ elim (Option-cases env.connect) [
                | inr (x, c) ↦ absurd (failed-done x s s' (rw (has, w, l, c) at h))
                | inl c ↦ elim (Option-cases env.send) [
                  | inr (x, e) ↦ absurd (failed-done x s s' (rw (has, w, l, c, e) at h))
                  | inl e ↦
                      fix_loop-Repaired fuel 0 partition_id local.size remote s s' d k t now_at
                        (rw (has, w, l, c, e) at h)
                ]
              ]
            ]
      ]
