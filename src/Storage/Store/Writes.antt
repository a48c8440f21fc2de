-- ===== src/Storage/Store/Writes.antt =====
-- What a write to an extent of the store has passed, and the record of the extent after it.
use cfs.Base.{
  ℕ, false, ◌<◌, ◌^◌, ◌≡◌, ◌==◌, refl, sym, ap, ◌∙◌, subst, Bool, length, List, [], ◌∷◌, find,
  Option, none, some, Error, Result, ok, err, arith, Option-cases, Bool-cases, Result-cases, inl,
  inr, find-passes, ==_iff,
}
use cfs.Bytes.{Bytes}
use cfs.Int64.{int_add, int_le}
use cfs.Storage.{ExtentInfo, is_tiny_extent}
use cfs.Storage.File.{Files}
use cfs.Storage.Extent.{
  Extent, Opened, write_tiny, front, tiny_written, persistence_block_crc, max_uint32,
  write as write_extent,
}
use cfs.Storage.Extent.Checks.{some-none, write-Written}
use cfs.Storage.Store.{
  info, set_info, ExtentStore, extent_with_header, update_extent_info, check_write, settled,
  write_found, write,
}

info-set_info :
    (ei d : ExtentInfo) (id : ℕ) (m : List ExtentInfo)
    → info id m ≡ some d
    → ei.file_id ≡ id
    → info id (set_info ei m) ≡ some ei
unfolding info set_info
info-set_info ei d id [] h e = cc
info-set_info ei d id (x ∷ m) h e = elim (Bool-cases (x.file_id == id)) [
  | inl t ↦ ground (arith, t, e)
  | inr f ↦ ground (arith, f, e, info-set_info ei d id m (rw f at h) e)
]

info-set_info-others :
    (ei : ExtentInfo) (j : ℕ) (m : List ExtentInfo)
    → (ei.file_id == j) ≡ false
    → info j (set_info ei m) ≡ info j m
unfolding info set_info
info-set_info-others ei j [] h = refl
info-set_info-others ei j (x ∷ m) h = ground (arith, h, info-set_info-others ei j m h)

-- The records of the other extents are the same.
abbrev pub Others : ℕ → List ExtentInfo → List ExtentInfo → Type 0
Others id m m' = (j : ℕ) → (id == j) ≡ false → info j m' ≡ info j m

module _ ⦃F : Files⦄ where
  -- A file has the number in its name.
  abbrev pub IsNumbered : (ℕ → Result Extent) → Type 0
  IsNumbered disk = (id : ℕ) (e : Extent) → disk id ≡ ok e → e.extent_id ≡ id

  -- A write that was made: the record, the extent before it and after it.
  pub record Stored (id offset size : ℕ) (bytes : Bytes) (crc : ℕ) (is_update_size is_sync : Bool)
      (now : ℕ) (m : List ExtentInfo) (s' : ExtentStore) : Type 0 where
    pub ei : ExtentInfo
    pub before : Opened
    pub after : Opened
    pub numbered : before.e.extent_id ≡ id
    pub wrote :
        write_extent persistence_block_crc bytes offset size crc is_update_size is_sync now before
        ≡ (none, after)
    pub recorded : info id s'.extent_info_map ≡ some (update_extent_info after.e ei)
    pub others : Others id m s'.extent_info_map

  settled-none :
      (ei : ExtentInfo) (s s' : ExtentStore) (r : Option Error × Opened)
      → settled ei s r ≡ (none, s')
      → (r ≡ (none, r.1))
        × (s'.extent_info_map ≡ set_info (update_extent_info r.1.e ei) s.extent_info_map)
  unfolding settled
  settled-none ei s s' (none, o) h =
      (refl, sym (ap (λ (p : Option Error × ExtentStore). p.1.extent_info_map) h))
  settled-none ei s s' (some x, o) h =
      absurd (some-none x (ap (λ (p : Option Error × ExtentStore). p.0) h))

  file_id-update_extent_info :
      (e : Extent) (ei : ExtentInfo) → (update_extent_info e ei).file_id ≡ ei.file_id
  unfolding update_extent_info
  file_id-update_extent_info e ei = ground arith

  info-settled :
      (id : ℕ) (e : Extent) (ei : ExtentInfo) (m m' : List ExtentInfo)
      → info id m ≡ some ei
      → m' ≡ set_info (update_extent_info e ei) m
      → info id m' ≡ some (update_extent_info e ei)
  unfolding info
  info-settled id e ei m m' f h =
      let same : ei.file_id ≡ id = (==_iff ei.file_id id).0 (find-passes _ m ei f) in
      subst (λ l. info id l ≡ some (update_extent_info e ei)) (sym h)
        (info-set_info (update_extent_info e ei) ei id m f (file_id-update_extent_info e ei ∙ same))

  others-settled :
      (id : ℕ) (e : Extent) (ei : ExtentInfo) (m m' : List ExtentInfo)
      → info id m ≡ some ei
      → m' ≡ set_info (update_extent_info e ei) m
      → Others id m m'
  unfolding info
  others-settled id e ei m m' f h j o =
      let same : ei.file_id ≡ id = (==_iff ei.file_id id).0 (find-passes _ m ei f) in
      let named = file_id-update_extent_info e ei ∙ same in
      ap (info j) h
      ∙ info-set_info-others (update_extent_info e ei) j m (ap (λ (i : ℕ). i == j) named ∙ o)

  write_found-Stored :
      (id offset size : ℕ) (bytes : Bytes) (crc : ℕ) (is_update_size is_sync : Bool) (now : ℕ)
      (s' : ExtentStore) (found : Option ExtentInfo) (r : Result Extent × ExtentStore)
      → info id r.1.extent_info_map ≡ found
      → ((e : Extent) → r.0 ≡ ok e → e.extent_id ≡ id)
      → write_found id offset size bytes crc is_update_size is_sync now found r ≡ (none, s')
      → Stored id offset size bytes crc is_update_size is_sync now r.1.extent_info_map s'
  unfolding write_found
  write_found-Stored id offset size bytes crc u y now s' found (err x, s) f n h =
      absurd (some-none x (ap (λ (p : Option Error × ExtentStore). p.0) h))
  write_found-Stored id offset size bytes crc u y now s' none (ok e, s) f n h =
      absurd (some-none Error.panic (ap (λ (p : Option Error × ExtentStore). p.0) h))
  write_found-Stored id offset size bytes crc u y now s' (some ei) (ok e, s) f n h =
      let o : Opened = record { e = e; verify_extent_fp = s.verify_extent_fp } in
      let r = write_extent persistence_block_crc bytes offset size crc u y now o in
      elim (Option-cases (check_write id offset size)) [
        | inr (x, c) ↦
            absurd (
              some-none x (ap (λ (p : Option Error × ExtentStore). p.0) (rw (c, write_found) at h)))
        | inl c ↦
            let (w, m) = settled-none ei s s' r (rw (c, write_found) at h) in
            record {
              ei = ei;
              before = o;
              after = r.1;
              numbered = n e refl;
              wrote = w;
              recorded = info-settled id r.1.e ei s.extent_info_map s'.extent_info_map f m;
              others = others-settled id r.1.e ei s.extent_info_map s'.extent_info_map f m;
            }
      ]

  err-ok : (x : Error) (e : Extent) → ◌≡◌ {A = Result Extent} (err x) (ok e) → ⊥
  err-ok x e h = cc

  ok-injective : (d e : Extent) → ◌≡◌ {A = Result Extent} (ok d) (ok e) → d ≡ e
  ok-injective d e h = cc

  -- What is found for the record of an extent has the number of the extent.
  abbrev Found : ℕ → ExtentStore → Result Extent × ExtentStore → Type 0
  Found id s r =
      (r.1.extent_info_map ≡ s.extent_info_map) × ((e : Extent) → r.0 ≡ ok e → e.extent_id ≡ id)

  extent_with_header-Found :
      (disk : ℕ → Result Extent) (s : ExtentStore) (id : ℕ) (found : Option ExtentInfo)
      → IsNumbered disk
      → ((ei : ExtentInfo) → found ≡ some ei → ei.file_id ≡ id)
      → Found id s (extent_with_header disk s found)
  unfolding extent_with_header
  extent_with_header-Found disk s id none n k =
      (refl, λ e h. absurd (err-ok Error.extent_not_found e h))
  extent_with_header-Found disk s id (some ei) n k = elim (Bool-cases ei.is_deleted) [
    | inl d ↦ rw d (refl, λ e h. absurd (err-ok Error.extent_not_found e h))
    | inr d ↦
        let p = λ (e : Extent). e.extent_id == ei.file_id in
        elim (Option-cases (find p s.cache)) [
          | inr (e, c) ↦
              let same : e.extent_id ≡ ei.file_id =
                (==_iff e.extent_id ei.file_id).0 (find-passes p s.cache e c) in
              rw (d, c)
                (
                  refl,
                  λ f h.
                      sym (ap (λ (x : Extent). x.extent_id) (ok-injective e f h))
                      ∙ same
                      ∙ k ei refl,
                )
          | inl c ↦ elim (Result-cases (disk ei.file_id)) [
            | inl (e, r) ↦
                rw (d, c, r)
                  (
                    refl,
                    λ f h.
                        sym (ap (λ (x : Extent). x.extent_id) (ok-injective e f h))
                        ∙ n ei.file_id e r
                        ∙ k ei refl,
                  )
            | inr (x, r) ↦ rw (d, c, r) (refl, λ e h. absurd (err-ok x e h))
          ]
        ]
  ]

  pub write-Stored :
      (disk : ℕ → Result Extent) (id offset size : ℕ) (bytes : Bytes) (crc : ℕ)
      (is_update_size is_sync : Bool) (now : ℕ) (s s' : ExtentStore)
      → IsNumbered disk
      → write disk id offset size bytes crc is_update_size is_sync now s ≡ (none, s')
      → Stored id offset size bytes crc is_update_size is_sync now s.extent_info_map s'
  unfolding write info
  write-Stored disk id offset size bytes crc u y now s s' n h =
      let named : (ei : ExtentInfo) → info id s.extent_info_map ≡ some ei → ei.file_id ≡ id =
        λ ei f.
          (==_iff ei.file_id id).0
            (find-passes (λ (e : ExtentInfo). e.file_id == id) s.extent_info_map ei f) in
      let (m, k) = extent_with_header-Found disk s id (info id s.extent_info_map) n named in
      subst (λ l. Stored id offset size bytes crc u y now l s') m
        (write_found-Stored id offset size bytes crc u y now s' _ _ (ap (info id) m) k h)

  tiny_written-none :
      (index : ℕ) (is_update_size is_sync : Bool) (o o' : Opened) (w : Option Error × F.File)
      → tiny_written index is_update_size is_sync o w ≡ (none, o')
      → w ≡ (none, w.1)
  unfolding tiny_written
  tiny_written-none index u y o o' (none, fp) h = refl
  tiny_written-none index u y o o' (some x, fp) h =
      absurd (some-none x (ap (λ (p : Option Error × Opened). p.0) h))

  write_tiny-offset :
      (bytes : Bytes) (offset size : ℕ) (is_update_size is_sync : Bool) (o o' : Opened)
      → write_tiny bytes offset size is_update_size is_sync o ≡ (none, o')
      → offset < 2 ^ 63
  unfolding write_tiny
  write_tiny-offset bytes offset size u y o o' h =
      elim (Bool-cases (int_le max_uint32 (int_add offset size))) [
        | inl l ↦ absurd (
            some-none Error.extent_is_full
              (ap (λ (p : Option Error × Opened). p.0) (rw (l, write_tiny) at h)))
        | inr l ↦ elim (Option-cases (front size bytes)) [
          | inl f ↦ absurd (
              some-none Error.panic
                (ap (λ (p : Option Error × Opened). p.0) (rw (l, f, write_tiny) at h)))
          | inr (part, f) ↦ F.write_at-negative o.e.file _ part offset (
              tiny_written-none (int_add offset size) u y o o' (F.write_at o.e.file part offset)
                (rw (l, f, write_tiny) at h))
        ]
      ]

  -- The offset of a write that was made is not negative.
  pub write_extent-offset :
      (bytes : Bytes) (offset size crc : ℕ) (is_update_size is_sync : Bool) (now : ℕ)
      (o o' : Opened)
      → length bytes < 2 ^ 63
      → write_extent persistence_block_crc bytes offset size crc is_update_size is_sync now o
        ≡ (none, o')
      → offset < 2 ^ 63
  unfolding write_extent
  write_extent-offset bytes offset size crc u y now o o' b h =
      elim (Bool-cases (is_tiny_extent o.e.extent_id)) [
        | inl t ↦ write_tiny-offset bytes offset size u y o o' (rw t at h)
        | inr t ↦
            let w = write-Written persistence_block_crc bytes offset size crc u y now o o' t b h in
            let range = w.in_range in omega (arith, range)
      ]
