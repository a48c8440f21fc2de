-- ===== src/Storage/Extent/Checks.antt =====
-- What a write to an extent has passed when it answers no error: Write of storage/extent.go.
use cfs.Base.{
  ℕ, ◌+◌, ◌≤◌, ◌<◌, ◌^◌, ◌≡◌, refl, sym, ap, Bool, false, length, Option, none, some, Error, arith,
  subst, Option-cases, inl, inr,
}
use cfs.Bytes.{Bytes, take}
use cfs.Int64.{int_add}
use cfs.Storage.{is_tiny_extent}
use cfs.Storage.File.{Files}
use cfs.Storage.Extent.{
  block_size, Opened, UpdateCrcFunc, check_offset_and_size, front, grow, update_crcs, data_written,
  write,
}

check_offset_and_size-none :
    (offset size : ℕ)
    → check_offset_and_size offset size ≡ none
    → offset < 2 ^ 63
    → size < 2 ^ 63
    → (offset + size ≤ 2 ^ 27) × (0 < size) × (size ≤ block_size)
unfolding check_offset_and_size
check_offset_and_size-none offset size h a b = (ground arith, ground arith, ground arith)

front-some :
    (size : ℕ) (bytes part : Bytes)
    → front size bytes ≡ some part
    → (size ≤ length bytes) × (part ≡ take size bytes)
unfolding front
front-some size bytes part h = (ground arith, ground arith)

pub some-none : (x : Error) → ◌≡◌ {A = Option Error} (some x) none → ⊥
some-none x h = cc

module _ ⦃F : Files⦄ (crc_func : UpdateCrcFunc) where
  -- A write that was made: the file, and the extent once the crcs are set.
  pub record Written (bytes : Bytes) (offset size crc : ℕ) (is_sync : Bool) (now : ℕ)
      (o o' : Opened) : Type 0 where
    pub fp : F.File
    pub set : Opened
    pub in_range : offset + size ≤ 2 ^ 27
    pub not_empty : 0 < size
    pub small : size ≤ block_size
    pub within : size ≤ length bytes
    pub wrote : F.write_at o.e.file (take size bytes) offset ≡ (none, fp)
    pub crcs :
        update_crcs crc_func offset size crc is_sync (record o { e = record o.e { file = fp } })
        ≡ (none, set)
    pub result : o' ≡ (grow now (int_add offset size) (none, set)).1

  grow-none :
      (now index : ℕ) (r : Option Error × Opened) (o' : Opened)
      → grow now index r ≡ (none, o')
      → (r ≡ (none, r.1)) × (o' ≡ (grow now index (none, r.1)).1)
  unfolding grow
  grow-none now index (none, o) o' h = (refl, sym (ap (λ (p : Option Error × Opened). p.1) h))
  grow-none now index (some x, o) o' h =
      absurd (some-none x (ap (λ (p : Option Error × Opened). p.0) h))

  data_written-none :
      (offset size crc : ℕ) (is_sync : Bool) (now : ℕ) (o o' : Opened) (w : Option Error × F.File)
      → data_written crc_func offset size crc is_sync now o w ≡ (none, o')
      → (w ≡ (none, w.1))
        × (grow now (int_add offset size) (
              update_crcs crc_func offset size crc is_sync
                (record o { e = record o.e { file = w.1 } }))
            ≡ (none, o'))
  unfolding data_written
  data_written-none offset size crc is_sync now o o' (none, fp) h = (refl, h)
  data_written-none offset size crc is_sync now o o' (some x, fp) h =
      absurd (some-none x (ap (λ (p : Option Error × Opened). p.0) h))

  pub write-Written :
      (bytes : Bytes) (offset size crc : ℕ) (is_update_size is_sync : Bool) (now : ℕ)
      (o o' : Opened)
      → is_tiny_extent o.e.extent_id ≡ false
      → length bytes < 2 ^ 63
      → write crc_func bytes offset size crc is_update_size is_sync now o ≡ (none, o')
      → Written bytes offset size crc is_sync now o o'
  unfolding write
  write-Written bytes offset size crc u is_sync now o o' t l h =
      elim (Option-cases (check_offset_and_size offset size)) [
        | inr (x, c) ↦
            absurd (some-none x (ap (λ (p : Option Error × Opened). p.0) (rw (t, c) at h)))
        | inl c ↦ elim (Option-cases (front size bytes)) [
          | inl f ↦
              absurd (
                some-none Error.panic (ap (λ (p : Option Error × Opened). p.0) (rw (t, c, f) at h)))
          | inr (part, f) ↦
              let (within, is_take) = front-some size bytes part f in
              let short : size < 2 ^ 63 = omega arith in
              let k : data_written crc_func offset size crc is_sync now o
                    (F.write_at o.e.file part offset)
                  ≡ (none, o') =
                rw (t, c, f) at h in
              let (w, g) =
                data_written-none offset size crc is_sync now o o' (F.write_at o.e.file part offset)
                  k in
              let (set, same) = grow-none now (int_add offset size) _ o' g in
              let (range, positive, small) =
                check_offset_and_size-none offset size c
                  (F.write_at-negative o.e.file _ part offset w) short in
              record {
                fp = (F.write_at o.e.file part offset).1;
                set = _;
                in_range = range;
                not_empty = positive;
                small = small;
                within = within;
                wrote =
                    subst
                      (λ p.
                        F.write_at o.e.file p offset ≡ (none, (F.write_at o.e.file part offset).1))
                      is_take w;
                crcs = set;
                result = same;
              }
        ]
      ]
