-- ===== src/Storage/Extent/Crcs.antt =====
-- The crcs of the blocks after a write: Write of storage/extent.go with PersistenceBlockCrc of
-- storage/persistence_crc.go.
use cfs.Base.{
  ℕ, ◌+◌, ◌*◌, ◌/◌, ◌%◌, ◌≤◌, ◌<◌, ◌^◌, ◌≡◌, refl, sym, ap, ◌∙◌, Bool, true, false, ◌&&◌, ltb, leb,
  ◌==◌, if◌then◌else◌, length, Option, none, some, Error, arith, Bool-cases, Option-cases, inl, inr,
}
use cfs.Bytes.{Bytes}
use cfs.Int64.{int_add, int_le, int_add-add, int_le-leb}
use cfs.Storage.{is_tiny_extent}
use cfs.Storage.File.{Files}
use cfs.Storage.Extent.{
  block_size, block_count, Opened, set_crc, persistence_block_crc, grow, crc_then, update_crcs,
  write,
}
use cfs.Storage.Extent.Checks.{Written, write-Written, some-none}

-- Whether the bytes from `offset` on reach into the block.
abbrev pub touches : ℕ → ℕ → ℕ → Bool
touches offset size b = ltb (b * block_size) (offset + size) && ltb offset ((b + 1) * block_size)

-- The crc of a block after a write: that of the data if it fills the block, 0 if it reaches into the
-- block, and what it was if not.
abbrev pub crc_after : (ℕ → ℕ) → ℕ → ℕ → ℕ → ℕ → ℕ
crc_after header offset size crc b =
    if touches offset size b
    then (if offset % block_size == 0 && size == block_size then crc else 0)
    else header b

-- The blocks that the branches of a write set.
whole_block :
    (offset size b : ℕ)
    → offset % block_size ≡ 0
    → size ≡ block_size
    → touches offset size b ≡ (b == offset / block_size)
whole_block offset size b h k = ground arith

one_block :
    (offset size b : ℕ)
    → 0 < size
    → offset % block_size + size ≤ block_size
    → touches offset size b ≡ (b == offset / block_size)
one_block offset size b h k = ground arith

two_blocks :
    (offset size b : ℕ)
    → size ≤ block_size
    → block_size < offset % block_size + size
    → touches offset size b
      ≡ (if b == offset / block_size + 1 then true else b == offset / block_size)
two_blocks offset size b h k = ground arith

module _ ⦃F : Files⦄ where
  record CrcSet (o o' : Opened) (b crc : ℕ) : Type 0 where
    header : o'.e.header ≡ set_crc o.e.header b crc
    file : o'.e.file ≡ o.e.file

  persistence-CrcSet :
      (o o' : Opened) (b crc : ℕ) → persistence_block_crc o b crc ≡ (none, o') → CrcSet o o' b crc
  unfolding persistence_block_crc
  persistence-CrcSet o o' b crc h = elim (Bool-cases (ltb b block_count)) [
    | inl l ↦
        let e : (persistence_block_crc o b crc).1 ≡ o' =
          ap (λ (p : Option Error × Opened). p.1) h in
        record {
          header = ap (λ (x : Opened). x.e.header) (sym (rw l at e));
          file = ap (λ (x : Opened). x.e.file) (sym (rw l at e));
        }
    | inr l ↦ absurd (some-none Error.panic (ap (λ (p : Option Error × Opened). p.0) (rw l at h)))
  ]

  crc_then-none :
      (r : Option Error × Opened) (next : Opened → Option Error × Opened) (o' : Opened)
      → crc_then r next ≡ (none, o')
      → (r ≡ (none, r.1)) × (next r.1 ≡ (none, o'))
  unfolding crc_then
  crc_then-none (none, o) next o' h = (refl, h)
  crc_then-none (some x, o) next o' h =
      absurd (some-none x (ap (λ (p : Option Error × Opened). p.0) h))

  -- Without an error the sync has succeeded.
  abbrev Set : ℕ → ℕ → ℕ → Opened → Opened → Type 0
  Set offset size crc o o' =
      ((b : ℕ) → o'.e.header b ≡ crc_after o.e.header offset size crc b) × (o'.e.file ≡ o.e.file)

  whole-Set :
      (offset size crc : ℕ) (o o' : Opened)
      → offset % block_size ≡ 0
      → size ≡ block_size
      → persistence_block_crc o (offset / block_size) crc ≡ (none, o')
      → Set offset size crc o o'
  unfolding set_crc
  whole-Set offset size crc o o' a k h =
      let c = persistence-CrcSet o o' (offset / block_size) crc h in
      (λ b. ap (λ f. f b) c.header ∙ ground (arith, whole_block offset size b a k), c.file)

  one-Set :
      (offset size crc : ℕ) (o o' : Opened)
      → 0 < size
      → offset % block_size + size ≤ block_size
      → (offset % block_size == 0 && size == block_size) ≡ false
      → persistence_block_crc o (offset / block_size) 0 ≡ (none, o')
      → Set offset size crc o o'
  unfolding set_crc
  one-Set offset size crc o o' a k part h =
      let c = persistence-CrcSet o o' (offset / block_size) 0 h in
      (λ b. ap (λ f. f b) c.header ∙ ground (arith, one_block offset size b a k), c.file)

  two-Set :
      (offset size crc : ℕ) (o m o' : Opened)
      → size ≤ block_size
      → block_size < offset % block_size + size
      → (offset % block_size == 0 && size == block_size) ≡ false
      → persistence_block_crc o (offset / block_size) 0 ≡ (none, m)
      → persistence_block_crc m (offset / block_size + 1) 0 ≡ (none, o')
      → Set offset size crc o o'
  unfolding set_crc
  two-Set offset size crc o m o' a k part h j =
      let c = persistence-CrcSet o m (offset / block_size) 0 h in
      let d = persistence-CrcSet m o' (offset / block_size + 1) 0 j in
      (
        λ b.
            ap (λ f. f b) d.header
            ∙ ground (arith, ap (λ (f : ℕ → ℕ). f b) c.header, two_blocks offset size b a k),
        d.file ∙ c.file,
      )

  update_crcs-Set :
      (offset size crc : ℕ) (is_sync : Bool) (o o' : Opened)
      → offset + size ≤ 2 ^ 27
      → 0 < size
      → size ≤ block_size
      → update_crcs persistence_block_crc offset size crc is_sync o ≡ (none, o')
      → Set offset size crc o o'
  unfolding update_crcs
  update_crcs-Set offset size crc is_sync o o' r p q h =
      elim (Option-cases (if is_sync then F.sync o.e.file else none)) [
        | inr (x, e) ↦
            absurd
              (some-none x (ap (λ (p : Option Error × Opened). p.0) (rw (e, update_crcs) at h)))
        | inl e ↦
            let plain : int_add (offset % block_size) size ≡ offset % block_size + size =
              int_add-add (offset % block_size) size (omega arith) in
            let test : int_le (offset % block_size + size) block_size
                ≡ leb (offset % block_size + size) block_size =
              int_le-leb (offset % block_size + size) block_size (omega arith) (omega arith) in
            let k = rw (e, update_crcs, plain, test) at h in
            elim (Bool-cases (offset % block_size == 0 && size == block_size)) [
              | inl w ↦ whole-Set offset size crc o o' (ground arith) (ground arith) (rw w at k)
              | inr w ↦ elim (Bool-cases (leb (offset % block_size + size) block_size)) [
                | inl l ↦ one-Set offset size crc o o' p (ground arith) w (rw (w, l) at k)
                | inr l ↦
                    let (first, second) = crc_then-none _ _ o' (rw (w, l) at k) in
                    two-Set offset size crc o _ o' q (ground arith) w first second
              ]
            ]
      ]

  header-grow :
      (now index : ℕ) (set : Opened)
      → ((grow now index (none, set)).1.e.header ≡ set.e.header)
        × ((grow now index (none, set)).1.e.file ≡ set.e.file)
  unfolding grow
  header-grow now index set = (refl, refl)

  -- Where an extent is none of the tiny ones and the bytes are fewer than 2 ^ 63, a Write that
  -- answers no error leaves as the crc of each block the crc of the data where it fills the block,
  -- 0 where it reaches into the block, and the crc from before elsewhere.
  pub write-crcs :
      (bytes : Bytes) (offset size crc : ℕ) (is_update_size is_sync : Bool) (now : ℕ)
      (o o' : Opened)
      → is_tiny_extent o.e.extent_id ≡ false
      → length bytes < 2 ^ 63
      → write persistence_block_crc bytes offset size crc is_update_size is_sync now o ≡ (none, o')
      → (b : ℕ) → o'.e.header b ≡ crc_after o.e.header offset size crc b
  write-crcs bytes offset size crc u is_sync now o o' t l h b =
      let w = write-Written persistence_block_crc bytes offset size crc u is_sync now o o' t l h in
      let (header, _) =
        update_crcs-Set offset size crc is_sync _ w.set w.in_range w.not_empty w.small w.crcs in
      ap (λ (x : Opened). x.e.header b) w.result
      ∙ ap (λ f. f b) (header-grow now (int_add offset size) w.set).0
      ∙ header b

  pub write-file :
      (bytes : Bytes) (offset size crc : ℕ) (is_sync : Bool) (now : ℕ) (o o' : Opened)
      (w : Written persistence_block_crc bytes offset size crc is_sync now o o')
      → o'.e.file ≡ w.fp
  write-file bytes offset size crc is_sync now o o' w =
      let (_, file) =
        update_crcs-Set offset size crc is_sync _ w.set w.in_range w.not_empty w.small w.crcs in
      ap (λ (x : Opened). x.e.file) w.result
      ∙ (header-grow now (int_add offset size) w.set).1
      ∙ file
