-- ===== src/Storage/Extent/RoundTrip.antt =====
-- What was written to an extent is read: Write and Read of storage/extent.go.
use cfs.Base.{
  ℕ, suc, ◌+◌, ◌-◌, ◌<◌, ◌^◌, ◌≡◌, refl, sym, ap, ◌∙◌, subst, Bool, true, false, ◌&&◌, ltb, leb, [],
  ◌∷◌, length, Option, none, Error, arith, Bool-cases, Option-cases, inl, inr,
}
use cfs.Bytes.{length-take, Bytes, take}
use cfs.Storage.{is_tiny_extent}
use cfs.Storage.File.{Files, byte_of}
use cfs.Storage.Extent.{Extent, Opened, persistence_block_crc, check_offset_and_size, write, read}
use cfs.Storage.Extent.Checks.{write-Written, some-none}
use cfs.Storage.Extent.Numbers.{extent_id-write}
use cfs.Storage.Extent.Crcs.{write-file}

-- Two slices of one length with the same bytes are the same.
byte_of-ext :
    (xs ys : Bytes)
    → length xs ≡ length ys
    → ((i : ℕ) → i < length xs → byte_of xs i ≡ byte_of ys i)
    → xs ≡ ys
unfolding byte_of
byte_of-ext [] [] h k = refl
byte_of-ext [] (y ∷ ys) h k = absurd (omega (arith, h))
byte_of-ext (x ∷ xs) [] h k = absurd (omega (arith, h))
byte_of-ext (x ∷ xs) (y ∷ ys) h k =
    let first : x ≡ y = k 0 (omega arith) in
    let rest : xs ≡ ys = byte_of-ext xs ys (omega (arith, h)) λ i l. k (suc i) (omega arith) in
    ap (λ z. z ∷ xs) first ∙ ap (λ zs. y ∷ zs) rest

module _ ⦃F : Files⦄ where
  -- A read that answers no error is a read of the file.
  read-read_at :
      (room offset size : ℕ) (is_repair_read : Bool) (e : Extent) (got : Bytes)
      → is_tiny_extent e.extent_id ≡ false
      → read room offset size is_repair_read e ≡ (got, none)
      → F.read_at e.file offset size ≡ (got, none)
  unfolding read
  read-read_at room offset size rep e got t k =
      elim (Option-cases (check_offset_and_size offset size)) [
        | inr (x, c) ↦
            absurd (some-none x (ap (λ (p : Bytes × Option Error). p.1) (rw (t, c, read) at k)))
        | inl c ↦ elim (Bool-cases (ltb room size)) [
          | inl b ↦ absurd (
              some-none Error.panic
                (ap (λ (p : Bytes × Option Error). p.1) (rw (t, c, read, b) at k)))
          | inr b ↦ rw (t, c, read, b, t) at k
        ]
      ]

  -- Where an extent is none of the tiny ones and the bytes are fewer than 2 ^ 63, a Read at the
  -- offset and the size of a Write that answered no error, right after it, returns, if it answers
  -- no error, the bytes that were written.
  pub read-write :
      (bytes : Bytes) (offset size crc : ℕ) (is_update_size is_sync : Bool) (now : ℕ)
      (o o' : Opened) (room : ℕ) (is_repair_read : Bool) (got : Bytes)
      → is_tiny_extent o.e.extent_id ≡ false
      → length bytes < 2 ^ 63
      → write persistence_block_crc bytes offset size crc is_update_size is_sync now o ≡ (none, o')
      → read room offset size is_repair_read o'.e ≡ (got, none)
      → got ≡ take size bytes
  unfolding read
  read-write bytes offset size crc u is_sync now o o' room rep got t l h k =
      let w = write-Written persistence_block_crc bytes offset size crc u is_sync now o o' t l h in
      let same : is_tiny_extent o'.e.extent_id ≡ false =
        ap is_tiny_extent (extent_id-write bytes offset size crc is_sync now o o' w) ∙ t in
      let file = write-file bytes offset size crc is_sync now o o' w in
      let r : F.read_at w.fp offset size ≡ (got, none) =
        subst (λ f. F.read_at f offset size ≡ (got, none)) file
          (read-read_at room offset size rep o'.e got same k) in
      let taken = length-take size bytes w.within in
      let full = F.read_at-length w.fp offset size got r in
      byte_of-ext got (take size bytes) (full ∙ sym taken) λ i b.
        let inside : leb offset (offset + i) && ltb (offset + i) (offset + length (take size bytes))
            ≡ true =
          ground arith in
        let back : offset + i - offset ≡ i = omega arith in
        F.read_at-byte w.fp offset size got none i r b
        ∙ F.write_at-byte o.e.file w.fp (take size bytes) offset (offset + i) w.wrote
        ∙ (rw (inside, back) refl)
