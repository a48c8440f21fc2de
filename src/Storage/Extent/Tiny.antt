-- ===== src/Storage/Extent/Tiny.antt =====
-- Tiny extents grow by whole pages: WriteTiny of storage/extent.go.
use cfs.Base.{
  ℕ, ◌+◌, ◌%◌, ◌≤◌, ◌<◌, ◌^◌, ◌≡◌, sym, ap, Bool, true, leb, if◌then◌else◌, Option, none, some,
  Error, arith, Bool-cases, Option-cases, inl, inr,
}
use cfs.Bytes.{Bytes}
use cfs.Int64.{int_add, int_le, int_add-add, int_le-leb}
use cfs.Storage.File.{Files}
use cfs.Storage.Extent.{page_size, max_uint32, Opened, page_up, front, tiny_written, write_tiny}
use cfs.Storage.Extent.Checks.{some-none}

page_up_bounds :
    (n : ℕ) → (n ≤ page_up n) × (page_up n < n + page_size) × (page_up n % page_size ≡ 0)
unfolding page_up
page_up_bounds n = (ground arith, ground arith, ground arith)

module _ ⦃F : Files⦄ where
  tiny_written-none :
      (index : ℕ) (is_sync : Bool) (o o' : Opened) (w : Option Error × F.File)
      → tiny_written index true is_sync o w ≡ (none, o')
      → o'.e.data_size ≡ page_up index
  unfolding tiny_written
  tiny_written-none index is_sync o o' (some x, fp) h =
      absurd (some-none x (ap (λ (p : Option Error × Opened). p.0) h))
  tiny_written-none index is_sync o o' (none, fp) h =
      elim (Option-cases (if is_sync then F.sync fp else none)) [
        | inr (x, e) ↦
            absurd
              (some-none x (ap (λ (p : Option Error × Opened). p.0) (rw (e, tiny_written) at h)))
        | inl e ↦
            sym (ap (λ (p : Option Error × Opened). p.1.e.data_size) (rw (e, tiny_written) at h))
      ]

  -- Where offset and size are below 2 ^ 62, a WriteTiny that updates the size and answers no error
  -- ends below 2 ^ 32 - 1; the size of the extent is then a multiple of the page, at least the end
  -- of what was written, and less than a page above it.
  pub write_tiny-size :
      (bytes : Bytes) (offset size : ℕ) (is_sync : Bool) (o o' : Opened)
      → offset < 2 ^ 62
      → size < 2 ^ 62
      → write_tiny bytes offset size true is_sync o ≡ (none, o')
      → (offset + size < max_uint32)
        × (offset + size ≤ o'.e.data_size)
        × (o'.e.data_size < offset + size + page_size)
        × (o'.e.data_size % page_size ≡ 0)
  unfolding write_tiny
  write_tiny-size bytes offset size is_sync o o' a b h =
      let plain : int_add offset size ≡ offset + size = int_add-add offset size (omega arith) in
      let test : int_le max_uint32 (offset + size) ≡ leb max_uint32 (offset + size) =
        int_le-leb max_uint32 (offset + size) (omega arith) (omega arith) in
      let k = rw (plain, write_tiny, test) at h in
      elim (Bool-cases (leb max_uint32 (offset + size))) [
        | inl l ↦
            absurd
              (some-none Error.extent_is_full (ap (λ (p : Option Error × Opened). p.0) (rw l at k)))
        | inr l ↦ elim (Option-cases (front size bytes)) [
          | inl f ↦
              absurd
                (some-none Error.panic (ap (λ (p : Option Error × Opened). p.0) (rw (l, f) at k)))
          | inr (part, f) ↦
              let e =
                tiny_written-none (offset + size) is_sync o o' (F.write_at o.e.file part offset)
                  (rw (l, f, plain) at k) in
              let (low, high, whole) = page_up_bounds (offset + size) in
              rw e (ground arith, low, high, whole)
        ]
      ]
