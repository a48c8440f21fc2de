-- ===== src/Storage/Extent/Numbers.antt =====
-- A write to an extent keeps its number: Write of storage/extent.go.
use cfs.Base.{ℕ, ◌+◌, ◌/◌, ◌≡◌, sym, ap, ◌∙◌, Bool, Option, none, some, Error, arith}
use cfs.Bytes.{Bytes}
use cfs.Storage.File.{Files}
use cfs.Storage.Extent.{
  verified, block_size, Opened, persistence_block_crc, grow, crc_then, update_crcs,
}
use cfs.Storage.Extent.Checks.{Written}

module _ ⦃F : Files⦄ where
  extent_id-persistence_block_crc :
      (o : Opened) (b crc : ℕ) → (persistence_block_crc o b crc).1.e.extent_id ≡ o.e.extent_id
  unfolding persistence_block_crc verified
  extent_id-persistence_block_crc o b crc = ground arith

  extent_id-crc_then :
      (o : Opened) (r : Option Error × Opened) (next : Opened → Option Error × Opened)
      → r.1.e.extent_id ≡ o.e.extent_id
      → ((p : Opened) → (next p).1.e.extent_id ≡ p.e.extent_id)
      → (crc_then r next).1.e.extent_id ≡ o.e.extent_id
  unfolding crc_then
  extent_id-crc_then o (some x, p) next h k = h
  extent_id-crc_then o (none, p) next h k = k p ∙ h

  extent_id-update_crcs :
      (offset size crc : ℕ) (is_sync : Bool) (o : Opened)
      → (update_crcs persistence_block_crc offset size crc is_sync o).1.e.extent_id ≡ o.e.extent_id
  unfolding update_crcs
  extent_id-update_crcs offset size crc is_sync o = ground (
    arith,
    extent_id-persistence_block_crc o (offset / block_size) crc,
    extent_id-persistence_block_crc o (offset / block_size) 0,
    extent_id-crc_then o (persistence_block_crc o (offset / block_size) 0)
        (λ p. persistence_block_crc p (offset / block_size + 1) 0)
        (extent_id-persistence_block_crc o (offset / block_size) 0)
        (λ p. extent_id-persistence_block_crc p (offset / block_size + 1) 0),
  )

  pub extent_id-write :
      (bytes : Bytes) (offset size crc : ℕ) (is_sync : Bool) (now : ℕ) (o o' : Opened)
      → Written persistence_block_crc bytes offset size crc is_sync now o o'
      → o'.e.extent_id ≡ o.e.extent_id
  unfolding grow
  extent_id-write bytes offset size crc is_sync now o o' w =
      ap (λ (x : Opened). x.e.extent_id) w.result
      ∙ sym (ap (λ (p : Option Error × Opened). p.1.e.extent_id) w.crcs)
      ∙ extent_id-update_crcs offset size crc is_sync (record o { e = record o.e { file = w.fp } })
