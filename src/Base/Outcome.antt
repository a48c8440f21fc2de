-- ===== src/Base/Outcome.antt =====
-- The errors that the modelled code returns, and results with `do`.
use mathlib.Core.Path.{◌≡◌, refl}
use mathlib.Core.Logic.{◌⊎◌, inl, inr}

-- `eof` and `unexpected_eof` are io.EOF and io.ErrUnexpectedEOF; `panic` is a run-time panic, such
-- as a read past the end of a slice.
pub data Error : Type 0 where
  eof unexpected_eof panic unknown_op inode_id_out_of_range parent_is_inode : Error
  persistence_by_raft meta_partition_not_exists invalid_mp_start no_leader : Error
  parameter_mismatch extent_is_full extent_not_found : Error
  unknown_result_code invalid_reply crc_mismatch : Error

pub data Result {ℓ} (A : Type ℓ) : Type ℓ where
  ok : A → Result A
  err : Error → Result A

infixl 5 ◌>>=◌
abbrev pub ◌>>=◌ {ℓ κ} : {A : Type ℓ} {B : Type κ} → Result A → (A → Result B) → Result B
ok a >>= f = f a
err e >>= f = err e

pub Result-cases {ℓ} :
    {A : Type ℓ} (r : Result A) → ((a : A) × (r ≡ ok a)) ⊎ ((e : Error) × (r ≡ err e))
Result-cases (ok a) = inl (a, refl)
Result-cases (err e) = inr (e, refl)
