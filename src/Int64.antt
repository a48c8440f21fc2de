-- ===== src/Int64.antt =====
-- Go's int on a 64-bit machine: a two's-complement bit pattern below 2 ^ 64.
use cfs.Base.{ℕ, ◌+◌, ◌-◌, ◌≤◌, ◌<◌, ◌^◌, ◌≡◌, Bool, ltb, leb, arith}
use cfs.Proto.{u64}

-- The patterns of the numbers that are not negative.
abbrev pub IsInt : ℕ → Type 0
IsInt n = n < 2 ^ 63

unfoldable pub int_add : ℕ → ℕ → ℕ
int_add a b = u64 (a + b)

unfoldable pub int_sub : ℕ → ℕ → ℕ
int_sub a b = u64 (a + 2 ^ 64 - b)

-- `a < b` and `a <= b`
unfoldable pub int_lt : ℕ → ℕ → Bool
int_lt a b = ltb (u64 (a + 2 ^ 63)) (u64 (b + 2 ^ 63))

unfoldable pub int_le : ℕ → ℕ → Bool
int_le a b = leb (u64 (a + 2 ^ 63)) (u64 (b + 2 ^ 63))

-- On numbers that are not negative they are the operations on naturals.
pub int_add-add : (a b : ℕ) → IsInt (a + b) → int_add a b ≡ a + b
unfolding int_add
int_add-add a b h = omega arith

pub int_sub-sub : (a b : ℕ) → IsInt a → b ≤ a → int_sub a b ≡ a - b
unfolding int_sub
int_sub-sub a b h k = omega arith

pub int_lt-ltb : (a b : ℕ) → IsInt a → IsInt b → int_lt a b ≡ ltb a b
unfolding int_lt
int_lt-ltb a b h k = ground arith

pub int_le-leb : (a b : ℕ) → IsInt a → IsInt b → int_le a b ≡ leb a b
unfolding int_le
int_le-leb a b h k = ground arith
