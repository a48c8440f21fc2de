-- ===== src/Proto.antt =====
-- Package proto: file modes, attribute masks, result codes and extent keys.
pub mod ExtentKey
use cfs.Base.{ℕ, ◌/◌, ◌%◌, ◌^◌, ◌<◌, Bool, not, ◌||◌, ◌==◌}

-- Machine words.
abbrev pub IsU32 : ℕ → Type 0
IsU32 n = n < 2 ^ 32

abbrev pub IsU64 : ℕ → Type 0
IsU64 n = n < 2 ^ 64

abbrev pub u32 : ℕ → ℕ
u32 n = n % 2 ^ 32

abbrev pub u64 : ℕ → ℕ
u64 n = n % 2 ^ 64

-- `word & (1 << bit) != 0`
abbrev pub has_bit : ℕ → ℕ → Bool
has_bit word bit = word / 2 ^ bit % 2 == 1

-- IsDir: os.ModeDir is the bit 31 of a mode.
abbrev pub is_dir : ℕ → Bool
is_dir mode = has_bit mode 31

-- The bits of AttrMode, AttrUid and AttrGid.
abbrev pub attr_mode : ℕ
attr_mode = 0

abbrev pub attr_uid : ℕ
attr_uid = 1

abbrev pub attr_gid : ℕ
attr_gid = 2

-- The result codes of the metanode; `op_init_result_code` is that of a request.
pub data Status : Type 0 where
  op_ok op_exist_err op_not_exist_err op_arg_mismatch_err op_disk_err : Status
  op_err op_again op_inode_full_err op_not_perm op_init_result_code : Status

-- IsRegular: none of the bits of os.ModeType, which are ModeDir, ModeSymlink, ModeDevice,
-- ModeNamedPipe, ModeSocket, ModeCharDevice and ModeIrregular.
unfoldable pub is_regular : ℕ → Bool
is_regular mode = not (
    has_bit mode 31
    || has_bit mode 27
    || has_bit mode 26
    || has_bit mode 25
    || has_bit mode 24
    || has_bit mode 21
    || has_bit mode 19)
