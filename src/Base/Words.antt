-- ===== src/Base/Words.antt =====
-- Machine words: a w-bit integer is a number with its wrap-around written out.
use Prim.Native.Nat.{ℕ, ◌+◌, ◌%◌, ◌<◌}

-- uint64 arithmetic wraps at 2 ^ 64.
abbrev pub u64 : ℕ → ℕ
u64 n = n % 18446744073709551616

abbrev pub u32 : ℕ → ℕ
u32 n = n % 4294967296

-- `x - 1` on uint64: `-` on ℕ stops at 0, so the modulus is added first.
abbrev pub pred_u64 : ℕ → ℕ
pred_u64 n = u64 (n + 18446744073709551615)

abbrev pub IsU64 : ℕ → Type 0
IsU64 n = n < 18446744073709551616

abbrev pub IsU32 : ℕ → Type 0
IsU32 n = n < 4294967296

abbrev pub IsByte : ℕ → Type 0
IsByte n = n < 256
