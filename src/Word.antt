-- ===== src/Word.antt =====
-- 64-bit words (`size_t`, `uint64_t`) as numbers below 2 ^ 64, and `ssize_t` as the same bit
-- pattern in two's complement (kernel/lib/types.hpp).
use crep_os.Base.{ℕ, ◌+◌, ◌-◌, ◌/◌, ◌%◌, ◌^◌, Bool, if◌then◌else◌, leb}

abbrev pub u64 : ℕ → ℕ
u64 x = x % 2 ^ 64

abbrev pub u32 : ℕ → ℕ
u32 x = x % 2 ^ 32

-- `a - b` on words.
abbrev pub sub64 : ℕ → ℕ → ℕ
sub64 a b = (a + 2 ^ 64 - b) % 2 ^ 64

abbrev pub neg64 : ℕ → ℕ
neg64 a = (2 ^ 64 - a) % 2 ^ 64

-- The pattern of -1, which is also `lib::string::npos`.
abbrev pub minus_one : ℕ
minus_one = 2 ^ 64 - 1

-- The sign of a pattern below 2 ^ 64.
abbrev pub is_neg : ℕ → Bool
is_neg a = leb (2 ^ 63) a

abbrev pub magnitude : ℕ → ℕ
magnitude a = if is_neg a then 2 ^ 64 - a else a

-- `ssize_t` division, which cuts towards zero; the divisor is positive wherever it is called.
abbrev pub sdiv : ℕ → ℕ → ℕ
sdiv a b = if is_neg a then neg64 (magnitude a / b) else a / b
