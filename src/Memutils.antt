-- ===== src/Memutils.antt =====
-- The arithmetic helpers of kernel/lib/memutils.hpp.
pub mod Rounding
use crep_os.Base.{ℕ, zero, suc, ◌+◌, ◌-◌, ◌*◌, ◌/◌, ◌%◌, ◌^◌, bit_or, if◌then◌else◌, ◌==◌, ltb, leb}
use crep_os.Word.{u64, sub64, sdiv}

-- The parameters are `ssize_t`: a `size_t` argument keeps its pattern, and the division is signed.
unfoldable pub div_roundup : ℕ → ℕ → ℕ
div_roundup a b = sdiv (u64 (a + sub64 b 1)) b

unfoldable pub align_up : ℕ → ℕ → ℕ
align_up a b = u64 (div_roundup a b * b)

unfoldable pub abs : ℕ → ℕ → ℕ
abs a b = if ltb b a then a - b else b - a

-- `while(a /= 2) cnt++`, with the rounds left.
log2_loop : ℕ → (a cnt : ℕ) → ℕ
log2_loop zero a cnt = cnt
log2_loop (suc rounds) a cnt =
    let rest = log2_loop rounds (a / 2) (cnt + 1) in if a / 2 == 0 then cnt else rest

unfoldable pub log2 : ℕ → ℕ
unfolding log2_loop
log2 a = log2_loop 64 a 0

-- `a |= a >> k`
abbrev pub smear : ℕ → ℕ → ℕ
smear a k = bit_or a (a / 2 ^ k)

unfoldable pub pow2_roundup : ℕ → ℕ
pow2_roundup a = u64 (smear (smear (smear (smear (smear (sub64 a 1) 1) 2) 4) 8) 16 + 1)
