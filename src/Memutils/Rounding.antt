-- ===== src/Memutils/Rounding.antt =====
-- What `div_roundup` and `align_up` come to.
use crep_os.Base.{ℕ, ◌+◌, ◌-◌, ◌*◌, ◌/◌, ◌%◌, ◌^◌, ◌≤◌, ◌<◌, ◌≡◌, arith}
use native.Mathlib.Nat.{div-add-mod', mod-lt, mul-mod_left}
use crep_os.Memutils.{div_roundup, align_up}

pub div_roundup_lem : (a b : ℕ) → 0 < b → a + b ≤ 2 ^ 63 → div_roundup a b ≡ (a + (b - 1)) / b
unfolding div_roundup
div_roundup_lem a b pos fits = ground arith

pub ceil_bounds : (a b : ℕ) → 0 < b → (a ≤ (a + (b - 1)) / b * b) × ((a + (b - 1)) / b * b < a + b)
ceil_bounds a b pos = omega (arith, div-add-mod' (a + (b - 1)) b, mod-lt (a + (b - 1)) pos)

pub align_up-mul : (a b : ℕ) → 0 < b → a + b ≤ 2 ^ 63 → align_up a b ≡ (a + (b - 1)) / b * b
unfolding align_up
align_up-mul a b pos fits = rw (div_roundup_lem a b pos fits) (omega (arith, ceil_bounds a b pos))

-- For a positive `b` with `a + b` at most 2^63, `align_up(a, b)` is the least multiple of `b` that
-- is not below `a`: a multiple, at least `a`, and less than `a + b`.
pub align_up_lem :
    (a b : ℕ)
    → 0 < b
    → a + b ≤ 2 ^ 63
    → (align_up a b % b ≡ 0) × (a ≤ align_up a b) × (align_up a b < a + b)
align_up_lem a b pos fits =
    rw (align_up-mul a b pos fits)
      (mul-mod_left ((a + (b - 1)) / b) b, (ceil_bounds a b pos).0, (ceil_bounds a b pos).1)

-- An address of the upper half that is a multiple of 16 already, and at most 2^64 - 16, is moved up
-- by 16 by `align_up(a, 16)`, since the division is signed.
pub align_up_high :
    (a : ℕ) → 2 ^ 63 ≤ a → a + 16 ≤ 2 ^ 64 → a % 16 ≡ 0 → align_up a 16 ≡ (a + 16) % 2 ^ 64
unfolding align_up div_roundup
align_up_high a high fits even = ground arith
