-- ===== src/Memory/Masks.antt =====
-- `|` of disjoint fields and `&` with a mask, as arithmetic at every width.
use crep_os.Base.{
  ℕ, zero, suc, ◌+◌, ◌-◌, ◌*◌, ◌/◌, ◌%◌, ◌^◌, ◌≤◌, ◌<◌, bit_and, bit_or, ◌≡◌, refl, ap,
  if◌then◌else◌, arith,
}
use native.Mathlib.Nat.{pow-suc, one-le-pow}
use crep_os.Memory.Bits.{bit, bit_or_digit, bit_and_digit, mod_double, div-pow-suc}

bit_or-zero_below : (n x : ℕ) → x ≤ n → bit_or x 0 ≡ x
bit_or-zero_below n zero h = refl
bit_or-zero_below zero (suc x) h = absurd (omega arith)
bit_or-zero_below (suc n) (suc x) h =
    omega (arith, bit_or_digit (suc x) 0, bit_or-zero_below n (suc x / 2) (omega arith))

bit_and-zero_below : (n x : ℕ) → x ≤ n → bit_and x 0 ≡ 0
bit_and-zero_below n zero h = refl
bit_and-zero_below zero (suc x) h = absurd (omega arith)
bit_and-zero_below (suc n) (suc x) h =
    omega (arith, bit_and_digit (suc x) 0, bit_and-zero_below n (suc x / 2) (omega arith))

pub bit_or-zero : (x : ℕ) → bit_or x 0 ≡ x
bit_or-zero x = bit_or-zero_below x x (omega arith)

pub bit_and-zero : (x : ℕ) → bit_and x 0 ≡ 0
bit_and-zero x = bit_and-zero_below x x (omega arith)

mod-pow-suc : (x w : ℕ) → x % 2 ^ suc w ≡ x % 2 + x / 2 % 2 ^ w * 2
mod-pow-suc x w = rw (pow-suc 2 w) (mod_double x (2 ^ w))

-- `x` has no bit below `k`, and `y` only such.
pub bit_or_add : (x y k : ℕ) → x % 2 ^ k ≡ 0 → y < 2 ^ k → bit_or x y ≡ x + y
bit_or_add x y zero h low = ground (arith, bit_or-zero x)
bit_or_add x y (suc k) h low = omega (
  arith,
  bit_or_digit x y,
  mod-pow-suc x k,
  pow-suc 2 k,
  bit_or_add (x / 2) (y / 2) k (omega (arith, mod-pow-suc x k, pow-suc 2 k))
      (omega (arith, pow-suc 2 k)),
)

pub bit_and_ones : (x w : ℕ) → bit_and x (2 ^ w - 1) ≡ x % 2 ^ w
bit_and_ones x zero = omega (arith, bit_and-zero x)
bit_and_ones x (suc w) =
    let half : (2 ^ suc w - 1) / 2 ≡ 2 ^ w - 1 = omega (arith, pow-suc 2 w) in
    omega (
      arith,
      bit_and_digit x (2 ^ suc w - 1),
      ap (bit_and (x / 2)) half,
      bit_and_ones (x / 2) w,
      mod-pow-suc x w,
      pow-suc 2 w,
      one-le-pow w 2,
    )

pub bit_and_high : (x p k : ℕ) → bit_and x (p * 2 ^ k) ≡ bit_and (x / 2 ^ k) p * 2 ^ k
bit_and_high x p zero = ground arith
bit_and_high x p (suc k) =
    let half : p * 2 ^ suc k / 2 ≡ p * 2 ^ k = omega (arith, ap (λ (t : ℕ). p * t) (pow-suc 2 k)) in
    omega (
      arith,
      bit_and_digit x (p * 2 ^ suc k),
      ap (bit_and (x / 2)) half,
      ap (λ (t : ℕ). bit_and t p) (div-pow-suc x k),
      bit_and_high (x / 2) p k,
      ap (λ (t : ℕ). p * t) (pow-suc 2 k),
      ap (λ (t : ℕ). bit_and (x / 2 ^ suc k) p * t) (pow-suc 2 k),
      ap (λ (t : ℕ). t * 2 ^ k) (ap (λ (t : ℕ). bit_and t p) (div-pow-suc x k)),
    )

pub bit_and_pow : (x k : ℕ) → bit_and x (2 ^ k) ≡ (if bit x k then 2 ^ k else 0)
unfolding bit
bit_and_pow x zero = ground (arith, bit_and_digit x 1, bit_and-zero (x / 2))
bit_and_pow x (suc k) =
    let half : 2 ^ suc k / 2 ≡ 2 ^ k = omega (arith, pow-suc 2 k) in
    ground (
      arith,
      bit_and_digit x (2 ^ suc k),
      ap (bit_and (x / 2)) half,
      bit_and_pow (x / 2) k,
      pow-suc 2 k,
      div-pow-suc x k,
    )
