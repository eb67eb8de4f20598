-- ===== src/Memory/Bits.antt =====
-- One bit of `|` and `&`, from the digit recursion that the native operations stand for.
use Prim.Native.Nat.{min, max, digits, bitwise, bit_and-bitwise, bit_or-bitwise}
use native.Mathlib.Nat.{
  pow-suc, le_refl, div-div-eq-div-mul, mul_comm, one-le-pow, pow-le-pow_right,
}
use crep_os.Base.{
  ℕ, zero, suc, ◌+◌, ◌-◌, ◌*◌, ◌/◌, ◌%◌, ◌^◌, ◌≤◌, ◌<◌, bit_and, bit_or, ◌≡◌, refl, ◌∙◌, Bool, true,
  false, not, ◌&&◌, ◌||◌, ◌==◌, arith,
}

-- Bit `l` of a number.
unfoldable pub bit : ℕ → ℕ → Bool
bit x l = x / 2 ^ l % 2 == 1

module _ (z : ℕ → ℕ) (op : ℕ → ℕ → ℕ) where
  digits-eq : (n m a b : ℕ) → a ≤ n → a ≤ m → digits z op n a b ≡ digits z op m a b
  digits-eq zero zero a b p q = refl
  digits-eq zero (suc m) zero b p q = refl
  digits-eq zero (suc m) (suc a) b p q = absurd (omega arith)
  digits-eq (suc n) zero zero b p q = refl
  digits-eq (suc n) zero (suc a) b p q = absurd (omega arith)
  digits-eq (suc n) (suc m) zero b p q = refl
  digits-eq (suc n) (suc m) (suc a) b p q =
      rw (digits-eq n m (suc a / 2) (b / 2) (omega arith) (omega arith))

  bitwise_digit :
      (a b : ℕ)
      → bitwise z op (suc a) b ≡ bitwise z op (suc a / 2) (b / 2) * 2 + op (suc a % 2) (b % 2)
  bitwise_digit a b =
      omega (arith, digits-eq a (suc a / 2) (suc a / 2) (b / 2) (omega arith) (le_refl _))

pub bit_or_digit : (a b : ℕ) → bit_or a b ≡ bit_or (a / 2) (b / 2) * 2 + max (a % 2) (b % 2)
bit_or_digit zero b = simp bit_or-bitwise (omega arith)
bit_or_digit (suc a) b = simp bit_or-bitwise (bitwise_digit (λ y. y) max a b)

pub bit_and_digit : (a b : ℕ) → bit_and a b ≡ bit_and (a / 2) (b / 2) * 2 + min (a % 2) (b % 2)
bit_and_digit zero b = simp bit_and-bitwise (omega arith)
bit_and_digit (suc a) b = simp bit_and-bitwise (bitwise_digit (λ y. 0) min a b)

pub div-pow-suc : (x l : ℕ) → x / 2 ^ suc l ≡ x / 2 / 2 ^ l
div-pow-suc x l = rw (div-div-eq-div-mul, mul_comm 2 (2 ^ l), ← pow-suc 2 l)

pub bit-suc : (x l : ℕ) → bit x (suc l) ≡ bit (x / 2) l
unfolding bit
bit-suc x l = rw (div-pow-suc x l)

pub bit-bit_or : (a b l : ℕ) → bit (bit_or a b) l ≡ (bit a l || bit b l)
unfolding bit
bit-bit_or a b zero = ground (arith, bit_or_digit a b)
bit-bit_or a b (suc l) =
    let half : bit_or a b / 2 ≡ bit_or (a / 2) (b / 2) = omega (arith, bit_or_digit a b) in
    rw (bit-suc (bit_or a b) l, bit-suc a l, bit-suc b l, half) (bit-bit_or (a / 2) (b / 2) l)

pub bit-bit_and : (a b l : ℕ) → bit (bit_and a b) l ≡ (bit a l && bit b l)
unfolding bit
bit-bit_and a b zero = ground (arith, bit_and_digit a b)
bit-bit_and a b (suc l) =
    let half : bit_and a b / 2 ≡ bit_and (a / 2) (b / 2) = omega (arith, bit_and_digit a b) in
    rw (bit-suc (bit_and a b) l, bit-suc a l, bit-suc b l, half) (bit-bit_and (a / 2) (b / 2) l)

pub mod_double : (x p : ℕ) → x % (p * 2) ≡ x % 2 + x / 2 % p * 2
mod_double x p = grind (arith)

-- Cutting to `w` bits keeps the bits below `w`.
pub bit-mod : (x w l : ℕ) → l < w → bit (x % 2 ^ w) l ≡ bit x l
unfolding bit
bit-mod x zero l h = absurd (omega arith)
bit-mod x (suc w) zero h = ground (arith, pow-suc 2 w, mod_double x (2 ^ w))
bit-mod x (suc w) (suc l) h =
    rw (bit-suc (x % 2 ^ suc w) l, bit-suc x l, half) (bit-mod (x / 2) w l (omega arith))
  where
    half : x % 2 ^ suc w / 2 ≡ x / 2 % 2 ^ w
    half = ground (arith, pow-suc 2 w, mod_double x (2 ^ w))

pub bit-zero : (l : ℕ) → bit 0 l ≡ false
unfolding bit
bit-zero zero = refl
bit-zero (suc l) = rw (bit-suc 0 l) (bit-zero l)

pub bit-pow : (k l : ℕ) → bit (2 ^ k) l ≡ (k == l)
unfolding bit
bit-pow zero zero = refl
bit-pow zero (suc l) = rw (bit-suc 1 l) (bit-zero l ∙ ground arith)
bit-pow (suc k) zero = ground (arith, pow-suc 2 k)
bit-pow (suc k) (suc l) =
    let half : 2 ^ suc k / 2 ≡ 2 ^ k = omega (arith, pow-suc 2 k) in
    rw (bit-suc (2 ^ suc k) l, half) (bit-pow k l ∙ ground arith)

bit_ones : (w l : ℕ) → l < w → bit (2 ^ w - 1) l ≡ true
unfolding bit
bit_ones zero l h = absurd (omega arith)
bit_ones (suc w) zero h = ground (arith, pow-suc 2 w, one-le-pow w 2)
bit_ones (suc w) (suc l) h =
    let half : (2 ^ suc w - 1) / 2 ≡ 2 ^ w - 1 = omega (arith, pow-suc 2 w) in
    rw (bit-suc (2 ^ suc w - 1) l, half) (bit_ones w l (omega arith))

-- The complement of a one-bit mask in `w` bits.
pub bit_mask : (w k l : ℕ) → k < w → l < w → bit (2 ^ w - 1 - 2 ^ k) l ≡ not (k == l)
unfolding bit
bit_mask zero k l h i = absurd (omega arith)
bit_mask (suc w) zero zero h i = ground (arith, pow-suc 2 w, one-le-pow w 2)
bit_mask (suc w) zero (suc l) h i =
    let half : (2 ^ suc w - 1 - 1) / 2 ≡ 2 ^ w - 1 = omega (arith, pow-suc 2 w) in
    rw (bit-suc (2 ^ suc w - 1 - 1) l, half) (bit_ones w l (omega arith) ∙ ground arith)
bit_mask (suc w) (suc k) zero h i =
    let fits : 2 ^ suc k ≤ 2 ^ w = pow-le-pow_right (omega arith) (omega arith) in
    ground (arith, pow-suc 2 w, pow-suc 2 k, one-le-pow k 2)
bit_mask (suc w) (suc k) (suc l) h i =
    let half : (2 ^ suc w - 1 - 2 ^ suc k) / 2 ≡ 2 ^ w - 1 - 2 ^ k =
      omega (arith, pow-suc 2 w, pow-suc 2 k) in
    rw (bit-suc (2 ^ suc w - 1 - 2 ^ suc k) l, half)
      (bit_mask w k l (omega arith) (omega arith) ∙ ground arith)
