-- ===== src/Memory/Shifts.antt =====
-- The bits of a number that is shifted to the left or to the right.
use crep_os.Base.{ℕ, zero, suc, ◌+◌, ◌*◌, ◌/◌, ◌^◌, ◌≤◌, ◌<◌, ◌≡◌, ◌∙◌, sym, ap, false, arith}
use native.Mathlib.Nat.{pow-suc}
use crep_os.Memory.Bits.{bit, bit-suc, bit-zero, div-pow-suc}

pub bit_small : (x k l : ℕ) → x < 2 ^ k → k ≤ l → bit x l ≡ false
bit_small x zero l h i =
    let none_left : x ≡ 0 = omega arith in ap (λ x. bit x l) none_left ∙ bit-zero l
bit_small x (suc k) zero h i = absurd (omega arith)
bit_small x (suc k) (suc l) h i =
    bit-suc x l ∙ bit_small (x / 2) k l (omega (arith, pow-suc 2 k)) (omega arith)

suc_out : (k l : ℕ) → suc k + l ≡ suc (k + l)
suc_out k l = omega arith

half_shift : (x k : ℕ) → x * 2 ^ suc k / 2 ≡ x * 2 ^ k
half_shift x k = omega (arith, ap (λ (t : ℕ). x * t) (pow-suc 2 k))

pub bit-shift_below : (x k l : ℕ) → l < k → bit (x * 2 ^ k) l ≡ false
unfolding bit
bit-shift_below x zero l h = absurd (omega arith)
bit-shift_below x (suc k) zero h = ground (arith, ap (λ (t : ℕ). x * t) (pow-suc 2 k))
bit-shift_below x (suc k) (suc l) h =
    bit-suc (x * 2 ^ suc k) l
    ∙ ap (λ x. bit x l) (half_shift x k)
    ∙ bit-shift_below x k l (omega arith)

pub bit-shift : (x k l : ℕ) → bit (x * 2 ^ k) (k + l) ≡ bit x l
bit-shift x zero l = ground arith
bit-shift x (suc k) l =
    ap (bit (x * 2 ^ suc k)) (suc_out k l)
    ∙ bit-suc (x * 2 ^ suc k) (k + l)
    ∙ ap (λ x. bit x (k + l)) (half_shift x k)
    ∙ bit-shift x k l

pub bit-div : (x k l : ℕ) → bit (x / 2 ^ k) l ≡ bit x (k + l)
bit-div x zero l = ground arith
bit-div x (suc k) l =
    ap (λ x. bit x l) (div-pow-suc x k)
    ∙ bit-div (x / 2) k l
    ∙ sym (bit-suc x (k + l))
    ∙ ap (bit x) (sym (suc_out k l))
