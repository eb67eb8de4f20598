-- ===== src/Memory/Bitmap.antt =====
-- What a bitmap holds after a bit is set or cleared.
use crep_os.Base.{
  ℕ, zero, suc, ◌+◌, ◌-◌, ◌/◌, ◌%◌, ◌^◌, ◌<◌, ◌≤◌, bit_and, bit_or, ◌≡◌, ◌≢◌, ◌∙◌, refl, not, ◌&&◌,
  ◌||◌, ◌==◌, arith, inl, inr, true, false, Bool-cases, Option, some, none,
}
use crep_os.Memory.{
  Memory, bm_set, bm_clear, bm_test, bm_alloc_region, bm_free_region, first_free_loop,
  bm_first_free,
}
use crep_os.Memory.Bits.{bit, bit-bit_or, bit-bit_and, bit-mod, bit-pow, bit_mask}
use crep_os.Memory.Blocks.{within}

set_bit : (x k l : ℕ) → l < 8 → bit (bit_or x (2 ^ k) % 2 ^ 8) l ≡ (bit x l || (k == l))
set_bit x k l h = bit-mod (bit_or x (2 ^ k)) 8 l h ∙ rw (← bit-pow k l) (bit-bit_or x (2 ^ k) l)

clear_bit :
    (x k l : ℕ) → k < 8 → l < 8 → bit (bit_and x (255 - 2 ^ k)) l ≡ (bit x l && not (k == l))
clear_bit x k l h i = rw (← bit_mask 8 k l h i) (bit-bit_and x (255 - 2 ^ k) l)

module _ (m : Memory) (p i j : ℕ) where
  -- Setting bit `i` sets that bit and leaves every other.
  pub bm_test-bm_set : bm_test (bm_set m p i) p j ≡ ((i == j) || bm_test m p j)
  unfolding bm_test bm_set bit
  bm_test-bm_set = ground (arith, set_bit (m (p + i / 8)) (i % 8) (j % 8))

  pub bm_test-bm_clear : bm_test (bm_clear m p i) p j ≡ (not (i == j) && bm_test m p j)
  unfolding bm_test bm_clear bit
  bm_test-bm_clear = ground (arith, clear_bit (m (p + i / 8)) (i % 8) (j % 8))

-- A region is set bit by bit, and every other bit stays.
pub bm_test-bm_alloc_region :
    (m : Memory) (p i n j : ℕ)
    → bm_test (bm_alloc_region m p i n) p j ≡ (within i n j || bm_test m p j)
unfolding bm_alloc_region
bm_test-bm_alloc_region m p i zero j = ground arith
bm_test-bm_alloc_region m p i (suc n) j =
    bm_test-bm_alloc_region (bm_set m p i) p (i + 1) n j ∙ ground (arith, bm_test-bm_set m p i j)

-- After `bm_free_region` exactly the bits of the region are clear and every other bit of the bitmap
-- is as before.
pub bm_test-bm_free_region :
    (m : Memory) (p i n j : ℕ)
    → bm_test (bm_free_region m p i n) p j ≡ (not (within i n j) && bm_test m p j)
unfolding bm_free_region
bm_test-bm_free_region m p i zero j = ground arith
bm_test-bm_free_region m p i (suc n) j =
    bm_test-bm_free_region (bm_clear m p i) p (i + 1) n j ∙ ground (arith, bm_test-bm_clear m p i j)

-- The first clear bit below `size`, or none where all are set.
abbrev pub FirstFree : Memory → ℕ → ℕ → ℕ → Option ℕ → Type 0
FirstFree m p i size none = (j : ℕ) → i ≤ j → j < size → bm_test m p j ≡ true
FirstFree m p i size (some k) =
    (bm_test m p k ≡ false) × (k < size) × ((j : ℕ) → i ≤ j → j < k → bm_test m p j ≡ true)

FirstFree-earlier :
    (m : Memory) (p i size : ℕ) (o : Option ℕ)
    → bm_test m p i ≡ true
    → FirstFree m p (i + 1) size o
    → FirstFree m p i size o
FirstFree-earlier m p i size none e h = λ j a b. ground (arith, h j)
FirstFree-earlier m p i size (some k) e h = (h.0, h.1, λ j a b. ground (arith, h.2 j))

FirstFree-bound :
    (m : Memory) (p i a b : ℕ) (o : Option ℕ) → a ≡ b → FirstFree m p i a o → FirstFree m p i b o
FirstFree-bound m p i a b o e h = rw e at h

first_free_loop_lem : (m : Memory) (p i n : ℕ) → FirstFree m p i (i + n) (first_free_loop m p i n)
unfolding first_free_loop
first_free_loop_lem m p i zero = λ j h k. absurd (omega arith)
first_free_loop_lem m p i (suc n) = elim (Bool-cases (bm_test m p i)) [
  | inl e ↦
      rw (e, first_free_loop)
        (FirstFree-earlier m p i (i + suc n) (first_free_loop m p (i + 1) n) e (
          FirstFree-bound m p (i + 1) (i + 1 + n) (i + suc n) (first_free_loop m p (i + 1) n)
            (omega arith) (first_free_loop_lem m p (i + 1) n)))
  | inr e ↦ rw (e, first_free_loop) (e, omega arith, λ j a b. absurd (omega arith))
]

-- `bm_first_free` returns the lowest clear bit below `size`, and -1 only where every bit below
-- `size` is set.
pub bm_first_free_lem : (m : Memory) (p size : ℕ) → FirstFree m p 0 size (bm_first_free m p size)
unfolding bm_first_free
bm_first_free_lem m p size =
    FirstFree-bound m p 0 (0 + size) size (first_free_loop m p 0 size) (omega arith)
      (first_free_loop_lem m p 0 size)

-- The regions touch no cell outside the bytes of their bits.
pub bm_alloc_region_outside :
    (m : Memory) (p i n x : ℕ)
    → ((j : ℕ) → i ≤ j → j < i + n → x ≢ p + j / 8)
    → bm_alloc_region m p i n x ≡ m x
unfolding bm_alloc_region bm_set
bm_alloc_region_outside m p i zero x h = refl
bm_alloc_region_outside m p i (suc n) x h =
    bm_alloc_region_outside (bm_set m p i) p (i + 1) n x (λ j a b. h j (omega arith) (omega arith))
    ∙ ground (arith, h i)
