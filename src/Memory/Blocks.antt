-- ===== src/Memory/Blocks.antt =====
-- The loops of kernel/lib/memutils.cpp against what they leave in each cell.
use crep_os.Base.{
  ℕ, zero, suc, ◌+◌, ◌-◌, ◌*◌, ◌/◌, ◌%◌, ◌^◌, ◌≤◌, ◌≡◌, refl, ◌∙◌, Bool, false, ◌&&◌, if◌then◌else◌,
  ltb, leb, arith, ◌⊎◌,
}
use native.Mathlib.Nat.{pow-suc}
use crep_os.Memory.{Memory, store, memset, memcpy, load_le, store_le}

-- A run of `n` cells from `a`.
abbrev pub within : ℕ → ℕ → ℕ → Bool
within a n x = leb a x && ltb x (a + n)

pub memset8_lem :
    (m : Memory) (a v n x : ℕ) → memset 1 m a v n x ≡ (if within a n x then v % 256 else m x)
unfolding memset
memset8_lem m a v zero x = ground arith
memset8_lem m a v (suc n) x = memset8_lem (store m a (v % 256)) (a + 1) v n x ∙ ground arith

-- A byte copy whose target starts no later than its source, or behind the source's end, leaves in
-- the target what the source held (as bytes) and every other cell as it was.
pub memcpy8_lem :
    (m : Memory) (dest src n x : ℕ)
    → (dest ≤ src) ⊎ (src + n ≤ dest)
    → memcpy 1 m dest src n x ≡ (if within dest n x then m (src + (x - dest)) % 256 else m x)
unfolding memcpy load_le
memcpy8_lem m dest src zero x h = ground arith
memcpy8_lem m dest src (suc n) x h =
    memcpy8_lem (store m dest (load_le m src 1 % 256)) (dest + 1) (src + 1) n x (ground arith)
    ∙ ground arith

pub store_le_outside : (m : Memory) (a w v x : ℕ) → within a w x ≡ false → store_le m a w v x ≡ m x
unfolding store_le
store_le_outside m a zero v x h = refl
store_le_outside m a (suc w) v x h =
    store_le_outside (store m a (v % 256)) (a + 1) w (v / 256) x (ground arith) ∙ ground arith

mod_digit : (x p : ℕ) → x % (p * 256) ≡ x % 256 + x / 256 % p * 256
mod_digit x p = grind arith

-- Reading a word back gives the value that was stored, cut to the word's width.
pub load_le-store_le : (m : Memory) (a w v : ℕ) → load_le (store_le m a w v) a w ≡ v % 256 ^ w
unfolding load_le store_le
load_le-store_le m a zero v = omega arith
load_le-store_le m a (suc w) v = ground (
  arith,
  store_le_outside (store m a (v % 256)) (a + 1) w (v / 256) a (ground arith),
  load_le-store_le (store m a (v % 256)) (a + 1) w (v / 256),
  mod_digit v (256 ^ w),
  pow-suc 256 w,
)

store_le-zero : (m : Memory) (a w x : ℕ) → store_le m a w 0 x ≡ (if within a w x then 0 else m x)
unfolding store_le
store_le-zero m a zero x = ground arith
store_le-zero m a (suc w) x = store_le-zero (store m a 0) (a + 1) w x ∙ ground arith

-- Words of any width that are all 0 clear the bytes that they cover.
pub memset_zero :
    (w : ℕ) (m : Memory) (a n x : ℕ) → memset w m a 0 n x ≡ (if within a (n * w) x then 0 else m x)
unfolding memset
memset_zero w m a zero x = ground arith
memset_zero w m a (suc n) x =
    memset_zero w (store_le m a w 0) (a + w) n x ∙ ground (arith, store_le-zero m a w x)
