-- ===== src/Memory.antt =====
-- Byte-addressed memory, the loops over it and the bitmaps that the kernel keeps in it
-- (kernel/lib/memutils.hpp, kernel/lib/memutils.cpp). An address is a number; a store changes one
-- cell. A loop that ends by its counter is a recursion on the rounds left.
pub mod Bits
pub mod Bitmap
pub mod Blocks
pub mod Masks
pub mod Shifts
use crep_os.Base.{
  ℕ, zero, suc, ◌+◌, ◌-◌, ◌*◌, ◌/◌, ◌%◌, ◌^◌, bit_and, bit_or, Bool, Option, none, some,
  if◌then◌else◌, ◌==◌,
}

abbrev pub Memory : Type 0
Memory = ℕ → ℕ

abbrev pub store : Memory → ℕ → ℕ → Memory
store m a v x = if x == a then v else m x

-- A cell of `w` bytes at `a`, the lowest byte first.
unfoldable pub load_le : Memory → ℕ → ℕ → ℕ
load_le m a zero = 0
load_le m a (suc w) = m a % 256 + 256 * load_le m (a + 1) w

unfoldable pub store_le : Memory → ℕ → ℕ → ℕ → Memory
store_le m a zero v = m
store_le m a (suc w) v = store_le (store m a (v % 256)) (a + 1) w (v / 256)

-- `memset8`, `memset16`, `memset32` and `memset64` for `w` of 1, 2, 4 and 8.
unfoldable pub memset : (w : ℕ) → Memory → (src value count : ℕ) → Memory
unfolding store_le
memset w m src value zero = m
memset w m src value (suc count) = memset w (store_le m src w value) (src + w) value count

-- `memcpy8` to `memcpy64` likewise; `memcpy` is `memcpy8`.
unfoldable pub memcpy : (w : ℕ) → Memory → (dest src count : ℕ) → Memory
unfolding load_le store_le
memcpy w m dest src zero = m
memcpy w m dest src (suc count) =
    memcpy w (store_le m dest w (load_le m src w)) (dest + w) (src + w) count

-- `bm_set<uint8_t>`, `bm_clear<uint8_t>` and `bm_test<uint8_t>`: the shifted 1 is an `int`, and the
-- assignment cuts the result to a byte, so the complement of a one-bit mask is `255 - 2 ^ k`.
unfoldable pub bm_set : Memory → ℕ → ℕ → Memory
bm_set m bitmap location =
    store m (bitmap + location / 8)
      (bit_or (m (bitmap + location / 8)) (2 ^ (location % 8)) % 2 ^ 8)

unfoldable pub bm_clear : Memory → ℕ → ℕ → Memory
bm_clear m bitmap location =
    store m (bitmap + location / 8) (bit_and (m (bitmap + location / 8)) (255 - 2 ^ (location % 8)))

unfoldable pub bm_test : Memory → ℕ → ℕ → Bool
bm_test m bitmap location = m (bitmap + location / 8) / 2 ^ (location % 8) % 2 == 1

-- `none` is the -1 of the source. The rounds left are `size - i`.
first_free_loop : Memory → (bitmap i rounds : ℕ) → Option ℕ
first_free_loop m bitmap i zero = none
first_free_loop m bitmap i (suc rounds) =
    let rest = first_free_loop m bitmap (i + 1) rounds in
    if bm_test m bitmap i then rest else some i

unfoldable pub bm_first_free : Memory → (bitmap size : ℕ) → Option ℕ
unfolding first_free_loop bm_test
bm_first_free m bitmap size = first_free_loop m bitmap 0 size

unfoldable pub bm_alloc_region : Memory → (bitmap start limit : ℕ) → Memory
unfolding bm_set
bm_alloc_region m bitmap start zero = m
bm_alloc_region m bitmap start (suc limit) =
    bm_alloc_region (bm_set m bitmap start) bitmap (start + 1) limit

unfoldable pub bm_free_region : Memory → (bitmap start limit : ℕ) → Memory
unfolding bm_clear
bm_free_region m bitmap start zero = m
bm_free_region m bitmap start (suc limit) =
    bm_free_region (bm_clear m bitmap start) bitmap (start + 1) limit
