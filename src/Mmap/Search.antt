-- ===== src/Mmap/Search.antt =====
-- What the search of `mmap_alloc` finds.
use crep_os.Base.{
  ℕ, zero, suc, ◌+◌, ◌-◌, ◌*◌, ◌/◌, ◌^◌, ◌≤◌, ◌<◌, ◌≡◌, ◌≢◌, ◌∙◌, refl, true, false, some,
  if◌then◌else◌, ltb, arith,
}
use crep_os.Word.{u64}
use crep_os.Memory.{Memory, bm_test}
use crep_os.Memory.Bitmap.{bm_test-bm_alloc_region}
use crep_os.Memutils.{div_roundup}
use crep_os.Memutils.Rounding.{div_roundup_lem}
use crep_os.Pmm.{page_size}
use crep_os.Vmm.{has}
use crep_os.Mmap.{
  Heap, Space, mmap_min_addr, map_fixed, mmap_alloc, placed, search_pages, with_bitmap, mark,
  bm_index,
}

-- As long as the bits are free, the offset stays and the count goes up.
search_pages-free :
    (m : Memory) (bitmap page_cnt rounds i offset cnt : ℕ)
    → ((j : ℕ) → i ≤ j → j < i + (page_cnt - cnt) → bm_test m bitmap j ≡ false)
    → cnt < page_cnt
    → page_cnt ≤ cnt + rounds
    → search_pages m bitmap page_cnt rounds i offset cnt ≡ some offset
unfolding search_pages
search_pages-free m bitmap page_cnt zero i offset cnt free more enough = absurd (omega arith)
search_pages-free m bitmap page_cnt (suc rounds) i offset cnt free more enough = ground (
  arith,
  free i (omega arith) (omega arith),
  search_pages-free m bitmap page_cnt rounds (i + 1) offset (cnt + 1)
      (λ j a b. free j (omega arith) (omega arith)),
)

search_pages-used :
    (m : Memory) (bitmap rounds : ℕ)
    → bm_test m bitmap 0 ≡ true
    → 0 < rounds
    → search_pages m bitmap 1 rounds 0 0 0 ≡ some 1
unfolding search_pages
search_pages-used m bitmap zero used pos = absurd (omega arith)
search_pages-used m bitmap (suc rounds) used pos = ground arith

module _ (heap : Heap) (n : ℕ) (s : Space) (addr length flags : ℕ) where
  with_bitmap_there : s.bitmap ≢ 0 → with_bitmap heap s ≡ s
  unfolding with_bitmap
  with_bitmap_there there = ground arith

  mmap_alloc-found :
      (offset : ℕ)
      → s.bitmap ≢ 0
      → has flags map_fixed ≡ false
      → search_pages s.memory s.bitmap (div_roundup length page_size) s.bm_size 0 0 0 ≡ some offset
      → mmap_alloc heap (suc n) s addr length flags ≡ (
          let found = u64 (offset * page_size + mmap_min_addr) in
          some (found, mark heap s found (div_roundup length page_size)))
  unfolding mmap_alloc placed
  mmap_alloc-found offset there free e = rw (free, with_bitmap_there there, e)

  -- With a bitmap there, no fixed flag, a length above 0 and at most 2^63 less a page, as many
  -- pages as the length needs inside `bm_size`, and these first pages free: `mmap_alloc` returns
  -- `mmap_min_addr` and marks exactly these pages.
  pub mmap_alloc_first :
      s.bitmap ≢ 0
      → has flags map_fixed ≡ false
      → 0 < length
      → length + page_size ≤ 2 ^ 63
      → (length + (page_size - 1)) / page_size ≤ s.bm_size
      → ((j : ℕ) → j < (length + (page_size - 1)) / page_size → bm_test s.memory s.bitmap j ≡ false)
      → (t : Space) × (mmap_alloc heap (suc n) s addr length flags ≡ some (mmap_min_addr, t))
        × ((j : ℕ)
            → bm_test t.memory s.bitmap j ≡ (
                if ltb j ((length + (page_size - 1)) / page_size)
                then true
                else bm_test s.memory s.bitmap j))
  unfolding mark bm_index
  mmap_alloc_first there free some_bytes fits room clear =
      let pages = div_roundup_lem length page_size (omega arith) fits in
      (
        mark heap s mmap_min_addr (div_roundup length page_size),
        mmap_alloc-found 0 there free (
            search_pages-free s.memory s.bitmap (div_roundup length page_size) s.bm_size 0 0 0
              (λ j a b. clear j (omega arith)) (omega arith) (omega arith)),
        λ j. rw pages (
            bm_test-bm_alloc_region s.memory s.bitmap 0 ((length + (page_size - 1)) / page_size) j
            ∙ ground arith),
      )

  -- With a bitmap of at least one bit, no fixed flag and a length of at most a page but not 0:
  -- where the first page is in use, `mmap_alloc` grants the second, whether that is in use or
  -- not.
  mmap_alloc_second :
      s.bitmap ≢ 0
      → has flags map_fixed ≡ false
      → 0 < length
      → length ≤ page_size
      → 0 < s.bm_size
      → bm_test s.memory s.bitmap 0 ≡ true
      → mmap_alloc heap (suc n) s addr length flags
        ≡ some (mmap_min_addr + page_size, mark heap s (mmap_min_addr + page_size) 1)
  mmap_alloc_second there free some_bytes one_page room used =
      let one : div_roundup length page_size ≡ 1 =
        omega (arith, div_roundup_lem length page_size (omega arith) (omega arith)) in
      mmap_alloc-found 1 there free
        (rw one (search_pages-used s.memory s.bitmap s.bm_size used room))
      ∙ rw one refl
