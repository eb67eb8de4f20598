-- ===== src/Mmap/Unending.antt =====
-- A mapping of no pages.
use crep_os.Base.{ℕ, zero, suc, ◌+◌, ◌≡◌, refl, none, false, arith}
use crep_os.Memory.{Memory}
use crep_os.Memutils.{div_roundup}
use crep_os.Pmm.{page_size}
use crep_os.Vmm.{has}
use crep_os.Mmap.{Heap, Space, map_fixed, mmap_alloc, placed, search_pages, with_bitmap, grow}

-- No count of pages is 0 after a step.
search_pages-nothing :
    (m : Memory) (bitmap rounds i offset cnt : ℕ)
    → search_pages m bitmap 0 rounds i offset cnt ≡ none
unfolding search_pages
search_pages-nothing m bitmap zero i offset cnt = refl
search_pages-nothing m bitmap (suc rounds) i offset cnt = ground (
  arith,
  search_pages-nothing m bitmap rounds (i + 1) (offset + (cnt + 1)) 1,
  search_pages-nothing m bitmap rounds (i + 1) offset (cnt + 1),
)

no_pages : div_roundup 0 page_size ≡ 0
unfolding div_roundup
no_pages = refl

module _ (heap : Heap) where
  -- Without the fixed flag a request of length 0 never returns: on any fuel `mmap_alloc` runs
  -- out, whatever the heap.
  mmap_alloc_unending :
      (fuel : ℕ) (s : Space) (addr flags : ℕ)
      → has flags map_fixed ≡ false
      → mmap_alloc heap fuel s addr 0 flags ≡ none
  unfolding mmap_alloc placed
  mmap_alloc_unending zero s addr flags free = refl
  mmap_alloc_unending (suc fuel) s addr flags free =
      let t = with_bitmap heap s in
      rw (free, no_pages, search_pages-nothing t.memory t.bitmap t.bm_size 0 0 0)
        (mmap_alloc_unending fuel (grow heap t) addr flags free)
