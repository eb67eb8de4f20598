-- ===== src/Tests/Mmap.antt =====
-- Small runs of the search for unmapped pages.
use crep_os.Base.{
  ℕ, ◌+◌, ◌-◌, ◌/◌, ◌≡◌, refl, true, false, zero, suc, ◌<◌, some, [], if◌then◌else◌, ◌==◌, ltb,
  arith,
}
use crep_os.Memory.{bm_test, memset}
use crep_os.Pmm.{page_size}
use crep_os.Vmm.{has}
use crep_os.Memutils.{div_roundup}
use crep_os.Mmap.{Heap, Space, mmap_alloc, mmap_min_addr, check_mmap_addr}
use crep_os.Mmap.Search.{mmap_alloc_first}

abbrev heap : Heap
heap = record {
  heap_calloc = λ m cnt. (0x8000, memset 1 m 0x8000 0 cnt);
  heap_recalloc = λ m addr cnt. (addr, m);
}

abbrev space : ℕ → Space
space first_byte = record {
  memory = λ x. if x == 0x8000 then first_byte else 0;
  bitmap = 0x8000;
  bm_size = 64;
  paging = record { entry = λ t i. 0; frames = [] };
  highest_raw = 0x1000;
}

taken : (check_mmap_addr heap (space 2) 0x1_1000 1 8).0 ≡ false
unfolding check_mmap_addr div_roundup bm_test
taken = refl

clear : (j : ℕ) → j < 2 → bm_test (space 4).memory 0x8000 j ≡ false
unfolding bm_test
clear zero h = refl
clear (suc zero) h = refl
clear (suc (suc j)) h = absurd (omega arith)

mmap_alloc_first_example :
    (t : Space) × (mmap_alloc heap 1 (space 4) 0 5000 8 ≡ some (mmap_min_addr, t))
    × ((j : ℕ)
        → bm_test t.memory 0x8000 j ≡ (
            if ltb j ((5000 + (page_size - 1)) / page_size)
            then true
            else bm_test (space 4).memory 0x8000 j))
unfolding has
mmap_alloc_first_example =
    mmap_alloc_first heap 0 (space 4) 0 5000 8 (omega arith) refl (omega arith) (omega arith)
      (omega arith) clear
