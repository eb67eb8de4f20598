-- ===== src/Tests/Pmm.antt =====
-- Small runs of the physical memory manager. A chunk of 16 pages at 1 MiB whose first page is in use.
use crep_os.Base.{some, ℕ, ◌-◌, ◌≡◌, refl, false, List, [], ◌∷◌, if◌then◌else◌, ◌==◌, arith}
use crep_os.Memory.{Memory, bm_test}
use crep_os.Memutils.{div_roundup, align_up}
use crep_os.Pmm.{MemChunk, Pmm, allocated, chunk_alloc, chunk_free, take_pages, alloc, calloc}
use crep_os.Pmm.ChunkAlloc.{IsChunk, Allocates, chunk_alloc-Allocates}
use crep_os.Pmm.Chain.{FirstServes, alloc-FirstServes, Cleared, calloc-Cleared}
use crep_os.Pmm.Free.{chunk_free-chunk_alloc}
use crep_os.Pmm.Init.{MmapEntry, init}
use crep_os.Pmm.Init.Fresh.{Unused, init-Unused}

abbrev memory : Memory
memory = λ x. if x == 1000 then 1 else 0

abbrev chunk : MemChunk
chunk = record { base = 0x10_0000; page_cnt = 16; bitmap_size = 2; bitmap = 1000 }

abbrev pmm : Pmm
pmm = record {
  memory = memory;
  chunks = chunk ∷ [];
  buffer = 2000;
  total_mem = 0x11_0000;
  total_used_mem = 0x1000;
}

chunk-IsChunk : IsChunk chunk 1
chunk-IsChunk = record { aligned = refl; fits = omega arith }

two_pages : chunk_alloc pmm chunk 2 1 ≡ allocated 0x10_1000 (take_pages pmm chunk 1 2)
unfolding chunk_alloc align_up div_roundup bm_test
two_pages = refl

chunk_alloc-Allocates_example : Allocates pmm chunk 2 1 (chunk_alloc pmm chunk 2 1)
chunk_alloc-Allocates_example =
    chunk_alloc-Allocates pmm chunk 2 1 (omega arith) chunk-IsChunk (omega arith)

chunk_free-chunk_alloc_example :
    ((j : ℕ)
      → bm_test
          (chunk_free (take_pages pmm chunk 1 2) chunk (0x10_1000 - 0x10_0000) 2).memory
          1000
          j
        ≡ bm_test memory 1000 j)
    × ((chunk_free (take_pages pmm chunk 1 2) chunk (0x10_1000 - 0x10_0000) 2).total_used_mem
        ≡ 0x1000)
chunk_free-chunk_alloc_example =
    chunk_free-chunk_alloc pmm chunk 2 1 (omega arith) (omega arith) chunk-IsChunk (omega arith)
      two_pages

alloc-FirstServes_example : FirstServes pmm 2 1 (chunk ∷ []) (alloc pmm 2 1)
alloc-FirstServes_example =
    alloc-FirstServes pmm 2 1 chunk [] refl (omega arith) (omega arith) (chunk-IsChunk, tt)

calloc-Cleared_example : Cleared pmm 1 (alloc pmm 1 1) (calloc pmm 1 1)
calloc-Cleared_example =
    calloc-Cleared pmm 1 1 chunk [] refl (omega arith) (omega arith) (chunk-IsChunk, tt)
      (omega arith, tt) (omega arith)

abbrev mmap : List MmapEntry
mmap =
    record { addr = 0; len = 0x1000; type = 2 }
    ∷ record { addr = 0x10_0010; len = 0x10_0000; type = 1 }
    ∷ []

init-Unused_example : (p : Pmm) × (init (λ k. 0) memory mmap ≡ some p) × Unused p p.chunks
init-Unused_example = init-Unused (λ k. 0) memory mmap (λ k. refl) (omega arith)

-- A chunk of a single page, which is free.
abbrev page : MemChunk
page = record { base = 0x10_0000; page_cnt = 1; bitmap_size = 1; bitmap = 1000 }

abbrev empty : Pmm
empty = record pmm { memory = λ x. 0; chunks = page ∷ [] }

empty-IsFree : (x : ℕ) → bm_test empty.memory 1000 x ≡ false
unfolding bm_test
empty-IsFree x = ground arith
