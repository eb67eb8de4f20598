-- ===== src/Pmm/Free.antt =====
-- `mem_chunk::free` after `mem_chunk::alloc`, and `pmm::free` (kernel/mm/pmm.cpp).
use crep_os.Base.{
  ℕ, zero, suc, ◌+◌, ◌-◌, ◌*◌, ◌^◌, ◌<◌, ◌≡◌, refl, ◌∙◌, false, not, ◌&&◌, arith, some, [], ◌∷◌,
}
use mathlib.Core.Path.{subst}
use crep_os.Word.{u64}
use crep_os.Memory.{bm_test, bm_free_region}
use crep_os.Memory.Blocks.{within}
use crep_os.Memory.Bitmap.{bm_test-bm_free_region}
use crep_os.Memutils.{div_roundup}
use crep_os.Memutils.Rounding.{div_roundup_lem}
use crep_os.Pmm.{
  MemChunk, Pmm, page_size, allocated, chunk_alloc, free_page, free_pages, chunk_free, holds,
  free_from, free,
}
use crep_os.Pmm.ChunkAlloc.{IsChunk, Granted, Allocates, chunk_alloc-Allocates}

free_pages-memory :
    (p : Pmm) (bitmap i n : ℕ)
    → (free_pages p bitmap i n).memory ≡ bm_free_region p.memory bitmap i n
unfolding free_pages bm_free_region
free_pages-memory p bitmap i zero = refl
free_pages-memory p bitmap i (suc n) = free_pages-memory (free_page p bitmap i) bitmap (i + 1) n

free_pages-used :
    (p : Pmm) (bitmap i n v : ℕ)
    → p.total_used_mem ≡ u64 (v + n * page_size)
    → (free_pages p bitmap i n).total_used_mem ≡ u64 v
unfolding free_pages
free_pages-used p bitmap i zero v h = omega arith
free_pages-used p bitmap i (suc n) v h =
    free_pages-used (free_page p bitmap i) bitmap (i + 1) n v (omega arith)

free_pages-test :
    (p : Pmm) (bitmap i n j : ℕ)
    → bm_test (free_pages p bitmap i n).memory bitmap j
      ≡ (not (within i n j) && bm_test p.memory bitmap j)
free_pages-test p bitmap i n j =
    rw (free_pages-memory p bitmap i n) (bm_test-bm_free_region p.memory bitmap i n j)

module _ (p : Pmm) (c : MemChunk) (cnt align : ℕ) {a : ℕ} {q : Pmm} where
  Granted-free :
      (i : ℕ)
      → IsChunk c align
      → Granted p c cnt align a q i
      → p.total_used_mem < 2 ^ 64
      → ((j : ℕ)
          → bm_test (chunk_free q c (a - c.base) cnt).memory c.bitmap j
            ≡ bm_test p.memory c.bitmap j)
        × ((chunk_free q c (a - c.base) cnt).total_used_mem ≡ p.total_used_mem)
  unfolding chunk_free
  Granted-free i wf g small =
      let at = g.at in
      let fits = wf.fits in
      let inside = g.inside in
      let index : div_roundup (a - c.base) page_size ≡ i =
        omega (arith, div_roundup_lem (a - c.base) page_size (omega arith) (omega arith)) in
      rw index (
        λ j. free_pages-test q c.bitmap i cnt j ∙ ground (arith, g.marked j, g.was_free j),
        free_pages-used q c.bitmap i cnt p.total_used_mem g.counted ∙ omega arith,
      )

  -- For a positive count and alignment on a page-aligned chunk whose addresses leave room below
  -- 2^63, with less than 2^64 bytes counted as used: freeing what `mem_chunk::alloc` returned
  -- gives back every bit of the chunk's bitmap and the count of used memory.
  pub chunk_free-chunk_alloc :
      0 < cnt
      → 0 < align
      → IsChunk c align
      → p.total_used_mem < 2 ^ 64
      → chunk_alloc p c cnt align ≡ allocated a q
      → ((j : ℕ)
          → bm_test (chunk_free q c (a - c.base) cnt).memory c.bitmap j
            ≡ bm_test p.memory c.bitmap j)
        × ((chunk_free q c (a - c.base) cnt).total_used_mem ≡ p.total_used_mem)
  chunk_free-chunk_alloc some_pages pos wf small e =
      let (i, g) : Allocates p c cnt align (allocated a q) =
        subst (Allocates p c cnt align) e (chunk_alloc-Allocates p c cnt align pos wf some_pages) in
      Granted-free i wf g small

holds_past_end :
    (c : MemChunk) (i cnt : ℕ)
    → c.base + (i + cnt) * page_size < 2 ^ 64
    → c.page_cnt < i + cnt
    → holds c (c.base + i * page_size) cnt ≡ false
unfolding holds
holds_past_end c i cnt small past = ground arith

-- With a single chunk and addresses below 2^64, `pmm::free` of pages that run past its end changes
-- nothing.
free_past_end :
    (p : Pmm) (c : MemChunk) (i cnt : ℕ)
    → p.chunks ≡ c ∷ []
    → c.base + (i + cnt) * page_size < 2 ^ 64
    → c.page_cnt < i + cnt
    → free p (c.base + i * page_size) cnt ≡ some p
unfolding free free_from
free_past_end p c i cnt only small past = ground (arith, holds_past_end c i cnt)
