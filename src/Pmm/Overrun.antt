-- ===== src/Pmm/Overrun.antt =====
-- `mem_chunk::alloc` at the end of a chunk.
use crep_os.Base.{ℕ, ◌+◌, ◌-◌, ◌*◌, ◌%◌, ◌≤◌, ◌<◌, ◌≡◌, ap, ◌∙◌, true, arith}
use crep_os.Memory.{bm_test}
use crep_os.Pmm.{
  MemChunk, Pmm, page_size, Alloc, allocated, exhausted, null_root, loops, chunk_alloc,
}
use crep_os.Pmm.FirstFit.{IsFree, Blocked}
use crep_os.Pmm.ChunkAlloc.{IsChunk, IsCandidate, Granted, Allocates, chunk_alloc-Allocates}

-- The last `left` pages of the chunk are free, the others are in use, and the bits that follow the
-- chunk's in memory are clear as far as the request goes.
pub record IsNearlyFull (p : Pmm) (c : MemChunk) (left cnt : ℕ) : Type 0 where
  pub some_left : 0 < left
  pub in_chunk : left ≤ c.page_cnt
  pub too_few : left < cnt
  pub full : (j : ℕ) → j < c.page_cnt - left → bm_test p.memory c.bitmap j ≡ true
  pub clear : IsFree p.memory c.bitmap (c.page_cnt - left) cnt

not-Blocked :
    (p : Pmm) (c : MemChunk) (left cnt : ℕ)
    → IsNearlyFull p c left cnt
    → Blocked p.memory c.bitmap (c.page_cnt - left) cnt
    → ⊥
not-Blocked p c left cnt n (x, lo, hi, e) = let free = n.clear x lo hi in cc

candidate : (c : MemChunk) (k : ℕ) → c.base % page_size ≡ 0 → IsCandidate c 1 k
candidate c k h = omega arith

module _ (p : Pmm) (c : MemChunk) (left cnt : ℕ) (wf : IsChunk c 1)
    (n : IsNearlyFull p c left cnt) where
  Overruns : Alloc → Type 0
  Overruns r = (q : Pmm) × (r ≡ allocated (c.base + (c.page_cnt - left) * page_size) q)

  Granted-last : (a : ℕ) (q : Pmm) (i : ℕ) → Granted p c cnt 1 a q i → i ≡ c.page_cnt - left
  Granted-last a q i g =
      let some = n.some_left in
      let inside = n.in_chunk in
      let few = n.too_few in
      let not_before : ¬ (i < c.page_cnt - left) = λ lt.
        let taken = n.full i lt in let open_page = g.was_free i (omega arith) (omega arith) in cc in
      let not_after : ¬ (c.page_cnt - left < i) = λ lt.
        not-Blocked p c left cnt n (g.first _ lt (candidate c (c.page_cnt - left) wf.aligned)) in
      omega arith

  Allocates-Overruns : (r : Alloc) → Allocates p c cnt 1 r → Overruns r
  unfolding Overruns
  Allocates-Overruns (allocated a q) (i, g) =
      (q, ap (λ x. allocated x q) (g.at ∙ ap (λ x. c.base + x * page_size) (Granted-last a q i g)))
  Allocates-Overruns exhausted h = absurd (
      not-Blocked p c left cnt n (
        h (c.page_cnt - left) (let some = n.some_left in let inside = n.in_chunk in omega arith)
          (candidate c (c.page_cnt - left) wf.aligned)))
  Allocates-Overruns null_root h = absurd h
  Allocates-Overruns loops h = absurd h

  -- At alignment 1, a page-aligned chunk whose addresses leave room below 2^63, with fewer free
  -- pages left at its end than requested, all others in use and the bits behind its own clear,
  -- grants the request all the same: the pages run past the chunk.
  chunk_alloc_past_end :
      (q : Pmm) × (chunk_alloc p c cnt 1 ≡ allocated (c.base + (c.page_cnt - left) * page_size) q)
      × (c.page_cnt < c.page_cnt - left + cnt)
  unfolding Overruns
  chunk_alloc_past_end =
      let few = n.too_few in
      let (q, e) =
        Allocates-Overruns _ (chunk_alloc-Allocates p c cnt 1 (omega arith) wf (omega arith)) in
      (q, e, let inside = n.in_chunk in omega arith)
