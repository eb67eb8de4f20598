-- ===== src/Pmm/ChunkAlloc.antt =====
-- `mem_chunk::alloc` against its contract.
use crep_os.Base.{ℕ, ◌+◌, ◌-◌, ◌*◌, ◌/◌, ◌%◌, ◌^◌, ◌≤◌, ◌<◌, ◌≡◌, refl, sym, ap, ◌∙◌, ◌||◌, arith}
use mathlib.Core.Path.{subst}
use native.Mathlib.Nat.{div-add-mod', mul-mod_left, add-mul}
use crep_os.Word.{u64, sub64}
use crep_os.Memory.{bm_test}
use crep_os.Memory.Blocks.{within}
use crep_os.Memory.Bitmap.{bm_test-bm_alloc_region}
use crep_os.Memutils.{align_up}
use crep_os.Memutils.Rounding.{ceil_bounds, align_up-mul}
use crep_os.Pmm.{
  MemChunk, Pmm, page_size, Search, found, missing, endless, Alloc, allocated, exhausted, null_root,
  loops, take_pages, chunk_alloc,
}
use crep_os.Pmm.FirstFit.{IsFree, Blocked, Searched, search-Searched}

-- The chunk starts at a page, and its addresses leave room below 2 ^ 63.
pub record IsChunk (c : MemChunk) (align : ℕ) : Type 0 where
  pub aligned : c.base % page_size ≡ 0
  pub fits : c.base + (c.page_cnt + align) * page_size ≤ 2 ^ 63

-- Page `k` of the chunk may start an allocation.
abbrev pub IsCandidate : MemChunk → (align k : ℕ) → Type 0
IsCandidate c align k = (c.base + k * page_size) % (align * page_size) ≡ 0

module _ (p : Pmm) (c : MemChunk) (cnt align : ℕ) where
  pub record Granted (a : ℕ) (q : Pmm) (i : ℕ) : Type 0 where
    pub at : a ≡ c.base + i * page_size
    pub candidate : IsCandidate c align i
    pub inside : i < c.page_cnt
    pub was_free : IsFree p.memory c.bitmap i cnt
    pub marked :
        (j : ℕ) → bm_test q.memory c.bitmap j ≡ (within i cnt j || bm_test p.memory c.bitmap j)
    pub counted : q.total_used_mem ≡ u64 (p.total_used_mem + cnt * page_size)
    pub same_chunks : q.chunks ≡ p.chunks
    pub first : (k : ℕ) → k < i → IsCandidate c align k → Blocked p.memory c.bitmap k cnt

  abbrev pub Allocates : Alloc → Type 0
  Allocates (allocated a q) = (i : ℕ) × Granted a q i
  Allocates exhausted =
      (k : ℕ) → k < c.page_cnt → IsCandidate c align k → Blocked p.memory c.bitmap k cnt
  Allocates null_root = ⊥
  Allocates loops = ⊥

module _ (c : MemChunk) (align : ℕ) (pos : 0 < align) (wf : IsChunk c align) where
  start : ℕ
  start = align_up c.base (u64 (align * page_size))

  origin : ℕ
  unfolding start
  origin = sub64 start c.base / page_size

  step : ℕ
  step = align * page_size

  start_mul :
      (q : ℕ) × (start ≡ q * (align * page_size))
      × (c.base ≤ start)
      × (start < c.base + align * page_size)
  unfolding start
  start_mul =
      let fits = wf.fits in
      let wrap : u64 (align * page_size) ≡ align * page_size = omega arith in
      rw (wrap, align_up-mul c.base (align * page_size) (omega arith) (omega arith))
        (
          (c.base + (align * page_size - 1)) / (align * page_size),
          refl,
          (ceil_bounds c.base (align * page_size) (omega arith)).0,
          (ceil_bounds c.base (align * page_size) (omega arith)).1,
        )

  start-eq : start ≡ c.base + origin * page_size
  unfolding origin
  start-eq =
      let (q, e, lo, hi) = start_mul in
      let fits = wf.fits in let aligned = wf.aligned in omega arith

  candidate_ge :
      (q r : ℕ) → q * (align * page_size) < r * (align * page_size) + align * page_size → q ≤ r
  candidate_ge q r h = grind arith

  sub_mul : (q r : ℕ) → q ≤ r → (r - q) * align + q * align ≡ r * align
  sub_mul q r h = sym (add-mul (r - q) q align) ∙ ap (λ (t : ℕ). t * align) (omega arith)

  IsCandidate-origin : (k : ℕ) → IsCandidate c align k → (s : ℕ) × (k ≡ origin + s * align)
  IsCandidate-origin k h =
      let (q, e, lo, hi) = start_mul in
      let r = (c.base + k * page_size) / (align * page_size) in
      let whole : r * (align * page_size) ≡ c.base + k * page_size =
        omega (arith, div-add-mod' (c.base + k * page_size) (align * page_size)) in
      let above : q ≤ r = candidate_ge q r (omega arith) in
      (r - q, omega (arith, sub_mul q r above, start-eq))

  origin-IsCandidate : (t : ℕ) → IsCandidate c align (origin + t * align)
  origin-IsCandidate t =
      let (q, e, lo, hi) = start_mul in
      let whole : c.base + (origin + t * align) * page_size ≡ (q + t) * (align * page_size) =
        omega (arith, start-eq) in
      rw whole (mul-mod_left (q + t) (align * page_size))

module _ (p : Pmm) (c : MemChunk) (cnt align : ℕ) (pos : 0 < align) (wf : IsChunk c align) where
  lt_of_mul : (s t : ℕ) → s * align < t * align → s < t
  lt_of_mul s t h = grind arith

  blocked :
      (k s : ℕ)
      → k ≡ origin c align pos wf + s * align
      → Blocked p.memory c.bitmap (origin c align pos wf + s * align) cnt
      → Blocked p.memory c.bitmap k cnt
  blocked k s e = subst (λ x. Blocked p.memory c.bitmap x cnt) (sym e)

  Searched-Allocates :
      (r : Search)
      → Searched p.memory c cnt align (origin c align pos wf) r
      → Allocates p c cnt align (elim r [
        | found i a ↦ allocated a (take_pages p c i cnt)
        | missing ↦ exhausted
        | endless ↦ loops
      ])
  unfolding take_pages
  Searched-Allocates (found i a) (t, e, inside, at, free, before) = (
    i,
    record {
      at = at;
      candidate = rw e (origin-IsCandidate c align pos wf t);
      inside = inside;
      was_free = free;
      marked = λ j. bm_test-bm_alloc_region p.memory c.bitmap i cnt j;
      counted = refl;
      same_chunks = refl;
      first = λ k lt cand.
          let (s, e') = IsCandidate-origin c align pos wf k cand in
          blocked k s e' (before s (lt_of_mul s t (omega arith)));
    },
  )
  Searched-Allocates missing h = λ k lt cand.
      let (s, e) = IsCandidate-origin c align pos wf k cand in blocked k s e (h s (omega arith))
  Searched-Allocates endless h = h

  -- For a positive count and alignment on a page-aligned chunk whose addresses leave room below
  -- 2^63, `mem_chunk::alloc` ends; it returns the lowest page of the wanted alignment from which
  -- that many pages are free, marks exactly these, keeps the chain and adds their size to the
  -- used memory; it returns -1 only where every aligned page of the chunk has a used page among
  -- the next `cnt`.
  pub chunk_alloc-Allocates : 0 < cnt → Allocates p c cnt align (chunk_alloc p c cnt align)
  unfolding chunk_alloc start origin
  chunk_alloc-Allocates some_pages =
      let fits = wf.fits in
      Searched-Allocates _ (
        search-Searched p.memory c cnt align (c.page_cnt + 1) (origin c align pos wf)
          (start c align pos wf) some_pages pos wf.fits
          (omega (arith, start-eq c align pos wf, start_mul c align pos wf)) (omega arith)
          (omega arith))
