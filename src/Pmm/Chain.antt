-- ===== src/Pmm/Chain.antt =====
-- `pmm::alloc` and `pmm::calloc` over the whole chain of chunks.
use crep_os.Base.{
  ℕ, ◌+◌, ◌-◌, ◌*◌, ◌/◌, ◌<◌, ◌≤◌, ◌^◌, ◌≡◌, ◌∙◌, refl, sym, ap, inl, inr, ◌⊎◌, if◌then◌else◌,
  arith, List, [], ◌∷◌,
}
use mathlib.Core.Path.{subst, fun_ext}
use crep_os.Word.{u64, minus_one}
use crep_os.Memory.{memset}
use crep_os.Memory.Blocks.{within, memset_zero}
use crep_os.Pmm.{
  MemChunk, Pmm, page_size, high_vma, Alloc, allocated, exhausted, null_root, loops, chunk_alloc,
  alloc_from, alloc, zero_pages, calloc,
}
use crep_os.Pmm.ChunkAlloc.{IsChunk, Granted, Allocates, chunk_alloc-Allocates}

abbrev pub AllChunks : ℕ → List MemChunk → Type 0
AllChunks align [] = Unit {0}
AllChunks align (c ∷ cs) = IsChunk c align × AllChunks align cs

module _ (p : Pmm) (cnt align : ℕ) where
  -- The first chunk that is not full serves the request; -1 says that each is full.
  abbrev pub FirstServes : List MemChunk → Alloc → Type 0
  FirstServes [] r = r ≡ exhausted
  FirstServes (c ∷ cs) r =
      ((a : ℕ) × (q : Pmm) × (i : ℕ) × (r ≡ allocated a q) × Granted p c cnt align a q i)
      ⊎ (Allocates p c cnt align exhausted × FirstServes cs r)

  chunk_result :
      (c : MemChunk) (cs : List MemChunk) (r rest : Alloc)
      → Allocates p c cnt align r
      → FirstServes cs rest
      → FirstServes (c ∷ cs) (elim r [
        | allocated base p' ↦ allocated base p'
        | exhausted ↦ rest
        | null_root ↦ null_root
        | loops ↦ loops
      ])
  chunk_result c cs (allocated a q) rest (i, g) h = inl (a, q, i, refl, g)
  chunk_result c cs exhausted rest g h = inr (g, h)
  chunk_result c cs null_root rest g h = absurd g
  chunk_result c cs loops rest g h = absurd g

  alloc_from-FirstServes :
      (cs : List MemChunk)
      → 0 < cnt
      → 0 < align
      → AllChunks align cs
      → FirstServes cs (alloc_from p cs cnt align)
  unfolding alloc_from
  alloc_from-FirstServes [] some_pages pos wf = refl
  alloc_from-FirstServes (c ∷ cs) some_pages pos wf =
      chunk_result c cs (chunk_alloc p c cnt align) (alloc_from p cs cnt align)
        (chunk_alloc-Allocates p c cnt align pos wf.0 some_pages)
        (alloc_from-FirstServes cs some_pages pos wf.1)

  -- For a positive count and alignment, `pmm::alloc` on a chain of page-aligned chunks whose
  -- addresses leave room below 2^63 is served by the first chunk that is not full, as
  -- `mem_chunk::alloc` promises, and returns -1 only where every chunk is full.
  pub alloc-FirstServes :
      (c : MemChunk) (cs : List MemChunk)
      → p.chunks ≡ c ∷ cs
      → 0 < cnt
      → 0 < align
      → AllChunks align (c ∷ cs)
      → FirstServes (c ∷ cs) (alloc p cnt align)
  unfolding alloc
  alloc-FirstServes c cs chain some_pages pos wf =
      subst
        (λ l.
          FirstServes (c ∷ cs)
            (elim l [ [] ↦ null_root | d ∷ ds ↦ alloc_from p (d ∷ ds) cnt align ]))
        (sym chain) (alloc_from-FirstServes (c ∷ cs) some_pages pos wf)

-- `p` with `cnt` pages of zeros at the virtual address `at`.
abbrev pub blank : Pmm → (at cnt : ℕ) → Pmm
blank p at cnt = record p { memory = λ x. if within at (cnt * page_size) x then 0 else p.memory x }

zero_pages-blank :
    (p : Pmm) (a cnt : ℕ)
    → cnt * page_size < 2 ^ 64
    → zero_pages p a cnt ≡ blank p (u64 (a + high_vma)) cnt
unfolding zero_pages
zero_pages-blank p a cnt low =
    let bytes : u64 (cnt * page_size) / 8 * 8 ≡ cnt * page_size = omega arith in
    let cells : memset 8 p.memory (u64 (a + high_vma)) 0 (u64 (cnt * page_size) / 8)
        ≡ (blank p (u64 (a + high_vma)) cnt).memory =
      fun_ext λ x.
        subst
          (λ n.
            memset 8 p.memory (u64 (a + high_vma)) 0 (u64 (cnt * page_size) / 8) x
            ≡ (if within (u64 (a + high_vma)) n x then 0 else p.memory x))
          bytes (memset_zero 8 p.memory (u64 (a + high_vma)) (u64 (cnt * page_size) / 8) x) in
    ap (λ m. record p { memory = m }) cells

-- The chunks lie in the low 64 TiB, so that their pages have virtual addresses above `high_vma`.
abbrev pub AllMapped : List MemChunk → Type 0
AllMapped [] = Unit {0}
AllMapped (c ∷ cs) = (c.base + c.page_cnt * page_size ≤ 2 ^ 46) × AllMapped cs

module _ (p : Pmm) (cnt : ℕ) where
  -- What `calloc` makes of a result of `alloc`: the bytes that it clears do not pass the last
  -- address.
  abbrev pub Cleared : Alloc → Alloc → Type 0
  Cleared (allocated a q) r =
      (r ≡ allocated a (blank q (a + high_vma) cnt)) × (a + high_vma + cnt * page_size ≤ 2 ^ 64)
  Cleared exhausted r =
      (r ≡ allocated minus_one (blank p (high_vma - 1) cnt))
      × (high_vma - 1 + cnt * page_size ≤ 2 ^ 64)
  Cleared null_root r = ⊥
  Cleared loops r = ⊥

  -- A granted address lies in a chunk.
  abbrev LowResult : Alloc → Type 0
  LowResult (allocated a q) = a < 2 ^ 46
  LowResult exhausted = Unit {0}
  LowResult null_root = ⊥
  LowResult loops = ⊥

  FirstServes-LowResult :
      (align : ℕ) (cs : List MemChunk) (r : Alloc)
      → AllMapped cs
      → FirstServes p cnt align cs r
      → LowResult r
  FirstServes-LowResult align [] r low e = subst LowResult (sym e) tt
  FirstServes-LowResult align (c ∷ cs) r low (inl (a, q, i, e, g)) =
      subst LowResult (sym e)
        (let at = g.at in let inside = g.inside in let fits = low.0 in omega arith)
  FirstServes-LowResult align (c ∷ cs) r low (inr (full, h)) =
      FirstServes-LowResult align cs r low.1 h

-- For a positive count and alignment and a request of at most 2^46 bytes, on a chain of
-- page-aligned chunks that lie below 2^46 and leave room for the alignment below 2^63,
-- `pmm::calloc` clears the bytes of the pages that `pmm::alloc` granted, at their virtual
-- addresses, and no other byte; where `pmm::alloc` returns -1 it returns -1 and clears as many
-- bytes from `high_vma - 1` on; the bytes do not pass the last address.
pub calloc-Cleared :
    (p : Pmm) (cnt align : ℕ) (c : MemChunk) (cs : List MemChunk)
    → p.chunks ≡ c ∷ cs
    → 0 < cnt
    → 0 < align
    → AllChunks align (c ∷ cs)
    → AllMapped (c ∷ cs)
    → cnt * page_size ≤ 2 ^ 46
    → Cleared p cnt (alloc p cnt align) (calloc p cnt align)
unfolding calloc
calloc-Cleared p cnt align c cs chain some_pages pos wf low room = cleared (alloc p cnt align) (
    FirstServes-LowResult p cnt align (c ∷ cs) (alloc p cnt align) low
      (alloc-FirstServes p cnt align c cs chain some_pages pos wf))
  where
    cleared :
        (r : Alloc)
        → LowResult p cnt r
        → Cleared p cnt r (elim r [
          | allocated a q ↦ allocated a (zero_pages q a cnt)
          | exhausted ↦ allocated minus_one (zero_pages p minus_one cnt)
          | null_root ↦ null_root
          | loops ↦ loops
        ])
    cleared (allocated a q) h =
        let virtual : u64 (a + high_vma) ≡ a + high_vma = omega arith in
        (
          ap (allocated a)
              (zero_pages-blank q a cnt (omega arith) ∙ ap (λ b. blank q b cnt) virtual),
          omega arith,
        )
    cleared exhausted h =
        let virtual : u64 (minus_one + high_vma) ≡ high_vma - 1 = omega arith in
        (
          ap (allocated minus_one)
              (zero_pages-blank p minus_one cnt (omega arith) ∙ ap (λ b. blank p b cnt) virtual),
          omega arith,
        )
    cleared null_root h = h
    cleared loops h = h
