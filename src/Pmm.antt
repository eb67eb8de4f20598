-- ===== src/Pmm.antt =====
-- The physical memory manager (kernel/mm/pmm.cpp, kernel/mm/pmm.hpp). Its chunks form a list in the
-- order of their `next` pointers; their bitmaps lie in the byte memory, at virtual addresses. The
-- spin lock makes each call one step. Page indices stay below 2 ^ 64; addresses and `total_used_mem`
-- wrap as the source's words do.
pub mod Init
pub mod Overrun
pub mod ChunkAlloc
pub mod Chain
pub mod FirstFit
pub mod Free
use crep_os.Base.{
  ℕ, zero, suc, ◌+◌, ◌-◌, ◌*◌, ◌/◌, Bool, ◌&&◌, Option, none, some, List, [], ◌∷◌, if◌then◌else◌,
  ◌==◌, ltb, leb,
}
use crep_os.Word.{u64, sub64, minus_one}
use crep_os.Memory.{Memory, memset, bm_test, bm_clear, bm_alloc_region}
use crep_os.Memutils.{div_roundup, align_up}

abbrev pub page_size : ℕ
page_size = 0x1000

abbrev pub high_vma : ℕ
high_vma = 0xffff_8000_0000_0000

pub record MemChunk : Type 0 where
  pub base : ℕ
  pub page_cnt : ℕ
  pub bitmap_size : ℕ
  pub bitmap : ℕ

pub record Pmm : Type 0 where
  pub memory : Memory
  pub chunks : List MemChunk
  pub buffer : ℕ
  pub total_mem : ℕ
  pub total_used_mem : ℕ

-- The inner loop of `mem_chunk::alloc`: it breaks at a used page, or counts `cnt` free ones. Its
-- rounds left are `i + cnt - j`.
pub data Scan : Type 0 where
  used complete ran_out : Scan

unfoldable pub scan : Memory → (bitmap cnt j count rounds : ℕ) → Scan
scan m bitmap cnt j count zero = ran_out
scan m bitmap cnt j count (suc rounds) =
    let rest = scan m bitmap cnt (j + 1) (count + 1) rounds in
    if bm_test m bitmap j then used else if count + 1 == cnt then complete else rest

-- The outer loop. `endless` is a loop that has not ended within the fuel.
pub data Search : Type 0 where
  found : (i alloc_base : ℕ) → Search
  missing endless : Search

unfoldable pub search : Memory → MemChunk → (cnt align : ℕ) → (fuel i alloc_base : ℕ) → Search
unfolding scan
search m c cnt align zero i alloc_base = endless
search m c cnt align (suc fuel) i alloc_base =
    let skip = search m c cnt align fuel (u64 (i + align)) (u64 (alloc_base + align * page_size)) in
    let next = search m c cnt align fuel (u64 (i + align)) alloc_base in
    if ltb i c.page_cnt
    then (elim (scan m c.bitmap cnt i 0 cnt) [
      | used ↦ skip
      | complete ↦ found i alloc_base
      | ran_out ↦ next
    ])
    else missing

-- What a call of `alloc` comes to. `exhausted` is the return value -1.
pub data Alloc : Type 0 where
  allocated : ℕ → Pmm → Alloc
  exhausted null_root loops : Alloc

-- The pages that `mem_chunk::alloc` marks once it has found them.
unfoldable pub take_pages : Pmm → MemChunk → (i cnt : ℕ) → Pmm
take_pages p c i cnt = record p {
  memory = bm_alloc_region p.memory c.bitmap i cnt;
  total_used_mem = u64 (p.total_used_mem + cnt * page_size);
}

-- `mem_chunk::alloc`. One round for each page of the chunk, and one for the last test.
unfoldable pub chunk_alloc : Pmm → MemChunk → (cnt align : ℕ) → Alloc
unfolding search take_pages
chunk_alloc p c cnt align =
    let start = align_up c.base (u64 (align * page_size)) in
    elim (search p.memory c cnt align (c.page_cnt + 1) (sub64 start c.base / page_size) start) [
      | found i alloc_base ↦ allocated alloc_base (take_pages p c i cnt)
      | missing ↦ exhausted
      | endless ↦ loops
    ]

-- The body of the loop of `mem_chunk::free`, and the loop over the pages that are left.
unfoldable pub free_page : Pmm → (bitmap i : ℕ) → Pmm
free_page p bitmap i = record p {
  memory = bm_clear p.memory bitmap i;
  total_used_mem = sub64 p.total_used_mem page_size;
}

unfoldable pub free_pages : Pmm → (bitmap i cnt : ℕ) → Pmm
unfolding free_page
free_pages p bitmap i zero = p
free_pages p bitmap i (suc cnt) = free_pages (free_page p bitmap i) bitmap (i + 1) cnt

-- `mem_chunk::free`, at an offset into the chunk.
unfoldable pub chunk_free : Pmm → MemChunk → (offset cnt : ℕ) → Pmm
unfolding free_pages
chunk_free p c offset cnt = free_pages p c.bitmap (div_roundup offset page_size) cnt

-- `pmm::alloc` tries the chunks in turn; `root` is dereferenced before it is tested.
unfoldable pub alloc_from : Pmm → List MemChunk → (cnt align : ℕ) → Alloc
unfolding chunk_alloc
alloc_from p [] cnt align = exhausted
alloc_from p (c ∷ cs) cnt align = elim (chunk_alloc p c cnt align) [
  | allocated base p' ↦ allocated base p'
  | exhausted ↦ alloc_from p cs cnt align
  | null_root ↦ null_root
  | loops ↦ loops
]

unfoldable pub alloc : Pmm → (cnt align : ℕ) → Alloc
unfolding alloc_from
alloc p cnt align = elim p.chunks [ [] ↦ null_root | c ∷ cs ↦ alloc_from p (c ∷ cs) cnt align ]

-- `memset64` of `cnt` pages. A pointer that passes the last address is undefined in the source; here
-- it goes on behind 2^64.
zero_pages : Pmm → (allocation cnt : ℕ) → Pmm
zero_pages p allocation cnt = record p {
  memory = memset 8 p.memory (u64 (allocation + high_vma)) 0 (u64 (cnt * page_size) / 8);
}

-- `pmm::calloc` clears what `alloc` returned, also where that is -1.
unfoldable pub calloc : Pmm → (cnt align : ℕ) → Alloc
unfolding alloc zero_pages
calloc p cnt align = elim (alloc p cnt align) [
  | allocated base p' ↦ allocated base (zero_pages p' base cnt)
  | exhausted ↦ allocated minus_one (zero_pages p minus_one cnt)
  | null_root ↦ null_root
  | loops ↦ loops
]

-- The test of `pmm::free`: the pages lie in the chunk.
unfoldable pub holds : MemChunk → (base cnt : ℕ) → Bool
holds c base cnt =
    leb c.base base && leb (u64 (base + cnt * page_size)) (u64 (c.base + c.page_cnt * page_size))

unfoldable pub free_from : Pmm → List MemChunk → (base cnt : ℕ) → Pmm
unfolding holds chunk_free
free_from p [] base cnt = p
free_from p (c ∷ cs) base cnt =
    if holds c base cnt then chunk_free p c (base - c.base) cnt else free_from p cs base cnt

-- `pmm::free`; `none` is a read through a null `root`.
unfoldable pub free : Pmm → (base cnt : ℕ) → Option Pmm
unfolding free_from
free p base cnt = elim p.chunks [ [] ↦ none | c ∷ cs ↦ some (free_from p (c ∷ cs) base cnt) ]
