-- ===== src/Mmap.antt =====
-- Memory mappings (kernel/mm/mmap.cpp): a page table carries a bitmap of the pages above
-- `mmap_min_addr` that are in use.
pub mod Search
pub mod Unending
use crep_os.Base.{
  ℕ, zero, suc, ◌+◌, ◌-◌, ◌*◌, ◌/◌, Bool, true, false, ◌&&◌, not, Option, none, some, if◌then◌else◌,
  ◌==◌, ltb, leb,
}
use crep_os.Word.{u64, sub64}
use crep_os.Memory.{Memory, bm_test, bm_alloc_region, bm_free_region}
use crep_os.Memutils.{div_roundup}
use crep_os.Pmm.{page_size}
use crep_os.Vmm.{has}
use crep_os.Vmm.Tables.{Paging}
use crep_os.Vmm.Walk.{Entries}
use crep_os.Vmm.Map.{pml4_map_range, unmap_range}

abbrev pub map_fixed : ℕ
map_fixed = 0x4

abbrev pub map_anonymous : ℕ
map_anonymous = 0x8

abbrev pub mmap_min_addr : ℕ
mmap_min_addr = 0x10000

-- What the mappings need of the heap: `kmm::calloc` and `kmm::recalloc`.
pub record Heap : Type 0 where
  pub heap_calloc : Memory → (cnt : ℕ) → ℕ × Memory
  pub heap_recalloc : Memory → (addr cnt : ℕ) → ℕ × Memory

-- The part of a `pmlx_table` that mappings use, with the memory and the tables. A `bitmap` of 0 is
-- NULL.
pub record Space : Type 0 where
  pub memory : Memory
  pub bitmap : ℕ
  pub bm_size : ℕ
  pub paging : Paging
  pub highest_raw : ℕ

unfoldable pub bm_index : ℕ → ℕ
bm_index address = sub64 address mmap_min_addr / page_size

-- The search of `mmap_alloc`, from bit `i` on: the offset it settles on.
unfoldable pub search_pages : Memory → (bitmap page_cnt rounds i offset cnt : ℕ) → Option ℕ
search_pages m bitmap page_cnt zero i offset cnt = none
search_pages m bitmap page_cnt (suc rounds) i offset cnt =
    let used = bm_test m bitmap i in
    let offset' = if used then offset + (cnt + 1) else offset in
    let cnt' = if used then 0 else cnt in
    let rest = search_pages m bitmap page_cnt rounds (i + 1) offset' (cnt' + 1) in
    if cnt' + 1 == page_cnt then some offset' else rest

module _ (heap : Heap) where
  -- The first bitmap of a page table.
  unfoldable pub with_bitmap : Space → Space
  with_bitmap s =
      let (p, m) = heap.heap_calloc s.memory 0x1000 in
      if s.bitmap == 0 then record s { memory = m; bitmap = p; bm_size = 0x1000 } else s

  unfoldable pub grow : Space → Space
  grow s =
      let size = u64 (s.bm_size + 0x1000) in
      let (p, m) = heap.heap_recalloc s.memory s.bitmap size in
      record s { memory = m; bitmap = p; bm_size = size }

  -- Marks the pages from `addr` on.
  unfoldable pub mark : Space → (addr page_cnt : ℕ) → Space
  unfolding bm_index
  mark s addr page_cnt = record s {
    memory = bm_alloc_region s.memory s.bitmap (bm_index addr) page_cnt;
  }

  -- What follows the search: the pages are marked, or the search is `again`.
  unfoldable pub placed :
      Space → (page_cnt : ℕ) → Option (ℕ × Space) → Option ℕ → Option (ℕ × Space)
  unfolding mark
  placed t page_cnt again none = again
  placed t page_cnt again (some offset) =
      let found = u64 (offset * page_size + mmap_min_addr) in some (found, mark t found page_cnt)

  -- `mmap_alloc` calls itself over a larger bitmap; `none` is a call that has not returned within
  -- the fuel.
  unfoldable pub mmap_alloc : (fuel : ℕ) → Space → (addr length flags : ℕ) → Option (ℕ × Space)
  unfolding with_bitmap grow mark placed search_pages
  mmap_alloc zero s addr length flags = none
  mmap_alloc (suc fuel) s addr length flags =
      let page_cnt = div_roundup length page_size in
      let t = with_bitmap s in
      let again = mmap_alloc fuel (grow t) addr length flags in
      if has flags map_fixed
      then some (addr, mark t addr page_cnt)
      else placed t page_cnt again (search_pages t.memory t.bitmap page_cnt t.bm_size 0 0 0)

  all_free : Memory → (bitmap i rounds : ℕ) → Bool
  all_free m bitmap i zero = true
  all_free m bitmap i (suc rounds) =
      let rest = all_free m bitmap (i + 1) rounds in if bm_test m bitmap i then false else rest

  -- `check_mmap_addr`: whether the pages from `addr` on are free, and the page table with a bitmap.
  unfoldable pub check_mmap_addr : Space → (addr length flags : ℕ) → Bool × Space
  unfolding with_bitmap bm_index all_free
  check_mmap_addr s addr length flags =
      if addr == 0
      then (false, s)
      else if flags == map_fixed
      then (true, s)
      else (let t = with_bitmap s in
          (all_free t.memory t.bitmap (bm_index addr) (div_roundup length page_size), t))

  unfoldable pub map_pages : Space → (addr page_cnt prot : ℕ) → Space
  map_pages s addr page_cnt prot = record s {
    paging = pml4_map_range s.paging s.highest_raw addr page_cnt prot prot;
  }

  -- The anonymous half of `mmap`.
  unfoldable pub mmap_anonymous :
      (fuel : ℕ) → Space → (addr length prot flags : ℕ) → Option (ℕ × Space)
  unfolding mmap_alloc check_mmap_addr map_pages
  mmap_anonymous fuel s addr length prot flags =
      let page_cnt = div_roundup length page_size in
      let (free, t) = check_mmap_addr s addr length flags in
      if free
      then some (addr, map_pages t addr page_cnt prot)
      else elim (mmap_alloc fuel t addr length flags) [
        | none ↦ none
        | some (a, u) ↦ some (a, map_pages u a page_cnt prot)
      ]

  -- `mmap` over a table of four levels; `read_file` is the read from the descriptor, or its removal.
  unfoldable pub mmap :
      (read_file : Space → ℕ → ℕ → Space)
      → (fuel : ℕ) → Space
      → (addr length prot flags : ℕ) → Option (ℕ × Space)
  unfolding mmap_anonymous mmap_alloc map_pages
  mmap read_file fuel s addr length prot flags =
      elim (if flags == map_anonymous
        then mmap_anonymous fuel s addr length prot flags
        else some (addr, s)) [
          | none ↦ none
          | some (a, t) ↦
              if has flags map_fixed
              then (elim (mmap_alloc fuel (map_pages t a (div_roundup length page_size) prot) a
                  length flags) [
                    | none ↦ none
                    | some (b, u) ↦
                        some (a, if has flags map_anonymous then u else read_file u a length)
                  ])
              else some (a, t)
        ]

-- `munmap`, with the walk of the table and the `page_length` that `unmap_range` meets; `none` is a
-- call on a null entry, and the Boolean tells the return value 0 from -1.
unfoldable pub munmap :
    (Paging → ℕ → ℕ → Entries)
    → (page_length : ℕ) → Space
    → (addr length : ℕ) → Option (Bool × Space)
unfolding bm_index
munmap lookup page_length s addr length =
    let index = bm_index addr in
    let page_cnt = div_roundup length page_size in
    let cnt = if ltb s.bm_size (u64 (index + page_cnt)) then s.bm_size - index else page_cnt in
    if leb s.bm_size index
    then some (false, s)
    else elim (unmap_range lookup s.paging s.highest_raw addr page_length cnt) [
      | none ↦ none
      | some p ↦
          some (true, record s { memory = bm_free_region s.memory s.bitmap index cnt; paging = p })
    ]
