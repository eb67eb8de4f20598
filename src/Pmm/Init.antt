-- ===== src/Pmm/Init.antt =====
-- `pmm::init`: the bootloader's memory map (kernel/lib/stivale.hpp) becomes the chain of chunks.
-- The constructor of a chunk leaves its `next` unset, and the chain takes over what is there: these
-- words are an argument, by the number of the chunk. `last` is never read.
pub mod Fresh
use crep_os.Base.{
  ℕ, zero, suc, ◌+◌, ◌-◌, ◌*◌, ◌/◌, ◌%◌, ◌^◌, ◌≤◌, ◌<◌, ◌≡◌, refl, ◌∙◌, Bool, true, false, not,
  ◌&&◌, Option, none, some, List, [], ◌∷◌, ◌++◌, Bool-cases, inl, inr, if◌then◌else◌, ◌==◌, ltb,
  leb, length, arith,
}
use crep_os.Word.{u64, sub64}
use crep_os.Memory.{Memory, memset, bm_test}
use crep_os.Memory.Blocks.{within, memset8_lem}
use crep_os.Memutils.{div_roundup, align_up}
use crep_os.Memutils.Rounding.{align_up_lem}
use crep_os.Pmm.{MemChunk, Pmm, page_size, high_vma}

pub record MmapEntry : Type 0 where
  pub addr : ℕ
  pub len : ℕ
  pub type : ℕ

abbrev pub sizeof_mem_chunk : ℕ
sizeof_mem_chunk = 56

-- The room that the chunks and their bitmaps are reckoned to take.
unfoldable pub max_size : List MmapEntry → ℕ
max_size [] = 0
max_size (e ∷ es) =
    u64 ((if e.type == 1 then sizeof_mem_chunk + e.len / page_size / 8 else 0) + max_size es)

unfoldable pub total_len : List MmapEntry → ℕ
total_len [] = 0
total_len (e ∷ es) = u64 (e.len + total_len es)

-- The first usable region that holds `size` bytes gives them up. The second loop of `init` goes on
-- from that region: those before it are left out.
unfoldable pub reserve : (size : ℕ) → List MmapEntry → Option (ℕ × List MmapEntry)
reserve size [] = none
reserve size (e ∷ es) =
    if e.type == 1 && leb size e.len
    then some
        (u64 (e.addr + high_vma), record e { addr = u64 (e.addr + size); len = e.len - size } ∷ es)
    else reserve size es

-- `chunk_alloc` is the bump allocator of the metadata.
unfoldable pub bump : Pmm → ℕ → Pmm
bump p cnt = record p { buffer = p.buffer + cnt }

-- The constructor of `mem_chunk`: the bitmap is taken from the buffer and cleared.
unfoldable pub new_chunk : Pmm → (base page_cnt : ℕ) → MemChunk × Pmm
unfolding bump
new_chunk p base page_cnt =
    let bitmap_size = div_roundup page_cnt 8 in
    (
      record { base = base; page_cnt = page_cnt; bitmap_size = bitmap_size; bitmap = p.buffer },
      record (bump p bitmap_size) { memory = memset 1 p.memory p.buffer 0 bitmap_size },
    )

-- The root's node is allocated before its bitmap, that of a later chunk after it (`append_chunk`).
unfoldable pub append_to : Pmm → List MemChunk → (base page_cnt : ℕ) → Pmm
unfolding new_chunk
append_to p [] base page_cnt =
    let (c, q) = new_chunk (bump p sizeof_mem_chunk) base page_cnt in record q { chunks = c ∷ [] }
append_to p (d ∷ ds) base page_cnt =
    let (c, q) = new_chunk p base page_cnt in
    record (bump q sizeof_mem_chunk) { chunks = (d ∷ ds) ++ c ∷ [] }

-- The word in `next` of the chunk that was put at the end. The chain is that of the chunks only where
-- it is null; `none` is a chain that goes on to where it points.
unfoldable pub ends : (next : ℕ) → Pmm → Option Pmm
ends next p = if next == 0 then some p else none

unfoldable pub append_chunk : (next : ℕ) → Pmm → (base page_cnt : ℕ) → Option Pmm
unfolding append_to ends
append_chunk next p base page_cnt = ends next (append_to p p.chunks base page_cnt)

unfoldable pub add_region : (next : ℕ) → Pmm → MmapEntry → Option Pmm
unfolding append_chunk
add_region next p e =
    if e.type == 1 && not (e.len == 0)
    then append_chunk next p (align_up e.addr page_size)
        (sub64 e.len (sub64 (align_up e.addr page_size) e.addr) / page_size)
    else some p

unfoldable pub add_regions : (unset : ℕ → ℕ) → Pmm → List MmapEntry → Option Pmm
unfolding add_region
add_regions unset p [] = some p
add_regions unset p (e ∷ es) = elim (add_region (unset (length p.chunks)) p e) [
  | none ↦ none
  | some q ↦ add_regions unset q es
]

-- `init` on the state that the static initialisers leave.
unfoldable pub init : (unset : ℕ → ℕ) → Memory → List MmapEntry → Option Pmm
unfolding add_regions max_size total_len reserve
init unset m mmap =
    let empty : Pmm = record {
      memory = m;
      chunks = [];
      buffer = 0;
      total_mem = total_len mmap;
      total_used_mem = 0;
    } in
    elim (reserve (max_size mmap) mmap) [
      | none ↦ some empty
      | some (buffer, regions) ↦ add_regions unset (record empty { buffer = buffer }) regions
    ]
