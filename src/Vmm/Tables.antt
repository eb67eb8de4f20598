-- ===== src/Vmm/Tables.antt =====
-- The page tables in memory: `entry table i` is the word `i` of the page table at the virtual address
-- `table`. `frames` is what `pmm::alloc` will return, in order; an empty list is -1.
use crep_os.Base.{ℕ, ◌+◌, ◌*◌, List, [], ◌∷◌, ◌&&◌, if◌then◌else◌, ◌==◌, ltb, leb}
use crep_os.Word.{u64, minus_one}
use crep_os.Pmm.{page_size, high_vma}
use crep_os.Vmm.{get_base}

pub record Paging : Type 0 where
  pub entry : ℕ → ℕ → ℕ
  pub frames : List ℕ

unfoldable pub write_entry : Paging → (table i value : ℕ) → Paging
write_entry s table i value = record s {
  entry = λ t j. if t == table && j == i then value else s.entry t j;
}

unfoldable pub alloc_frame : Paging → ℕ × Paging
alloc_frame s = elim s.frames [ [] ↦ (minus_one, s) | f ∷ fs ↦ (f, record s { frames = fs }) ]

-- `pmm::calloc(cnt)` as far as page tables can see it: the tables of the new pages read 0.
unfoldable pub zero_tables : Paging → (at cnt : ℕ) → Paging
zero_tables s at cnt = record s {
  entry = λ t j. if leb at t && ltb t (at + cnt * page_size) then 0 else s.entry t j;
}

unfoldable pub calloc_frames : Paging → (cnt : ℕ) → ℕ × Paging
unfolding alloc_frame zero_tables
calloc_frames s cnt = let (f, s') = alloc_frame s in (f, zero_tables s' (u64 (f + high_vma)) cnt)

-- `(raw[idx] & ~(0xfff)) + high_vma`, the table that an entry points to.
unfoldable pub next_table : Paging → (table i : ℕ) → ℕ
unfolding get_base
next_table s table i = u64 (get_base (s.entry table i) + high_vma)
