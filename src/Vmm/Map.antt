-- ===== src/Vmm/Map.antt =====
-- `virtual_address::map` and the functions of `pml4_table` and `pml5_table` that call it
-- (kernel/mm/vmm.cpp). The table's spin lock makes each one step. `page_length` is a member that only
-- `map` sets, so the tests of `unmap_range` and `unmap_page` read whatever it held: it is an argument.
use crep_os.Base.{ℕ, zero, suc, ◌+◌, ◌^◌, bit_or, Option, none, some, if◌then◌else◌, ◌==◌}
use crep_os.Word.{u64, minus_one}
use crep_os.Pmm.{high_vma}
use crep_os.Vmm.{Level, pml3e, pml2e, pml1e, has, is_huge, set_pa}
use crep_os.Vmm.Tables.{Paging, write_entry, alloc_frame, calloc_frames, next_table}
use crep_os.Vmm.Walk.{Entries, unmap, pml5_idx, pml4_idx, pml3_idx, pml2_idx, pml1_idx}

-- `stopped`: an early return. `page` is the `page_length` that was set.
pub data Mapped : Type 0 where
  stopped : Paging → Mapped
  page : ℕ → Paging → Mapped

-- An absent entry of an upper table gets a fresh table, unless its flags are 0.
unfoldable pub ensure_table : Paging → (raw i flags : ℕ) → Option Paging
ensure_table s raw i flags =
    if s.entry raw i == 0
    then (if flags == 0
        then none
        else (let (f, s') = calloc_frames s 1 in some (write_entry s' raw i (bit_or f flags))))
    else some s

-- At the third and second level flags with bit 7 make the entry a large page.
unfoldable pub ensure_page : Paging → (raw i flags paddr : ℕ) → Option Paging
ensure_page s raw i flags paddr =
    if s.entry raw i == 0
    then (if flags == 0
        then none
        else (if has flags (2 ^ 7)
            then some (write_entry s raw i (bit_or paddr flags))
            else (let (f, s') = calloc_frames s 1 in some (write_entry s' raw i (bit_or f flags)))))
    else some s

-- `page_length = len; if(pa != -1) set_pa(pa)`
unfoldable pub finish : Level → Paging → (raw i pa len : ℕ) → Mapped
finish l s raw i pa len =
    page len (if pa == minus_one then s else write_entry s raw i (set_pa l (s.entry raw i) pa))

unfoldable pub map1 : Paging → (raw vaddr paddr pml1_flags pa : ℕ) → Mapped
unfolding finish
map1 s raw vaddr paddr pml1_flags pa =
    let i = pml1_idx vaddr in
    if s.entry raw i == 0
    then (if pml1_flags == 0
        then stopped s
        else finish pml1e (write_entry s raw i (bit_or paddr pml1_flags)) raw i pa 0x1000)
    else finish pml1e s raw i pa 0x1000

unfoldable pub map2 : Paging → (raw vaddr paddr pml2_flags pml1_flags pa : ℕ) → Mapped
map2 s raw vaddr paddr pml2_flags pml1_flags pa =
    let i = pml2_idx vaddr in
    elim (ensure_page s raw i pml2_flags paddr) [
      | none ↦ stopped s
      | some s' ↦
          if is_huge pml2e (s'.entry raw i)
          then finish pml2e s' raw i pa 0x200000
          else map1 s' (next_table s' raw i) vaddr paddr pml1_flags pa
    ]

unfoldable pub map3 : Paging → (raw vaddr paddr pml3_flags pml2_flags pml1_flags pa : ℕ) → Mapped
map3 s raw vaddr paddr pml3_flags pml2_flags pml1_flags pa =
    let i = pml3_idx vaddr in
    elim (ensure_page s raw i pml3_flags paddr) [
      | none ↦ stopped s
      | some s' ↦
          if is_huge pml3e (s'.entry raw i)
          then finish pml3e s' raw i pa 0x40000000
          else map2 s' (next_table s' raw i) vaddr paddr pml2_flags pml1_flags pa
    ]

unfoldable pub map4 :
    Paging → (raw vaddr paddr pml4_flags pml3_flags pml2_flags pml1_flags pa : ℕ) → Mapped
map4 s raw vaddr paddr pml4_flags pml3_flags pml2_flags pml1_flags pa =
    let i = pml4_idx vaddr in
    elim (ensure_table s raw i pml4_flags) [
      | none ↦ stopped s
      | some s' ↦ map3 s' (next_table s' raw i) vaddr paddr pml3_flags pml2_flags pml1_flags pa
    ]

-- `pml4_table::virtual_address::map`
unfoldable pub pml4_map :
    Paging → (raw vaddr paddr pml4_flags pml3_flags pml2_flags pml1_flags pa : ℕ) → Mapped
pml4_map s raw vaddr paddr pml4_flags pml3_flags pml2_flags pml1_flags pa =
    if raw == 0
    then stopped s
    else map4 s raw vaddr paddr pml4_flags pml3_flags pml2_flags pml1_flags pa

-- `pml5_table::virtual_address::map`. Below its top entry it is the text of the four-level `map`,
-- but for a `+` in place of `|` that joins the same disjoint bits.
unfoldable pub pml5_map :
    Paging
    → (raw vaddr paddr pml5_flags pml4_flags pml3_flags pml2_flags pml1_flags pa : ℕ) → Mapped
pml5_map s raw vaddr paddr pml5_flags pml4_flags pml3_flags pml2_flags pml1_flags pa =
    let i = pml5_idx vaddr in
    if raw == 0 then stopped s else elim (ensure_table s raw i pml5_flags) [
      | none ↦ stopped s
      | some s' ↦
          map4 s' (next_table s' raw i) vaddr paddr pml4_flags pml3_flags pml2_flags pml1_flags pa
    ]

-- The tables after a call of `map`, which is void.
abbrev pub tables : Mapped → Paging
tables (stopped s) = s
tables (page len s) = s

-- `map_page_raw`
unfoldable pub pml4_map_page_raw : Paging → (raw vaddr paddr flags1 flags0 pa : ℕ) → Paging
pml4_map_page_raw s raw vaddr paddr flags1 flags0 pa = tables (
    if has flags0 (2 ^ 7)
    then pml4_map s raw vaddr paddr flags1 flags1 flags0 0 pa
    else pml4_map s raw vaddr paddr flags1 flags1 flags1 flags0 pa)

unfoldable pub pml5_map_page_raw : Paging → (raw vaddr paddr flags1 flags0 pa : ℕ) → Paging
pml5_map_page_raw s raw vaddr paddr flags1 flags0 pa = tables (
    if has flags0 (2 ^ 7)
    then pml5_map s raw vaddr paddr flags1 flags1 flags1 flags0 0 pa
    else pml5_map s raw vaddr paddr flags1 flags1 flags1 flags1 flags0 pa)

-- `map_page`
unfoldable pub pml4_map_page : Paging → (raw vaddr flags pa : ℕ) → Paging
pml4_map_page s raw vaddr flags pa =
    if has flags (2 ^ 7)
    then (let (f, s') = calloc_frames s 0x200 in
        tables (pml4_map s' raw vaddr f 0x3 0x3 flags 0 pa))
    else (let (f, s') = calloc_frames s 1 in tables (pml4_map s' raw vaddr f 0x3 0x3 0x3 flags pa))

unfoldable pub pml5_map_page : Paging → (raw vaddr flags pa : ℕ) → Paging
pml5_map_page s raw vaddr flags pa =
    if has flags (2 ^ 7)
    then (let (f, s') = calloc_frames s 0x200 in
        tables (pml5_map s' raw vaddr f 0x3 0x3 0x3 flags 0 pa))
    else (let (f, s') = calloc_frames s 1 in
        tables (pml5_map s' raw vaddr f 0x3 0x3 0x3 0x3 flags pa))

-- `map_range`: a frame for each page, whether the page was mapped already or not.
unfoldable pub pml4_map_range : Paging → (raw vaddr cnt flags pa : ℕ) → Paging
pml4_map_range s raw vaddr zero flags pa = s
pml4_map_range s raw vaddr (suc cnt) flags pa =
    let (f, s') = alloc_frame s in
    let large = has flags (2 ^ 7) in
    pml4_map_range
      (tables (
        if large
        then pml4_map s' raw vaddr f 0x3 0x3 flags 0 pa
        else pml4_map s' raw vaddr f 0x3 0x3 0x3 flags pa))
      raw (u64 (vaddr + (if large then 0x200000 else 0x1000))) cnt flags pa

-- The five-level version gives the tables above a user page the user bit.
unfoldable pub pml5_map_range : Paging → (raw vaddr cnt flags pa : ℕ) → Paging
pml5_map_range s raw vaddr zero flags pa = s
pml5_map_range s raw vaddr (suc cnt) flags pa =
    let (f, s') = alloc_frame s in
    let large = has flags (2 ^ 7) in
    let t = bit_or 0x3 (if has flags (2 ^ 2) then 2 ^ 2 else 0) in
    pml5_map_range
      (tables (
        if large
        then pml5_map s' raw vaddr f t t t flags 0 pa
        else pml5_map s' raw vaddr f t t t t flags pa))
      raw (u64 (vaddr + (if large then 0x200000 else 0x1000))) cnt flags pa

-- `unmap_page`, over the entries that the walk finds; `none` is a call on a null entry.
unfoldable pub unmap_page : Paging → (page_length : ℕ) → Entries → Option Paging
unmap_page s page_length es =
    if page_length == 0
    then some s
    else elim (unmap s es) [ none ↦ none | some (base, s') ↦ some s' ]

-- `unmap_range`, with the walk of the table's kind; the loop stops at a `page_length` of 0.
unfoldable pub unmap_range :
    (Paging → ℕ → ℕ → Entries) → Paging → (raw vaddr page_length cnt : ℕ) → Option Paging
unmap_range lookup s raw vaddr page_length zero = some s
unmap_range lookup s raw vaddr page_length (suc cnt) =
    if page_length == 0 then some s else elim (unmap s (lookup s raw vaddr)) [
      | none ↦ none
      | some (base, s') ↦ unmap_range lookup s' raw (u64 (vaddr + page_length)) page_length cnt
    ]

-- `create_generic`: a fresh top table that shares the kernel's entries 256 and 511.
unfoldable pub create_generic : Paging → (kernel_raw : ℕ) → ℕ × Paging
create_generic s kernel_raw =
    let (f, s1) = calloc_frames s 1 in
    let raw = u64 (f + high_vma) in
    let s2 = write_entry s1 raw 256 (s1.entry kernel_raw 256) in
    (raw, write_entry s2 raw 511 (s2.entry kernel_raw 511))
