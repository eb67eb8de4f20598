-- ===== src/Vmm/Walk.antt =====
-- `virtual_address` with one address: the walk that finds the entries of a mapping, and `unmap`
-- (kernel/mm/vmm.cpp). The five-level walk is the four-level one below the entry of its top table.
use crep_os.Base.{ℕ, ◌/◌, ◌%◌, ◌^◌, Bool, false, not, ◌||◌, Option, none, some, if◌then◌else◌, ◌==◌}
use crep_os.Vmm.{
  Level, pml5e, pml4e, pml3e, pml2e, pml1e, is_present, is_huge, set_present, get_base,
}
use crep_os.Vmm.Tables.{Paging, write_entry, next_table}

-- `compute_indices`.
abbrev pub pml5_idx : ℕ → ℕ
pml5_idx vaddr = vaddr / 2 ^ 48 % 0x200

abbrev pub pml4_idx : ℕ → ℕ
pml4_idx vaddr = vaddr / 2 ^ 39 % 0x200

abbrev pub pml3_idx : ℕ → ℕ
pml3_idx vaddr = vaddr / 2 ^ 30 % 0x200

abbrev pub pml2_idx : ℕ → ℕ
pml2_idx vaddr = vaddr / 2 ^ 21 % 0x200

abbrev pub pml1_idx : ℕ → ℕ
pml1_idx vaddr = vaddr / 2 ^ 12 % 0x200

-- A pointer to an entry.
abbrev pub Cell : Type 0
Cell = ℕ × ℕ

-- The members `_pml5e` to `_pml1e`; `none` is null.
pub record Entries : Type 0 where
  pub pml5 : Option Cell
  pub pml4 : Option Cell
  pub pml3 : Option Cell
  pub pml2 : Option Cell
  pub pml1 : Option Cell

abbrev pub no_entries : Entries
no_entries = record { pml5 = none; pml4 = none; pml3 = none; pml2 = none; pml1 = none }

unfoldable pub walk1 : Paging → (raw vaddr : ℕ) → Entries → Entries
walk1 s raw vaddr es =
    if s.entry raw (pml1_idx vaddr) == 0
    then es
    else record es { pml1 = some (raw, pml1_idx vaddr) }

unfoldable pub walk2 : Paging → (raw vaddr : ℕ) → Entries → Entries
unfolding walk1
walk2 s raw vaddr es =
    let e = s.entry raw (pml2_idx vaddr) in
    if e == 0
    then es
    else (let es' = record es { pml2 = some (raw, pml2_idx vaddr) } in
        if not (is_present pml2e e) || is_huge pml2e e
        then es'
        else walk1 s (next_table s raw (pml2_idx vaddr)) vaddr es')

unfoldable pub walk3 : Paging → (raw vaddr : ℕ) → Entries → Entries
unfolding walk2
walk3 s raw vaddr es =
    let e = s.entry raw (pml3_idx vaddr) in
    if e == 0
    then es
    else (let es' = record es { pml3 = some (raw, pml3_idx vaddr) } in
        if not (is_present pml3e e) || is_huge pml3e e
        then es'
        else walk2 s (next_table s raw (pml3_idx vaddr)) vaddr es')

unfoldable pub walk4 : Paging → (raw vaddr : ℕ) → Entries → Entries
unfolding walk3
walk4 s raw vaddr es =
    let e = s.entry raw (pml4_idx vaddr) in
    if e == 0
    then es
    else (let es' = record es { pml4 = some (raw, pml4_idx vaddr) } in
        if not (is_present pml4e e)
        then es'
        else walk3 s (next_table s raw (pml4_idx vaddr)) vaddr es')

-- `pml4_table::virtual_address(pml4_raw, vaddr)`
unfoldable pub lookup4 : Paging → (raw vaddr : ℕ) → Entries
unfolding walk4
lookup4 s raw vaddr = walk4 s raw vaddr no_entries

-- `pml5_table::virtual_address(pml5_raw, vaddr)`
unfoldable pub lookup5 : Paging → (raw vaddr : ℕ) → Entries
unfolding walk4
lookup5 s raw vaddr =
    let e = s.entry raw (pml5_idx vaddr) in
    if e == 0
    then no_entries
    else (let es' = record no_entries { pml5 = some (raw, pml5_idx vaddr) } in
        if not (is_present pml5e e)
        then es'
        else walk4 s (next_table s raw (pml5_idx vaddr)) vaddr es')

-- Clears the present bit of a cell and gives its base.
abbrev clear_present : Paging → Level → Cell → ℕ × Paging
clear_present s l (t, i) =
    (get_base (s.entry t i), write_entry s t i (set_present l (s.entry t i) false))

abbrev huge_at : Paging → Level → Cell → Bool
huge_at s l (t, i) = is_huge l (s.entry t i)

-- `unmap`, the same text at four and at five levels; `none` is a call on a null entry.
unfoldable pub unmap : Paging → Entries → Option (ℕ × Paging)
unmap s es = elim es.pml3 [
  | none ↦ none
  | some c3 ↦ if huge_at s pml3e c3 then some (clear_present s pml3e c3) else elim es.pml2 [
    | none ↦ none
    | some c2 ↦
        if huge_at s pml2e c2
        then some (clear_present s pml2e c2)
        else elim es.pml1 [ none ↦ none | some c1 ↦ some (clear_present s pml1e c1) ]
  ]
]
