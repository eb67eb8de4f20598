-- ===== src/Vmm/Opens.antt =====
-- The entry that leads from a table to the next one, made or found (kernel/mm/vmm.cpp).
use crep_os.Base.{
  ℕ, ◌+◌, ◌%◌, ◌^◌, ◌<◌, bit_or, ◌≡◌, ◌≢◌, ap, ◌∙◌, true, false, ◌==◌, arith, some, List, ◌∷◌,
}
use crep_os.Word.{u64, minus_one}
use crep_os.Memory.Bits.{bit}
use crep_os.Memory.Blocks.{within}
use crep_os.Pmm.{page_size, high_vma}
use crep_os.Vmm.{has}
use crep_os.Vmm.Entries.{join, get_base_join, has-bit}
use crep_os.Vmm.Tables.{Paging, write_entry, alloc_frame, zero_tables, calloc_frames, next_table}
use crep_os.Vmm.Walk.{pml4_idx, pml3_idx, pml2_idx, pml1_idx}
use crep_os.Vmm.Map.{page, ensure_table, ensure_page, map1, map2, map3, map4, finish}

-- How `map` gets from a table to the next one down, `t`, leaving the tables `s1`: the entry is there and
-- points to `t`, or it is absent and the allocator gives the frame behind `t`.
pub data Opens (s : Paging) (raw i t : ℕ) (s1 : Paging) : Type 0 where
  present :
      s.entry raw i ≢ 0
      → has (s.entry raw i) (2 ^ 0) ≡ true
      → has (s.entry raw i) (2 ^ 7) ≡ false
      → next_table s raw i ≡ t
      → s1 ≡ s
      → Opens s raw i t s1
  fresh :
      (f : ℕ) (rest : List ℕ)
      → s.entry raw i ≡ 0
      → s.frames ≡ f ∷ rest
      → f % 2 ^ 12 ≡ 0
      → f < 2 ^ 47
      → t ≡ f + high_vma
      → s1 ≡ write_entry (zero_tables (record s { frames = rest }) t 1) raw i (bit_or f 0x3)
      → Opens s raw i t s1

-- An entry that leads to table `t`.
pub record Leads (s : Paging) (raw i t : ℕ) : Type 0 where
  pub nonzero : (s.entry raw i == 0) ≡ false
  pub present : has (s.entry raw i) (2 ^ 0) ≡ true
  pub table : has (s.entry raw i) (2 ^ 7) ≡ false
  pub next : next_table s raw i ≡ t

module _ (f : ℕ) (aligned : f % 2 ^ 12 ≡ 0) (small : f < 2 ^ 47) where
  made_nonzero : (bit_or f 0x3 == 0) ≡ false
  made_nonzero = rw (join f 0x3 aligned (omega arith)) (ground arith)

  made_present : has (bit_or f 0x3) (2 ^ 0) ≡ true
  unfolding bit
  made_present = has-bit (bit_or f 0x3) 0 ∙ rw (join f 0x3 aligned (omega arith)) (ground arith)

  made_table : has (bit_or f 0x3) (2 ^ 7) ≡ false
  unfolding bit
  made_table = has-bit (bit_or f 0x3) 7 ∙ rw (join f 0x3 aligned (omega arith)) (ground arith)

pub entry-write_entry : (s : Paging) (t i v : ℕ) → (write_entry s t i v).entry t i ≡ v
unfolding write_entry
entry-write_entry s t i v = ground arith

pub Opens-Leads : {s s1 : Paging} {raw i t : ℕ} → Opens s raw i t s1 → Leads s1 raw i t
unfolding next_table write_entry
Opens-Leads (present ne p h n e) =
    rw e (record { nonzero = ground arith; present = p; table = h; next = n })
Opens-Leads (fresh f rest absent frames aligned small t s1) = rw s1 (record {
  nonzero = ground (arith, made_nonzero f aligned small);
  present = ground (arith, made_present f aligned small);
  table = ground (arith, made_table f aligned small);
  next = ground (arith, get_base_join f 0x3 aligned (omega arith) (omega arith));
})

alloc_frame_lem :
    (s : Paging) (f : ℕ) (rest : List ℕ)
    → s.frames ≡ f ∷ rest
    → alloc_frame s ≡ (f, record s { frames = rest })
unfolding alloc_frame
alloc_frame_lem s f rest e = rw e

ensure_fresh :
    (s : Paging) (f t : ℕ) (rest : List ℕ)
    → s.frames ≡ f ∷ rest
    → f < 2 ^ 47
    → t ≡ f + high_vma
    → calloc_frames s 1 ≡ (f, zero_tables (record s { frames = rest }) t 1)
unfolding calloc_frames
ensure_fresh s f t rest e small at =
    let wrap : u64 (f + high_vma) ≡ t = omega arith in
    rw (alloc_frame_lem s f rest e)
      (ap (λ u. (f, zero_tables (record s { frames = rest }) u 1)) wrap)

Opens-ensure_table :
    {s s1 : Paging} {raw i t : ℕ} → Opens s raw i t s1 → ensure_table s raw i 0x3 ≡ some s1
unfolding ensure_table
Opens-ensure_table (present ne p h n e) = ground arith
Opens-ensure_table {s} (fresh f rest absent frames aligned small t s1) =
    rw (absent, s1, ensure_fresh s f _ rest frames small t)

Opens-ensure_page :
    {s s1 : Paging} {raw i t : ℕ} (paddr : ℕ)
    → Opens s raw i t s1
    → ensure_page s raw i 0x3 paddr ≡ some s1
unfolding ensure_page has
Opens-ensure_page paddr (present ne p h n e) = ground arith
Opens-ensure_page {s} paddr (fresh f rest absent frames aligned small t s1) =
    rw (absent, s1, ensure_fresh s f _ rest frames small t)

-- The new tables differ from the old only in `raw` and in the page of `t`.
pub Opens-entry :
    {s s1 : Paging} {raw i t : ℕ} (u j : ℕ)
    → Opens s raw i t s1
    → (u == raw) ≡ false
    → within t page_size u ≡ false
    → s1.entry u j ≡ s.entry u j
unfolding write_entry zero_tables
Opens-entry u j (present ne p h n e) apart out = rw e
Opens-entry u j (fresh f rest absent frames aligned small t s1) apart out = rw s1 (ground arith)

pub map1_lem :
    (s : Paging) (t vaddr paddr flags : ℕ)
    → s.entry t (pml1_idx vaddr) ≡ 0
    → flags ≢ 0
    → map1 s t vaddr paddr flags minus_one
      ≡ page 0x1000 (write_entry s t (pml1_idx vaddr) (bit_or paddr flags))
unfolding map1 finish
map1_lem s t vaddr paddr flags empty ne =
    let some_flags : (flags == 0) ≡ false = ground arith in rw (empty, some_flags)

pub map2-map1 :
    {s s1 : Paging} {raw t : ℕ} (vaddr paddr flags : ℕ)
    → Opens s raw (pml2_idx vaddr) t s1
    → map2 s raw vaddr paddr 0x3 flags minus_one ≡ map1 s1 t vaddr paddr flags minus_one
unfolding map2
map2-map1 vaddr paddr flags o =
    let l = Opens-Leads o in rw (Opens-ensure_page paddr o, map2, l.table, l.next)

pub map3-map2 :
    {s s1 : Paging} {raw t : ℕ} (vaddr paddr flags : ℕ)
    → Opens s raw (pml3_idx vaddr) t s1
    → map3 s raw vaddr paddr 0x3 0x3 flags minus_one ≡ map2 s1 t vaddr paddr 0x3 flags minus_one
unfolding map3
map3-map2 vaddr paddr flags o =
    let l = Opens-Leads o in rw (Opens-ensure_page paddr o, map3, l.table, l.next)

pub map4-map3 :
    {s s1 : Paging} {raw t : ℕ} (vaddr paddr flags : ℕ)
    → Opens s raw (pml4_idx vaddr) t s1
    → map4 s raw vaddr paddr 0x3 0x3 0x3 flags minus_one
      ≡ map3 s1 t vaddr paddr 0x3 0x3 flags minus_one
unfolding map4
map4-map3 vaddr paddr flags o = let l = Opens-Leads o in rw (Opens-ensure_table o, map4, l.next)

pub Leads-keep :
    {s : Paging} {raw i t : ℕ} (s' : Paging)
    → Leads s raw i t
    → s'.entry raw i ≡ s.entry raw i
    → Leads s' raw i t
unfolding next_table
Leads-keep s' l e = record {
  nonzero = rw e l.nonzero;
  present = rw e l.present;
  table = rw e l.table;
  next = rw e l.next;
}
