-- ===== src/Vmm/Roundtrip.antt =====
-- `virtual_address::map`, the walk and `unmap` one after the other (kernel/mm/vmm.cpp).
use crep_os.Base.{
  ℕ, ◌-◌, ◌%◌, ◌^◌, ◌<◌, bit_and, bit_or, ◌≡◌, ◌≢◌, ap, ◌∙◌, false, ◌==◌, arith, some, none,
}
use crep_os.Word.{minus_one}
use crep_os.Memory.Blocks.{within}
use crep_os.Pmm.{page_size}
use crep_os.Vmm.{set_bit}
use crep_os.Vmm.Entries.{join, get_base_join}
use crep_os.Vmm.Tables.{Paging, write_entry}
use crep_os.Vmm.Walk.{
  Entries, lookup4, unmap, pml4_idx, pml3_idx, pml2_idx, pml1_idx, walk1, walk2, walk3, walk4,
  no_entries,
}
use crep_os.Vmm.Map.{page, pml4_map}
use crep_os.Vmm.Opens.{
  Opens, Leads, entry-write_entry, Opens-Leads, Opens-entry, map1_lem, map2-map1, map3-map2,
  map4-map3, Leads-keep,
}

module _ {s : Paging} {raw t : ℕ} (vaddr : ℕ) (es : Entries) where
  walk2-walk1 :
      Leads s raw (pml2_idx vaddr) t
      → walk2 s raw vaddr es ≡ walk1 s t vaddr (record es { pml2 = some (raw, pml2_idx vaddr) })
  unfolding walk2
  walk2-walk1 l = rw (l.nonzero, l.present, l.table, l.next)

  walk3-walk2 :
      Leads s raw (pml3_idx vaddr) t
      → walk3 s raw vaddr es ≡ walk2 s t vaddr (record es { pml3 = some (raw, pml3_idx vaddr) })
  unfolding walk3
  walk3-walk2 l = rw (l.nonzero, l.present, l.table, l.next)

  walk4-walk3 :
      Leads s raw (pml4_idx vaddr) t
      → walk4 s raw vaddr es ≡ walk3 s t vaddr (record es { pml4 = some (raw, pml4_idx vaddr) })
  unfolding walk4
  walk4-walk3 l = rw (l.nonzero, l.present, l.next)

-- `u` lies outside the page of table `t`.
abbrev pub Apart : ℕ → ℕ → Type 0
Apart t u = within t page_size u ≡ false

-- A four-level path for `vaddr`, its missing tables opened, in pages apart, and no page mapped yet.
pub record Path4 (s : Paging) (raw t3 t2 t1 vaddr : ℕ) : Type 0 where
  pub s1 : Paging
  pub s2 : Paging
  pub s3 : Paging
  pub opens3 : Opens s raw (pml4_idx vaddr) t3 s1
  pub opens2 : Opens s1 t3 (pml3_idx vaddr) t2 s2
  pub opens1 : Opens s2 t2 (pml2_idx vaddr) t1 s3
  pub unmapped : s3.entry t1 (pml1_idx vaddr) ≡ 0
  pub root : raw ≢ 0
  pub apart3 : Apart t3 raw
  pub apart2 : Apart t2 raw × Apart t2 t3
  pub apart1 : Apart t1 raw × Apart t1 t3 × Apart t1 t2

module _ {s : Paging} {raw t3 t2 t1 : ℕ} (vaddr paddr flags : ℕ)
    (p : Path4 s raw t3 t2 t1 vaddr) where
  -- The tables with the page in place.
  abbrev pub with_page : Paging
  with_page = write_entry p.s3 t1 (pml1_idx vaddr) (bit_or paddr flags)

  pml4_map_lem :
      flags ≢ 0 → pml4_map s raw vaddr paddr 0x3 0x3 0x3 flags minus_one ≡ page 0x1000 with_page
  unfolding pml4_map
  pml4_map_lem ne =
      let root = p.root in
      let some_root : (raw == 0) ≡ false = ground arith in
      rw some_root (
        map4-map3 vaddr paddr flags p.opens3
        ∙ map3-map2 vaddr paddr flags p.opens2
        ∙ map2-map1 vaddr paddr flags p.opens1
        ∙ map1_lem p.s3 t1 vaddr paddr flags p.unmapped ne)

  entry-with_page : (u j : ℕ) → Apart t1 u → with_page.entry u j ≡ p.s3.entry u j
  unfolding write_entry
  entry-with_page u j apart = ground arith

  not_table : (t u : ℕ) → Apart t u → (u == t) ≡ false
  not_table t u h = ground arith

  leads3 : Leads with_page raw (pml4_idx vaddr) t3
  leads3 = Leads-keep with_page (Opens-Leads p.opens3) (
      entry-with_page raw (pml4_idx vaddr) p.apart1.0
      ∙ Opens-entry raw (pml4_idx vaddr) p.opens1 (not_table t2 raw p.apart2.0) p.apart1.0
      ∙ Opens-entry raw (pml4_idx vaddr) p.opens2 (not_table t3 raw p.apart3) p.apart2.0)

  leads2 : Leads with_page t3 (pml3_idx vaddr) t2
  leads2 = Leads-keep with_page (Opens-Leads p.opens2) (
      entry-with_page t3 (pml3_idx vaddr) p.apart1.1
      ∙ Opens-entry t3 (pml3_idx vaddr) p.opens1 (not_table t2 t3 p.apart2.1) p.apart1.1)

  leads1 : Leads with_page t2 (pml2_idx vaddr) t1
  leads1 =
      Leads-keep with_page (Opens-Leads p.opens1) (entry-with_page t2 (pml2_idx vaddr) p.apart1.2)

  -- What the walk must find.
  abbrev pub found_entries : Entries
  found_entries = record {
    pml5 = none;
    pml4 = some (raw, pml4_idx vaddr);
    pml3 = some (t3, pml3_idx vaddr);
    pml2 = some (t2, pml2_idx vaddr);
    pml1 = some (t1, pml1_idx vaddr);
  }

  module _ (ne : flags ≢ 0) (low : flags < 2 ^ 12) (aligned : paddr % 2 ^ 12 ≡ 0)
      (small : paddr < 2 ^ 64) where
    leaf : with_page.entry t1 (pml1_idx vaddr) ≡ bit_or paddr flags
    leaf = entry-write_entry p.s3 t1 (pml1_idx vaddr) (bit_or paddr flags)

    leaf_nonzero : (with_page.entry t1 (pml1_idx vaddr) == 0) ≡ false
    leaf_nonzero = rw (leaf, join paddr flags aligned low) (ground arith)

    lookup4_lem : lookup4 with_page raw vaddr ≡ found_entries
    unfolding lookup4 walk1
    lookup4_lem =
        walk4-walk3 vaddr no_entries leads3
        ∙ walk3-walk2 vaddr _ leads2
        ∙ walk2-walk1 vaddr _ leads1
        ∙ rw leaf_nonzero

    unmap_lem :
        unmap with_page found_entries
        ≡ some (
          paddr,
          write_entry with_page t1
              (pml1_idx vaddr)
              (bit_and (bit_or paddr flags) (2 ^ 64 - 1 - 2 ^ 0)),
        )
    unfolding unmap set_bit
    unmap_lem = rw (leads2.table, leads1.table, leaf, get_base_join paddr flags aligned low small)

    -- Take a page-aligned physical address below 2^64, nonzero flags below 2^12 and a path `p`
    -- of tables that do not overlap, each present and not a large page, or missing and made
    -- from the next free frame (a page below 2^47), whose last entry is 0; then `map` with 0x3
    -- for the tables and no cache index maps a page of 4 KiB there, the lookup of the address
    -- finds the four entries of the path, and `unmap` of what it found returns the physical
    -- address and clears bit 0 of the last entry, which holds the address and the flags.
    pub map-lookup-unmap :
        (pml4_map s raw vaddr paddr 0x3 0x3 0x3 flags minus_one ≡ page 0x1000 with_page)
        × (lookup4 with_page raw vaddr ≡ found_entries)
        × (unmap with_page (lookup4 with_page raw vaddr)
            ≡ some (
              paddr,
              write_entry with_page t1
                  (pml1_idx vaddr)
                  (bit_and (bit_or paddr flags) (2 ^ 64 - 1 - 2 ^ 0)),
            ))
    map-lookup-unmap = (pml4_map_lem ne, lookup4_lem, ap (unmap with_page) lookup4_lem ∙ unmap_lem)
