-- ===== src/Tests/Vmm.antt =====
-- Small runs of the page tables. An empty address space whose allocator will give three frames.
use crep_os.Base.{ℕ, ◌+◌, ◌-◌, ◌^◌, bit_and, bit_or, ◌≡◌, refl, some, List, [], ◌∷◌, arith}
use crep_os.Word.{minus_one}
use crep_os.Pmm.{high_vma}
use crep_os.Vmm.Tables.{Paging, write_entry, zero_tables}
use crep_os.Vmm.Walk.{lookup4, unmap, pml4_idx, pml3_idx, pml2_idx, pml1_idx}
use crep_os.Vmm.Map.{page, pml4_map}
use crep_os.Vmm.Opens.{fresh}
use crep_os.Vmm.Roundtrip.{Path4, with_page, found_entries, map-lookup-unmap}

abbrev vaddr : ℕ
vaddr = 0x4040_3000

abbrev start : Paging
start = record { entry = λ t i. 0; frames = 0x2000 ∷ 0x3000 ∷ 0x4000 ∷ [] }

abbrev root : ℕ
root = 0xffff_8000_0000_1000

abbrev opened : Paging → (raw i f : ℕ) → List ℕ → Paging
opened s raw i f rest =
    write_entry (zero_tables (record s { frames = rest }) (f + high_vma) 1) raw i (bit_or f 0x3)

abbrev one : Paging
one = opened start root (pml4_idx vaddr) 0x2000 (0x3000 ∷ 0x4000 ∷ [])

abbrev two : Paging
two = opened one (0x2000 + high_vma) (pml3_idx vaddr) 0x3000 (0x4000 ∷ [])

abbrev three : Paging
three = opened two (0x3000 + high_vma) (pml2_idx vaddr) 0x4000 []

path : Path4 start root (0x2000 + high_vma) (0x3000 + high_vma) (0x4000 + high_vma) vaddr
unfolding write_entry zero_tables
path = record {
  s1 = one;
  s2 = two;
  s3 = three;
  opens3 = fresh 0x2000 (0x3000 ∷ 0x4000 ∷ []) refl refl refl (omega arith) refl refl;
  opens2 = fresh 0x3000 (0x4000 ∷ []) refl refl refl (omega arith) refl refl;
  opens1 = fresh 0x4000 [] refl refl refl (omega arith) refl refl;
  unmapped = refl;
  root = omega arith;
  apart3 = refl;
  apart2 = (refl, refl);
  apart1 = (refl, refl, refl);
}

map-lookup-unmap_example :
    let s : Paging = with_page vaddr 0x9000 0x7 path in
    (pml4_map start root vaddr 0x9000 0x3 0x3 0x3 0x7 minus_one ≡ page 0x1000 s)
    × (lookup4 s root vaddr ≡ found_entries vaddr 0x9000 0x7 path)
    × (unmap s (lookup4 s root vaddr)
        ≡ some (
          0x9000,
          write_entry s
              (0x4000 + high_vma)
              (pml1_idx vaddr)
              (bit_and (bit_or 0x9000 0x7) (2 ^ 64 - 1 - 2 ^ 0)),
        ))
map-lookup-unmap_example =
    map-lookup-unmap vaddr 0x9000 0x7 path (omega arith) (omega arith) refl (omega arith)
