-- ===== src/Ext2/Groups.antt =====
-- What the allocation of a block leaves on the device.
use crep_os.Base.{
  ℕ, ◌+◌, ◌-◌, ◌*◌, ◌/◌, ◌%◌, ◌^◌, ◌<◌, ◌≡◌, ◌≢◌, ◌∙◌, ◌⊎◌, inl, inr, refl, sym, ap, true, false,
  ◌||◌, Option, none, some, if◌then◌else◌, ◌==◌, arith, Bool-cases,
}
use crep_os.Memory.{Memory, bm_test}
use crep_os.Memory.Blocks.{within}
use crep_os.Memory.Bitmap.{FirstFree, bm_first_free_lem, bm_test-bm_set}
use crep_os.Ext2.{Ext2, read_bytes, write_bytes, load, marked, free_bit, take_block, alloc_block}

read_bit : (s : Ext2) (off j : ℕ) → bm_test (read_bytes s off) 0 j ≡ bm_test s.device off j
unfolding bm_test
read_bit s off j =
    let e : off + (0 + j / 8) ≡ off + j / 8 = omega arith in
    ap (λ a. s.device a / 2 ^ (j % 8) % 2 == 1) e

written_bit :
    (s : Ext2) (off cnt j : ℕ) (buf : Memory)
    → j < 8 * cnt
    → bm_test (write_bytes s off cnt buf) off j ≡ bm_test buf 0 j
unfolding bm_test
written_bit s off cnt j buf h =
    let e : within off cnt (off + j / 8) ≡ true = ground arith in
    let f : off + j / 8 - off ≡ 0 + j / 8 = omega arith in rw (e, f) refl

marked_bit :
    (s : Ext2) (block i j : ℕ)
    → j < 8 * s.block_size
    → bm_test (marked s block i).device (block * s.block_size) j
      ≡ ((i == j) || bm_test s.device (block * s.block_size) j)
unfolding marked
marked_bit s block i j h =
    written_bit s (block * s.block_size) s.block_size j _ h
    ∙ bm_test-bm_set (read_bytes s (block * s.block_size)) 0 i j
    ∙ ap (λ b. (i == j) || b) (read_bit s (block * s.block_size) j)

-- What `alloc_block` may come to.
pub data Allocation (s : Ext2) (bgd_index : ℕ) : Option ℕ → Ext2 → Type 0 where
  no_block :
      (((load s bgd_index).unallocated_blocks ≡ 0)
        ⊎ ((j : ℕ)
            → j < s.block_size
            → bm_test s.device ((load s bgd_index).block_addr_bitmap * s.block_size) j ≡ true))
      → Allocation s bgd_index none s
  block :
      (i : ℕ) (s' : Ext2)
      → i < s.block_size
      → bm_test s.device ((load s bgd_index).block_addr_bitmap * s.block_size) i ≡ false
      → ((j : ℕ)
          → j < 8 * s.block_size
          → bm_test s'.device ((load s bgd_index).block_addr_bitmap * s.block_size) j ≡ (
              if i == j
              then true
              else bm_test s.device ((load s bgd_index).block_addr_bitmap * s.block_size) j))
      → ((load s' bgd_index).unallocated_blocks + 1 ≡ (load s bgd_index).unallocated_blocks)
      → Allocation s bgd_index (some i) s'

take_block-Allocation :
    (s : Ext2) (bgd_index : ℕ) (o : Option ℕ)
    → (load s bgd_index).unallocated_blocks ≢ 0
    → FirstFree
        (read_bytes s ((load s bgd_index).block_addr_bitmap * s.block_size))
        0
        0
        s.block_size
        o
    → Allocation s bgd_index (take_block s bgd_index o).0 (take_block s bgd_index o).1
unfolding marked
take_block-Allocation s bgd_index none some_left h =
    no_block (inr (λ j l. sym (read_bit s _ j) ∙ h j (omega arith) l))
take_block-Allocation s bgd_index (some i) some_left h =
    let self : (bgd_index / s.inodes_per_group == bgd_index / s.inodes_per_group) ≡ true =
      ground arith in
    block i _ h.1 (sym (read_bit s _ i) ∙ h.0)
      (λ j l. marked_bit s (load s bgd_index).block_addr_bitmap i j l ∙ ground arith)
      (rw self (omega arith))

-- `bgd::alloc_block` returns -1 and changes nothing where the group counts no free block or the
-- first `block_size` bits of its bitmap are set; otherwise it returns a block below `block_size`
-- that was free, sets just its bit of the bitmap on the device and lowers the count of the group by
-- one.
pub alloc_block-Allocation :
    (s : Ext2) (bgd_index : ℕ)
    → Allocation s bgd_index (alloc_block s bgd_index).0 (alloc_block s bgd_index).1
unfolding alloc_block free_bit
alloc_block-Allocation s bgd_index =
    elim (Bool-cases ((load s bgd_index).unallocated_blocks == 0)) [
      | inl e ↦ rw e (no_block (inl (ground arith)))
      | inr e ↦ rw e (
          take_block-Allocation s bgd_index _ (ground arith) (
            bm_first_free_lem (read_bytes s ((load s bgd_index).block_addr_bitmap * s.block_size)) 0
              s.block_size))
    ]
