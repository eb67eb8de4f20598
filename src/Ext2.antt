-- ===== src/Ext2.antt =====
-- The block groups of ext2 (kernel/fs/ext2/block.cpp). The device is its bytes; the table of group
-- descriptors is kept apart from them, by the index of the group.
pub mod Groups
pub mod Inode
pub mod Files
pub mod BlockMap
pub mod Reading
pub mod Writing
pub mod Release
use crep_os.Base.{ℕ, ◌+◌, ◌-◌, ◌*◌, ◌/◌, Option, none, some, if◌then◌else◌, ◌==◌}
use crep_os.Memory.{Memory, bm_set, bm_first_free}
use crep_os.Memory.Blocks.{within}

-- The fields of `bgd::raw` that the allocation reads or writes.
pub record Descriptor : Type 0 where
  pub block_addr_bitmap : ℕ
  pub block_addr_inode : ℕ
  pub unallocated_blocks : ℕ
  pub unallocated_inodes : ℕ

pub record Ext2 : Type 0 where
  pub device : Memory
  pub descriptors : ℕ → Descriptor
  pub block_size : ℕ
  pub inodes_per_group : ℕ

-- `devfs_node.read` into a buffer and `devfs_node.write` from one.
abbrev pub read_bytes : Ext2 → (off : ℕ) → Memory
read_bytes s off x = s.device (off + x)

abbrev pub write_bytes : Ext2 → (off cnt : ℕ) → Memory → Memory
write_bytes s off cnt buf x = if within off cnt x then buf (x - off) else s.device x

-- `bgd::bgd` and `bgd::write_back`.
abbrev pub load : Ext2 → (bgd_index : ℕ) → Descriptor
load s bgd_index = s.descriptors (bgd_index / s.inodes_per_group)

abbrev pub write_back : Ext2 → (bgd_index : ℕ) → Descriptor → Ext2
write_back s bgd_index raw = record s {
  descriptors = λ g. if g == bgd_index / s.inodes_per_group then raw else s.descriptors g;
}

-- The bitmap of a block is read, searched for its first clear bit below `block_size`, and written
-- back with that bit.
unfoldable pub marked : Ext2 → (block i : ℕ) → Ext2
marked s block i = record s {
  device =
      write_bytes s (block * s.block_size) s.block_size
        (bm_set (read_bytes s (block * s.block_size)) 0 i);
}

unfoldable pub free_bit : Ext2 → (block : ℕ) → Option ℕ
free_bit s block = bm_first_free (read_bytes s (block * s.block_size)) 0 s.block_size

abbrev pub take_block : Ext2 → (bgd_index : ℕ) → Option ℕ → Option ℕ × Ext2
take_block s bgd_index none = (none, s)
take_block s bgd_index (some i) =
    let raw = load s bgd_index in
    (
      some i,
      write_back (marked s raw.block_addr_bitmap i) bgd_index
          (record raw { unallocated_blocks = raw.unallocated_blocks - 1 }),
    )

-- `bgd::alloc_block`; `none` is -1.
unfoldable pub alloc_block : Ext2 → (bgd_index : ℕ) → Option ℕ × Ext2
unfolding marked free_bit
alloc_block s bgd_index =
    let raw = load s bgd_index in
    if raw.unallocated_blocks == 0
    then (none, s)
    else take_block s bgd_index (free_bit s raw.block_addr_bitmap)

abbrev pub take_inode : Ext2 → (bgd_index : ℕ) → Option ℕ → Option ℕ × Ext2
take_inode s bgd_index none = (none, s)
take_inode s bgd_index (some i) =
    let raw = load s bgd_index in
    (
      some (i + 1),
      write_back (marked s raw.block_addr_inode i) bgd_index
          (record raw { unallocated_inodes = raw.unallocated_inodes - 1 }),
    )

-- `bgd::alloc_inode`: inodes count from 1.
unfoldable pub alloc_inode : Ext2 → (bgd_index : ℕ) → Option ℕ × Ext2
unfolding marked free_bit
alloc_inode s bgd_index =
    let raw = load s bgd_index in
    if raw.unallocated_inodes == 0
    then (none, s)
    else take_inode s bgd_index (free_bit s raw.block_addr_inode)
