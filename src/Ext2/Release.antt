-- ===== src/Ext2/Release.antt =====
-- Giving blocks and inodes back (kernel/fs/ext2/ext2.cpp, kernel/fs/ext2/inode.cpp).
use crep_os.Base.{
  ℕ, zero, suc, ◌+◌, ◌-◌, ◌*◌, ◌/◌, ◌%◌, ◌^◌, ◌≤◌, ◌≡◌, refl, ap, false, Option, none, some,
  if◌then◌else◌, ◌==◌, arith, inl, inr, Bool-cases,
}
use crep_os.Memory.{bm_test, bm_clear}
use crep_os.Memory.Blocks.{within}
use crep_os.Memutils.{div_roundup}
use crep_os.Ext2.{Ext2, read_bytes, write_bytes, load, write_back}
use crep_os.Ext2.Inode.{Raw, Volume, Inode, bs, get_block}

-- A bit of a bitmap at byte `addr` of the device is cleared; `none` where it was clear.
unfoldable pub cleared_bit : Ext2 → (addr i : ℕ) → Option Ext2
cleared_bit s addr i =
    if bm_test (read_bytes s addr) 0 i
    then some
        (record s { device = write_bytes s addr s.block_size (bm_clear (read_bytes s addr) 0 i) })
    else none

abbrev pub counted_block : (bgd_index : ℕ) → Ext2 → Option Ext2 → Ext2
counted_block bgd_index s none = s
counted_block bgd_index s (some s') =
    let raw = load s bgd_index in
    write_back s' bgd_index
      (record raw { unallocated_blocks = (raw.unallocated_blocks + 1) % 2 ^ 16 })

-- `fs::free_block`, which takes the address of the bitmap as an offset in bytes.
unfoldable pub fs_free_block : Volume → (block : ℕ) → Volume
unfolding cleared_bit
fs_free_block v block =
    let bgd_index = block / v.blocks_per_group in
    let i = block - bgd_index * v.blocks_per_group in
    record v {
      groups =
          counted_block bgd_index v.groups
            (cleared_bit v.groups (load v.groups bgd_index).block_addr_bitmap i);
    }

abbrev pub counted_inode : (bgd_index : ℕ) → Ext2 → Option Ext2 → Ext2
counted_inode bgd_index s none = s
counted_inode bgd_index s (some s') =
    let raw = load s bgd_index in
    write_back s' bgd_index
      (record raw { unallocated_inodes = (raw.unallocated_inodes + 1) % 2 ^ 16 })

-- `fs::free_inode`
unfoldable pub fs_free_inode : Volume → (inode_index : ℕ) → Volume
unfolding cleared_bit
fs_free_inode v inode_index =
    let bgd_index = inode_index / v.groups.inodes_per_group in
    let i = inode_index - bgd_index * v.groups.inodes_per_group in
    record v {
      groups =
          counted_inode bgd_index v.groups
            (cleared_bit v.groups (load v.groups bgd_index).block_addr_inode i);
    }

unfoldable pub free_blocks : (rounds i : ℕ) → Volume → Raw → Volume
unfolding fs_free_block get_block
free_blocks zero i v raw = v
free_blocks (suc rounds) i v raw =
    free_blocks rounds (i + 1) (fs_free_block v (get_block v raw i % 2 ^ 32)) raw

-- `inode::remove`
unfoldable pub inode_remove : Volume → Inode → Volume
unfolding free_blocks fs_free_inode
inode_remove v n =
    fs_free_inode (free_blocks (div_roundup (n.raw.sector_cnt * v.sector_size) (bs v)) 0 v n.raw)
      n.inode_index

cleared_bit-outside :
    (s : Ext2) (addr i : ℕ) (bgd_index x : ℕ)
    → addr + s.block_size ≤ x
    → (counted_block bgd_index s (cleared_bit s addr i)).device x ≡ s.device x
unfolding cleared_bit
cleared_bit-outside s addr i bgd_index x h = elim (Bool-cases (bm_test (read_bytes s addr) 0 i)) [
  | inl e ↦ let out : within addr s.block_size x ≡ false = ground arith in rw (e, out) refl
  | inr e ↦ rw e refl
]

-- Where the bitmap of a group lies behind the bytes that its block number names as an offset,
-- `fs::free_block` leaves every bit of that bitmap as it was: the block stays in use.
pub fs_free_block-bitmap :
    (v : Volume) (block j : ℕ)
    → let addr = (load v.groups (block / v.blocks_per_group)).block_addr_bitmap in
      addr + bs v ≤ addr * bs v
      → bm_test (fs_free_block v block).groups.device (addr * bs v) j
        ≡ bm_test v.groups.device (addr * bs v) j
unfolding fs_free_block bm_test
fs_free_block-bitmap v block j h =
    let addr = (load v.groups (block / v.blocks_per_group)).block_addr_bitmap in
    ap (λ byte. byte / 2 ^ (j % 8) % 2 == 1)
      (cleared_bit-outside v.groups addr (block - block / v.blocks_per_group * v.blocks_per_group)
        (block / v.blocks_per_group) (addr * bs v + j / 8) (omega arith))
