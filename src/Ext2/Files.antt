-- ===== src/Ext2/Files.antt =====
-- Reading, writing and resizing an inode (kernel/fs/ext2/inode.cpp). An offset and a count are not
-- negative; the buffer is its bytes. `fuel` bounds the pieces of a transfer.
use crep_os.Base.{
  ℕ, zero, suc, ◌+◌, ◌-◌, ◌*◌, ◌/◌, ◌%◌, ◌^◌, Bool, true, false, Option, none, some, if◌then◌else◌,
  ltb,
}
use crep_os.Memory.{Memory}
use crep_os.Memory.Blocks.{within}
use crep_os.Memutils.{div_roundup}
use crep_os.Ext2.{write_bytes}
use crep_os.Ext2.Inode.{
  Raw, Volume, Inode, bs, get_block, set_block, Setting, set_to, fails, fs_alloc_block, inode_back,
}

-- `devfs_node.read` of `size` bytes into the buffer at `at`.
abbrev pub read_into : Volume → (off size : ℕ) → (buf : Memory) → (at : ℕ) → Memory
read_into v off size buf at x = if within at size x then v.groups.device (off + (x - at)) else buf x

-- `devfs_node.write` of `size` bytes of the buffer from `at`.
abbrev pub write_from : Volume → (off size : ℕ) → (buf : Memory) → (at : ℕ) → Volume
write_from v off size buf at = record v {
  groups = record (v.groups) { device = write_bytes v.groups off size (λ x. buf (at + x)) };
}

-- The piece of a transfer that starts at byte `pos` of the file: up to the end of its block.
abbrev pub piece : Volume → (pos left : ℕ) → ℕ
piece v pos left = if ltb (bs v - pos % bs v) left then bs v - pos % bs v else left

-- Where byte `pos` of the file is on the device.
abbrev pub place : Volume → Raw → (pos : ℕ) → ℕ
place v raw pos = get_block v raw (pos / bs v % 2 ^ 32) % 2 ^ 32 * bs v + pos % bs v

unfoldable pub read_loop :
    (fuel : ℕ) → Volume → Raw → (off cnt headway : ℕ) → (buf : Memory) → Option Memory
unfolding get_block
read_loop zero v raw off cnt headway buf = none
read_loop (suc fuel) v raw off cnt headway buf =
    let size = piece v (off + headway) (cnt - headway) in
    let rest =
      read_loop fuel v raw off cnt (headway + size)
        (read_into v (place v raw (off + headway)) size buf headway) in
    if ltb headway cnt then rest else some buf

-- `inode::read`
unfoldable pub inode_read :
    (fuel : ℕ) → Volume → Raw → (off cnt : ℕ) → (buf : Memory) → Option Memory
unfolding read_loop
inode_read fuel v raw off cnt buf = read_loop fuel v raw off cnt 0 buf

unfoldable pub write_loop :
    (fuel : ℕ) → Volume → Raw → (off cnt headway : ℕ) → (buf : Memory) → Option Volume
unfolding get_block
write_loop zero v raw off cnt headway buf = none
write_loop (suc fuel) v raw off cnt headway buf =
    let size = piece v (off + headway) (cnt - headway) in
    let rest =
      write_loop fuel (write_from v (place v raw (off + headway)) size buf headway) raw off cnt
        (headway + size) buf in
    if ltb headway cnt then rest else some v

-- The state that `set_block` leaves; `resize` does not look at its result.
abbrev pub left_by : Setting → Volume × Inode
left_by (set_to v n) = (v, n)
left_by (fails v n) = (v, n)

abbrev pub with_sectors : Volume → Inode → Inode
with_sectors v n = record n {
  raw = record (n.raw) { sector_cnt = n.raw.sector_cnt + bs v / v.sector_size };
}

-- The loop of `inode::resize` from block `i` on: whether it came to its end, and what it leaves.
unfoldable pub resize_loop : (rounds i : ℕ) → Volume → Inode → Bool × Volume × Inode
unfolding fs_alloc_block set_block
resize_loop zero i v n = (true, v, n)
resize_loop (suc rounds) i v n = elim (fs_alloc_block v) [
  | none ↦ (false, v, n)
  | some (block, v') ↦
      let (v'', n') = left_by (set_block v' (with_sectors v' n) i (block % 2 ^ 32)) in
      resize_loop rounds (i + 1) v'' n'
]

abbrev pub lengthened : Inode → (size : ℕ) → Inode
lengthened n size = record n {
  raw = record (n.raw) { size32l = if ltb n.raw.size32l size then size else n.raw.size32l };
}

abbrev pub written_back : Bool × Volume × Inode → Volume × Inode
written_back (true, v, n) = (inode_back v n, n)
written_back (false, v, n) = (v, n)

-- `inode::resize`, whose result `inode::write` does not look at.
unfoldable pub resize : Volume → Inode → (start cnt : ℕ) → Volume × Inode
unfolding resize_loop
resize v n start cnt =
    if ltb (start + cnt) (n.raw.sector_cnt * v.sector_size)
    then (v, n)
    else (let first = div_roundup (n.raw.sector_cnt * v.sector_size) (bs v) % 2 ^ 32 in
        let last = div_roundup (start + cnt) (bs v) % 2 ^ 32 in
        written_back (resize_loop (last - first) first v (lengthened n (start + cnt))))

-- `inode::write`
unfoldable pub inode_write :
    (fuel : ℕ) → Volume → Inode → (off cnt : ℕ) → (buf : Memory) → Option (Volume × Inode)
unfolding resize write_loop
inode_write fuel v n off cnt buf =
    let (v', n') = resize v n off cnt in
    elim (write_loop fuel v' n'.raw off cnt 0 buf) [ none ↦ none | some v'' ↦ some (v'', n') ]
