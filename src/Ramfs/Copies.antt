-- ===== src/Ramfs/Copies.antt =====
-- `fs::read`, and `fs::write` before it (kernel/fs/ramfs.cpp).
use crep_os.Base.{
  ℕ, ◌+◌, ◌-◌, ◌^◌, ◌≤◌, ◌<◌, ◌≡◌, ◌∙◌, ◌⊎◌, ◌%◌, refl, ap, true, false, List, [], ◌∷◌, some,
  if◌then◌else◌, ◌==◌, arith,
}
use crep_os.Word.{u64, u32}
use crep_os.Memory.{memcpy}
use crep_os.Memory.Blocks.{within, memcpy8_lem}
use crep_os.Text.{same}
use crep_os.Ramfs.{
  Ramfs, RamNode, Blocks, less, vfs2ramfs, node_read, with_block, grown, node_write, read, write,
  set_size,
}

read_found :
    (s : Ramfs) (n : RamNode) (v off cnt buf : ℕ)
    → vfs2ramfs s s.node_list v ≡ some n
    → read s v off cnt buf ≡ node_read s n off cnt buf
unfolding read
read_found s n v off cnt buf e = rw (e, read) refl

node_read-inside :
    (s : Ramfs) (n : RamNode) (off cnt buf : ℕ)
    → off + cnt ≤ s.st_size n.vfs_node
    → s.st_size n.vfs_node < 2 ^ 63
    → node_read s n off cnt buf
      ≡ (some (u32 cnt), record s { memory = memcpy 1 s.memory (n.buf + off) buf cnt })
unfolding node_read
node_read-inside s n off cnt buf inside small =
    let a : less (s.st_size n.vfs_node) (u64 (off + cnt)) ≡ false = ground arith in
    let b : less (s.st_size n.vfs_node) off ≡ false = ground arith in rw (a, b) refl

-- `fs::read` inside a file of less than 2^63 bytes, with a buffer that starts no earlier than the
-- part of the file or ends before it, reports the count but copies from the buffer into the file:
-- only the file changes, and it takes what the buffer held.
pub read_backwards :
    (s : Ramfs) (n : RamNode) (v off cnt buf : ℕ)
    → vfs2ramfs s s.node_list v ≡ some n
    → off + cnt ≤ s.st_size n.vfs_node
    → s.st_size n.vfs_node < 2 ^ 63
    → (n.buf + off ≤ buf) ⊎ (buf + cnt ≤ n.buf + off)
    → ((read s v off cnt buf).0 ≡ some (u32 cnt))
      × ((x : ℕ)
          → (read s v off cnt buf).1.memory x ≡ (
              if within (n.buf + off) cnt x
              then s.memory (buf + (x - (n.buf + off))) % 256
              else s.memory x))
read_backwards s n v off cnt buf e inside small apart =
    let r = read_found s n v off cnt buf e ∙ node_read-inside s n off cnt buf inside small in
    (
      ap (λ p. p.0) r,
      λ x. ap (λ p. p.1.memory x) r ∙ memcpy8_lem s.memory (n.buf + off) buf cnt x apart,
    )

-- A new file of `cnt` bytes.
module _ (blocks : Blocks) (s : Ramfs) (n : RamNode) (v cnt write_buf : ℕ)
    (e : vfs2ramfs s s.node_list v ≡ some n) (new_file : n.buf ≡ 0) (small : cnt < 2 ^ 63) where
  abbrev block : ℕ
  block = (blocks.heap_new s.memory (u64 (0 + cnt))).0

  abbrev sized : Ramfs
  sized =
      set_size (record s { memory = (blocks.heap_new s.memory (u64 (0 + cnt))).1 }) n.vfs_node
        (u64 (0 + cnt))

  abbrev written : Ramfs
  written = record sized { memory = memcpy 1 sized.memory (block + 0) write_buf cnt }

  first_block : with_block blocks s n 0 cnt ≡ (record n { buf = block }, sized)
  unfolding with_block
  first_block = let null : (n.buf == 0) ≡ true = ground arith in rw null refl

  stays : grown blocks (record n { buf = block }, sized) 0 cnt ≡ (record n { buf = block }, sized)
  unfolding grown
  stays =
      let self : (n.vfs_node == n.vfs_node) ≡ true = ground arith in
      let fits : less (u64 (0 + cnt)) (u64 (0 + cnt)) ≡ false = ground arith in rw (self, fits) refl

  wrote : write blocks s v 0 cnt write_buf ≡ (some (u32 cnt), written)
  unfolding write node_write
  wrote =
      rw (e, write)
        (ap
            (λ p.
              let (n', s') = grown blocks p 0 cnt in
              (
                some (u32 cnt),
                record s' { memory = memcpy 1 s'.memory (n'.buf + 0) write_buf cnt },
              ))
            first_block
          ∙ ap
              (λ p. (
                some (u32 cnt),
                record (p.1) { memory = memcpy 1 p.1.memory (p.0.buf + 0) write_buf cnt },
              ))
              stays)

  same_nodes : (ns : List RamNode) → vfs2ramfs written ns v ≡ vfs2ramfs s ns v
  unfolding vfs2ramfs
  same_nodes [] = refl
  same_nodes (n' ∷ ns) =
      ap (λ o. if same (s.path n'.vfs_node) (s.path v) then some n' else o) (same_nodes ns)

  new_size : written.st_size n.vfs_node ≡ cnt
  new_size = let self : (n.vfs_node == n.vfs_node) ≡ true = ground arith in rw self (omega arith)

  -- After `fs::write` of the first bytes (fewer than 2^63) of a file without a block, the file
  -- has that size, but `fs::read` of these bytes still goes by a null block: it copies the
  -- caller's buffer to address 0.
  pub write_lost :
      (s' : Ramfs) × (write blocks s v 0 cnt write_buf ≡ (some (u32 cnt), s'))
      × (s'.st_size n.vfs_node ≡ cnt)
      × ((read_buf : ℕ)
          → read s' v 0 cnt read_buf
            ≡ (some (u32 cnt), record s' { memory = memcpy 1 s'.memory 0 read_buf cnt }))
  write_lost = (
    written,
    wrote,
    new_size,
    λ read_buf.
        let size = new_size in
        let null : n.buf + 0 ≡ 0 = omega arith in
        read_found written n v 0 cnt read_buf (same_nodes s.node_list ∙ e)
        ∙ node_read-inside written n 0 cnt read_buf (omega arith) (omega arith)
        ∙ ap
            (λ a.
              (some (u32 cnt), record written { memory = memcpy 1 written.memory a read_buf cnt }))
            null,
  )
