-- ===== src/Ramfs.antt =====
-- The files of the RAM file system (kernel/fs/ramfs.cpp). A node of the virtual file system is known
-- by a number; `path` and `st_size` are its absolute path and the size in its `stat_cur`.
pub mod Copies
use crep_os.Base.{
  ℕ, ◌+◌, ◌-◌, ◌^◌, ◌%◌, Bool, true, false, List, [], ◌∷◌, Option, none, some, if◌then◌else◌, ◌==◌,
  ltb,
}
use crep_os.Word.{u64, u32, sub64}
use crep_os.Memory.{Memory, memcpy}
use crep_os.Text.{Text, same}

-- `off_t` is signed: two patterns are compared with their sign bits turned.
abbrev pub less : ℕ → ℕ → Bool
less a b = ltb (u64 (a + 2 ^ 63)) (u64 (b + 2 ^ 63))

pub record RamNode : Type 0 where
  pub vfs_node : ℕ
  pub buf : ℕ

-- What the files need of the heap: `new uint8_t[cnt]` and `kmm::realloc`.
pub record Blocks : Type 0 where
  pub heap_new : Memory → (cnt : ℕ) → ℕ × Memory
  pub heap_realloc : Memory → (addr cnt : ℕ) → ℕ × Memory

pub record Ramfs : Type 0 where
  pub memory : Memory
  pub node_list : List RamNode
  pub path : ℕ → Text
  pub st_size : ℕ → ℕ

-- `vfs2ramfs` gives a copy of the node in the list.
unfoldable pub vfs2ramfs : Ramfs → List RamNode → (vfs_node : ℕ) → Option RamNode
vfs2ramfs s [] v = none
vfs2ramfs s (n ∷ ns) v = if same (s.path n.vfs_node) (s.path v) then some n else vfs2ramfs s ns v

-- `node::read`: `memcpy8` takes the target first. A `none` is -1; the count is cut to an `int`.
unfoldable pub node_read : Ramfs → RamNode → (off cnt read_buf : ℕ) → Option ℕ × Ramfs
node_read s n off cnt read_buf =
    let size = s.st_size n.vfs_node in
    let cnt' = if less size (u64 (off + cnt)) then sub64 size off else cnt in
    if less size off
    then (none, s)
    else (some (u32 cnt'), record s { memory = memcpy 1 s.memory (n.buf + off) read_buf cnt' })

abbrev pub set_size : Ramfs → (v size : ℕ) → Ramfs
set_size s v size = record s { st_size = λ w. if w == v then size else s.st_size w }

module _ (blocks : Blocks) where
  -- The first block of a file.
  unfoldable pub with_block : Ramfs → RamNode → (off cnt : ℕ) → RamNode × Ramfs
  with_block s n off cnt =
      let (p, m) = blocks.heap_new s.memory (u64 (off + cnt)) in
      if n.buf == 0
      then (record n { buf = p }, set_size (record s { memory = m }) n.vfs_node (u64 (off + cnt)))
      else (n, s)

  -- The larger block where the file grows.
  unfoldable pub grown : RamNode × Ramfs → (off cnt : ℕ) → RamNode × Ramfs
  grown (n, s) off cnt =
      let size = s.st_size n.vfs_node in
      let size' = u64 (size + sub64 (off + cnt) size) in
      let (p, m) = blocks.heap_realloc s.memory n.buf size' in
      if less size (u64 (off + cnt))
      then (record n { buf = p }, set_size (record s { memory = m }) n.vfs_node size')
      else (n, s)

  -- `node::write`, with the node that it leaves behind.
  unfoldable pub node_write : Ramfs → RamNode → (off cnt write_buf : ℕ) → RamNode × Ramfs
  unfolding with_block grown
  node_write s n off cnt write_buf =
      let (n', s') = grown (with_block s n off cnt) off cnt in
      (n', record s' { memory = memcpy 1 s'.memory (n'.buf + off) write_buf cnt })

  -- `fs::write` writes through its copy of the node, and the copy is gone after it.
  unfoldable pub write : Ramfs → (v off cnt buf : ℕ) → Option ℕ × Ramfs
  unfolding vfs2ramfs node_write
  write s v off cnt buf = elim (vfs2ramfs s s.node_list v) [
    | none ↦ (none, s)
    | some n ↦ (some (u32 cnt), (node_write s n off cnt buf).1)
  ]

-- `fs::read`
unfoldable pub read : Ramfs → (v off cnt buf : ℕ) → Option ℕ × Ramfs
unfolding vfs2ramfs node_read
read s v off cnt buf = elim (vfs2ramfs s s.node_list v) [
  | none ↦ (none, s)
  | some n ↦ node_read s n off cnt buf
]
