-- ===== src/Fd/Table.antt =====
-- The table of descriptors (kernel/fs/fd.hpp, kernel/fs/fd.cpp): the bitmap of the running task, the
-- map from indices to descriptors, and the offsets and flags that they point to.
use crep_os.Base.{
  ℕ, zero, suc, ◌+◌, ◌-◌, ◌%◌, ◌^◌, Bool, ◌||◌, List, Option, none, some, if◌then◌else◌, ◌==◌, leb,
}
use crep_os.Word.{u64, minus_one}
use crep_os.Memory.{Memory, bm_set, bm_first_free}
use crep_os.Mmap.{Heap}
use crep_os.Vfs.Nodes.{Vfs}
use crep_os.Containers.Map.{Map, read}

abbrev pub ebadf : ℕ
ebadf = 1008

abbrev pub enoent : ℕ
enoent = 1043

abbrev pub einval : ℕ
einval = 1026

-- `loc` and `flags` point to cells of `size_t`; `none` stands for a pointer that was never set. A
-- `vfs_node` of `none` is null.
pub record Fd : Type 0 where
  pub status : ℕ
  pub backing_fd : ℕ
  pub loc : Option ℕ
  pub flags : Option ℕ
  pub vfs_node : Option ℕ

-- `fd()`, the value of a descriptor that is not open.
abbrev pub no_fd : Fd
no_fd = record { status = 0; backing_fd = minus_one; loc = none; flags = none; vfs_node = none }

-- The nodes, and what the file systems keep behind them.
pub record World (D : Type 0) : Type 0 where
  pub vfs : Vfs
  pub device : D

-- The virtual calls of a file system, on the number of the system and of a node; -1 is
-- `minus_one`. `stale k fd` is what the reference of `translate` reads as: it is bound to a temporary
-- that held `fd` and is dead when `translate` returns; `k` counts the further calls of `translate`
-- before the reading. Nothing is assumed of it.
pub record FsCalls (D : Type 0) : Type 0 where
  pub fs_open : World D → (filesystem node status : ℕ) → ℕ × World D
  pub fs_read : World D → (filesystem node off cnt buf : ℕ) → ℕ × World D
  pub fs_write : World D → (filesystem node off cnt buf : ℕ) → ℕ × World D
  pub stale : (k : ℕ) → Fd → Fd

-- What the calls work on: the bitmap belongs to the running task, `errno` to the core.
pub record Files (D : Type 0) : Type 0 where
  pub memory : Memory
  pub bitmap : ℕ
  pub bitmap_size : ℕ
  pub fd_list : Map Fd
  pub cells : List ℕ
  pub world : World D
  pub errno : ℕ

-- A number as an `int`, extended to 64 bits.
abbrev pub int_of : ℕ → ℕ
int_of x = if leb (2 ^ 31) (x % 2 ^ 32) then x % 2 ^ 32 + (2 ^ 64 - 2 ^ 32) else x % 2 ^ 32

abbrev pub is_closed : Fd → Bool
is_closed fd = fd.backing_fd == minus_one || fd.status == 0

-- The descriptor that `translate` copies into its temporary; `operator[]` adds one that is missing.
abbrev pub when_open : Option Fd → Option Fd
when_open none = none
when_open (some fd) = if is_closed fd then none else some fd

module _ {D : Type 0} where
  abbrev pub set_errno : ℕ → Files D → Files D
  set_errno errno s = record s { errno = errno }

  module _ (heap : Heap) where
    unfoldable pub grow_bitmap : Files D → Files D
    grow_bitmap s =
        let size = u64 (s.bitmap_size + 0x1000) in
        let (p, m) = heap.heap_recalloc s.memory s.bitmap size in
        record s { memory = m; bitmap = p; bitmap_size = size }

    -- `find_index` of `alloc_fd`; its loop is that of `bm_first_free`. It calls itself for as long
    -- as the grown bitmap has no clear bit.
    unfoldable pub find_index : (fuel : ℕ) → Files D → Option (ℕ × Files D)
    unfolding grow_bitmap
    find_index zero s = none
    find_index (suc fuel) s = elim (bm_first_free s.memory s.bitmap s.bitmap_size) [
      | some i ↦ some (i, record s { memory = bm_set s.memory s.bitmap i })
      | none ↦ find_index fuel (grow_bitmap s)
    ]

  unfoldable pub translate : Files D → (index : ℕ) → Option Fd × Files D
  unfolding read
  translate s index =
      let (found, list) = read no_fd s.fd_list (int_of index) in
      (when_open found, record s { fd_list = list })
