-- ===== src/Fd/Calls.antt =====
-- The methods of a descriptor and the system calls (kernel/fs/fd.cpp). `none` is a read through a
-- pointer that is not set, or a fault of what is called.
use crep_os.Base.{ℕ, ◌+◌, Option, none, some, if◌then◌else◌, ◌==◌, get_elem?, set}
use crep_os.Word.{u64, minus_one}
use crep_os.Text.{Text}
use crep_os.Mmap.{Heap}
use crep_os.Containers.Map.{Map, remove_key, assign}
use crep_os.Fd.Table.{
  Fd, no_fd, World, FsCalls, Files, ebadf, enoent, einval, set_errno, int_of, translate,
}
use crep_os.Fd.Open.{alloc_fd}

abbrev pub seek_cur : ℕ
seek_cur = 1

abbrev pub seek_end : ℕ
seek_end = 2

abbrev pub seek_set : ℕ
seek_set = 3

-- The registers of a call: `rdi`, `rsi` and `rdx`, and `rax` for its result.
pub record Regs : Type 0 where
  pub rax : ℕ
  pub rdi : ℕ
  pub rsi : ℕ
  pub rdx : ℕ

abbrev pub plus : Option ℕ → ℕ → Option ℕ
plus none off = none
plus (some base) off = some (base + off)

-- The result of a system call: what it returns, its registers and what it leaves.
pub record Return (D : Type 0) : Type 0 where
  pub result : ℕ
  pub regs : Regs
  pub files : Files D

module _ {D : Type 0} where
  -- `*_loc`
  unfoldable pub load_cell : Files D → Option ℕ → Option ℕ
  load_cell s none = none
  load_cell s (some p) = get_elem? s.cells p

  abbrev pub store_cell : Files D → Option ℕ → (v : ℕ) → Files D
  store_cell s none v = s
  store_cell s (some p) v = record s { cells = set s.cells p v }

  abbrev pub filesystem_of : Files D → (node : ℕ) → Option ℕ
  filesystem_of s node = elim (get_elem? s.world.vfs.nodes node) [
    | none ↦ none
    | some n ↦ n.filesystem
  ]

  -- What follows the call of the file system: the offset moves by all of `cnt`.
  unfoldable pub after_transfer : Fd → (off cnt : ℕ) → Files D → (ret : ℕ) → ℕ × Files D
  after_transfer fd off cnt s ret =
      if ret == minus_one then (minus_one, s) else (ret, store_cell s fd.loc (u64 (off + cnt)))

  -- `fd::read` and `fd::write`, by the virtual call that they make.
  unfoldable pub transfer :
      (World D → (filesystem node off cnt buf : ℕ) → ℕ × World D)
      → Fd
      → (buf cnt : ℕ) → Files D
      → Option (ℕ × Files D)
  unfolding after_transfer load_cell
  transfer call fd buf cnt s = elim fd.vfs_node [
    | none ↦ some (minus_one, set_errno enoent s)
    | some node ↦ elim (load_cell s fd.loc) [
      | none ↦ none
      | some off ↦ elim (filesystem_of s node) [
        | none ↦ none
        | some f ↦
            let (ret, w) = call s.world f node off cnt buf in
            some (after_transfer fd off cnt (record s { world = w }) (int_of ret))
      ]
    ]
  ]

  unfoldable pub fd_read : FsCalls D → Fd → (buf cnt : ℕ) → Files D → Option (ℕ × Files D)
  unfolding transfer
  fd_read calls = transfer calls.fs_read

  unfoldable pub fd_write : FsCalls D → Fd → (buf cnt : ℕ) → Files D → Option (ℕ × Files D)
  unfolding transfer
  fd_write calls = transfer calls.fs_write

  abbrev pub size_of : Files D → (node : ℕ) → Option ℕ
  size_of s node = elim (get_elem? s.world.vfs.nodes node) [ none ↦ none | some n ↦ n.stat_cur ]

  -- The new offset is stored and returned.
  abbrev pub moved_to : Fd → Files D → (to : Option ℕ) → Option (ℕ × Files D)
  moved_to fd s none = none
  moved_to fd s (some to) = elim fd.loc [
    | none ↦ none
    | some p ↦ some (int_of to, store_cell s (some p) (u64 to))
  ]

  -- `fd::seek`
  unfoldable pub fd_seek : Fd → (off whence : ℕ) → Files D → Option (ℕ × Files D)
  unfolding load_cell
  fd_seek fd off whence s = elim fd.vfs_node [
    | none ↦ some (minus_one, set_errno enoent s)
    | some node ↦
        if whence == seek_set
        then moved_to fd s (some off)
        else if whence == seek_cur
        then moved_to fd s (plus (load_cell s fd.loc) off)
        else if whence == seek_end
        then moved_to fd s (plus (size_of s node) off)
        else some (minus_one, set_errno einval s)
  ]

  -- `return (regs_cur->rax = result)`
  abbrev pub returning : Regs → Option (ℕ × Files D) → Option (Return D)
  returning r none = none
  returning r (some (result, s)) =
      some (record { result = result; regs = record r { rax = result }; files = s })

  -- `SYSCALL_FD_TRANSLATE`: with an open descriptor the call goes on; it reads the descriptor
  -- through the reference that `translate` left.
  unfoldable pub with_fd :
      Regs
      → (index : ℕ) → (Fd → Files D → Option (Return D))
      → Option Fd × Files D
      → Option (Return D)
  with_fd r index go (none, s) = returning r (some (minus_one, set_errno ebadf s))
  with_fd r index go (some fd, s) = go fd s

  abbrev pub with_list : Files D → Option (Map Fd) → Option (Files D)
  with_list s none = none
  with_list s (some list) = some (record s { fd_list = list })

  abbrev pub close_at : (key : ℕ) → Files D → Option (Files D)
  close_at key s = with_list s (remove_key s.fd_list key)

  abbrev pub zero_with : Option (Files D) → Option (ℕ × Files D)
  zero_with none = none
  zero_with (some s) = some (0, s)

  module _ (calls : FsCalls D) (heap : Heap) (fuel : ℕ) (r : Regs) where
    -- `syscall_open` on the string behind `rdi`.
    unfoldable pub syscall_open : (path : Text) → Files D → Option (Return D)
    unfolding alloc_fd
    syscall_open path s = elim (alloc_fd calls fuel path heap (int_of r.rsi) s) [
      | none ↦ none
      | some (fd, s') ↦
          if fd.status == 0
          then returning r (some (minus_one, s'))
          else returning r (some (fd.backing_fd, s'))
    ]

    unfoldable pub syscall_close : Files D → Option (Return D)
    unfolding with_fd translate
    syscall_close s =
        with_fd r r.rdi (λ fd s'. returning r (zero_with (close_at r.rdi s'))) (translate s r.rdi)

    unfoldable pub syscall_read : Files D → Option (Return D)
    unfolding with_fd translate fd_read
    syscall_read s =
        with_fd r r.rdi (λ fd s'. returning r (fd_read calls (calls.stale 0 fd) r.rsi r.rdx s'))
          (translate s r.rdi)

    unfoldable pub syscall_write : Files D → Option (Return D)
    unfolding with_fd translate fd_write
    syscall_write s =
        with_fd r r.rdi (λ fd s'. returning r (fd_write calls (calls.stale 0 fd) r.rsi r.rdx s'))
          (translate s r.rdi)

    -- `syscall_seek` calls `write`.
    unfoldable pub syscall_seek : Files D → Option (Return D)
    unfolding with_fd translate fd_write
    syscall_seek s =
        with_fd r r.rdi (λ fd s'. returning r (fd_write calls (calls.stale 0 fd) r.rsi r.rdx s'))
          (translate s r.rdi)

    abbrev pub path_of : Files D → Option ℕ → Option Text
    path_of s none = none
    path_of s (some node) = elim (get_elem? s.world.vfs.nodes node) [
      | none ↦ none
      | some n ↦ some n.absolute_path
    ]

    abbrev pub index_of : Option (Fd × Files D) → Option (ℕ × Files D)
    index_of none = none
    index_of (some (fd, s)) = some (fd.backing_fd, s)

    -- `dup` opens the path of the node once more.
    unfoldable pub duplicate : Fd → Files D → Option (ℕ × Files D)
    unfolding alloc_fd load_cell
    duplicate fd s = elim (path_of s fd.vfs_node) [
      | none ↦ none
      | some path ↦ elim (load_cell s fd.flags) [
        | none ↦ none
        | some flags ↦ index_of (alloc_fd calls fuel path heap (int_of flags) s)
      ]
    ]

    unfoldable pub syscall_dup : Files D → Option (Return D)
    unfolding with_fd translate duplicate
    syscall_dup s =
        with_fd r r.rdi (λ fd s'. returning r (duplicate (calls.stale 0 fd) s')) (translate s r.rdi)

    -- The end of `syscall_dup2`, which leaves `rax` as it was.
    abbrev pub copied_to : Fd → Option (Files D) → Option (Return D)
    copied_to fd none = none
    copied_to fd (some s) = some (record {
      result = int_of r.rsi;
      regs = r;
      files = record s { fd_list = assign no_fd s.fd_list r.rsi fd };
    })

    unfoldable pub dup2_over : Fd → Option Fd × Files D → Option (Return D)
    unfolding assign
    dup2_over fd (none, s) = copied_to fd (some s)
    dup2_over fd (some old, s) = copied_to fd (close_at r.rsi s)

    unfoldable pub syscall_dup2 : Files D → Option (Return D)
    unfolding with_fd translate dup2_over
    syscall_dup2 s =
        if r.rdi == r.rsi
        then some (record { result = int_of r.rsi; regs = r; files = s })
        else with_fd r r.rdi (λ fd s'. dup2_over (calls.stale 1 fd) (translate s' r.rsi))
            (translate s r.rdi)
