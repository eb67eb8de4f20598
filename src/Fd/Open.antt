-- ===== src/Fd/Open.antt =====
-- The constructor of a descriptor with a path, and `alloc_fd` (kernel/fs/fd.cpp). `none` is an end of the
-- fuel, an access outside the nodes or a call through a null file system.
use crep_os.Base.{
  ℕ, ◌%◌, ◌^◌, ◌+◌, [], ◌∷◌, ◌++◌, Option, none, some, if◌then◌else◌, ◌==◌, length, get_elem?,
  bit_and,
}
use crep_os.Word.{minus_one}
use crep_os.Text.{Text}
use crep_os.Mmap.{Heap}
use crep_os.Vfs.Nodes.{search_absolute, node_ctor}
use crep_os.Vfs.Remove.{remove}
use crep_os.Containers.Map.{assign}
use crep_os.Fd.Table.{Fd, no_fd, FsCalls, Files, enoent, set_errno, find_index}

abbrev pub o_creat : ℕ
o_creat = 0x10

-- A descriptor that the constructor leaves closed.
abbrev pub left_closed : (backing_fd : ℕ) → (vfs_node : Option ℕ) → Fd
left_closed backing_fd vfs_node = record no_fd { backing_fd = backing_fd; vfs_node = vfs_node }

module _ {D : Type 0} where
  -- The offset and the flags are two new cells of 0.
  abbrev pub left_open : (backing_fd node : ℕ) → Files D → Fd × Files D
  left_open backing_fd node s = (
    record {
      status = 1;
      backing_fd = backing_fd;
      loc = some (length s.cells);
      flags = some (length s.cells + 1);
      vfs_node = some node;
    },
    record s { cells = s.cells ++ 0 ∷ 0 ∷ [] },
  )

  module _ (calls : FsCalls D) (fuel : ℕ) (path : Text) where
    -- What follows `filesystem->open`.
    unfoldable pub after_open : (backing_fd node : ℕ) → Files D → (ret : ℕ) → Option (Fd × Files D)
    unfolding remove
    after_open backing_fd node s ret =
        if ret == minus_one
        then (elim (remove fuel s.world.vfs.nodes path) [
          | none ↦ none
          | some (nodes, deleted) ↦ some (
            left_closed backing_fd (some node),
            record s { world = record (s.world) { vfs = record (s.world.vfs) { nodes = nodes } } },
          )
        ])
        else some (left_open backing_fd node s)

    unfoldable pub open_node : (flags backing_fd node : ℕ) → Files D → Option (Fd × Files D)
    unfolding after_open
    open_node flags backing_fd node s = elim (get_elem? s.world.vfs.nodes node) [
      | none ↦ none
      | some n ↦ elim n.filesystem [
        | none ↦ none
        | some f ↦
            let (ret, w) = calls.fs_open s.world f node (flags % 2 ^ 16) in
            after_open backing_fd node (record s { world = w }) ret
      ]
    ]

    -- A path that is not there is made first when the flags ask for it.
    unfoldable pub open_new : (flags backing_fd : ℕ) → Files D → Option (Fd × Files D)
    unfolding node_ctor search_absolute open_node
    open_new flags backing_fd s = elim (node_ctor fuel s.world.vfs path none) [
      | none ↦ none
      | some vfs ↦
          let s' = record s { world = record (s.world) { vfs = vfs } } in
          elim (search_absolute fuel vfs.nodes path) [
            | none ↦ none
            | some none ↦ some (left_closed backing_fd none, set_errno enoent s')
            | some (some node) ↦ open_node flags backing_fd node s'
          ]
    ]

    -- `fd(path, flags, backing_fd)`
    unfoldable pub fd_ctor : (flags backing_fd : ℕ) → Files D → Option (Fd × Files D)
    unfolding search_absolute open_new open_node
    fd_ctor flags backing_fd s = elim (search_absolute fuel s.world.vfs.nodes path) [
      | none ↦ none
      | some none ↦
          if bit_and flags o_creat == 0
          then some (left_closed backing_fd none, set_errno enoent s)
          else open_new flags backing_fd s
      | some (some node) ↦ open_node flags backing_fd node s
    ]

    -- `alloc_fd`: the descriptor and where it is filed.
    unfoldable pub alloc_fd : Heap → (flags : ℕ) → Files D → Option (Fd × Files D)
    unfolding find_index fd_ctor assign
    alloc_fd heap flags s = elim (find_index heap fuel s) [
      | none ↦ none
      | some (index, s1) ↦ elim (fd_ctor flags index s1) [
        | none ↦ none
        | some (fd, s2) ↦ some (fd, record s2 { fd_list = assign no_fd s2.fd_list index fd })
      ]
    ]
