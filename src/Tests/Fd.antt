-- ===== src/Tests/Fd.antt =====
-- Runs of the file descriptors over a file system that reads one byte at a time.
use crep_os.Base.{
  zero, suc, ℕ, ◌≡◌, ◌≢◌, refl, true, List, [], ◌∷◌, Option, none, some, ◌==◌, if◌then◌else◌, arith,
}
use crep_os.Memory.{bm_test}
use crep_os.Text.Path.{slash, nonempty, pieces}
use crep_os.Mmap.{Heap}
use crep_os.Vfs.Nodes.{Vfs, boot, root_node, node_of, search_absolute}
use crep_os.Vfs.Create.{IsVfs, Extends}
use crep_os.Vfs.Lookup.{Reached}
use crep_os.Containers.Map.{Map, new, assign, remove_key}
use crep_os.Containers.Map.Laws.{lookup}
use crep_os.Fd.Table.{Fd, no_fd, FsCalls, Files, when_open, find_index}
use crep_os.Fd.Open.{open_node, fd_ctor}
use crep_os.Fd.Calls.{
  Regs, Return, syscall_close, syscall_read, syscall_write, syscall_seek, syscall_dup, syscall_dup2,
}
use crep_os.Fd.Errors.{open_at, refused, bad_descriptor}
use crep_os.Fd.Offsets.{syscall_dup2-open_at}
use crep_os.Fd.Indices.{syscall_close-find_index}
use crep_os.Fd.Creation.{with_vfs, fd_ctor-open_node}
use crep_os.Tests.Vfs.{boot-IsVfs, a_only}

-- The temporary of the next call takes the place of the last.
abbrev stale_at : ℕ → Fd → Fd
stale_at zero fd = fd
stale_at (suc k) fd = no_fd

abbrev calls : FsCalls Unit
calls = record {
  fs_open = λ w f n st. (0, w);
  fs_read = λ w f n off cnt buf. (1, w);
  fs_write = λ w f n off cnt buf. (cnt, w);
  stale = stale_at;
}

abbrev heap : Heap
heap = record { heap_calloc = λ m cnt. (4096, m); heap_recalloc = λ m addr cnt. (4096, m) }

abbrev file : Fd
file = record { status = 1; backing_fd = 0; loc = some 0; flags = some 1; vfs_node = some 0 }

-- Descriptor 0 is open, at offset 5.
abbrev files : Files Unit
files = record {
  memory = λ a. if a == 100 then 1 else 0;
  bitmap = 100;
  bitmap_size = 8;
  fd_list = assign no_fd new 0 file;
  cells = 5 ∷ 0 ∷ [];
  world = record {
    vfs = record {
      nodes =
          record (node_of root_node (slash ∷ []) (slash ∷ []) (slash ∷ []) none none) {
            filesystem = some 0;
          }
          ∷ [];
      filesystems = record { mount_gate = []; flags = 0 } ∷ [];
    };
    device = tt;
  };
  errno = 0;
}

abbrev regs : (rdi rsi rdx : ℕ) → Regs
regs rdi rsi rdx = record { rax = 77; rdi = rdi; rsi = rsi; rdx = rdx }

abbrev offset : Option (Return Unit) → List ℕ
offset none = []
offset (some ret) = ret.files.cells

-- One byte of eight is read, and the offset moves by eight.
short_read : offset (syscall_read calls heap 20 (regs 0 4096 8) files) ≡ 13 ∷ 0 ∷ []
unfolding syscall_read assign new
short_read = refl

bad_descriptor_example :
    let r = regs 3 4 0 in
    (syscall_close calls heap 20 r files ≡ some (refused r files))
    × (syscall_read calls heap 20 r files ≡ some (refused r files))
    × (syscall_write calls heap 20 r files ≡ some (refused r files))
    × (syscall_seek calls heap 20 r files ≡ some (refused r files))
    × (syscall_dup calls heap 20 r files ≡ some (refused r files))
    × (r.rdi ≢ r.rsi → syscall_dup2 calls heap 20 r files ≡ some (refused r files))
unfolding assign new lookup
bad_descriptor_example = bad_descriptor calls heap 20 (regs 3 4 0) files refl refl

syscall_dup2-open_at_example :
    (after : Files Unit) × (syscall_dup2 calls heap 20 (regs 0 6 0) files
      ≡ some (record { result = 6; regs = regs 0 6 0; files = after }))
    × (open_at after.fd_list 6 ≡ when_open (some (calls.stale 1 file)))
    × (open_at after.fd_list 0 ≡ some file)
    × (after.cells ≡ files.cells)
unfolding assign new lookup
syscall_dup2-open_at_example =
    syscall_dup2-open_at calls heap 20 (regs 0 6 0) files file refl (λ e. omega arith) refl refl
      refl

abbrev after_close : Map Fd
after_close = elim (remove_key files.fd_list 0) [ none ↦ new | some list ↦ list ]

abbrev closed : Return Unit
closed = record {
  result = 0;
  regs = record (regs 0 0 0) { rax = 0 };
  files = record files { fd_list = after_close };
}

syscall_close-find_index_example :
    (i : ℕ) × (t : Files Unit) × (find_index heap 1 closed.files ≡ some (i, t))
    × (i ≢ 0)
    × (bm_test t.memory t.bitmap 0 ≡ true)
unfolding assign new bm_test syscall_close remove_key
syscall_close-find_index_example =
    syscall_close-find_index calls heap 0 (regs 0 0 0) files closed 0 2 refl refl (omega arith) refl

abbrev empty_files : Files Unit
empty_files = record files { world = record { vfs = boot; device = tt } }

fd_ctor-open_node_example :
    (vfs : Vfs) × (node : ℕ) × (fd_ctor calls 20 a_only 16 4 empty_files
      ≡ open_node calls 20 a_only 16 4 node (with_vfs calls 20 a_only vfs empty_files))
    × IsVfs vfs
    × Extends boot.nodes vfs.nodes
    × Reached vfs.nodes root_node (nonempty (pieces a_only)) node
unfolding search_absolute
fd_ctor-open_node_example =
    fd_ctor-open_node calls 20 a_only 16 4 empty_files boot-IsVfs (omega arith) (omega arith)
      (omega arith) refl refl
