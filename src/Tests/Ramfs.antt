-- ===== src/Tests/Ramfs.antt =====
-- Small runs of the RAM file system.
use crep_os.Base.{ℕ, ◌+◌, ◌-◌, ◌%◌, ◌≡◌, refl, [], ◌∷◌, some, inl, if◌then◌else◌, arith}
use crep_os.Word.{u32}
use crep_os.Memory.Blocks.{within}
use crep_os.Text.{same}
use crep_os.Ramfs.{Ramfs, Blocks, vfs2ramfs, read}
use crep_os.Ramfs.Copies.{read_backwards}

abbrev blocks : Blocks
blocks = record { heap_new = λ m cnt. (0x5000, m); heap_realloc = λ m addr cnt. (0x6000, m) }

abbrev files : (buf size : ℕ) → Ramfs
files buf size = record {
  memory = λ x. x % 256;
  node_list = record { vfs_node = 4; buf = buf } ∷ [];
  path = λ v. v ∷ [];
  st_size = λ v. size;
}

read_backwards_example :
    ((read (files 0x3000 8) 4 2 3 0x4001).0 ≡ some (u32 3))
    × ((x : ℕ)
        → (read (files 0x3000 8) 4 2 3 0x4001).1.memory x ≡ (
            if within (0x3000 + 2) 3 x
            then (files 0x3000 8).memory (0x4001 + (x - (0x3000 + 2))) % 256
            else (files 0x3000 8).memory x))
unfolding vfs2ramfs same
read_backwards_example =
    read_backwards (files 0x3000 8) (record { vfs_node = 4; buf = 0x3000 }) 4 2 3 0x4001 refl
      (omega arith) (omega arith) (inl (omega arith))
