-- ===== src/Vfs/Mount.antt =====
-- Mounting (kernel/fs/vfs.cpp), and the devices it looks among (kernel/fs/devfs.hpp,
-- kernel/fs/devfs.cpp).
use crep_os.Base.{
  ℕ, Bool, true, false, List, [], ◌∷◌, Option, none, some, if◌then◌else◌, ◌==◌, get_elem?, set,
  bit_or,
}
use crep_os.Text.{Text}
use crep_os.Vfs.Nodes.{Node, Fs, Vfs, update, search_absolute, is_mounted}

abbrev pub mounted_at : Text → Fs → Fs
mounted_at target fs = record fs { mount_gate = target; flags = bit_or fs.flags is_mounted }

-- A device of `dev::node_list` (kernel/fs/devfs.hpp): its node and the file system on it.
pub record Device : Type 0 where
  pub filesystem : Option ℕ
  pub vfs_node : Option ℕ

abbrev pub same_pointer : Option ℕ → Option ℕ → Bool
same_pointer none none = true
same_pointer none (some b) = false
same_pointer (some a) none = false
same_pointer (some a) (some b) = a == b

-- `dev::node(vfs_search_node)`: the device whose node it is. Where there is none, only `vfs_node` is
-- set, to null.
unfoldable pub find_device : List Device → (vfs_search_node : Option ℕ) → Option Device
find_device [] vfs_search_node = none
find_device (d ∷ ds) vfs_search_node =
    if same_pointer vfs_search_node d.vfs_node then some d else find_device ds vfs_search_node

-- A call of `mount` returns -1, or ends with `refresh` of the file system at the target.
pub data Mounted : Type 0 where
  fails : Mounted
  refreshes : (filesystem target : ℕ) → Vfs → Mounted

abbrev pub set_filesystem : Option ℕ → Node → Node
set_filesystem filesystem n = record n { filesystem = filesystem }

unfoldable pub mount_on :
    (fuel : ℕ) → Vfs → (filesystem : Option ℕ) → (target : Text) → Option Mounted
unfolding search_absolute update
mount_on fuel vfs none target = some fails
mount_on fuel vfs (some f) target = elim (search_absolute fuel vfs.nodes target) [
  | none ↦ none
  | some none ↦ some fails
  | some (some t) ↦ elim (update vfs.nodes t (set_filesystem (some f))) [
    | none ↦ none
    | some nodes ↦ elim (get_elem? vfs.filesystems f) [
      | none ↦ none
      | some fs ↦ some (
          refreshes f t
            (record { nodes = nodes; filesystems = set vfs.filesystems f (mounted_at target fs) }))
    ]
  ]
]

-- `mount`
unfoldable pub mount : (fuel : ℕ) → Vfs → List Device → (source target : Text) → Option Mounted
unfolding search_absolute find_device mount_on
mount fuel vfs devices source target = elim (search_absolute fuel vfs.nodes source) [
  | none ↦ none
  | some none ↦ some fails
  | some (some s) ↦ elim (find_device devices (some s)) [
    | none ↦ some fails
    | some d ↦ mount_on fuel vfs d.filesystem target
  ]
]
