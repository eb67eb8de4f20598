-- ===== src/Vfs/Nodes.antt =====
-- Nodes and their operations (kernel/fs/vfs.hpp, kernel/fs/vfs.cpp).
use crep_os.Base.{
  ℕ, zero, suc, true, false, not, List, [], ◌∷◌, ◌++◌, Option, none, some, if◌then◌else◌, ◌==◌, leb,
  length, get_elem?, set, drop, bit_and,
}
use crep_os.Text.{Text, same}
use crep_os.Text.Path.{slash, sub_paths}

-- `stat_cur` stands for the `st_size` of the stat behind the pointer, which no other node shares.
pub record Node : Type 0 where
  pub absolute_path : Text
  pub relative_path : Text
  pub name : Text
  pub filesystem : Option ℕ
  pub stat_cur : Option ℕ
  pub parent : ℕ
  pub next : Option ℕ
  pub last : Option ℕ
  pub child : Option ℕ
  pub ioctl_device : Option ℕ

pub record Fs : Type 0 where
  pub mount_gate : Text
  pub flags : ℕ

pub record Vfs : Type 0 where
  pub nodes : List Node
  pub filesystems : List Fs

abbrev pub is_mounted : ℕ
is_mounted = 16

abbrev pub root_node : ℕ
root_node = 0

-- The constructor with five arguments, for the node at `this`: the new `fs` goes to the argument,
-- and the member keeps the null pointer.
abbrev pub node_of :
    (this : ℕ)
    → (absolute_path relative_path name : Text) → (filesystem ioctl_device : Option ℕ) → Node
node_of this absolute_path relative_path name filesystem ioctl_device = record {
  absolute_path = absolute_path;
  relative_path = relative_path;
  name = name;
  filesystem = filesystem;
  stat_cur = none;
  parent = this;
  next = none;
  last = none;
  child = none;
  ioctl_device = ioctl_device;
}

abbrev pub boot : Vfs
boot = record {
  nodes = node_of root_node (slash ∷ []) (slash ∷ []) (slash ∷ []) none none ∷ [];
  filesystems = [];
}

unfoldable pub search_loop :
    (fuel : ℕ) → List Node → (cur : Option ℕ) → (name : Text) → Option (Option ℕ)
unfolding same
search_loop zero nodes cur name = none
search_loop (suc fuel) nodes none name = some none
search_loop (suc fuel) nodes (some i) name = elim (get_elem? nodes i) [
  | none ↦ none
  | some n ↦ elim (same n.name name) [
    | true ↦ some (some i)
    | false ↦ search_loop fuel nodes n.next name
  ]
]

-- `this->search_relative(name)`: from the node behind the parent of `this`.
unfoldable pub search_relative : (fuel : ℕ) → List Node → (this : ℕ) → Text → Option (Option ℕ)
unfolding search_loop
search_relative fuel nodes this name = elim (get_elem? nodes this) [
  | none ↦ none
  | some n ↦ elim (get_elem? nodes n.parent) [
    | none ↦ none
    | some p ↦ search_loop fuel nodes p.next name
  ]
]

unfoldable pub search_names :
    (fuel : ℕ) → List Node → (cur : ℕ) → (names : List Text) → Option (Option ℕ)
unfolding search_relative
search_names fuel nodes cur [] = some (some cur)
search_names fuel nodes cur (name ∷ names) = elim (search_relative fuel nodes cur name) [
  | none ↦ none
  | some none ↦ some none
  | some (some i) ↦ search_names fuel nodes i names
]

unfoldable pub search_absolute : (fuel : ℕ) → List Node → (path : Text) → Option (Option ℕ)
unfolding search_names sub_paths
search_absolute fuel nodes path =
    if same path (slash ∷ []) then some (some root_node) else (elim (sub_paths fuel path) [
      | none ↦ none
      | some names ↦ search_names fuel nodes root_node names
    ])

-- The path of a child of the node `parent`.
abbrev pub child_path : (parent : ℕ) → (parent_path name : Text) → Text
child_path parent parent_path name =
    if not (parent == root_node) then parent_path ++ slash ∷ name else parent_path ++ name

-- `absolute_path.data() + mount_gate.length()` as a string.
abbrev pub behind_gate : Fs → (absolute_path : Text) → Option Text
behind_gate fs absolute_path =
    if bit_and fs.flags is_mounted == 0
    then some []
    else if leb (length fs.mount_gate) (length absolute_path)
    then some (drop (length fs.mount_gate) absolute_path)
    else none

abbrev pub relative_of : List Fs → (filesystem : Option ℕ) → (absolute_path : Text) → Option Text
relative_of filesystems none absolute_path = some []
relative_of filesystems (some f) absolute_path = elim (get_elem? filesystems f) [
  | none ↦ none
  | some fs ↦ behind_gate fs absolute_path
]

-- The loop of `create_node`: the node of the chain that has no next one.
unfoldable pub last_loop : (fuel : ℕ) → List Node → (cur : ℕ) → Option ℕ
last_loop zero nodes cur = none
last_loop (suc fuel) nodes cur = elim (get_elem? nodes cur) [
  | none ↦ none
  | some n ↦ elim n.next [ none ↦ some cur | some i ↦ last_loop fuel nodes i ]
]

-- An assignment to members of the node at `i`.
unfoldable pub update : List Node → (i : ℕ) → (Node → Node) → Option (List Node)
update nodes i f = elim (get_elem? nodes i) [ none ↦ none | some n ↦ some (set nodes i (f n)) ]

abbrev pub with_next : Option ℕ → Node → Node
with_next next n = record n { next = next }

abbrev pub with_child : Option ℕ → Node → Node
with_child child n = record n { child = child }

-- The node that `create_node` makes under the node `p` at `parent`.
abbrev pub fresh_node : (parent : ℕ) → (p : Node) → (relative_path name : Text) → (last : ℕ) → Node
fresh_node parent p relative_path name last = record {
  absolute_path = child_path parent p.absolute_path name;
  relative_path = relative_path;
  name = name;
  filesystem = p.filesystem;
  stat_cur = some 0;
  parent = parent;
  next = none;
  last = some last;
  child = none;
  ioctl_device = none;
}

-- `create_node`: the address of the new node and the nodes.
unfoldable pub create_node :
    (fuel : ℕ) → Vfs → (parent : ℕ) → (name : Text) → Option (ℕ × List Node)
unfolding last_loop update
create_node fuel vfs parent name = elim (get_elem? vfs.nodes parent) [
  | none ↦ none
  | some p ↦
      elim (relative_of vfs.filesystems p.filesystem (child_path parent p.absolute_path name)) [
        | none ↦ none
        | some relative_path ↦ elim (last_loop fuel vfs.nodes parent) [
          | none ↦ none
          | some cur ↦ elim (update vfs.nodes cur (with_next (some (length vfs.nodes)))) [
            | none ↦ none
            | some nodes ↦
                some (length vfs.nodes, nodes ++ fresh_node parent p relative_path name cur ∷ [])
          ]
        ]
      ]
]

-- A call with a null parent takes the root.
abbrev pub parent_or_root : Option ℕ → ℕ
parent_or_root none = root_node
parent_or_root (some parent) = parent

unfoldable pub create_names : (fuel : ℕ) → Vfs → (parent_cur : ℕ) → (names : List Text) → Option Vfs
unfolding create_node update
create_names fuel vfs parent_cur [] = some vfs
create_names fuel vfs parent_cur (name ∷ names) = elim (create_node fuel vfs parent_cur name) [
  | none ↦ none
  | some (child, nodes) ↦ elim (update nodes parent_cur (with_child (some child))) [
    | none ↦ none
    | some nodes' ↦ create_names fuel (record vfs { nodes = nodes' }) child names
  ]
]

-- The loop of the constructor: down as long as the names are found, then the others are made.
unfoldable pub descend : (fuel : ℕ) → Vfs → (node_cur : ℕ) → (names : List Text) → Option Vfs
unfolding search_relative create_names
descend fuel vfs node_cur [] = some vfs
descend fuel vfs node_cur (name ∷ names) = elim (search_relative fuel vfs.nodes node_cur name) [
  | none ↦ none
  | some none ↦ create_names fuel vfs node_cur (name ∷ names)
  | some (some i) ↦ descend fuel vfs i names
]

-- The constructor with a path, as it is called for a node that is thrown away: the device goes to
-- that node and to none of those that it makes.
unfoldable pub node_ctor :
    (fuel : ℕ) → Vfs → (absolute_path : Text) → (ioctl_device : Option ℕ) → Option Vfs
unfolding descend sub_paths
node_ctor fuel vfs absolute_path ioctl_device = elim (sub_paths fuel absolute_path) [
  | none ↦ none
  | some names ↦ descend fuel vfs root_node names
]
