-- ===== src/Tests/Vfs.antt =====
-- Runs of the virtual file system on a few nodes.
use crep_os.Base.{
  ℕ, zero, suc, ◌+◌, ◌-◌, ◌≡◌, ◌≤◌, ◌<◌, ◌∙◌, refl, sym, ap, subst, List, [], ◌∷◌, Option, none,
  some, get_elem?, arith, some-inj, if◌then◌else◌, ◌==◌, length,
}
use crep_os.Text.{Text}
use crep_os.Text.Path.{slash, nonempty, pieces, sub_paths}
use crep_os.Vfs.Nodes.{
  Node, Vfs, Fs, boot, root_node, node_ctor, search_absolute, search_relative, create_node, node_of,
}
use crep_os.Vfs.Chain.{IsChain, Named, link}
use crep_os.Vfs.Create.{IsVfs, GateFits, Extends, Created, create_node-Created}
use crep_os.Vfs.Lookup.{Reached, node_ctor-search_absolute}
use crep_os.Vfs.Remove.{remove_cluster, remove}
use crep_os.Vfs.Shared.{create_node-search_relative, remove_cluster-from_to}
use crep_os.Vfs.Mount.{Device, Mounted, fails, refreshes, mount}

abbrev root_dir : Node
root_dir = node_of root_node (slash ∷ []) (slash ∷ []) (slash ∷ []) none none

pub boot-IsVfs : IsVfs boot
boot-IsVfs = record {
  chain = record { linked = linked; back = back; older = older };
  gates = gates;
}
  where
    linked : (i : ℕ) (n : Node) → get_elem? boot.nodes i ≡ some n → n.next ≡ link (i + 1) boot.nodes
    linked zero n e = ap (λ x. x.next) (sym (some-inj root_dir n e))
    linked (suc i) n e = absurd cc

    back :
        (i : ℕ) (n : Node)
        → get_elem? boot.nodes i ≡ some n
        → n.last ≡ (if i == 0 then none else some (i - 1))
    back zero n e = ap (λ x. x.last) (sym (some-inj root_dir n e))
    back (suc i) n e = absurd cc

    older : (i : ℕ) (n : Node) → get_elem? boot.nodes i ≡ some n → n.parent ≤ i
    older zero n e = let p = ap (λ x. x.parent) (some-inj root_dir n e) in omega arith
    older (suc i) n e = absurd cc

    gates :
        (i : ℕ) (n : Node)
        → get_elem? boot.nodes i ≡ some n
        → GateFits boot.filesystems n.filesystem n.absolute_path
    gates zero n e =
        subst (λ x. GateFits boot.filesystems x.filesystem x.absolute_path) (some-inj root_dir n e)
          tt
    gates (suc i) n e = absurd cc

-- "/a/b" and "/c/b"
abbrev a_b : Text
a_b = 47 ∷ 97 ∷ 47 ∷ 98 ∷ []

abbrev c_b : Text
c_b = 47 ∷ 99 ∷ 47 ∷ 98 ∷ []

abbrev pub a_only : Text
a_only = 47 ∷ 97 ∷ []

abbrev b_only : Text
b_only = 47 ∷ 98 ∷ []

abbrev made : Text → Vfs → Vfs
made path vfs = elim (node_ctor 20 vfs path none) [ none ↦ vfs | some vfs' ↦ vfs' ]

abbrev c_only : Text
c_only = 47 ∷ 99 ∷ []

-- Where "/a/b" and "/c" are there, no node is made for "/c/b".
shared_names : length (made c_b (made c_only (made a_b boot))).nodes ≡ 4
unfolding node_ctor sub_paths
shared_names = refl

found_elsewhere : search_absolute 20 (made c_b (made a_b boot)).nodes c_b ≡ some (some 2)
unfolding node_ctor search_absolute
found_elsewhere = refl

node_ctor-search_absolute_example :
    (vfs' : Vfs) × (node_ctor 20 boot a_b none ≡ some vfs')
    × IsVfs vfs'
    × Extends boot.nodes vfs'.nodes
    × ((i : ℕ) × (search_absolute 20 vfs'.nodes a_b ≡ some (some i))
        × Reached vfs'.nodes root_node (nonempty (pieces a_b)) i)
node_ctor-search_absolute_example =
    node_ctor-search_absolute 20 boot a_b none boot-IsVfs (omega arith) (omega arith) (omega arith)

abbrev first_byte : Text → ℕ
first_byte [] = 0
first_byte (x ∷ xs) = x

no_b : (j : ℕ) → ¬ Named boot.nodes j (98 ∷ [])
no_b zero (n, e, h) =
    let g = ap (λ x. first_byte x.name) (some-inj root_dir n e) ∙ ap first_byte h in omega arith
no_b (suc j) (n, e, h) = absurd cc

create_node-search_relative_example :
    (nodes : List Node) × (create_node 20 boot 0 (98 ∷ []) ≡ some (1, nodes))
    × ((cur : ℕ) → cur < 1 → search_relative 20 nodes cur (98 ∷ []) ≡ some (some 1))
create_node-search_relative_example =
    create_node-search_relative 20 boot 0 (98 ∷ []) boot-IsVfs (omega arith) (omega arith) no_b

-- Two files, "/a" and "/b", made one after the other.
abbrev file_a : Node
file_a = record root_dir { name = 97 ∷ []; next = some 2; last = some 0 }

abbrev file_b : Node
file_b = record root_dir { name = 98 ∷ []; next = none; last = some 1 }

abbrev two_files : List Node
two_files = record root_dir { next = some 1; child = some 2 } ∷ file_a ∷ file_b ∷ []

two_files-IsChain : IsChain two_files
two_files-IsChain = record { linked = linked; back = back; older = older }
  where
    linked : (i : ℕ) (n : Node) → get_elem? two_files i ≡ some n → n.next ≡ link (i + 1) two_files
    linked zero n e =
        ap (λ x. x.next) (sym (some-inj (record root_dir { next = some 1; child = some 2 }) n e))
    linked (suc zero) n e = ap (λ x. x.next) (sym (some-inj file_a n e))
    linked (suc (suc zero)) n e = ap (λ x. x.next) (sym (some-inj file_b n e))
    linked (suc (suc (suc i))) n e = absurd cc

    back :
        (i : ℕ) (n : Node)
        → get_elem? two_files i ≡ some n
        → n.last ≡ (if i == 0 then none else some (i - 1))
    back zero n e =
        ap (λ x. x.last) (sym (some-inj (record root_dir { next = some 1; child = some 2 }) n e))
    back (suc zero) n e = ap (λ x. x.last) (sym (some-inj file_a n e))
    back (suc (suc zero)) n e = ap (λ x. x.last) (sym (some-inj file_b n e))
    back (suc (suc (suc i))) n e = absurd cc

    older : (i : ℕ) (n : Node) → get_elem? two_files i ≡ some n → n.parent ≤ i
    older zero n e =
        let p =
          ap (λ x. x.parent) (some-inj (record root_dir { next = some 1; child = some 2 }) n e) in
        omega arith
    older (suc zero) n e = let p = ap (λ x. x.parent) (some-inj file_a n e) in omega arith
    older (suc (suc zero)) n e = let p = ap (λ x. x.parent) (some-inj file_b n e) in omega arith
    older (suc (suc (suc i))) n e = absurd cc

two_files_leaves : (j : ℕ) (n : Node) → 1 ≤ j → get_elem? two_files j ≡ some n → n.child ≡ none
two_files_leaves zero n le e = absurd (omega arith)
two_files_leaves (suc zero) n le e = ap (λ x. x.child) (sym (some-inj file_a n e))
two_files_leaves (suc (suc zero)) n le e = ap (λ x. x.child) (sym (some-inj file_b n e))
two_files_leaves (suc (suc (suc i))) n le e = absurd cc

remove_cluster-from_to_example :
    (nodes' : List Node) × (remove_cluster 20 two_files (some 1) ≡ some (nodes', 1 ∷ 2 ∷ []))
remove_cluster-from_to_example =
    remove_cluster-from_to 20 1 two_files two_files-IsChain (omega arith) (omega arith)
      (omega arith) two_files_leaves

-- Removing "/a" takes "/b" along.
removed_both :
    remove 20 two_files a_only
    ≡ some (
      record root_dir { child = some 2 } ∷ record file_a { next = none } ∷ file_b ∷ [],
      1 ∷ 2 ∷ [],
    )
unfolding remove search_absolute
removed_both = refl

abbrev disk : Device
disk = record { filesystem = some 0; vfs_node = some 1 }

abbrev with_disk : Vfs
with_disk = record { nodes = two_files; filesystems = record { mount_gate = []; flags = 2 } ∷ [] }

abbrev mounted : Option Mounted
mounted = mount 20 with_disk (disk ∷ []) a_only b_only

mounted_gate :
    (elim mounted as (λ _. Option Fs) [
      | none ↦ none
      | some fails ↦ none
      | some (refreshes f t vfs) ↦ get_elem? vfs.filesystems f
    ])
    ≡ some (record { mount_gate = b_only; flags = 18 })
unfolding mount
mounted_gate = refl

create_node-Created_example :
    (nodes : List Node) × (create_node 20 boot 0 (98 ∷ []) ≡ some (1, nodes))
    × Created boot 0 (98 ∷ []) nodes
create_node-Created_example =
    create_node-Created boot 0 (98 ∷ []) boot-IsVfs 20 (omega arith) (omega arith)
