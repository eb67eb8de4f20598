-- ===== src/Vfs/Remove.antt =====
-- Removing nodes (kernel/fs/vfs.cpp). Deleted memory keeps its bytes (kernel/mm/slab.cpp
-- only clears the bit of an object), so a deleted node is read as it was; the addresses that were
-- deleted are listed in their order.
use crep_os.Base.{ℕ, zero, suc, List, [], ◌∷◌, ◌++◌, Option, none, some, get_elem?}
use crep_os.Text.{Text}
use crep_os.Vfs.Nodes.{Node, update, with_next, search_absolute}

unfoldable pub remove_cluster :
    (fuel : ℕ) → List Node → (cur : Option ℕ) → Option (List Node × List ℕ)
unfolding update
remove_cluster zero nodes cur = none
remove_cluster (suc fuel) nodes none = some (nodes, [])
remove_cluster (suc fuel) nodes (some i) = elim (get_elem? nodes i) [
  | none ↦ none
  | some n ↦
      let children : Option (List Node × List ℕ) = elim n.child [
        | none ↦ some (nodes, [])
        | some c ↦ remove_cluster fuel nodes (some c)
      ] in
      elim children [
        | none ↦ none
        | some (nodes1, below) ↦ elim n.last [
          | none ↦ none
          | some l ↦ elim (update nodes1 l (with_next none)) [
            | none ↦ none
            | some nodes2 ↦ elim (get_elem? nodes2 i) [
              | none ↦ none
              | some m ↦ elim (remove_cluster fuel nodes2 m.next) [
                | none ↦ none
                | some (nodes3, behind) ↦ some (nodes3, below ++ i ∷ behind)
              ]
            ]
          ]
        ]
      ]
]

-- `node::remove`
unfoldable pub remove : (fuel : ℕ) → List Node → (path : Text) → Option (List Node × List ℕ)
unfolding remove_cluster search_absolute
remove fuel nodes path = elim (search_absolute fuel nodes path) [
  | none ↦ none
  | some none ↦ some (nodes, [])
  | some (some i) ↦ remove_cluster fuel nodes (some i)
]
