-- ===== src/Vfs/Shared.antt =====
-- The one chain that all directories share (kernel/fs/vfs.cpp).
use crep_os.Base.{
  ℕ, zero, suc, ◌+◌, ◌-◌, ◌≤◌, ◌<◌, ◌≡◌, ◌∙◌, refl, sym, ap, List, [], ◌∷◌, Option, none, some,
  true, false, if◌then◌else◌, ◌==◌, ltb, length, get_elem?, set, arith, inl, inr, Bool-cases,
  some-inj,
}
use crep_os.Text.{Text}
use crep_os.Vfs.Nodes.{Node, Vfs, update, create_node, search_relative, with_next}
use crep_os.Vfs.Chain.{IsChain, Named, FirstFrom, get-below, below-get, search_relative-FirstFrom}
use crep_os.Vfs.Joined.{length-set, get-set_other}
use crep_os.Vfs.Create.{IsVfs, Created, create_node-Created}
use crep_os.Vfs.Remove.{remove_cluster}

-- A node of a name that no node of a sound tree has yet, made under any parent with fuel enough, is
-- what `search_relative` then finds under that name from every old node, whatever its directory.
pub create_node-search_relative :
    (fuel : ℕ) (vfs : Vfs) (parent : ℕ) (name : Text)
    → IsVfs vfs
    → parent < length vfs.nodes
    → length vfs.nodes + 1 < fuel
    → ((j : ℕ) → ¬ Named vfs.nodes j name)
    → (nodes : List Node) × (create_node fuel vfs parent name ≡ some (length vfs.nodes, nodes))
      × ((cur : ℕ)
          → cur < length vfs.nodes
          → search_relative fuel nodes cur name ≡ some (some (length vfs.nodes)))
create_node-search_relative fuel vfs parent name w inside enough fresh =
    let (nodes, e, c) = create_node-Created vfs parent name w fuel inside (omega arith) in
    (nodes, e, λ cur below. from nodes c cur below)
  where
    from :
        (nodes : List Node)
        → Created vfs parent name nodes
        → (cur : ℕ) → cur < length vfs.nodes
        → search_relative fuel nodes cur name ≡ some (some (length vfs.nodes))
    from nodes c cur below =
        let l = c.longer in
        let (n, e) = get-below nodes cur (omega arith) in
        let older = c.sound.chain.older cur n e in
        let (o, f, first) =
          search_relative-FirstFrom nodes name fuel cur n c.sound.chain e (omega arith) in
        f ∙ ap some (found o (n.parent + 1) (omega arith) first)
      where
        old_name : (i : ℕ) → Named nodes i name → i < length vfs.nodes → Named vfs.nodes i name
        old_name i (m, g, h) low =
            let (m', g') = get-below vfs.nodes i low in
            let (m'', g'', k) = c.extends i m' g' in
            (m', g', sym k.same_name ∙ ap (λ x. x.name) (some-inj m'' m (sym g'' ∙ g)) ∙ h)

        found :
            (o : Option ℕ) (from : ℕ)
            → from ≤ length vfs.nodes
            → FirstFrom nodes from name o
            → o ≡ some (length vfs.nodes)
        found none from low first =
            absurd (first (length vfs.nodes) low (c.node, c.at_node, c.named))
        found (some i) from low (above, this, first) =
            elim (Bool-cases (ltb i (length vfs.nodes))) [
              | inl h ↦ absurd (fresh i (old_name i this (ground arith)))
              | inr h ↦
                  let (m, g, _) = this in
                  let high = below-get nodes i m g in
                  let l = c.longer in let here : i ≡ length vfs.nodes = ground arith in ap some here
            ]

-- The numbers from `i` on, `n` of them.
abbrev pub from_to : (i n : ℕ) → List ℕ
from_to i zero = []
from_to i (suc n) = i ∷ from_to (i + 1) n

-- Nodes that a walk from `i` on sees as the chain has them, without children.
record Ahead (total i : ℕ) (nodes : List Node) : Type 0 where
  size : length nodes ≡ total
  leaf : (j : ℕ) (n : Node) → i ≤ j → get_elem? nodes j ≡ some n → n.child ≡ none
  onward :
      (j : ℕ) (n : Node)
      → i ≤ j
      → get_elem? nodes j ≡ some n
      → n.next ≡ (if ltb (j + 1) total then some (j + 1) else none)
  back :
      (j : ℕ) (n : Node)
      → i ≤ j
      → get_elem? nodes j ≡ some n
      → n.last ≡ (if j == 0 then none else some (j - 1))

Ahead-cut :
    (total i : ℕ) (nodes : List Node) (v : Node)
    → 0 < i
    → Ahead total i nodes
    → Ahead total (i + 1) (set nodes (i - 1) v)
Ahead-cut total i nodes v pos a = record {
  size = length-set nodes (i - 1) v ∙ a.size;
  leaf = λ j n le e. a.leaf j n (omega arith) (kept j n le e);
  onward = λ j n le e. a.onward j n (omega arith) (kept j n le e);
  back = λ j n le e. a.back j n (omega arith) (kept j n le e);
}
  where
    kept :
        (j : ℕ) (n : Node)
        → i + 1 ≤ j
        → get_elem? (set nodes (i - 1) v) j ≡ some n
        → get_elem? nodes j ≡ some n
    kept j n le e = sym (get-set_other nodes (i - 1) j v (λ q. omega arith)) ∙ e

remove_cluster_step :
    (fuel i : ℕ) (nodes : List Node) (n l : Node)
    → get_elem? nodes i ≡ some n
    → n.child ≡ none
    → n.last ≡ some (i - 1)
    → get_elem? nodes (i - 1) ≡ some l
    → get_elem? (set nodes (i - 1) (with_next none l)) i ≡ some n
    → (rest : List Node × List ℕ)
    → remove_cluster fuel (set nodes (i - 1) (with_next none l)) n.next ≡ some rest
    → remove_cluster (suc fuel) nodes (some i) ≡ some (rest.0, i ∷ rest.1)
unfolding remove_cluster update
remove_cluster_step fuel i nodes n l e leaf last f g rest h =
    rw (remove_cluster, e, leaf, last, update, f, g, h) refl

remove_cluster-Ahead :
    (fuel total i left : ℕ) (nodes : List Node)
    → i + left ≡ total
    → 0 < i
    → left < fuel
    → Ahead total i nodes
    → (nodes' : List Node) × (remove_cluster fuel nodes (if ltb i total then some i else none)
        ≡ some (nodes', from_to i left))
unfolding remove_cluster
remove_cluster-Ahead zero total i left nodes sum pos enough a = absurd (omega arith)
remove_cluster-Ahead (suc fuel) total i zero nodes sum pos enough a =
    let done : ltb i total ≡ false = ground arith in (nodes, rw done refl)
remove_cluster-Ahead (suc fuel) total i (suc left) nodes sum pos enough a =
    let size = a.size in
    let (n, e) = get-below nodes i (omega arith) in
    let (l, f) = get-below nodes (i - 1) (omega arith) in
    let more : ltb i total ≡ true = ground arith in
    let inner : (i == 0) ≡ false = ground arith in
    let next = Ahead-cut total i nodes (with_next none l) pos a in
    let (nodes', g) =
      remove_cluster-Ahead fuel total (i + 1) left (set nodes (i - 1) (with_next none l))
        (omega arith) (omega arith) (omega arith) next in
    (
      nodes',
      rw more (
          remove_cluster_step fuel i nodes n l e (a.leaf i n (omega arith) e)
            (a.back i n (omega arith) e ∙ rw inner refl) f
            (get-set_other nodes (i - 1) i (with_next none l) (λ q. omega arith) ∙ e)
            (nodes', from_to (i + 1) left) (rw (a.onward i n (omega arith) e) g)),
    )

-- Where the nodes are one sound chain, the node at `i` is not the root, no node from `i` on has a
-- child, and the fuel is above the size, `remove_cluster` of the node at `i` deletes it and every
-- node made after it, whatever their directories, once each in the order of their making.
pub remove_cluster-from_to :
    (fuel i : ℕ) (nodes : List Node)
    → IsChain nodes
    → 0 < i
    → i < length nodes
    → length nodes < fuel
    → ((j : ℕ) (n : Node) → i ≤ j → get_elem? nodes j ≡ some n → n.child ≡ none)
    → (nodes' : List Node) × (remove_cluster fuel nodes (some i)
        ≡ some (nodes', from_to i (length nodes - i)))
remove_cluster-from_to fuel i nodes w pos inside enough leaves =
    let here : ltb i (length nodes) ≡ true = ground arith in
    let (nodes', e) =
      remove_cluster-Ahead fuel (length nodes) i (length nodes - i) nodes (omega arith) pos
        (omega arith)
        (record {
          size = refl;
          leaf = leaves;
          onward = λ j n le f. w.linked j n f;
          back = λ j n le f. w.back j n f;
        }) in
    (nodes', ap (λ o. remove_cluster fuel nodes o) (sym (rw here refl)) ∙ e)
