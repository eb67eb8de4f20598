-- ===== src/Vfs/Create.antt =====
-- What `create_node` does to the nodes (kernel/fs/vfs.cpp).
use crep_os.Base.{
  ℕ, ◌+◌, ◌-◌, ◌≤◌, ◌<◌, ◌≡◌, ◌∙◌, refl, sym, ap, subst, List, [], ◌∷◌, Option, none, some, true,
  ◌==◌, length, length-append, get_elem?, drop, arith, false, if◌then◌else◌, inl, inr, Bool-cases,
  some-inj, bit_and, leb,
}
use crep_os.Text.{Text}
use crep_os.Text.Path.{slash}
use crep_os.Vfs.Nodes.{
  Node, Fs, Vfs, root_node, update, create_node, fresh_node, with_next, relative_of, child_path,
  is_mounted,
}
use crep_os.Vfs.Chain.{IsChain, link, get-below, below-get}
use crep_os.Vfs.Joined.{
  last_loop_lem, joined, length-joined, At, at_new, at_last, at_old, joined-At, joined-new,
  joined-last, joined-old,
}

-- The mount gate of a node's file system is no longer than the node's path.
abbrev pub GateFits : List Fs → (filesystem : Option ℕ) → (path : Text) → Type 0
GateFits filesystems none path = Unit
GateFits filesystems (some f) path =
    (fs : Fs) × (get_elem? filesystems f ≡ some fs) × (length fs.mount_gate ≤ length path)

pub record IsVfs (vfs : Vfs) : Type 0 where
  pub chain : IsChain vfs.nodes
  pub gates :
      (i : ℕ) (n : Node)
      → get_elem? vfs.nodes i ≡ some n
      → GateFits vfs.filesystems n.filesystem n.absolute_path

-- What no operation here changes of a node.
pub record Kept (n n' : Node) : Type 0 where
  pub same_name : n'.name ≡ n.name
  pub same_parent : n'.parent ≡ n.parent
  pub same_path : n'.absolute_path ≡ n.absolute_path
  pub same_filesystem : n'.filesystem ≡ n.filesystem

-- Every old node is still at its place.
abbrev pub Extends : List Node → List Node → Type 0
Extends nodes nodes' =
    (i : ℕ) (n : Node)
    → get_elem? nodes i ≡ some n
    → (n' : Node) × (get_elem? nodes' i ≡ some n') × Kept n n'

abbrev pub unchanged : (n : Node) → Kept n n
unchanged n = record {
  same_name = refl;
  same_parent = refl;
  same_path = refl;
  same_filesystem = refl;
}

link-inside : (k : ℕ) (nodes : List Node) → k < length nodes → link k nodes ≡ some k
link-inside k nodes h = ground arith

link-outside : (k : ℕ) (nodes : List Node) → length nodes ≤ k → link k nodes ≡ none
link-outside k nodes h = ground arith

module _ (nodes : List Node) (last new : Node) where
  joined-Extends :
      get_elem? nodes (length nodes - 1) ≡ some last → Extends nodes (joined nodes last new)
  joined-Extends l i n e = elim (Bool-cases (i + 1 == length nodes)) [
    | inl f ↦
        let here : i ≡ length nodes - 1 = ground arith in
        let is : last ≡ n = some-inj last n (sym l ∙ ap (get_elem? nodes) (sym here) ∙ e) in
        let full = below-get nodes i n e in
        (
          with_next (some (length nodes)) last,
          ap (get_elem? (joined nodes last new)) here ∙ joined-last nodes last new (omega arith),
          subst (λ x. Kept x (with_next (some (length nodes)) last)) is
              (record {
                same_name = refl;
                same_parent = refl;
                same_path = refl;
                same_filesystem = refl;
              }),
        )
    | inr f ↦
        let full = below-get nodes i n e in
        (n, joined-old nodes last new i (ground arith) ∙ e, unchanged n)
  ]

  joined-IsChain :
      IsChain nodes
      → get_elem? nodes (length nodes - 1) ≡ some last
      → new.next ≡ none
      → new.last ≡ some (length nodes - 1)
      → new.parent ≤ length nodes
      → IsChain (joined nodes last new)
  joined-IsChain w l end behind up = record {
    linked = λ i n e. linked_at i n (joined-At nodes last new i n e);
    back = λ i n e. back_at i n (joined-At nodes last new i n e);
    older = λ i n e. older_at i n (joined-At nodes last new i n e);
  }
    where
      total : length (joined nodes last new) ≡ length nodes + 1
      total = length-joined nodes last new

      linked_at :
          (i : ℕ) (n : Node) → At nodes last new i n → n.next ≡ link (i + 1) (joined nodes last new)
      linked_at i n (at_new p q) =
          ap (λ x. x.next) q
          ∙ end
          ∙ sym (link-outside (i + 1) (joined nodes last new) (omega (arith, total)))
      linked_at i n (at_last p q) =
          ap (λ x. x.next) q
          ∙ ap some (sym p)
          ∙ sym (link-inside (i + 1) (joined nodes last new) (omega (arith, total)))
      linked_at i n (at_old p q) =
          w.linked i n q
          ∙ link-inside (i + 1) nodes (omega arith)
          ∙ sym (link-inside (i + 1) (joined nodes last new) (omega (arith, total)))

      full : 0 < length nodes
      full = let b = below-get nodes (length nodes - 1) last l in omega arith

      back_at :
          (i : ℕ) (n : Node)
          → At nodes last new i n
          → n.last ≡ (if i == 0 then none else some (i - 1))
      back_at i n (at_new p q) =
          let some_place : (i == 0) ≡ false = ground (arith, full) in
          ap (λ x. x.last) q ∙ behind ∙ ap (λ k. some (k - 1)) (sym p) ∙ rw some_place refl
      back_at i n (at_last p q) =
          let here : length nodes - 1 ≡ i = omega arith in
          ap (λ x. x.last) q
          ∙ w.back (length nodes - 1) last l
          ∙ ap (λ k. if k == 0 then none else some (k - 1)) here
      back_at i n (at_old p q) = w.back i n q

      older_at : (i : ℕ) (n : Node) → At nodes last new i n → n.parent ≤ i
      older_at i n (at_new p q) = let r = ap (λ x. x.parent) q in omega arith
      older_at i n (at_last p q) =
          let r = ap (λ x. x.parent) q in let s = w.older (length nodes - 1) last l in omega arith
      older_at i n (at_old p q) = w.older i n q

length-child_path :
    (parent : ℕ) (path name : Text) → length path ≤ length (child_path parent path name)
length-child_path parent path name = elim (Bool-cases (parent == root_node)) [
  | inl e ↦ rw e (omega (arith, length-append path name))
  | inr e ↦ rw e (omega (arith, length-append path (slash ∷ name)))
]

GateFits-child_path :
    (filesystems : List Fs) (filesystem : Option ℕ) (parent : ℕ) (path name : Text)
    → GateFits filesystems filesystem path
    → GateFits filesystems filesystem (child_path parent path name)
GateFits-child_path filesystems none parent path name g = tt
GateFits-child_path filesystems (some f) parent path name (fs, e, short) =
    (fs, e, let l = length-child_path parent path name in omega arith)

relative_of-GateFits :
    (filesystems : List Fs) (filesystem : Option ℕ) (path : Text)
    → GateFits filesystems filesystem path
    → (relative : Text) × (relative_of filesystems filesystem path ≡ some relative)
relative_of-GateFits filesystems none path g = ([], refl)
relative_of-GateFits filesystems (some f) path (fs, e, short) =
    elim (Bool-cases (bit_and fs.flags is_mounted == 0)) [
      | inl h ↦ ([], rw (relative_of, e, h) refl)
      | inr h ↦
          let enough : leb (length fs.mount_gate) (length path) ≡ true = ground arith in
          (drop (length fs.mount_gate) path, rw (relative_of, e, h, enough) refl)
    ]

-- What holds of the nodes that `create_node` returns.
pub record Created (vfs : Vfs) (parent : ℕ) (name : Text) (nodes : List Node) : Type 0 where
  pub sound : IsVfs (record vfs { nodes = nodes })
  pub extends : Extends vfs.nodes nodes
  pub longer : length nodes ≡ length vfs.nodes + 1
  pub node : Node
  pub parent_node : Node
  pub at_parent : get_elem? vfs.nodes parent ≡ some parent_node
  pub at_node : get_elem? nodes (length vfs.nodes) ≡ some node
  pub named : node.name ≡ name
  pub under : node.parent ≡ parent
  pub path : node.absolute_path ≡ child_path parent parent_node.absolute_path name
  pub inherits : node.filesystem ≡ parent_node.filesystem

module _ (vfs : Vfs) (parent : ℕ) (name : Text) (w : IsVfs vfs) where
  Created-joined :
      (p last : Node) (relative : Text)
      → get_elem? vfs.nodes parent ≡ some p
      → get_elem? vfs.nodes (length vfs.nodes - 1) ≡ some last
      → Created vfs parent name
          (joined vfs.nodes last (fresh_node parent p relative name (length vfs.nodes - 1)))
  Created-joined p last relative e l =
      let inside = below-get vfs.nodes parent p e in
      record {
        sound = record {
          chain = joined-IsChain vfs.nodes last new w.chain l refl refl (omega arith);
          gates = λ i n f. gates_at i n (joined-At vfs.nodes last new i n f);
        };
        extends = joined-Extends vfs.nodes last new l;
        longer = length-joined vfs.nodes last new;
        node = new;
        parent_node = p;
        at_parent = e;
        at_node = joined-new vfs.nodes last new;
        named = refl;
        under = refl;
        path = refl;
        inherits = refl;
      }
    where
      new : Node
      new = fresh_node parent p relative name (length vfs.nodes - 1)

      gates_at :
          (i : ℕ) (n : Node)
          → At vfs.nodes last new i n
          → GateFits vfs.filesystems n.filesystem n.absolute_path
      gates_at i n (at_new f g) =
          subst (λ x. GateFits vfs.filesystems x.filesystem x.absolute_path) (sym g)
            (GateFits-child_path vfs.filesystems p.filesystem parent p.absolute_path name
              (w.gates parent p e))
      gates_at i n (at_last f g) =
          subst (λ x. GateFits vfs.filesystems x.filesystem x.absolute_path) (sym g)
            (w.gates (length vfs.nodes - 1) last l)
      gates_at i n (at_old f g) = w.gates i n g

  -- Under a node of a sound tree and with fuel above its size, `create_node` ends, touches no
  -- memory outside the nodes, and keeps the tree sound (one chain linked both ways, parents older
  -- than children, mount gates no longer than paths); the new node is the last one, with its
  -- name, parent, file system and path, and the old nodes keep theirs.
  pub create_node-Created :
      (fuel : ℕ)
      → parent < length vfs.nodes
      → length vfs.nodes < fuel
      → (nodes : List Node) × (create_node fuel vfs parent name ≡ some (length vfs.nodes, nodes))
        × Created vfs parent name nodes
  unfolding create_node update
  create_node-Created fuel inside enough =
      let (p, e) = get-below vfs.nodes parent inside in
      let (last, l) = get-below vfs.nodes (length vfs.nodes - 1) (omega arith) in
      let (relative, r) =
        relative_of-GateFits vfs.filesystems p.filesystem (child_path parent p.absolute_path name) (
          GateFits-child_path vfs.filesystems p.filesystem parent p.absolute_path name
            (w.gates parent p e)) in
      let t = last_loop_lem vfs.nodes fuel parent w.chain inside (omega arith) in
      (
        joined vfs.nodes last (fresh_node parent p relative name (length vfs.nodes - 1)),
        rw (create_node, e, r, t, update, l) refl,
        Created-joined p last relative e l,
      )
