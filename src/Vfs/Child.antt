-- ===== src/Vfs/Child.antt =====
-- A node that gets a child (kernel/fs/vfs.cpp).
use crep_os.Base.{
  ℕ, ◌+◌, ◌≤◌, ◌≡◌, ◌∙◌, ◌⊎◌, refl, sym, ap, subst, Option, some, ◌==◌, length, get_elem?, set,
  arith, if◌then◌else◌, ◌-◌, none, inl, inr, Bool-cases, some-inj, ==_iff,
}
use crep_os.Vfs.Nodes.{Node, Vfs, with_child}
use crep_os.Vfs.Chain.{link, below-get}
use crep_os.Vfs.Joined.{length-set, get-set_other, get-set_same}
use crep_os.Vfs.Create.{GateFits, IsVfs, Kept, Extends, unchanged}

module _ (vfs : Vfs) (i : ℕ) (n : Node) (child : Option ℕ) where
  abbrev pub with_child_at : Vfs
  with_child_at = record vfs { nodes = set vfs.nodes i (with_child child n) }

  child-cases :
      (j : ℕ) (m : Node)
      → get_elem? vfs.nodes i ≡ some n
      → get_elem? with_child_at.nodes j ≡ some m
      → ((j ≡ i) × (m ≡ with_child child n)) ⊎ (get_elem? vfs.nodes j ≡ some m)
  child-cases j m e f = elim (Bool-cases (j == i)) [
    | inl h ↦
        let same = (==_iff j i).0 h in
        inl (
          same,
          some-inj m (with_child child n) (
              sym f
              ∙ ap (get_elem? with_child_at.nodes) same
              ∙ get-set_same vfs.nodes i (with_child child n) (below-get vfs.nodes i n e)),
        )
    | inr h ↦ inr (sym (get-set_other vfs.nodes i j (with_child child n) (λ q. ground arith)) ∙ f)
  ]

  pub child-IsVfs : get_elem? vfs.nodes i ≡ some n → IsVfs vfs → IsVfs with_child_at
  child-IsVfs e w = record {
    chain = record {
      linked = λ j m f. linked_at j m (child-cases j m e f);
      back = λ j m f. back_at j m (child-cases j m e f);
      older = λ j m f. older_at j m (child-cases j m e f);
    };
    gates = λ j m f. gates_at j m (child-cases j m e f);
  }
    where
      total : length with_child_at.nodes ≡ length vfs.nodes
      total = length-set vfs.nodes i (with_child child n)

      linked_at :
          (j : ℕ) (m : Node)
          → ((j ≡ i) × (m ≡ with_child child n)) ⊎ (get_elem? vfs.nodes j ≡ some m)
          → m.next ≡ link (j + 1) with_child_at.nodes
      linked_at j m (inl (p, q)) =
          ap (λ x. x.next) q
          ∙ w.chain.linked i n e
          ∙ ap (λ k. link (k + 1) vfs.nodes) (sym p)
          ∙ rw total refl
      linked_at j m (inr f) = w.chain.linked j m f ∙ rw total refl

      back_at :
          (j : ℕ) (m : Node)
          → ((j ≡ i) × (m ≡ with_child child n)) ⊎ (get_elem? vfs.nodes j ≡ some m)
          → m.last ≡ (if j == 0 then none else some (j - 1))
      back_at j m (inl (p, q)) =
          ap (λ x. x.last) q
          ∙ w.chain.back i n e
          ∙ ap (λ k. if k == 0 then none else some (k - 1)) (sym p)
      back_at j m (inr f) = w.chain.back j m f

      older_at :
          (j : ℕ) (m : Node)
          → ((j ≡ i) × (m ≡ with_child child n)) ⊎ (get_elem? vfs.nodes j ≡ some m)
          → m.parent ≤ j
      older_at j m (inl (p, q)) =
          let r = ap (λ x. x.parent) q in let s = w.chain.older i n e in omega arith
      older_at j m (inr f) = w.chain.older j m f

      gates_at :
          (j : ℕ) (m : Node)
          → ((j ≡ i) × (m ≡ with_child child n)) ⊎ (get_elem? vfs.nodes j ≡ some m)
          → GateFits vfs.filesystems m.filesystem m.absolute_path
      gates_at j m (inl (p, q)) =
          subst (λ x. GateFits vfs.filesystems x.filesystem x.absolute_path) (sym q) (w.gates i n e)
      gates_at j m (inr f) = w.gates j m f

  pub child-Extends : get_elem? vfs.nodes i ≡ some n → Extends vfs.nodes with_child_at.nodes
  child-Extends e j m f = elim (Bool-cases (j == i)) [
    | inl h ↦
        let same = (==_iff j i).0 h in
        let is : n ≡ m = some-inj n m (sym e ∙ ap (get_elem? vfs.nodes) (sym same) ∙ f) in
        (
          with_child child n,
          ap (get_elem? with_child_at.nodes) same
              ∙ get-set_same vfs.nodes i (with_child child n) (below-get vfs.nodes i n e),
          subst (λ x. Kept x (with_child child n)) is
              (record {
                same_name = refl;
                same_parent = refl;
                same_path = refl;
                same_filesystem = refl;
              }),
        )
    | inr h ↦
        (m, get-set_other vfs.nodes i j (with_child child n) (λ q. ground arith) ∙ f, unchanged m)
  ]
