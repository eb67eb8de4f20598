-- ===== src/Vfs/Chain.antt =====
-- The chain of the nodes, and what a search along it finds (kernel/fs/vfs.cpp).
use crep_os.Base.{
  ℕ, zero, suc, ◌+◌, ◌-◌, ◌≤◌, ◌<◌, ◌≡◌, ◌∙◌, ◌↔◌, ◌⊎◌, refl, sym, ap, subst, List, [], ◌∷◌, Option,
  none, some, true, false, if◌then◌else◌, ◌==◌, ltb, length, get_elem?, arith, inl, inr, Bool-cases,
  ==_iff, some-inj,
}
use crep_os.Text.{Text, same}
use crep_os.Vfs.Nodes.{Node, search_loop, search_relative}

pub same_iff : (s t : Text) → (same s t ≡ true) ↔ (s ≡ t)
unfolding same
same_iff [] [] = (λ _. refl, λ _. refl)
same_iff [] (y ∷ ys) = (λ e. cc, λ e. cc)
same_iff (x ∷ xs) [] = (λ e. cc, λ e. cc)
same_iff (x ∷ xs) (y ∷ ys) =
    let r = same_iff xs ys in let d = ==_iff x y in (λ h. ground arith, λ h. ground arith)

-- The place of a node, and null behind the last one.
abbrev pub link : ℕ → List Node → Option ℕ
link i nodes = if ltb i (length nodes) then some i else none

pub get-below :
    (nodes : List Node) (i : ℕ) → i < length nodes → (n : Node) × (get_elem? nodes i ≡ some n)
get-below [] i h = absurd (omega arith)
get-below (x ∷ xs) zero h = (x, refl)
get-below (x ∷ xs) (suc i) h = get-below xs i (omega arith)

pub below-get :
    (nodes : List Node) (i : ℕ) (n : Node) → get_elem? nodes i ≡ some n → i < length nodes
below-get [] i n e = absurd cc
below-get (x ∷ xs) zero n e = omega arith
below-get (x ∷ xs) (suc i) n e = omega (arith, below-get xs i n e)

-- The node at `i` has the name.
abbrev pub Named : List Node → (i : ℕ) → Text → Type 0
Named nodes i name = (n : Node) × (get_elem? nodes i ≡ some n) × (n.name ≡ name)

-- The first node from `k` on that has the name.
abbrev pub FirstFrom : List Node → (k : ℕ) → Text → Option ℕ → Type 0
FirstFrom nodes k name none = (j : ℕ) → k ≤ j → ¬ Named nodes j name
FirstFrom nodes k name (some i) =
    (k ≤ i) × Named nodes i name × ((j : ℕ) → k ≤ j → j < i → ¬ Named nodes j name)

-- One chain holds every node in the order of their making, and a parent is older than its children.
pub record IsChain (nodes : List Node) : Type 0 where
  pub linked : (i : ℕ) (n : Node) → get_elem? nodes i ≡ some n → n.next ≡ link (i + 1) nodes
  pub back :
      (i : ℕ) (n : Node)
      → get_elem? nodes i ≡ some n
      → n.last ≡ (if i == 0 then none else some (i - 1))
  pub older : (i : ℕ) (n : Node) → get_elem? nodes i ≡ some n → n.parent ≤ i

module _ (nodes : List Node) (name : Text) where
  search_loop-end : (fuel : ℕ) → search_loop (suc fuel) nodes none name ≡ some none
  unfolding search_loop
  search_loop-end fuel = refl

  search_loop-hit :
      (fuel i : ℕ) (n : Node)
      → get_elem? nodes i ≡ some n
      → same n.name name ≡ true
      → search_loop (suc fuel) nodes (some i) name ≡ some (some i)
  unfolding search_loop
  search_loop-hit fuel i n e h = rw (search_loop, e, h) refl

  search_loop-miss :
      (fuel i : ℕ) (n : Node)
      → get_elem? nodes i ≡ some n
      → same n.name name ≡ false
      → search_loop (suc fuel) nodes (some i) name ≡ search_loop fuel nodes n.next name
  unfolding search_loop
  search_loop-miss fuel i n e h = rw (search_loop, e, h) refl

  not-Named :
      (i : ℕ) (n : Node)
      → get_elem? nodes i ≡ some n
      → same n.name name ≡ false
      → ¬ Named nodes i name
  not-Named i n e h (m, f, g) =
      let q = (same_iff n.name name).1 (ap (λ x. x.name) (some-inj n m (sym e ∙ f)) ∙ g) in cc

  FirstFrom-next :
      (k : ℕ) (o : Option ℕ)
      → ¬ Named nodes k name
      → FirstFrom nodes (k + 1) name o
      → FirstFrom nodes k name o
  FirstFrom-next k none h f = λ j le. elim (Bool-cases (j == k)) [
    | inl e ↦ subst (λ i. ¬ Named nodes i name) (sym ((==_iff j k).0 e)) h
    | inr e ↦ f j (ground arith)
  ]
  FirstFrom-next k (some i) h (le, this, first) = (
    omega arith,
    this,
    λ j above below. elim (Bool-cases (j == k)) [
      | inl e ↦ subst (λ i. ¬ Named nodes i name) (sym ((==_iff j k).0 e)) h
      | inr e ↦ first j (ground arith) below
    ],
  )

  pub search_loop-FirstFrom :
      (fuel k : ℕ)
      → IsChain nodes
      → length nodes - k < fuel
      → (o : Option ℕ) × (search_loop fuel nodes (link k nodes) name ≡ some o)
        × FirstFrom nodes k name o
  search_loop-FirstFrom zero k w h = absurd (omega arith)
  search_loop-FirstFrom (suc fuel) k w h = elim (Bool-cases (ltb k (length nodes))) [
    | inl e ↦
        let (n, f) = get-below nodes k (ground arith) in
        at_node e (search_loop-FirstFrom fuel (k + 1) w (ground arith)) n f
          (Bool-cases (same n.name name))
    | inr e ↦ (
      none,
      rw e (search_loop-end fuel),
      λ j le (n, f, g). let b = below-get nodes j n f in absurd (ground arith),
    )
  ]
    where
      at_node :
          ltb k (length nodes) ≡ true
          → ((o : Option ℕ) × (search_loop fuel nodes (link (k + 1) nodes) name ≡ some o)
              × FirstFrom nodes (k + 1) name o)
          → (n : Node) → get_elem? nodes k ≡ some n
          → (same n.name name ≡ true) ⊎ (same n.name name ≡ false)
          → (o : Option ℕ) × (search_loop (suc fuel) nodes (link k nodes) name ≡ some o)
            × FirstFrom nodes k name o
      at_node e later n f (inl hit) = (
        some k,
        rw e (search_loop-hit fuel k n f hit),
        (omega arith, (n, f, (same_iff n.name name).0 hit), λ j above below. absurd (omega arith)),
      )
      at_node e (o, g, first) n f (inr miss) = (
        o,
        rw (e, search_loop-miss fuel k n f miss, w.linked k n f) g,
        FirstFrom-next k o (not-Named k n f miss) first,
      )

  -- With the fuel to walk along the chain, `search_relative` ends, and finds the first node of the
  -- chain behind the parent that has the name.
  pub search_relative-FirstFrom :
      (fuel this : ℕ) (n : Node)
      → IsChain nodes
      → get_elem? nodes this ≡ some n
      → length nodes < fuel
      → (o : Option ℕ) × (search_relative fuel nodes this name ≡ some o)
        × FirstFrom nodes (n.parent + 1) name o
  unfolding search_relative
  search_relative-FirstFrom fuel this n w e h =
      let inside = below-get nodes this n e in
      let (p, f) = get-below nodes n.parent (let older = w.older this n e in omega arith) in
      rw (e, search_relative, f, w.linked n.parent p f)
        (search_loop-FirstFrom fuel (n.parent + 1) w (omega arith))
