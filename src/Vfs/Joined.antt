-- ===== src/Vfs/Joined.antt =====
-- The end of the chain, and the store with a new node behind it (kernel/fs/vfs.cpp).
use crep_os.Base.{
  ℕ, zero, suc, ◌+◌, ◌-◌, ◌<◌, ◌≡◌, ◌≢◌, ◌∙◌, refl, sym, ap, List, [], ◌∷◌, ◌++◌, none, some, ◌==◌,
  ltb, length, length-append, get_elem?, set, arith, inl, inr, Bool-cases, some-inj, ==_iff,
}
use crep_os.Vfs.Nodes.{Node, last_loop, with_next}
use crep_os.Vfs.Chain.{IsChain, get-below, below-get}

pub length-set : (xs : List Node) (i : ℕ) (v : Node) → length (set xs i v) ≡ length xs
length-set [] i v = refl
length-set (x ∷ xs) zero v = refl
length-set (x ∷ xs) (suc i) v = omega (arith, length-set xs i v)

pub get-set_other :
    (xs : List Node) (i j : ℕ) (v : Node) → j ≢ i → get_elem? (set xs i v) j ≡ get_elem? xs j
get-set_other [] i j v h = refl
get-set_other (x ∷ xs) zero zero v h = absurd (h refl)
get-set_other (x ∷ xs) zero (suc j) v h = refl
get-set_other (x ∷ xs) (suc i) zero v h = refl
get-set_other (x ∷ xs) (suc i) (suc j) v h = get-set_other xs i j v (λ e. h (ap suc e))

pub get-set_same :
    (xs : List Node) (i : ℕ) (v : Node) → i < length xs → get_elem? (set xs i v) i ≡ some v
get-set_same [] i v h = absurd (omega arith)
get-set_same (x ∷ xs) zero v h = refl
get-set_same (x ∷ xs) (suc i) v h = get-set_same xs i v (omega arith)

get-append_left :
    (xs ys : List Node) (j : ℕ) → j < length xs → get_elem? (xs ++ ys) j ≡ get_elem? xs j
get-append_left [] ys j h = absurd (omega arith)
get-append_left (x ∷ xs) ys zero h = refl
get-append_left (x ∷ xs) ys (suc j) h = get-append_left xs ys j (omega arith)

get-append_end : (xs : List Node) (y : Node) → get_elem? (xs ++ y ∷ []) (length xs) ≡ some y
get-append_end [] y = refl
get-append_end (x ∷ xs) y = get-append_end xs y

module _ (nodes : List Node) where
  last_loop-end :
      (fuel i : ℕ) (n : Node)
      → get_elem? nodes i ≡ some n
      → n.next ≡ none
      → last_loop (suc fuel) nodes i ≡ some i
  unfolding last_loop
  last_loop-end fuel i n e h = rw (last_loop, e, h) refl

  last_loop-on :
      (fuel i j : ℕ) (n : Node)
      → get_elem? nodes i ≡ some n
      → n.next ≡ some j
      → last_loop (suc fuel) nodes i ≡ last_loop fuel nodes j
  unfolding last_loop
  last_loop-on fuel i j n e h = rw (last_loop, e, h) refl

  pub last_loop_lem :
      (fuel k : ℕ)
      → IsChain nodes
      → k < length nodes
      → length nodes - k < fuel
      → last_loop fuel nodes k ≡ some (length nodes - 1)
  last_loop_lem zero k w inside h = absurd (omega arith)
  last_loop_lem (suc fuel) k w inside h =
      let (n, e) = get-below nodes k inside in
      elim (Bool-cases (ltb (k + 1) (length nodes))) [
        | inl f ↦
            last_loop-on fuel k (k + 1) n e (w.linked k n e ∙ rw f refl)
            ∙ last_loop_lem fuel (k + 1) w (ground arith) (omega arith)
        | inr f ↦
            let last : k ≡ length nodes - 1 = ground arith in
            last_loop-end fuel k n e (w.linked k n e ∙ rw f refl) ∙ ap some last
      ]

-- The nodes with a new one behind the last, `last`.
abbrev pub joined : List Node → (last new : Node) → List Node
joined nodes last new =
    set nodes (length nodes - 1) (with_next (some (length nodes)) last) ++ new ∷ []

pub length-joined :
    (nodes : List Node) (last new : Node) → length (joined nodes last new) ≡ length nodes + 1
length-joined nodes last new =
    let a =
      length-append (set nodes (length nodes - 1) (with_next (some (length nodes)) last))
        (new ∷ []) in
    let b = length-set nodes (length nodes - 1) (with_next (some (length nodes)) last) in
    omega arith

pub data At (nodes : List Node) (last new : Node) (i : ℕ) (n : Node) : Type 0 where
  at_new : i ≡ length nodes → n ≡ new → At nodes last new i n
  at_last : i + 1 ≡ length nodes → n ≡ with_next (some (length nodes)) last → At nodes last new i n
  at_old : i + 1 < length nodes → get_elem? nodes i ≡ some n → At nodes last new i n

pub joined-At :
    (nodes : List Node) (last new : Node) (i : ℕ) (n : Node)
    → get_elem? (joined nodes last new) i ≡ some n
    → At nodes last new i n
joined-At nodes last new i n e = elim (Bool-cases (i == length nodes)) [
  | inl f ↦
      let g = (==_iff i (length nodes)).0 f in
      at_new g (
        some-inj n new (
          sym e
          ∙ ap (get_elem? (joined nodes last new)) (g ∙ sym same_length)
          ∙ get-append_end before new))
  | inr f ↦ elim (Bool-cases (i + 1 == length nodes)) [
    | inl g ↦
        let h : i ≡ length nodes - 1 = ground arith in
        at_last ((==_iff (i + 1) (length nodes)).0 g) (
          some-inj n (with_next (some (length nodes)) last) (
            sym e
            ∙ get-append_left before (new ∷ []) i (ground (arith, same_length))
            ∙ ap (get_elem? before) h
            ∙ get-set_same nodes (length nodes - 1) (with_next (some (length nodes)) last)
                (ground arith)))
    | inr g ↦
        let below = below-get (joined nodes last new) i n e in
        let total = length-joined nodes last new in
        let apart : i ≢ length nodes - 1 = λ h. ground arith in
        at_old (ground arith) (
          sym (
            get-append_left before (new ∷ []) i (ground (arith, same_length))
            ∙ get-set_other nodes (length nodes - 1) i (with_next (some (length nodes)) last) apart)
          ∙ e)
  ]
]
  where
    before : List Node
    before = set nodes (length nodes - 1) (with_next (some (length nodes)) last)

    same_length : length before ≡ length nodes
    same_length = length-set nodes (length nodes - 1) (with_next (some (length nodes)) last)

-- The store at its places: the new node, the last one with its link, and the others as they were.
pub joined-new :
    (nodes : List Node) (last new : Node)
    → get_elem? (joined nodes last new) (length nodes) ≡ some new
joined-new nodes last new =
    ap (get_elem? (joined nodes last new))
      (sym (length-set nodes (length nodes - 1) (with_next (some (length nodes)) last)))
    ∙ get-append_end (set nodes (length nodes - 1) (with_next (some (length nodes)) last)) new

pub joined-last :
    (nodes : List Node) (last new : Node)
    → 0 < length nodes
    → get_elem? (joined nodes last new) (length nodes - 1)
      ≡ some (with_next (some (length nodes)) last)
joined-last nodes last new h =
    let l = length-set nodes (length nodes - 1) (with_next (some (length nodes)) last) in
    get-append_left (set nodes (length nodes - 1) (with_next (some (length nodes)) last)) (new ∷ [])
      (length nodes - 1) (omega arith)
    ∙ get-set_same nodes (length nodes - 1) (with_next (some (length nodes)) last) (omega arith)

pub joined-old :
    (nodes : List Node) (last new : Node) (i : ℕ)
    → i + 1 < length nodes
    → get_elem? (joined nodes last new) i ≡ get_elem? nodes i
joined-old nodes last new i h =
    let l = length-set nodes (length nodes - 1) (with_next (some (length nodes)) last) in
    get-append_left (set nodes (length nodes - 1) (with_next (some (length nodes)) last)) (new ∷ [])
      i (omega arith)
    ∙ get-set_other nodes (length nodes - 1) i (with_next (some (length nodes)) last)
        (λ e. omega arith)
