-- ===== src/Containers/Map/Laws.antt =====
-- Reading a map after a write, over the two vectors.
use crep_os.Base.{
  ℕ, suc, ◌+◌, ◌≡◌, refl, sym, ap, ◌∙◌, subst, Bool, true, false, List, [], ◌∷◌, ◌++◌, Option, none,
  some, if◌then◌else◌, ◌==◌, leb, length, length-append, get_elem?, set, arith, inl, inr,
  Bool-cases, Option-cases, ==_iff,
}
use crep_os.Containers.Vector.{Vector, size, push, internal_resize}
use crep_os.Containers.Map.{Map, position, index, read, assign}

abbrev is_found : Option ℕ → Bool
is_found none = false
is_found (some i) = true

found-position :
    (k : ℕ) (ts : List ℕ) (i j : ℕ) → is_found (position k ts i) ≡ is_found (position k ts j)
unfolding position
found-position k [] i j = refl
found-position k (t ∷ ts) i j = ground (arith, found-position k ts (i + 1) (j + 1))

push-elements {ℓ} : {A : Type ℓ} (v : Vector A) (x : A) → (push v x).elements ≡ v.elements ++ x ∷ []
unfolding push internal_resize
push-elements v x = elim (Bool-cases (leb (size v + 1) v.buf_cap)) [ inl e ↦ rw e | inr e ↦ rw e ]

module _ {ℓ} {A : Type ℓ} where
  -- The value that goes with the first key equal to `k`.
  unfoldable pub lookup : List ℕ → List A → ℕ → Option A
  lookup [] xs k = none
  lookup (t ∷ ts) [] k = none
  lookup (t ∷ ts) (x ∷ xs) k = if t == k then some x else lookup ts xs k

  -- What a map holds under a key, with no insertion.
  abbrev pub holds : Map A → ℕ → Option A
  holds m k = lookup m.tags.elements m.values.elements k

  abbrev at : Option ℕ → List A → Option A
  at none xs = none
  at (some i) xs = get_elem? xs i

  at-position :
      (k : ℕ) (ts : List ℕ) (i : ℕ) (x : A) (xs : List A)
      → at (position k ts (suc i)) (x ∷ xs) ≡ at (position k ts i) xs
  unfolding position
  at-position k [] i x xs = refl
  at-position k (t ∷ ts) i x xs = ground (arith, at-position k ts (i + 1) x xs)

  abbrev put : Option ℕ → List A → A → List A
  put none xs y = xs
  put (some i) xs y = set xs i y

  put-position :
      (k : ℕ) (ts : List ℕ) (i : ℕ) (x : A) (xs : List A) (y : A)
      → put (position k ts (suc i)) (x ∷ xs) y ≡ x ∷ put (position k ts i) xs y
  unfolding position
  put-position k [] i x xs y = refl
  put-position k (t ∷ ts) i x xs y = ground (arith, put-position k ts (i + 1) x xs y)

  lookup-put :
      (k j : ℕ) (ts : List ℕ) (xs : List A) (y : A)
      → length ts ≡ length xs
      → is_found (position k ts 0) ≡ true
      → lookup ts (put (position k ts 0) xs y) j ≡ (if k == j then some y else lookup ts xs j)
  unfolding lookup position
  lookup-put k j [] xs y e f = cc
  lookup-put k j (t ∷ ts) [] y e f = absurd (omega arith)
  lookup-put k j (t ∷ ts) (x ∷ xs) y e f = ground (
    arith,
    put-position k ts 0 x xs y,
    found-position k ts 1 0,
    lookup-put k j ts xs y (omega arith),
  )

  lookup_new :
      (k j : ℕ) (ts : List ℕ) (xs : List A) (y : A)
      → length ts ≡ length xs
      → is_found (position k ts 0) ≡ false
      → lookup (ts ++ k ∷ []) (xs ++ y ∷ []) j ≡ (if k == j then some y else lookup ts xs j)
  unfolding lookup position
  lookup_new k j [] [] y e f = refl
  lookup_new k j [] (x ∷ xs) y e f = absurd (omega arith)
  lookup_new k j (t ∷ ts) [] y e f = absurd (omega arith)
  lookup_new k j (t ∷ ts) (x ∷ xs) y e f =
      ground (arith, found-position k ts 1 0, lookup_new k j ts xs y (omega arith))

  set-append : (xs : List A) (x y : A) → set (xs ++ x ∷ []) (length xs) y ≡ xs ++ y ∷ []
  set-append [] x y = refl
  set-append (z ∷ xs) x y = ap (◌∷◌ z) (set-append xs x y)

  index_old :
      (fresh : A) (m : Map A) (k i : ℕ)
      → position k m.tags.elements 0 ≡ some i
      → index fresh m k ≡ (i, m)
  unfolding index
  index_old fresh m k i e = rw (e, index)

  index_new :
      (fresh : A) (m : Map A) (k : ℕ)
      → position k m.tags.elements 0 ≡ none
      → index fresh m k
        ≡ (size m.values, record m { tags = push m.tags k; values = push m.values fresh })
  unfolding index
  index_new fresh m k e = rw (e, index)

  holds_at :
      (fresh : A) (m : Map A) (k i : ℕ) (m' : Map A) (x : A) (j : ℕ)
      → index fresh m k ≡ (i, m')
      → holds (assign fresh m k x) j ≡ lookup m'.tags.elements (set m'.values.elements i x) j
  unfolding assign
  holds_at fresh m k i m' x j e =
      ap (λ p. lookup (p.1.tags.elements) (set (p.1.values.elements) (p.0) x) j) e

  -- In a map of as many values as keys, an assignment through `operator[]` is read back under its
  -- key, whether the key was there or not, and leaves what every other key has.
  pub holds-assign :
      (fresh : A) (m : Map A) (k j : ℕ) (x : A)
      → size m.tags ≡ size m.values
      → holds (assign fresh m k x) j ≡ (if k == j then some x else holds m j)
  holds-assign fresh m k j x same = elim (Option-cases (position k m.tags.elements 0)) [
    | inl e ↦
        holds_at fresh m k _ _ x j (index_new fresh m k e)
        ∙ rw
            (
              push-elements m.tags k,
              push-elements m.values fresh,
              set-append m.values.elements fresh x,
            )
            (lookup_new k j m.tags.elements m.values.elements x same (rw e))
    | inr (i, e) ↦
        holds_at fresh m k i m x j (index_old fresh m k i e)
        ∙ subst
            (λ o.
              lookup m.tags.elements (put o m.values.elements x) j
              ≡ (if k == j then some x else holds m j))
            e (lookup-put k j m.tags.elements m.values.elements x same (rw e))
  ]

module _ {ℓ} {A : Type ℓ} where
  lookup-at :
      (k : ℕ) (ts : List ℕ) (xs : List A)
      → length ts ≡ length xs
      → lookup ts xs k ≡ at (position k ts 0) xs
  unfolding lookup position
  lookup-at k [] xs e = refl
  lookup-at k (t ∷ ts) [] e = absurd (omega arith)
  lookup-at k (t ∷ ts) (x ∷ xs) e =
      ground (arith, lookup-at k ts xs (omega arith), at-position k ts 0 x xs)

  get-append_end : (xs : List A) (y : A) → get_elem? (xs ++ y ∷ []) (length xs) ≡ some y
  get-append_end [] y = refl
  get-append_end (x ∷ xs) y = get-append_end xs y

  abbrev pub or_fresh : A → Option A → A
  or_fresh fresh none = fresh
  or_fresh fresh (some x) = x

  -- Reading through `operator[]` gives what the map holds, or a new value, and changes nothing for
  -- the keys that are there.
  pub record ReadOf (fresh : A) (m : Map A) (k : ℕ) (o : Option A) (m' : Map A) : Type ℓ where
    pub value : o ≡ some (or_fresh fresh (holds m k))
    pub others :
        (j : ℕ) → holds m' j ≡ (if k == j then some (or_fresh fresh (holds m k)) else holds m j)
    pub sizes : size m'.tags ≡ size m'.values

  position-none :
      (k i : ℕ) (ts : List ℕ) (xs : List A) → position k ts i ≡ none → lookup ts xs k ≡ none
  unfolding lookup position
  position-none k i [] xs e = refl
  position-none k i (t ∷ ts) [] e = refl
  position-none k i (t ∷ ts) (x ∷ xs) e = ground (arith, position-none k (i + 1) ts xs)

  lookup_same :
      (k j : ℕ) (ts : List ℕ) (xs : List A) (x : A)
      → lookup ts xs k ≡ some x
      → lookup ts xs j ≡ (if k == j then some x else lookup ts xs j)
  lookup_same k j ts xs x e = elim (Bool-cases (k == j)) [
    | inl f ↦ rw f (ap (lookup ts xs) (sym ((==_iff k j).0 f)) ∙ e)
    | inr f ↦ rw f refl
  ]

  found-some :
      (k i : ℕ) (ts : List ℕ) (xs : List A)
      → length ts ≡ length xs
      → is_found (position k ts i) ≡ true
      → (x : A) × (lookup ts xs k ≡ some x)
  unfolding lookup position
  found-some k i [] xs e f = absurd cc
  found-some k i (t ∷ ts) [] e f = absurd (omega arith)
  found-some k i (t ∷ ts) (x ∷ xs) e f = elim (Bool-cases (t == k)) [
    | inl g ↦ (x, rw g refl)
    | inr g ↦ rw g (found-some k (i + 1) ts xs (omega arith) (sym (rw g refl) ∙ f))
  ]

  read_through :
      (fresh : A) (m : Map A) (k i : ℕ) (m' : Map A)
      → index fresh m k ≡ (i, m')
      → read fresh m k ≡ (get_elem? m'.values.elements i, m')
  unfolding read
  read_through fresh m k i m' e = rw (e, read) refl

  pub read-ReadOf :
      (fresh : A) (m : Map A) (k : ℕ)
      → size m.tags ≡ size m.values
      → let p = read fresh m k in ReadOf fresh m k p.0 p.1
  read-ReadOf fresh m k same = elim (Option-cases (position k m.tags.elements 0)) [
    | inl e ↦
        let nothing = position-none k 0 m.tags.elements m.values.elements e in
        let m' : Map A = record m { tags = push m.tags k; values = push m.values fresh } in
        subst (λ p. ReadOf fresh m k p.0 p.1)
          (sym (read_through fresh m k _ m' (index_new fresh m k e)))
          (record {
            value =
                rw (push-elements m.values fresh, nothing) (get-append_end m.values.elements fresh);
            others = λ j.
                rw (push-elements m.tags k, push-elements m.values fresh, nothing)
                  (lookup_new k j m.tags.elements m.values.elements fresh same (rw e));
            sizes =
                rw (push-elements m.tags k, push-elements m.values fresh)
                  (omega (
                    arith,
                    same,
                    length-append m.tags.elements (k ∷ []),
                    length-append m.values.elements (fresh ∷ []),
                  ));
          })
    | inr (i, e) ↦
        let (x, f) = found-some k 0 m.tags.elements m.values.elements same (rw e refl) in
        subst (λ p. ReadOf fresh m k p.0 p.1)
          (sym (read_through fresh m k i m (index_old fresh m k i e)))
          (record {
            value = rw f (
                ap (λ o. at o m.values.elements) (sym e)
                ∙ sym (lookup-at k m.tags.elements m.values.elements same)
                ∙ f);
            others = λ j. rw f (lookup_same k j m.tags.elements m.values.elements x f);
            sizes = same;
          })
  ]
