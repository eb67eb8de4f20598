-- ===== src/Containers/Map.antt =====
-- `lib::map<F, T>`: a vector of keys and one of values, searched from the front. The keys of the
-- kernel's maps are `ssize_t`.
pub mod Laws
use crep_os.Base.{
  ℕ, zero, suc, ◌+◌, Bool, List, [], ◌∷◌, ◌++◌, Option, none, some, if◌then◌else◌, ◌==◌, length,
  get_elem?, set,
}
use crep_os.Containers.Vector.{Vector, empty, size, push, remove}

pub record Map {ℓ} (A : Type ℓ) : Type ℓ where
  pub tags : Vector ℕ
  pub values : Vector A

-- The index of the first key that equals `k`, from index `i` on.
unfoldable pub position : (k : ℕ) → List ℕ → ℕ → Option ℕ
position k [] i = none
position k (t ∷ ts) i = if t == k then some i else position k ts (i + 1)

module _ {ℓ} {A : Type ℓ} where
  unfoldable pub new : Map A
  unfolding empty
  new = record { tags = empty; values = empty }

  -- What `operator[]` refers to: the value of the key, or a new value `T()` behind the others. The
  -- result is the place of the value in `values`, and the map that holds it.
  unfoldable pub index : A → Map A → ℕ → ℕ × Map A
  unfolding position push
  index fresh m k = elim (position k m.tags.elements 0) [
    | some i ↦ (i, m)
    | none ↦ (size m.values, record m { tags = push m.tags k; values = push m.values fresh })
  ]

  -- Reading and writing through that reference.
  unfoldable pub read : A → Map A → ℕ → Option A × Map A
  unfolding index
  read fresh m k = let (i, m') = index fresh m k in (get_elem? m'.values.elements i, m')

  unfoldable pub assign : A → Map A → ℕ → A → Map A
  unfolding index
  assign fresh m k x =
      let (i, m') = index fresh m k in
      record m' { values = record (m'.values) { elements = set m'.values.elements i x } }

  -- The loop of `remove`: it goes on behind the place that it has taken out, over the shorter vector.
  -- `rounds` bounds the indices still to come; `none` is a fault of the vector.
  unfoldable pub remove_loop : (k rounds i : ℕ) → Map A → Option (Map A)
  unfolding remove
  remove_loop k zero i m = some m
  remove_loop k (suc rounds) i m =
      let skip = remove_loop k rounds (i + 1) m in
      elim (get_elem? m.tags.elements i) [
        | none ↦ some m
        | some t ↦
            if t == k
            then (elim (remove m.tags i) [
              | none ↦ none
              | some tags ↦ elim (remove m.values i) [
                | none ↦ none
                | some values ↦
                    remove_loop k rounds (i + 1) (record m { tags = tags; values = values })
              ]
            ])
            else skip
      ]

  unfoldable pub remove_key : Map A → ℕ → Option (Map A)
  unfolding remove_loop
  remove_key m k = remove_loop k (size m.tags) 0 m
