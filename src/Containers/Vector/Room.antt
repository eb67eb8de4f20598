-- ===== src/Containers/Vector/Room.antt =====
-- Whether the elements of a vector fit the array behind it.
use crep_os.Base.{
  ℕ, ◌+◌, ◌-◌, ◌≤◌, ◌<◌, ◌≡◌, refl, ap, ◌∙◌, [], ◌∷◌, ◌++◌, some, ◌==◌, ltb, leb, length, take,
  drop, length-append, length-take-drop, take-length, arith, Bool-cases, inl, inr, true, false,
}
use crep_os.Containers.Vector.{Vector, size, internal_resize, push, removed, remove}

module _ {ℓ} {A : Type ℓ} where
  -- The capacity is what the array has, and the elements are in it.
  pub record IsRoomy (v : Vector A) : Type 0 where
    pub cap : v.buf_cap ≤ v.room
    pub inside : size v ≤ v.room

  -- Where the capacity of a vector is at most the length of its array and its elements are
  -- inside, `push` appends the element and keeps both.
  push-IsRoomy :
      (v : Vector A) (x : A)
      → IsRoomy v
      → IsRoomy (push v x) × ((push v x).elements ≡ v.elements ++ x ∷ [])
  unfolding push internal_resize
  push-IsRoomy v x r = elim (Bool-cases (leb (size v + 1) v.buf_cap)) [
    | inl fits ↦
        rw (fits, internal_resize)
          (
            record {
              cap = r.cap;
              inside = omega (arith, length-append v.elements (x ∷ []), within fits);
            },
            refl,
          )
    | inr grows ↦
        rw (grows, internal_resize)
          (
            record { cap = omega arith; inside = omega (arith, length-append v.elements (x ∷ [])) },
            refl,
          )
  ]
    where
      within : leb (size v + 1) v.buf_cap ≡ true → size v + 1 ≤ v.room
      within h = let cap = r.cap in ground arith

  removed-elements :
      (v : Vector A) (index : ℕ)
      → index < size v
      → (removed v index).elements ≡ take index v.elements ++ drop (index + 1) v.elements
  unfolding removed
  removed-elements v index h =
      take-length (size v - 1) (take index v.elements ++ drop (index + 1) v.elements)
        (omega (arith, length-take-drop index v.elements h))

  size-removed : (v : Vector A) (index : ℕ) → index < size v → size (removed v index) + 1 ≡ size v
  size-removed v index h =
      ap (λ xs. length xs + 1) (removed-elements v index h) ∙ length-take-drop index v.elements h

  removed-remove :
      (v : Vector A) (index : ℕ) → index < size v → remove v index ≡ some (removed v index)
  unfolding remove
  removed-remove v index h =
      let inside : ltb (size v) index ≡ false = ground arith in
      let some_left : (size v == 0) ≡ false = ground arith in rw (inside, some_left)

  push_within :
      (w : Vector A) (x : A)
      → leb (size w + 1) w.buf_cap ≡ true
      → ((push w x).room ≡ w.room) × (size (push w x) ≡ size w + 1)
  unfolding push internal_resize
  push_within w x h =
      rw (h, internal_resize) (refl, length-append w.elements (x ∷ []) ∙ omega arith)

  room-removed : (v : Vector A) (index : ℕ) → (removed v index).room ≡ size v - 1
  unfolding removed
  room-removed v index = refl

  cap-removed : (v : Vector A) (index : ℕ) → (removed v index).buf_cap ≡ v.buf_cap
  unfolding removed
  cap-removed v index = refl

  -- `remove` of an index inside a vector whose size is at most its capacity takes out that
  -- element, and a `push` after it writes behind the array.
  pub push-remove_overflows :
      (v : Vector A) (index : ℕ) (x : A)
      → index < size v
      → size v ≤ v.buf_cap
      → (remove v index ≡ some (removed v index))
        × ((removed v index).elements ≡ take index v.elements ++ drop (index + 1) v.elements)
        × ((push (removed v index) x).room < size (push (removed v index) x))
  push-remove_overflows v index x h cap =
      (removed-remove v index h, removed-elements v index h, overflow)
    where
      fits : leb (size (removed v index) + 1) (removed v index).buf_cap ≡ true
      fits = ground (arith, size-removed v index h, cap-removed v index)

      overflow : (push (removed v index) x).room < size (push (removed v index) x)
      overflow = omega (
        arith,
        push_within (removed v index) x fits,
        room-removed v index,
        size-removed v index h,
      )
