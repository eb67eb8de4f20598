-- ===== src/Containers/Vector.antt =====
-- `lib::vector<T>`: the list of its elements (`buf_size` is its length), the capacity that it goes by, and
-- the length of the array that it has really allocated.
pub mod Room
use crep_os.Base.{
  ℕ, zero, suc, ◌+◌, ◌-◌, ◌*◌, Bool, List, [], ◌∷◌, ◌++◌, Option, none, some, if◌then◌else◌, ◌==◌,
  ltb, leb, length, take, drop,
}

pub record Vector {ℓ} (A : Type ℓ) : Type ℓ where
  pub elements : List A
  pub buf_cap : ℕ
  pub room : ℕ

module _ {ℓ} {A : Type ℓ} where
  unfoldable pub empty : Vector A
  empty = record { elements = []; buf_cap = 0; room = 0 }

  abbrev pub size : Vector A → ℕ
  size v = length v.elements

  unfoldable pub internal_resize : Vector A → ℕ → Vector A
  internal_resize v cap =
      if leb cap v.buf_cap then v else record v { buf_cap = cap * 2; room = cap * 2 }

  -- Both versions of `push`; the element is written at index `buf_size`.
  unfoldable pub push : Vector A → A → Vector A
  unfolding internal_resize
  push v x =
      let v' = internal_resize v (size v + 1) in record v' { elements = v'.elements ++ x ∷ [] }

  -- The copy constructor sets the size before it asks for the room.
  unfoldable pub copy : Vector A → Vector A
  unfolding internal_resize empty
  copy v = record (internal_resize empty (size v)) { elements = v.elements }

  last_of : A → List A → A
  last_of x [] = x
  last_of x (y ∷ ys) = last_of y ys

  front_of : A → List A → List A
  front_of x [] = []
  front_of x (y ∷ ys) = x ∷ front_of y ys

  -- `none` is a read before the array.
  unfoldable pub pop : Vector A → Option (A × Vector A)
  unfolding last_of front_of
  pop v = elim v.elements [
    | [] ↦ none
    | x ∷ xs ↦ some (last_of x xs, record v { elements = front_of x xs })
  ]

  -- The new array has one place less, and `buf_cap` stays. Of an index at the end the copy runs over
  -- by one, and the last element goes.
  unfoldable pub removed : Vector A → ℕ → Vector A
  removed v index = record v {
    elements = take (size v - 1) (take index v.elements ++ drop (index + 1) v.elements);
    room = size v - 1;
  }

  -- `none`: the size of an empty vector wraps below 0.
  unfoldable pub remove : Vector A → ℕ → Option (Vector A)
  unfolding removed
  remove v index =
      if ltb (size v) index then some v else (if size v == 0 then none else some (removed v index))
