-- ===== src/Tty/Keys.antt =====
-- The key codes that the keyboard handler has a character for (kernel/drivers/tty.cpp).
use crep_os.Base.{
  ℕ, zero, suc, ◌<◌, ◌≤◌, ◌≡◌, ◌≢◌, ◌∙◌, ◌⊎◌, ◌↔◌, refl, sym, ap, Bool, ◌&&◌, true, false, List, [],
  ◌∷◌, Option, none, some, if◌then◌else◌, ◌==◌, leb, length, get_elem?, arith, inl, inr, Bool-cases,
}
use crep_os.Tty.Output.{Tty}
use crep_os.Tty.Keyboard.{keymap, cap_keymap, put_key, put_mapped, ps2_keyboard}

get-outside : (xs : List ℕ) (i : ℕ) → length xs ≤ i → get_elem? xs i ≡ none
get-outside [] i h = refl
get-outside (x ∷ xs) zero h = absurd (omega arith)
get-outside (x ∷ xs) (suc i) h = get-outside xs i (omega arith)

get-inside : (xs : List ℕ) (i : ℕ) → i < length xs → (c : ℕ) × (get_elem? xs i ≡ some c)
get-inside [] i h = absurd (omega arith)
get-inside (x ∷ xs) zero h = (x, refl)
get-inside (x ∷ xs) (suc i) h = get-inside xs i (omega arith)

some-or-none : {A : Type 0} (x : A) → some x ≢ none
some-or-none x e = cc

not_here :
    {A : Type 0} (b : Bool) (x : A) (rest : Option A)
    → (if b then some x else rest) ≡ none
    → rest ≡ none
not_here true x rest e = absurd cc
not_here false x rest e = e

else_case :
    {A : Type 0} (b : Bool) (x y : Option A) → b ≡ false → (if b then x else y) ≡ none → y ≡ none
else_case true x y e f = absurd cc
else_case false x y e f = f

then_case :
    {A : Type 0} (b : Bool) (x y : Option A) → b ≡ true → (if b then x else y) ≡ none → x ≡ none
then_case true x y e f = f
then_case false x y e f = absurd cc

module _ (upkey : Bool) (t : Tty) (k : ℕ) where
  put_mapped-outside : 58 ≤ k → k ≤ 128 → put_mapped upkey t k ≡ none
  unfolding put_mapped
  put_mapped-outside h l = let e : leb k 128 ≡ true = ground arith in rw e (by_map upkey)
    where
      by_map : (b : Bool) → put_key upkey t (get_elem? (if b then cap_keymap else keymap) k) ≡ none
      by_map true = ap (put_key upkey t) (get-outside cap_keymap k h)
      by_map false = ap (put_key upkey t) (get-outside keymap k h)

  put_mapped-inside : (k < 58) ⊎ (128 < k) → put_mapped upkey t k ≢ none
  unfolding put_mapped
  put_mapped-inside (inr h) f =
      let e : leb k 128 ≡ false = ground arith in
      some-or-none (upkey, t) (else_case (leb k 128) _ _ e f)
  put_mapped-inside (inl h) f =
      let e : leb k 128 ≡ true = ground arith in by_map upkey (then_case (leb k 128) _ _ e f)
    where
      by_map : (b : Bool) → put_key upkey t (get_elem? (if b then cap_keymap else keymap) k) ≢ none
      by_map true g =
          let (c, e) = get-inside cap_keymap k h in
          some-or-none _ (ap (put_key upkey t) (sym e) ∙ g)
      by_map false g =
          let (c, e) = get-inside keymap k h in some-or-none _ (ap (put_key upkey t) (sym e) ∙ g)

  -- The keyboard handler reads outside its map of characters for the key codes from 58 to 128 and
  -- for no other.
  pub ps2_keyboard-outside : (ps2_keyboard upkey t k ≡ none) ↔ ((58 ≤ k) × (k ≤ 128))
  unfolding ps2_keyboard
  ps2_keyboard-outside = (
    λ e.
        let f = not_here (k == 0xaa) _ _ e in
        let g = not_here (k == 0x2a) _ _ f in
        let h = not_here (k == 0xf) _ _ g in
        let i = not_here (k == 0xe) _ _ h in
        let m = not_here (k == 0x1c) _ _ i in
        elim (Bool-cases (leb 58 k && leb k 128)) [
          | inl q ↦ (ground arith, ground arith)
          | inr q ↦ absurd (put_mapped-inside (ground arith) m)
        ],
    λ (low, high).
        let a : (k == 0xaa) ≡ false = ground arith in
        let b : (k == 0x2a) ≡ false = ground arith in
        let c : (k == 0xf) ≡ false = ground arith in
        let d : (k == 0xe) ≡ false = ground arith in
        let e : (k == 0x1c) ≡ false = ground arith in
        rw (a, b, c, d, e) (put_mapped-outside low high),
  )
