-- ===== src/Text/Search.antt =====
-- What `string::find_last` finds, and the digits of a number (kernel/lib/string.cpp).
use crep_os.Base.{
  ℕ, zero, suc, ◌+◌, ◌-◌, ◌*◌, ◌/◌, ◌%◌, ◌^◌, ◌≤◌, ◌<◌, ◌≡◌, ◌≢◌, ◌∙◌, refl, sym, ap, subst, [],
  ◌∷◌, ◌++◌, Option, none, some, true, false, ◌==◌, length, get_elem?, arith, inl, inr, Bool-cases,
  Option-cases, ==_iff, some-inj,
}
use native.Mathlib.Nat.{pow-suc}
use crep_os.Word.{is_neg}
use crep_os.Text.{Text, find_back, find_last, digits_loop, append_number}

-- The last index below `n` that holds `c`.
abbrev pub LastOf : Text → (c n : ℕ) → Option ℕ → Type 0
LastOf s c n none = (j : ℕ) → j < n → get_elem? s j ≢ some c
LastOf s c n (some i) =
    (i < n) × (get_elem? s i ≡ some c) × ((j : ℕ) → i < j → j < n → get_elem? s j ≢ some c)

-- The value of decimal digits.
abbrev pub value : Text → (acc : ℕ) → ℕ
value [] acc = acc
value (d ∷ ds) acc = value ds (acc * 10 + (d - 48))

-- Every byte is a digit.
abbrev pub AllDigits : Text → Type 0
AllDigits [] = Unit
AllDigits (d ∷ ds) = (48 ≤ d) × (d < 58) × AllDigits ds

one_digit : (n : ℕ) → (n / 10 == 0) ≡ true → 0 + (48 + n % 10 - 48) ≡ n
one_digit n e = ground arith

more_digits : (n : ℕ) → n / 10 * 10 + (48 + n % 10 - 48) ≡ n
more_digits n = omega arith

below_pow : (n rounds : ℕ) → n < 10 ^ suc rounds → n / 10 < 10 ^ rounds
below_pow n rounds h = omega (arith, pow-suc 10 rounds)

some_rounds : (n rounds : ℕ) → n < 10 ^ suc rounds → (n / 10 == 0) ≡ false → 0 < rounds
some_rounds n zero h e = absurd (ground arith)
some_rounds n (suc rounds) h e = omega arith

digits_loop-value :
    (rounds number : ℕ) (buffer : Text)
    → number < 10 ^ rounds
    → 0 < rounds
    → value (digits_loop rounds number buffer) 0 ≡ value buffer number
unfolding digits_loop
digits_loop-value zero number buffer low pos = absurd (omega arith)
digits_loop-value (suc rounds) number buffer low pos = elim (Bool-cases (number / 10 == 0)) [
  | inl e ↦ rw e (ap (value buffer) (one_digit number e))
  | inr e ↦ rw e (
      digits_loop-value rounds (number / 10) ((48 + number % 10) ∷ buffer)
        (below_pow number rounds low) (some_rounds number rounds low e)
      ∙ ap (value buffer) (more_digits number))
]

digits_loop-AllDigits :
    (rounds number : ℕ) (buffer : Text)
    → AllDigits buffer
    → AllDigits (digits_loop rounds number buffer)
unfolding digits_loop
digits_loop-AllDigits zero number buffer h = h
digits_loop-AllDigits (suc rounds) number buffer h = elim (Bool-cases (number / 10 == 0)) [
  | inl e ↦ rw e (omega arith, omega arith, h)
  | inr e ↦ rw e (
      digits_loop-AllDigits rounds (number / 10) ((48 + number % 10) ∷ buffer)
        (omega arith, omega arith, h))
]

-- Appending a number below 2^63 to a string appends decimal digits only, and their value is the
-- number.
pub append_number_lem :
    (s : Text) (number : ℕ)
    → number < 2 ^ 63
    → (ds : Text) × (append_number s number ≡ some (s ++ ds)) × (value ds 0 ≡ number) × AllDigits ds
unfolding append_number
append_number_lem s number low =
    let e : is_neg number ≡ false = ground arith in
    (
      digits_loop 49 number [],
      rw e refl,
      digits_loop-value 49 number [] (omega arith) (omega arith),
      digits_loop-AllDigits 49 number [] tt,
    )

LastOf-below :
    (s : Text) (c n : ℕ) (o : Option ℕ)
    → get_elem? s n ≢ some c
    → LastOf s c n o
    → LastOf s c (suc n) o
LastOf-below s c n none h l = λ j below e. elim (Bool-cases (j == n)) [
  | inl same ↦ h (ap (get_elem? s) (sym ((==_iff j n).0 same)) ∙ e)
  | inr apart ↦ l j (ground arith) e
]
LastOf-below s c n (some i) h l = (
  let below = l.0 in omega arith,
  l.1,
  λ j above below e. elim (Bool-cases (j == n)) [
    | inl same ↦ h (ap (get_elem? s) (sym ((==_iff j n).0 same)) ∙ e)
    | inr apart ↦ l.2 j above (ground arith) e
  ],
)

none-or-some : (x : ℕ) → none ≢ some x
none-or-some x e = cc

module _ (s : Text) (c n : ℕ) where
  find_back-outside : get_elem? s n ≡ none → find_back s c (suc n) ≡ find_back s c n
  unfolding find_back
  find_back-outside e = rw e refl

  find_back-hit :
      (x : ℕ) → get_elem? s n ≡ some x → (x == c) ≡ true → find_back s c (suc n) ≡ some n
  unfolding find_back
  find_back-hit x e h = rw (e, h) refl

  find_back-miss :
      (x : ℕ) → get_elem? s n ≡ some x → (x == c) ≡ false → find_back s c (suc n) ≡ find_back s c n
  unfolding find_back
  find_back-miss x e h = rw (e, h) refl

find_back-none : (s : Text) (c : ℕ) → find_back s c 0 ≡ none
unfolding find_back
find_back-none s c = refl

find_back-LastOf : (s : Text) (c n : ℕ) → LastOf s c n (find_back s c n)
find_back-LastOf s c zero =
    subst (LastOf s c 0) (sym (find_back-none s c)) (λ j h. absurd (omega arith))
find_back-LastOf s c (suc n) = elim (Option-cases (get_elem? s n)) [
  | inl e ↦ subst (LastOf s c (suc n)) (sym (find_back-outside s c n e)) (
      LastOf-below s c n (find_back s c n) (λ f. none-or-some c (sym e ∙ f))
        (find_back-LastOf s c n))
  | inr (x, e) ↦ elim (Bool-cases (x == c)) [
    | inl hit ↦
        subst (LastOf s c (suc n)) (sym (find_back-hit s c n x e hit))
          (omega arith, e ∙ ap some ((==_iff x c).0 hit), λ j above below f. absurd (omega arith))
    | inr miss ↦ subst (LastOf s c (suc n)) (sym (find_back-miss s c n x e miss)) (
        LastOf-below s c n (find_back s c n)
          (λ f. let g = some-inj x c (sym e ∙ f) in absurd (ground arith)) (find_back-LastOf s c n))
  ]
]

-- `find_last` returns the last index of the string that holds the byte, and npos only where no
-- index does.
pub find_last_lem : (s : Text) (c : ℕ) → LastOf s c (length s) (find_last s c)
unfolding find_last
find_last_lem s c = find_back-LastOf s c (length s)
