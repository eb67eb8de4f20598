-- ===== src/Text.antt =====
-- `lib::string` (kernel/lib/string.hpp, kernel/lib/string.cpp) as the list of its bytes; a `none` of
-- an index or a length is `npos`, a `none` of a result an access outside the string.
pub mod Search
pub mod Path
use crep_os.Base.{
  ℕ, zero, suc, ◌+◌, ◌-◌, ◌/◌, ◌%◌, Bool, true, false, not, List, [], ◌∷◌, ◌++◌, Option, none, some,
  if◌then◌else◌, ◌==◌, ltb, leb, length, get_elem?, take, drop,
}
use crep_os.Word.{is_neg}

abbrev pub Text : Type 0
Text = List ℕ

-- `operator==`: the lengths, then byte by byte.
unfoldable pub same : Text → Text → Bool
same [] [] = true
same [] (y ∷ ys) = false
same (x ∷ xs) [] = false
same (x ∷ xs) (y ∷ ys) = if x == y then same xs ys else false

unfoldable pub find_loop : (c i : ℕ) → Text → Option ℕ
find_loop c i [] = none
find_loop c i (x ∷ xs) = if x == c then some i else find_loop c (i + 1) xs

unfoldable pub find_first : Text → (c start : ℕ) → Option ℕ
unfolding find_loop
find_first s c start = find_loop c start (drop start s)

-- `find_last` from index `rounds - 1` down.
abbrev pub back_at : (c i : ℕ) → Option ℕ → Option ℕ → Option ℕ
back_at c i none rest = rest
back_at c i (some x) rest = if x == c then some i else rest

unfoldable pub find_back : Text → (c rounds : ℕ) → Option ℕ
find_back s c zero = none
find_back s c (suc i) = let rest = find_back s c i in back_at c i (get_elem? s i) rest

unfoldable pub find_last : Text → (c : ℕ) → Option ℕ
unfolding find_back
find_last s c = find_back s c (length s)

-- `size == npos` stands for the rest of the string.
abbrev pub rest_of : Text → (pos : ℕ) → Option ℕ → ℕ
rest_of s pos none = length s - pos
rest_of s pos (some size) = size

unfoldable pub erase : Text → (pos : ℕ) → (size : Option ℕ) → Option Text
erase s pos size =
    if leb (pos + rest_of s pos size) (length s)
    then some (take pos s ++ drop (pos + rest_of s pos size) s)
    else none

unfoldable pub substr : Text → (start : ℕ) → (size : Option ℕ) → Option Text
substr s start size =
    if rest_of s start size == 0
    then some []
    else if leb (start + rest_of s start size) (length s)
    then some (take (rest_of s start size) (drop start s))
    else none

-- `operator+` with a number: its decimal digits, the last one first into a buffer of 50.
unfoldable pub digits_loop : (rounds number : ℕ) → Text → Text
digits_loop zero number buffer = buffer
digits_loop (suc rounds) number buffer =
    let buffer' = (48 + number % 10) ∷ buffer in
    let rest = digits_loop rounds (number / 10) buffer' in
    if number / 10 == 0 then buffer' else rest

-- A negative number reads before the table of digits.
unfoldable pub append_number : Text → (number : ℕ) → Option Text
unfolding digits_loop
append_number s number = if is_neg number then none else some (s ++ digits_loop 49 number [])
