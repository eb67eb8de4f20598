-- ===== src/Tests/Text.antt =====
-- Small runs of the string operations and of the cutting of paths.
use crep_os.Base.{◌≡◌, refl, [], ◌∷◌, none, some, true, arith}
use crep_os.Text.{Text, same, find_first, find_last, find_back, erase, substr, append_number}
use crep_os.Text.Path.{sub_paths, names_loop, pieces, nonempty, sub_paths_lem}

-- "/a//bc"
abbrev path : Text
path = 47 ∷ 97 ∷ 47 ∷ 47 ∷ 98 ∷ 99 ∷ []

equal : same path path ≡ true
unfolding same
equal = refl

second_slash : find_first path 47 1 ≡ some 2
unfolding find_first
second_slash = refl

last_slash : find_last path 47 ≡ some 3
unfolding find_last find_back
last_slash = refl

erased : erase path 1 (some 2) ≡ some (47 ∷ 47 ∷ 98 ∷ 99 ∷ [])
unfolding erase
erased = refl

outside : substr path 5 (some 2) ≡ none
unfolding substr
outside = refl

numbered : append_number (110 ∷ []) 42 ≡ some (110 ∷ 52 ∷ 50 ∷ [])
unfolding append_number
numbered = refl

cut : sub_paths 7 path ≡ some ((97 ∷ []) ∷ (98 ∷ 99 ∷ []) ∷ [])
unfolding sub_paths names_loop find_first substr
cut = refl

sub_paths_lem_example : sub_paths 7 path ≡ some (nonempty (pieces path))
sub_paths_lem_example = sub_paths_lem 7 path (omega arith)
