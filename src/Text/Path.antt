-- ===== src/Text/Path.antt =====
-- The cutting of a path into names, which the constructor of `vfs::node` and `node::search_absolute`
-- (kernel/fs/vfs.cpp) do in the same way.
use crep_os.Base.{
  ℕ, zero, suc, ◌+◌, ◌-◌, ◌≤◌, ◌<◌, ◌≡◌, ◌∙◌, refl, sym, ap, subst, List, [], ◌∷◌, ◌++◌, Option,
  none, some, true, false, if◌then◌else◌, ◌==◌, leb, length, take, drop, take-length, arith, inl,
  inr, Bool-cases,
}
use mathlib.Core.List.{append-nil, append_assoc}
use crep_os.Text.{Text, find_loop, find_first, substr}

abbrev pub slash : ℕ
slash = 47

-- `if(!token.empty()) ret.push(token)`
abbrev pub push_name : Text → List Text → List Text
push_name [] ret = ret
push_name (x ∷ xs) ret = ret ++ (x ∷ xs) ∷ []

unfoldable pub names_loop :
    (fuel : ℕ) → Text → (start : ℕ) → (end : Option ℕ) → List Text → Option (List Text)
unfolding substr find_first
names_loop zero s start end ret = none
names_loop (suc fuel) s start none ret = elim (substr s start none) [
  | none ↦ none
  | some token ↦ some (push_name token ret)
]
names_loop (suc fuel) s start (some e) ret = elim (substr s start (some (e - start))) [
  | none ↦ none
  | some token ↦ names_loop fuel s (e + 1) (find_first s slash (e + 1)) (push_name token ret)
]

-- `path[0] == '/'` and `path++`.
abbrev pub strip : Text → Text
strip [] = []
strip (x ∷ xs) = if x == slash then xs else x ∷ xs

unfoldable pub sub_paths : (fuel : ℕ) → Text → Option (List Text)
unfolding names_loop find_first
sub_paths fuel path = names_loop fuel (strip path) 0 (find_first (strip path) slash 0) []

-- The pieces between the slashes.
abbrev pub onto_head : ℕ → List Text → List Text
onto_head x [] = (x ∷ []) ∷ []
onto_head x (p ∷ ps) = (x ∷ p) ∷ ps

abbrev pub pieces : Text → List Text
pieces [] = [] ∷ []
pieces (x ∷ xs) = if x == slash then [] ∷ pieces xs else onto_head x (pieces xs)

abbrev pub nonempty : List Text → List Text
nonempty [] = []
nonempty ([] ∷ ps) = nonempty ps
nonempty ((x ∷ xs) ∷ ps) = (x ∷ xs) ∷ nonempty ps

-- What a search that found nothing, or index `e`, says of the pieces.
abbrev Cut : (i : ℕ) → Text → Option ℕ → Type 0
Cut i xs none = pieces xs ≡ xs ∷ []
Cut i xs (some e) =
    (i ≤ e) × (e < i + length xs) × (pieces xs ≡ take (e - i) xs ∷ pieces (drop (e - i + 1) xs))

Cut-later :
    (i x : ℕ) (xs : Text) (o : Option ℕ)
    → (x == slash) ≡ false
    → Cut (i + 1) xs o
    → Cut i (x ∷ xs) o
Cut-later i x xs none e h = rw (e, h) refl
Cut-later i x xs (some k) e h =
    let a = h.0 in
    let b = h.1 in
    let later : k - i ≡ suc (k - (i + 1)) = omega arith in
    let beyond : k - i + 1 ≡ suc (k - (i + 1) + 1) = omega arith in
    (omega arith, omega arith, rw (beyond, later, e, h.2) refl)

Cut-here : (i x : ℕ) (xs : Text) → (x == slash) ≡ true → Cut i (x ∷ xs) (some i)
Cut-here i x xs e =
    let here : i - i ≡ 0 = omega arith in
    let next : i - i + 1 ≡ suc 0 = omega arith in
    (omega arith, omega arith, rw (next, here, e) refl)

find_loop-hit : (c i x : ℕ) (xs : Text) → (x == c) ≡ true → find_loop c i (x ∷ xs) ≡ some i
unfolding find_loop
find_loop-hit c i x xs e = rw e refl

find_loop-miss :
    (c i x : ℕ) (xs : Text) → (x == c) ≡ false → find_loop c i (x ∷ xs) ≡ find_loop c (i + 1) xs
unfolding find_loop
find_loop-miss c i x xs e = rw e refl

find_loop-nothing : (c i : ℕ) → find_loop c i [] ≡ none
unfolding find_loop
find_loop-nothing c i = refl

find_loop-Cut : (i : ℕ) (xs : Text) → Cut i xs (find_loop slash i xs)
find_loop-Cut i [] = subst (Cut i []) (sym (find_loop-nothing slash i)) refl
find_loop-Cut i (x ∷ xs) = elim (Bool-cases (x == slash)) [
  | inl e ↦ subst (Cut i (x ∷ xs)) (sym (find_loop-hit slash i x xs e)) (Cut-here i x xs e)
  | inr e ↦
      subst (Cut i (x ∷ xs)) (sym (find_loop-miss slash i x xs e))
        (Cut-later i x xs (find_loop slash (i + 1) xs) e (find_loop-Cut (i + 1) xs))
]

length-drop : (n : ℕ) (xs : Text) → length (drop n xs) ≡ length xs - n
length-drop zero xs = omega arith
length-drop (suc n) [] = omega arith
length-drop (suc n) (x ∷ xs) = omega (arith, length-drop n xs)

drop-nothing : (n : ℕ) → drop {A = ℕ} n [] ≡ []
drop-nothing zero = refl
drop-nothing (suc n) = refl

drop-past : (n : ℕ) (xs : Text) → length xs ≤ n → drop n xs ≡ []
drop-past n [] h = drop-nothing n
drop-past zero (x ∷ xs) h = absurd (omega arith)
drop-past (suc n) (x ∷ xs) h = drop-past n xs (omega arith)

drop-drop : (a b : ℕ) (xs : Text) → drop a (drop b xs) ≡ drop (b + a) xs
drop-drop a zero xs = let e : 0 + a ≡ a = omega arith in sym (ap (λ n. drop n xs) e)
drop-drop a (suc b) [] = drop-nothing a ∙ sym (drop-nothing (suc b + a))
drop-drop a (suc b) (x ∷ xs) =
    let e : suc b + a ≡ suc (b + a) = omega arith in
    drop-drop a b xs ∙ sym (ap (λ n. drop n (x ∷ xs)) e)

substr_rest : (s : Text) (start : ℕ) → start ≤ length s → substr s start none ≡ some (drop start s)
unfolding substr
substr_rest s start h = elim (Bool-cases (length s - start == 0)) [
  | inl e ↦ rw e (ap some (sym (drop-past start s (ground arith))))
  | inr e ↦
      let inside : leb (start + (length s - start)) (length s) ≡ true = ground arith in
      rw (e, inside)
        (ap some
          (take-length (length s - start) (drop start s) (omega (arith, length-drop start s))))
]

substr_part :
    (s : Text) (start size : ℕ)
    → start + size ≤ length s
    → substr s start (some size) ≡ some (take size (drop start s))
unfolding substr
substr_part s start zero h = refl
substr_part s start (suc size) h = ground arith

push_name-nonempty :
    (p : Text) (ret ps : List Text) → push_name p ret ++ nonempty ps ≡ ret ++ nonempty (p ∷ ps)
push_name-nonempty [] ret ps = refl
push_name-nonempty (x ∷ xs) ret ps = append_assoc ret ((x ∷ xs) ∷ []) (nonempty ps)

names_loop_lem :
    (fuel : ℕ) (s : Text) (start : ℕ) (ret : List Text)
    → start ≤ length s
    → length s - start < fuel
    → names_loop fuel s start (find_first s slash start) ret
      ≡ some (ret ++ nonempty (pieces (drop start s)))
unfolding names_loop find_first
names_loop_lem zero s start ret inside enough = absurd (omega arith)
names_loop_lem (suc fuel) s start ret inside enough =
    by_end (names_loop_lem fuel s) (find_loop slash start (drop start s))
      (find_loop-Cut start (drop start s))
  where
    by_end :
        ((at : ℕ) (found : List Text)
          → at ≤ length s
          → length s - at < fuel
          → names_loop fuel s at (find_first s slash at) found
            ≡ some (found ++ nonempty (pieces (drop at s))))
        → (o : Option ℕ) → Cut start (drop start s) o
        → names_loop (suc fuel) s start o ret ≡ some (ret ++ nonempty (pieces (drop start s)))
    by_end again none cut =
        rw (substr_rest s start inside, names_loop, cut)
          (ap some (
            sym (append-nil (push_name (drop start s) ret))
            ∙ push_name-nonempty (drop start s) ret []))
    by_end again (some e) cut =
        let a = cut.0 in
        let b = cut.1 in
        let l = length-drop start s in
        let next : start + (e - start + 1) ≡ e + 1 = omega arith in
        let rest : drop (e - start + 1) (drop start s) ≡ drop (e + 1) s =
          drop-drop (e - start + 1) start s ∙ ap (λ n. drop n s) next in
        rw (substr_part s start (e - start) (omega arith), names_loop, cut.2, rest)
          (again (e + 1) (push_name (take (e - start) (drop start s)) ret) (omega arith)
              (omega arith)
            ∙ ap some (
                push_name-nonempty (take (e - start) (drop start s)) ret (pieces (drop (e + 1) s))))

-- The slash in front leaves an empty piece, which is not a name.
pieces-strip :
    (path : Text)
    → (nonempty (pieces (strip path)) ≡ nonempty (pieces path))
      × (length (strip path) ≤ length path)
pieces-strip [] = (refl, omega arith)
pieces-strip (x ∷ xs) = elim (Bool-cases (x == slash)) [
  | inl e ↦ (rw e refl, rw e (omega arith))
  | inr e ↦ (rw e (rw e refl), rw e (omega arith))
]

-- With fuel above the length of the path, the loop that cuts a path into names ends, reads nothing
-- outside the path, and returns the nonempty pieces between its slashes in their order.
pub sub_paths_lem :
    (fuel : ℕ) (path : Text)
    → length path < fuel
    → sub_paths fuel path ≡ some (nonempty (pieces path))
unfolding sub_paths
sub_paths_lem fuel path enough =
    let (same, shorter) = pieces-strip path in
    names_loop_lem fuel (strip path) 0 [] (omega arith) (omega arith) ∙ ap some same
