-- ===== src/Sched/Entries.antt =====
-- What the searches of `reschedule` and `operator[]` leave of the entries of a map (kernel/sched/scheduler.cpp).
use crep_os.Base.{
  ℕ, ◌+◌, ◌≡◌, ◌∙◌, refl, sym, false, List, [], ◌∷◌, ◌==◌, arith, inl, inr, Bool-cases, ==_iff,
}
use crep_os.Word.{u64}
use crep_os.Sched.{Task, Runnable, aged, is_better, choose, age, at, modify, tasks_run}
use crep_os.Sched.Choice.{Every, Any, Waits}

abbrev pub Keyed : List (ℕ × Task) → Type 0
Keyed [] = Unit
Keyed ((k, t) ∷ es) = (k ≡ t.pid) × Keyed es

module _ {ℓ} {A : Type ℓ} (r : Runnable A) where
  pub choose-nobody :
      (es : List (ℕ × A)) (cnt ret : ℕ) → Every (λ a. Waits r a → ⊥) es → choose r es cnt ret ≡ ret
  unfolding choose
  choose-nobody [] cnt ret h = refl
  choose-nobody ((k, a) ∷ es) cnt ret (h, hs) =
      let s = r.state-set a (u64 (r.idle a + 1)) in
      let worse : is_better r a cnt ≡ false = ground (arith, h) in
      rw (worse, choose) (choose-nobody es cnt ret hs)

  pub age-Every :
      (P Q : A → Type 0) (es : List (ℕ × A))
      → ((a : A) → P a → Q (aged r a))
      → Every P es
      → Every Q (age r es)
  unfolding age
  age-Every P Q [] f h = tt
  age-Every P Q ((k, a) ∷ es) f (h, hs) = (f a h, age-Every P Q es f hs)

  pub age-Any :
      (P Q : A → Type 0) (es : List (ℕ × A))
      → ((a : A) → P a → Q (aged r a))
      → Any P es
      → Any Q (age r es)
  unfolding age
  age-Any P Q [] f h = elim h [ ]
  age-Any P Q ((k, a) ∷ es) f (inl h) = inl (f a h)
  age-Any P Q ((k, a) ∷ es) f (inr h) = inr (age-Any P Q es f h)

pub find_both :
    {A : Type 0} {P Q : A → Type 0} (es : List (ℕ × A))
    → Every P es
    → Any Q es
    → (a : A) × P a × Q a
find_both [] h q = elim q [ ]
find_both ((k, a) ∷ es) (h, hs) (inl q) = (a, h, q)
find_both ((k, a) ∷ es) (h, hs) (inr q) = find_both es hs q

module _ (fresh : Task) (pid : ℕ) where
  abbrev pub HasPid : Task → Type 0
  HasPid t = t.pid ≡ pid

  elsewhere :
      (j : ℕ) (t : Task) (es : List (ℕ × Task))
      → j ≡ t.pid
      → (j == pid) ≡ false
      → Any HasPid ((j, t) ∷ es)
      → Any HasPid es
  elsewhere j t es k e (inl h) = absurd (ground arith)
  elsewhere j t es k e (inr h) = h

  pub at-Every :
      (P : Task → Type 0) (es : List (ℕ × Task))
      → Keyed es
      → Any HasPid es
      → Every P es
      → P (at fresh pid es) × HasPid (at fresh pid es)
  unfolding at
  at-Every P [] k one h = elim one [ ]
  at-Every P ((j, t) ∷ es) (k, ks) one (h, hs) = elim (Bool-cases (j == pid)) [
    | inl e ↦ rw e (h, sym k ∙ (==_iff j pid).0 e)
    | inr e ↦ rw e (at-Every P es ks (elsewhere j t es k e one) hs)
  ]

  pub modify-Every :
      (P : Task → Type 0) (f : Task → Task) (es : List (ℕ × Task))
      → ((t : Task) → P t → P (f t))
      → Keyed es
      → Any HasPid es
      → Every P es
      → Every P (modify fresh pid f es)
  unfolding modify
  modify-Every P f [] g k one h = elim one [ ]
  modify-Every P f ((j, t) ∷ es) g (k, ks) one (h, hs) = elim (Bool-cases (j == pid)) [
    | inl e ↦ rw e (g t h, hs)
    | inr e ↦ rw e (h, modify-Every P f es g ks (elsewhere j t es k e one) hs)
  ]

  pub modify-Any :
      (P : Task → Type 0) (f : Task → Task) (es : List (ℕ × Task))
      → ((t : Task) → P t → P (f t))
      → Any P es
      → Any P (modify fresh pid f es)
  unfolding modify
  modify-Any P f [] g one = elim one [ ]
  modify-Any P f ((j, t) ∷ es) g one = elim (Bool-cases (j == pid)) [
    | inl e ↦ rw e (at_head one)
    | inr e ↦ rw e (behind (modify-Any P f es g) one)
  ]
    where
      at_head : Any P ((j, t) ∷ es) → Any P ((j, f t) ∷ es)
      at_head (inl h) = inl (g t h)
      at_head (inr h) = inr h

      behind :
          (Any P es → Any P (modify fresh pid f es))
          → Any P ((j, t) ∷ es)
          → Any P ((j, t) ∷ modify fresh pid f es)
      behind rest (inl h) = inl h
      behind rest (inr h) = inr (rest h)

  pub modify-Keyed :
      (f : Task → Task) (es : List (ℕ × Task))
      → ((t : Task) → (f t).pid ≡ t.pid)
      → Keyed es
      → Any HasPid es
      → Keyed (modify fresh pid f es)
  unfolding modify
  modify-Keyed f [] g k one = elim one [ ]
  modify-Keyed f ((j, t) ∷ es) g (k, ks) one = elim (Bool-cases (j == pid)) [
    | inl e ↦ rw e (k ∙ sym (g t), ks)
    | inr e ↦ rw e (k, modify-Keyed f es g ks (elsewhere j t es k e one))
  ]

pub age-Keyed : (es : List (ℕ × Task)) → Keyed es → Keyed (age tasks_run es)
unfolding age
age-Keyed [] h = tt
age-Keyed ((k, t) ∷ es) (h, hs) = (h, age-Keyed es hs)

pub both :
    {A : Type 0} (P Q : A → Type 0) (es : List (ℕ × A))
    → Every P es
    → Any Q es
    → Any (λ a. P a × Q a) es
both P Q [] h q = elim q [ ]
both P Q ((k, a) ∷ es) (h, hs) (inl q) = inl (h, q)
both P Q ((k, a) ∷ es) (h, hs) (inr q) = inr (both P Q es hs q)
