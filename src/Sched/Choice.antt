-- ===== src/Sched/Choice.antt =====
-- Whom the searches of `reschedule` choose.
use crep_os.Base.{
  ℕ, ◌+◌, ◌^◌, ◌<◌, ◌≤◌, ◌≡◌, ◌≢◌, ◌↔◌, ◌∙◌, ◌⊎◌, inl, inr, refl, sym, subst, true, false, List, [],
  ◌∷◌, arith, Bool-cases,
}
use crep_os.Word.{u64, minus_one}
use crep_os.Sched.{Runnable, aged, is_better, choose, task_waiting}

module _ {ℓ} {A : Type ℓ} where
  abbrev pub Every : (A → Type 0) → List (ℕ × A) → Type 0
  Every P [] = Unit
  Every P ((k, a) ∷ es) = P a × Every P es

  abbrev pub Any : (A → Type 0) → List (ℕ × A) → Type 0
  Any P [] = ⊥
  Any P ((k, a) ∷ es) = P a ⊎ Any P es

  pub Every-map :
      {P Q : A → Type 0} (es : List (ℕ × A)) → ((a : A) → P a → Q a) → Every P es → Every Q es
  Every-map [] f h = tt
  Every-map ((k, a) ∷ es) f h = (f a h.0, Every-map es f h.1)

  pub Every-zip :
      {P Q R : A → Type 0} (es : List (ℕ × A))
      → ((a : A) → P a → Q a → R a)
      → Every P es
      → Every Q es
      → Every R es
  Every-zip [] f h g = tt
  Every-zip ((k, a) ∷ es) f h g = (f a h.0 g.0, Every-zip es f h.1 g.1)

module _ {ℓ} {A : Type ℓ} (r : Runnable A) where
  abbrev pub Waits : A → Type 0
  Waits a = r.state a ≡ task_waiting

  -- An entry that waits and has waited for `w` rounds.
  pub record IsCandidate (w res : ℕ) (a : A) : Type 0 where
    pub waits : Waits a
    pub wait : u64 (r.idle a + 1) ≡ w
    pub named : r.id a ≡ res

  -- No entry waits for longer than `w`.
  abbrev pub NoLonger : ℕ → A → Type 0
  NoLonger w a = Waits a → u64 (r.idle a + 1) ≤ w

  data Search (es : List (ℕ × A)) (cnt ret res : ℕ) : Type 0 where
    kept : res ≡ ret → Every (NoLonger cnt) es → Search es cnt ret res
    picked :
        (w : ℕ)
        → cnt < w
        → Any (IsCandidate w res) es
        → Every (NoLonger w) es
        → Search es cnt ret res

  better : (a : A) (cnt : ℕ) → is_better r a cnt ≡ true → Waits a × (cnt < u64 (r.idle a + 1))
  better a cnt e =
      let s = r.state-set a (u64 (r.idle a + 1)) in
      let i = r.idle-set a (u64 (r.idle a + 1)) in ground (arith, s, i)

  worse : (a : A) (cnt : ℕ) → is_better r a cnt ≡ false → NoLonger cnt a
  worse a cnt e h =
      let s = r.state-set a (u64 (r.idle a + 1)) in
      let i = r.idle-set a (u64 (r.idle a + 1)) in ground (arith, s, i)

  choose-Search : (es : List (ℕ × A)) (cnt ret : ℕ) → Search es cnt ret (choose r es cnt ret)
  unfolding choose
  choose-Search [] cnt ret = kept refl tt
  choose-Search ((k, a) ∷ es) cnt ret = elim (Bool-cases (is_better r a cnt)) [
    | inl e ↦ rw (e, choose) (on_better e (choose-Search es (r.idle (aged r a)) (r.id (aged r a))))
    | inr e ↦ rw (e, choose) (on_worse e (choose-Search es cnt ret))
  ]
    where
      on_better :
          {res : ℕ}
          → is_better r a cnt ≡ true
          → Search es (r.idle (aged r a)) (r.id (aged r a)) res
          → Search ((k, a) ∷ es) cnt ret res
      on_better e (kept f all) =
          let i = r.idle-set a (u64 (r.idle a + 1)) in
          let b = better a cnt e in
          picked (u64 (r.idle a + 1)) b.1
            (inl (record {
              waits = b.0;
              wait = refl;
              named = sym (r.id-set a (u64 (r.idle a + 1))) ∙ sym f;
            }))
            ((λ h. omega arith), subst (λ n. Every (NoLonger n) es) i all)
      on_better e (picked w more one all) =
          let i = r.idle-set a (u64 (r.idle a + 1)) in
          let b = better a cnt e in picked w (omega arith) (inr one) ((λ h. omega arith), all)

      on_worse :
          {res : ℕ}
          → is_better r a cnt ≡ false
          → Search es cnt ret res
          → Search ((k, a) ∷ es) cnt ret res
      on_worse e (kept f all) = kept f (worse a cnt e, all)
      on_worse e (picked w more one all) =
          let l = worse a cnt e in picked w more (inr one) ((λ h. let m = l h in omega arith), all)

  -- What the search of `reschedule` comes to.
  pub data Choice (es : List (ℕ × A)) (res : ℕ) : Type 0 where
    none_waits : res ≡ minus_one → Every (λ a. Waits a → ⊥) es → Choice es res
    longest : (w : ℕ) → Any (IsCandidate w res) es → Every (NoLonger w) es → Choice es res

  -- The result is the id of a longest waiting entry, or -1 where none waits.
  pub choose-found :
      (es : List (ℕ × A))
      → Every (λ a. r.idle a + 1 < 2 ^ 64) es
      → Choice es (choose r es 0 minus_one)
  choose-found es small = finish (choose-Search es 0 minus_one)
    where
      finish : {res : ℕ} → Search es 0 minus_one res → Choice es res
      finish (kept f all) =
          none_waits f (
            Every-zip es (λ a low long waits. let h = long waits in absurd (omega arith)) small all)
      finish (picked w more one all) = longest w one all

  some-Named :
      (w res : ℕ) (es : List (ℕ × A))
      → Every (λ a. Waits a → r.id a ≢ minus_one) es
      → Any (IsCandidate w res) es
      → (res ≢ minus_one) × (Every (λ a. Waits a → ⊥) es → ⊥)
  some-Named w res [] named one = absurd one
  some-Named w res ((k, a) ∷ es) named (inl c) =
      ((λ e. named.0 c.waits (c.named ∙ e)), λ idle. idle.0 c.waits)
  some-Named w res ((k, a) ∷ es) named (inr one) =
      let (n, busy) = some-Named w res es named.1 one in (n, λ idle. busy idle.1)

  -- Where no idle counter is about to wrap and no waiting entry has the id -1, the search of
  -- `reschedule` (for a task or for a thread) returns the id of a waiting entry than which no
  -- waiting entry has waited longer, where one waits; it returns -1 exactly where none waits.
  pub choose-Choice :
      (es : List (ℕ × A))
      → Every (λ a. r.idle a + 1 < 2 ^ 64) es
      → Every (λ a. Waits a → r.id a ≢ minus_one) es
      → Choice es (choose r es 0 minus_one)
        × ((choose r es 0 minus_one ≡ minus_one) ↔ Every (λ a. Waits a → ⊥) es)
  choose-Choice es small named = let found = choose-found es small in (found, nobody found)
    where
      nobody : {res : ℕ} → Choice es res → (res ≡ minus_one) ↔ Every (λ a. Waits a → ⊥) es
      nobody (none_waits f all) = ((λ e. all), λ idle. f)
      nobody {res} (longest w one all) =
          let (n, busy) = some-Named w res es named one in
          ((λ e. absurd (n e)), λ idle. absurd (busy idle))
