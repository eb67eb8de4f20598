-- ===== src/Nvme/Laps.antt =====
-- The slot and the phase of the `k`-th use of a ring, counted from 0 (kernel/drivers/nvme/nvme.cpp,
-- `queue::send_cmd`).
use crep_os.Base.{
  ℕ, suc, ◌+◌, ◌/◌, ◌%◌, ◌<◌, ◌≡◌, ◌∙◌, sym, ap, if◌then◌else◌, ◌==◌, Bool-cases, inl, inr, ==_iff,
  arith,
}
use native.Mathlib.Nat.{
  suc-mod, mod-lt, mod-eq_of_lt, div-add-mod', div-eq_of_lt-le, add-mul, mod_self,
}
use crep_os.Nvme.Queue.{next_slot, not_phase}

abbrev pub phase_at : (n k : ℕ) → ℕ
phase_at n k = (k / n + 1) % 2

suc_mod : (n k : ℕ) → (k + 1) % n ≡ (k % n + 1) % n
suc_mod n k =
    let left : k + 1 ≡ suc k = omega arith in
    let right : k % n + 1 ≡ suc (k % n) = omega arith in
    ap (λ (x : ℕ). x % n) left ∙ suc-mod k n ∙ ap (λ (x : ℕ). x % n) (sym right)

div_last : (n k : ℕ) → 0 < n → k % n + 1 ≡ n → (k + 1) / n ≡ k / n + 1
div_last n k pos last =
    let whole = div-add-mod' k n in
    let once = add-mul (k / n) 1 n in
    let twice = add-mul (k / n + 1) 1 n in
    div-eq_of_lt-le n (omega (arith, whole, once)) (omega (arith, whole, once, twice))

div_inside : (n k : ℕ) → 0 < n → k % n + 1 < n → (k + 1) / n ≡ k / n
div_inside n k pos inside =
    let whole = div-add-mod' k n in
    let once = add-mul (k / n) 1 n in
    div-eq_of_lt-le n (omega (arith, whole)) (omega (arith, whole, once))

pub next_slot-mod : (n k : ℕ) → 0 < n → next_slot n (k % n) ≡ (k + 1) % n
next_slot-mod n k pos =
    let below = mod-lt k pos in
    elim (Bool-cases (k % n + 1 == n)) [
      | inl last ↦
          let e = (==_iff (k % n + 1) n).0 last in
          rw last (sym (suc_mod n k ∙ ap (λ (x : ℕ). x % n) e ∙ mod_self n))
      | inr inside ↦ rw inside (sym (suc_mod n k ∙ mod-eq_of_lt (ground arith)))
    ]

pub phase_at-suc :
    (n k : ℕ)
    → 0 < n
    → (if k % n + 1 == n then not_phase (phase_at n k) else phase_at n k) ≡ phase_at n (k + 1)
phase_at-suc n k pos =
    let below = mod-lt k pos in
    elim (Bool-cases (k % n + 1 == n)) [
      | inl last ↦
          let e = (==_iff (k % n + 1) n).0 last in
          let lap = div_last n k pos e in
          rw last (flipped (k / n) ∙ ap (λ (x : ℕ). (x + 1) % 2) (sym lap))
      | inr inside ↦
          rw inside (ap (λ (x : ℕ). (x + 1) % 2) (sym (div_inside n k pos (ground arith))))
    ]
  where
    flipped : (lap : ℕ) → not_phase ((lap + 1) % 2) ≡ (lap + 1 + 1) % 2
    flipped lap = ground arith
