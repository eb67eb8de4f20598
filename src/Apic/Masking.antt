-- ===== src/Apic/Masking.antt =====
-- The entries that masking a whole controller leaves (kernel/int/apic.cpp, `ioapic::mask_all_gsi`).
use crep_os.Base.{
  ℕ, zero, suc, ◌+◌, ◌-◌, ◌*◌, ◌/◌, ◌^◌, ◌≤◌, ◌<◌, ◌≡◌, ◌≢◌, ◌∙◌, ◌⊎◌, inl, inr, refl, ap, Bool,
  true, false, ◌||◌, ◌==◌, Bool-cases, subst, some, bit_or, bit_and, ltb, arith,
}
use crep_os.Memory.Bits.{bit}
use crep_os.Apic.Routing.{Window, read_redirection, mask_gsi, max_gsi, mask_from, mask_all_gsi}
use crep_os.Apic.Table.{
  IsTable, HasEntry, low_reg_lem, high_reg_lem, write_redirection-other, write_redirection-apart,
}
use crep_os.Apic.Redirection.{mask_gsi_lem}

module _ {S : Type 0} (w : Window S) (gsi_base : ℕ) where
  -- The interrupts from `i` below `limit` are masked in `s'`, the others are as in `s`.
  unfoldable pub MaskedFrom : (i limit : ℕ) → (s s' : S) → Type 0
  MaskedFrom i limit s s' =
      (gsi : ℕ)
      → HasEntry gsi_base gsi
      → ((i ≤ gsi) → (gsi < limit) → bit (read_redirection w gsi_base s' gsi) 16 ≡ true)
        × ((gsi < i) ⊎ (limit ≤ gsi)
            → read_redirection w gsi_base s' gsi ≡ read_redirection w gsi_base s gsi)

module _ {S : Type 0} (w : Window S) {Kept : ℕ → Type 0} (table : IsTable w Kept) (kept : Kept 16)
    (gsi_base : ℕ) where
  max_gsi-mask_gsi :
      (s : S) (i : ℕ)
      → HasEntry gsi_base i
      → max_gsi w gsi_base (mask_gsi w gsi_base s i) ≡ max_gsi w gsi_base s
  unfolding mask_gsi max_gsi
  max_gsi-mask_gsi s i entry =
      let low = low_reg_lem gsi_base i entry in
      let high = high_reg_lem gsi_base i entry in
      ap (λ (x : ℕ). bit_and (x / 2 ^ 16) (2 ^ 32 - 1 - 2 ^ 7))
        (write_redirection-other w table gsi_base s i
          (bit_or (read_redirection w gsi_base s i) (2 ^ 16)) 1 (λ e. omega (arith, low))
          (λ e. omega (arith, high)))

  mask_gsi-apart :
      (s : S) (i gsi : ℕ)
      → HasEntry gsi_base i
      → HasEntry gsi_base gsi
      → i ≢ gsi
      → read_redirection w gsi_base (mask_gsi w gsi_base s i) gsi
        ≡ read_redirection w gsi_base s gsi
  unfolding mask_gsi
  mask_gsi-apart s i gsi entry entry' ne =
      write_redirection-apart w table gsi_base s i
        (bit_or (read_redirection w gsi_base s i) (2 ^ 16)) gsi entry entry' ne

  mask_gsi-set :
      (s : S) (i : ℕ)
      → HasEntry gsi_base i
      → bit (read_redirection w gsi_base (mask_gsi w gsi_base s i) i) 16 ≡ true
  mask_gsi-set s i entry =
      mask_gsi_lem w table gsi_base s i 16 entry (omega arith) kept
      ∙ or_true (bit (read_redirection w gsi_base s i) 16)
    where
      or_true : (b : Bool) → (b || true) ≡ true
      or_true true = refl
      or_true false = refl

  -- One more interrupt masked, and then those behind it.
  masked_step :
      (i limit : ℕ) (s s' : S)
      → HasEntry gsi_base i
      → i < limit
      → MaskedFrom w gsi_base (i + 1) limit (mask_gsi w gsi_base s i) s'
      → MaskedFrom w gsi_base i limit s s'
  unfolding MaskedFrom
  masked_step i limit s s' entry below rest gsi entry' =
      let apart : i ≢ gsi
          → read_redirection w gsi_base (mask_gsi w gsi_base s i) gsi
            ≡ read_redirection w gsi_base s gsi =
        mask_gsi-apart s i gsi entry entry' in
      (
        λ above under. elim (Bool-cases (i == gsi)) [
          | inl same ↦ now above under same
          | inr differ ↦ (rest gsi entry').0 (ground arith) under
        ],
        λ outside. (rest gsi entry').1 (further outside) ∙ apart (not_now outside),
      )
    where
      now :
          i ≤ gsi
          → gsi < limit
          → (i == gsi) ≡ true
          → bit (read_redirection w gsi_base s' gsi) 16 ≡ true
      now above under same =
          let e : i ≡ gsi = ground arith in
          let set = mask_gsi-set s i entry in
          let kept_set = (rest gsi entry').1 (inl (omega arith)) in
          ap (λ x. bit x 16) kept_set
          ∙ subst (λ j. bit (read_redirection w gsi_base (mask_gsi w gsi_base s i) j) 16 ≡ true) e
              set

      further : (gsi < i) ⊎ (limit ≤ gsi) → (gsi < i + 1) ⊎ (limit ≤ gsi)
      further (inl h) = inl (omega arith)
      further (inr h) = inr h

      not_now : (gsi < i) ⊎ (limit ≤ gsi) → i ≢ gsi
      not_now (inl h) e = omega arith
      not_now (inr h) e = omega arith

  mask_from_lem :
      (fuel limit : ℕ) (s : S) (i : ℕ)
      → gsi_base ≤ i
      → limit - i < fuel
      → (limit - gsi_base) * 2 + 17 < 2 ^ 32
      → max_gsi w gsi_base s ≡ limit
      → (s' : S) × ((mask_from w gsi_base fuel s i ≡ some s') × MaskedFrom w gsi_base i limit s s')
  unfolding mask_from HasEntry MaskedFrom
  mask_from_lem zero limit s i above enough fits e = absurd (omega arith)
  mask_from_lem (suc fuel) limit s i above enough fits e =
      go
        (λ below.
          mask_from_lem fuel limit (mask_gsi w gsi_base s i) (i + 1) (omega arith) (omega arith)
            fits (max_gsi-mask_gsi s i (above, omega arith) ∙ e))
        (Bool-cases (ltb i limit))
    where
      test : ltb i (max_gsi w gsi_base s) ≡ ltb i limit
      test = ap (ltb i) e

      entry : i < limit → HasEntry gsi_base i
      entry below = (above, omega arith)

      stays : limit ≤ i → MaskedFrom w gsi_base i limit s s
      stays h gsi entry' = ((λ lo hi. absurd (omega arith)), λ outside. refl)

      continued :
          (s' : S)
          → ltb i limit ≡ true
          → mask_from w gsi_base fuel (mask_gsi w gsi_base s i) (i + 1) ≡ some s'
          → mask_from w gsi_base (suc fuel) s i ≡ some s'
      continued s' below r = rw (test, below) r

      stopped : ltb i limit ≡ false → mask_from w gsi_base (suc fuel) s i ≡ some s
      stopped over = rw (test, over) refl

      go :
          (i < limit
            → (s' : S) × ((mask_from w gsi_base fuel (mask_gsi w gsi_base s i) (i + 1) ≡ some s')
                × MaskedFrom w gsi_base (i + 1) limit (mask_gsi w gsi_base s i) s'))
          → (ltb i limit ≡ true) ⊎ (ltb i limit ≡ false)
          → (s' : S) × ((mask_from w gsi_base (suc fuel) s i ≡ some s')
              × MaskedFrom w gsi_base i limit s s')
      go next (inl below) =
          let h : i < limit = ground arith in
          let (s', (r, rest)) = next h in
          (s', (continued s' below r, masked_step i limit s s' (entry h) h rest))
      go next (inr over) = (s, (stopped over, stays (ground arith)))

  -- With more rounds than the limit of the controller lies above its base, and no overflow of the
  -- register numbers, masking all of a controller ends; the interrupts from the base below the
  -- limit are then masked, and the entries of all others, of the limit itself among them, are as
  -- before.
  pub mask_all_gsi-MaskedFrom :
      (fuel : ℕ) (s : S)
      → max_gsi w gsi_base s - gsi_base < fuel
      → (max_gsi w gsi_base s - gsi_base) * 2 + 17 < 2 ^ 32
      → (s' : S) × ((mask_all_gsi w gsi_base fuel s ≡ some s')
          × MaskedFrom w gsi_base gsi_base (max_gsi w gsi_base s) s s')
  unfolding mask_all_gsi
  mask_all_gsi-MaskedFrom fuel s enough fits =
      mask_from_lem fuel (max_gsi w gsi_base s) s gsi_base (omega arith) enough fits refl
