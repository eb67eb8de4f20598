-- ===== src/Apic/Redirection.antt =====
-- The entries that masking, unmasking and redirecting leave (kernel/int/apic.cpp).
use crep_os.Base.{
  ℕ, ◌^◌, ◌≤◌, ◌<◌, ◌≡◌, ◌∙◌, refl, sym, ap, Bool, true, false, ◌||◌, ◌&&◌, ◌==◌, if◌then◌else◌,
  bit_or, bit_and, arith,
}
use crep_os.Memory.Bits.{bit, bit-bit_or, bit-bit_and, bit-pow}
use crep_os.Memory.Masks.{bit_and_pow}
use native.Mathlib.Nat.{one-le-pow}
use crep_os.Apic.Routing.{Window, read_redirection, mask_gsi, unmask_gsi, flagged, redirect_gsi}
use crep_os.Apic.Table.{IsTable, HasEntry, or_false, read_redirection-write_redirection}

flagged_kept :
    (flags flag at redirect l : ℕ) (b : Bool)
    → bit flags flag ≡ b
    → bit (if (if b then 2 ^ flag else 0) == 0 then redirect else bit_or redirect (2 ^ at)) l
      ≡ (bit redirect l || (b && (at == l)))
flagged_kept flags flag at redirect l true e =
    let pow : 1 ≤ 2 ^ flag = one-le-pow flag 2 (omega arith) in
    let set : (if 2 ^ flag == 0 then redirect else bit_or redirect (2 ^ at))
        ≡ bit_or redirect (2 ^ at) =
      ground arith in
    ap (λ x. bit x l) set
    ∙ bit-bit_or redirect (2 ^ at) l
    ∙ ap (λ b. bit redirect l || b) (bit-pow at l)
flagged_kept flags flag at redirect l false e = sym (or_false (bit redirect l))

flagged-bit :
    (flags flag at redirect l : ℕ)
    → bit (flagged flags flag at redirect) l ≡ (bit redirect l || (bit flags flag && (at == l)))
flagged-bit flags flag at redirect l =
    ap (λ (x : ℕ). bit (if x == 0 then redirect else bit_or redirect (2 ^ at)) l)
      (bit_and_pow flags flag)
    ∙ flagged_kept flags flag at redirect l (bit flags flag) refl

module _ {S : Type 0} (w : Window S) {Kept : ℕ → Type 0} (table : IsTable w Kept)
    (gsi_base : ℕ) where
  -- Masking an entry sets its bit 16 and keeps the others.
  pub mask_gsi_lem :
      (s : S) (gsi l : ℕ)
      → HasEntry gsi_base gsi
      → l < 64
      → Kept l
      → bit (read_redirection w gsi_base (mask_gsi w gsi_base s gsi) gsi) l
        ≡ (bit (read_redirection w gsi_base s gsi) l || (16 == l))
  unfolding mask_gsi
  mask_gsi_lem s gsi l entry h kept =
      let old = read_redirection w gsi_base s gsi in
      let pow = bit-pow 16 l in
      read_redirection-write_redirection w table gsi_base s gsi (bit_or old (2 ^ 16)) l entry h kept
      ∙ bit-bit_or old (2 ^ 16) l
      ∙ ap (λ b. bit old l || b) pow

  -- Unmasking an entry keeps its bit 16 and clears every other.
  unmask_gsi_lem :
      (s : S) (gsi l : ℕ)
      → HasEntry gsi_base gsi
      → l < 64
      → Kept l
      → bit (read_redirection w gsi_base (unmask_gsi w gsi_base s gsi) gsi) l
        ≡ (bit (read_redirection w gsi_base s gsi) l && (16 == l))
  unfolding unmask_gsi
  unmask_gsi_lem s gsi l entry h kept =
      let old = read_redirection w gsi_base s gsi in
      let pow = bit-pow 16 l in
      read_redirection-write_redirection w table gsi_base s gsi (bit_and old (2 ^ 16)) l entry h
        kept
      ∙ bit-bit_and old (2 ^ 16) l
      ∙ ap (λ b. bit old l && b) pow

  -- Masking and then unmasking an interrupt that has an entry leaves an entry with bit 16, the
  -- mask, set and every other bit that can be read back clear: the interrupt stays masked and its
  -- vector is lost.
  pub unmask_gsi-mask_gsi :
      (s : S) (gsi l : ℕ)
      → HasEntry gsi_base gsi
      → l < 64
      → Kept l
      → bit
          (read_redirection w gsi_base (unmask_gsi w gsi_base (mask_gsi w gsi_base s gsi) gsi) gsi)
          l
        ≡ (16 == l)
  unmask_gsi-mask_gsi s gsi l entry h kept =
      let masked = mask_gsi_lem s gsi l entry h kept in
      let unmasked = unmask_gsi_lem (mask_gsi w gsi_base s gsi) gsi l entry h kept in
      unmasked
      ∙ ap (λ b. b && (16 == l)) masked
      ∙ absorbed (bit (read_redirection w gsi_base s gsi) l) (16 == l)
    where
      absorbed : (b c : Bool) → ((b || c) && c) ≡ c
      absorbed true c = refl
      absorbed false true = refl
      absorbed false false = refl

  -- Redirecting gives the entry the vector, the polarity of flag 1 and the trigger mode of flag 3.
  redirect_gsi_lem :
      (s : S) (vector gsi flags l : ℕ)
      → HasEntry gsi_base gsi
      → l < 64
      → Kept l
      → bit (read_redirection w gsi_base (redirect_gsi w gsi_base s vector gsi flags) gsi) l
        ≡ ((bit vector l || (bit flags 1 && (13 == l))) || (bit flags 3 && (15 == l)))
  unfolding redirect_gsi
  redirect_gsi_lem s vector gsi flags l entry h kept =
      read_redirection-write_redirection w table gsi_base s gsi
        (flagged flags 3 15 (flagged flags 1 13 vector)) l entry h kept
      ∙ flagged-bit flags 3 15 (flagged flags 1 13 vector) l
      ∙ ap (λ b. b || (bit flags 3 && (15 == l))) (flagged-bit flags 1 13 vector l)
