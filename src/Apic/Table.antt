-- ===== src/Apic/Table.antt =====
-- The registers of a redirection table and what a write of an entry leaves
-- (kernel/int/apic.cpp).
use crep_os.Base.{
  ℕ, ◌+◌, ◌-◌, ◌*◌, ◌/◌, ◌%◌, ◌^◌, ◌≤◌, ◌<◌, ◌≡◌, ◌≢◌, ◌∙◌, inl, inr, refl, ap, Bool, true, false,
  ◌||◌, Bool-cases, subst, ltb, arith,
}
use crep_os.Word.{u32}
use crep_os.Memory.Bits.{bit, bit-bit_or, bit-mod}
use crep_os.Memory.Shifts.{bit_small, bit-shift_below, bit-shift, bit-div}
use crep_os.Apic.Routing.{Window, low_reg, high_reg, read_redirection, write_redirection}

-- What the manual says of the registers of a controller: they have 32 bits, a register is changed
-- by a write to it alone, and of an entry of the table, whose low half is in an even register and
-- whose high half follows it, the bits in `Kept` can be read back.
pub record IsTable {S : Type 0} (w : Window S) (Kept : ℕ → Type 0) : Type 0 where
  pub register : (s : S) (reg : ℕ) → w.read_reg s reg < 2 ^ 32
  pub apart :
      (s : S) (reg value other : ℕ)
      → reg ≢ other
      → w.read_reg (w.write_reg s reg value) other ≡ w.read_reg s other
  pub low_half :
      (s : S) (reg value l : ℕ)
      → 16 ≤ reg
      → reg % 2 ≡ 0
      → l < 32
      → Kept l
      → bit (w.read_reg (w.write_reg s reg value) reg) l ≡ bit value l
  pub high_half :
      (s : S) (reg value l : ℕ)
      → 16 ≤ reg
      → reg % 2 ≡ 1
      → l < 32
      → Kept (32 + l)
      → bit (w.read_reg (w.write_reg s reg value) reg) l ≡ bit value l

-- The registers of interrupt `gsi`, when they do not wrap.
unfoldable pub HasEntry : (gsi_base gsi : ℕ) → Type 0
HasEntry gsi_base gsi = (gsi_base ≤ gsi) × ((gsi - gsi_base) * 2 + 17 < 2 ^ 32)

pub low_reg_lem :
    (gsi_base gsi : ℕ) → HasEntry gsi_base gsi → low_reg gsi_base gsi ≡ (gsi - gsi_base) * 2 + 16
unfolding HasEntry
low_reg_lem gsi_base gsi (above, fits) = omega arith

pub high_reg_lem :
    (gsi_base gsi : ℕ) → HasEntry gsi_base gsi → high_reg gsi_base gsi ≡ (gsi - gsi_base) * 2 + 17
unfolding HasEntry
high_reg_lem gsi_base gsi (above, fits) = omega arith

pub or_false : (b : Bool) → (b || false) ≡ b
or_false true = refl
or_false false = refl

module _ {S : Type 0} (w : Window S) {Kept : ℕ → Type 0} (table : IsTable w Kept)
    (gsi_base : ℕ) where
  bit-read_low :
      (s : S) (gsi l : ℕ)
      → l < 32
      → bit (read_redirection w gsi_base s gsi) l ≡ bit (w.read_reg s (low_reg gsi_base gsi)) l
  unfolding read_redirection
  bit-read_low s gsi l h =
      let low =
        bit-bit_or (w.read_reg s (low_reg gsi_base gsi))
          (w.read_reg s (high_reg gsi_base gsi) * 2 ^ 32) l in
      let high = bit-shift_below (w.read_reg s (high_reg gsi_base gsi)) 32 l h in
      low
      ∙ ap (λ b. bit (w.read_reg s (low_reg gsi_base gsi)) l || b) high
      ∙ or_false (bit (w.read_reg s (low_reg gsi_base gsi)) l)

  bit-read_high :
      (s : S) (gsi l : ℕ)
      → l < 32
      → bit (read_redirection w gsi_base s gsi) (32 + l)
        ≡ bit (w.read_reg s (high_reg gsi_base gsi)) l
  unfolding read_redirection
  bit-read_high s gsi l h =
      let low =
        bit-bit_or (w.read_reg s (low_reg gsi_base gsi))
          (w.read_reg s (high_reg gsi_base gsi) * 2 ^ 32) (32 + l) in
      let none_low =
        bit_small (w.read_reg s (low_reg gsi_base gsi)) 32 (32 + l)
          (table.register s (low_reg gsi_base gsi)) (omega arith) in
      let high = bit-shift (w.read_reg s (high_reg gsi_base gsi)) 32 l in
      low
      ∙ ap (λ b. b || bit (w.read_reg s (high_reg gsi_base gsi) * 2 ^ 32) (32 + l)) none_low
      ∙ high

  written_low :
      (s : S) (gsi value l : ℕ)
      → HasEntry gsi_base gsi
      → l < 32
      → Kept l
      → bit (read_redirection w gsi_base (write_redirection w gsi_base s gsi value) gsi) l
        ≡ bit value l
  unfolding write_redirection
  written_low s gsi value l entry h kept =
      let low = low_reg_lem gsi_base gsi entry in
      let high = high_reg_lem gsi_base gsi entry in
      let s1 = w.write_reg s (low_reg gsi_base gsi) (u32 value) in
      bit-read_low (write_redirection w gsi_base s gsi value) gsi l h
      ∙ ap (λ x. bit x l)
          (table.apart s1 (high_reg gsi_base gsi) (u32 (value / 2 ^ 32)) (low_reg gsi_base gsi)
            (omega (arith, low, high)))
      ∙ table.low_half s (low_reg gsi_base gsi) (u32 value) l (omega (arith, low))
          (omega (arith, low)) h kept
      ∙ bit-mod value 32 l h

  written_high :
      (s : S) (gsi value l : ℕ)
      → HasEntry gsi_base gsi
      → l < 32
      → Kept (32 + l)
      → bit (read_redirection w gsi_base (write_redirection w gsi_base s gsi value) gsi) (32 + l)
        ≡ bit value (32 + l)
  unfolding write_redirection
  written_high s gsi value l entry h kept =
      let high = high_reg_lem gsi_base gsi entry in
      let s1 = w.write_reg s (low_reg gsi_base gsi) (u32 value) in
      bit-read_high (write_redirection w gsi_base s gsi value) gsi l h
      ∙ table.high_half s1 (high_reg gsi_base gsi) (u32 (value / 2 ^ 32)) l (omega (arith, high))
          (omega (arith, high)) h kept
      ∙ bit-mod (value / 2 ^ 32) 32 l h
      ∙ bit-div value 32 l

  -- What is written to an entry is read back, on the bits that are kept.
  pub read_redirection-write_redirection :
      (s : S) (gsi value l : ℕ)
      → HasEntry gsi_base gsi
      → l < 64
      → Kept l
      → bit (read_redirection w gsi_base (write_redirection w gsi_base s gsi value) gsi) l
        ≡ bit value l
  read_redirection-write_redirection s gsi value l entry h kept = elim (Bool-cases (ltb l 32)) [
    | inl below ↦ written_low s gsi value l entry (ground arith) kept
    | inr above ↦ at_high (l - 32) (ground arith)
  ]
    where
      at_high :
          (k : ℕ)
          → 32 + k ≡ l
          → bit (read_redirection w gsi_base (write_redirection w gsi_base s gsi value) gsi) l
            ≡ bit value l
      at_high k e =
          subst
            (λ l.
              Kept l
              → bit (read_redirection w gsi_base (write_redirection w gsi_base s gsi value) gsi) l
                ≡ bit value l)
            e (written_high s gsi value k entry (omega arith)) kept

  pub write_redirection-other :
      (s : S) (gsi value reg : ℕ)
      → low_reg gsi_base gsi ≢ reg
      → high_reg gsi_base gsi ≢ reg
      → w.read_reg (write_redirection w gsi_base s gsi value) reg ≡ w.read_reg s reg
  unfolding write_redirection
  write_redirection-other s gsi value reg ne1 ne2 =
      table.apart (w.write_reg s (low_reg gsi_base gsi) (u32 value)) (high_reg gsi_base gsi)
        (u32 (value / 2 ^ 32)) reg ne2
      ∙ table.apart s (low_reg gsi_base gsi) (u32 value) reg ne1

  -- Writing an entry leaves the entry of another interrupt.
  pub write_redirection-apart :
      (s : S) (gsi value other : ℕ)
      → HasEntry gsi_base gsi
      → HasEntry gsi_base other
      → gsi ≢ other
      → read_redirection w gsi_base (write_redirection w gsi_base s gsi value) other
        ≡ read_redirection w gsi_base s other
  unfolding read_redirection write_redirection HasEntry
  write_redirection-apart s gsi value other entry entry' ne =
      let low = low_reg_lem gsi_base gsi entry in
      let high = high_reg_lem gsi_base gsi entry in
      let low' = low_reg_lem gsi_base other entry' in
      let high' = high_reg_lem gsi_base other entry' in
      let above : gsi_base ≤ gsi = entry.0 in
      let above' : gsi_base ≤ other = entry'.0 in
      let twice = write_redirection-other s gsi value in
      let is_low = twice (low_reg gsi_base other) (λ e. ne (omega arith)) (λ e. omega arith) in
      let is_high = twice (high_reg gsi_base other) (λ e. omega arith) (λ e. ne (omega arith)) in cc
