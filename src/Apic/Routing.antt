-- ===== src/Apic/Routing.antt =====
-- The redirection table of an I/O interrupt controller (kernel/int/apic.hpp, kernel/int/apic.cpp). The
-- controller is behind two cells of its memory, one that selects a register and one that reads or
-- writes it, and is given by what these do.
use crep_os.Base.{
  ℕ, zero, suc, ◌+◌, ◌-◌, ◌*◌, ◌/◌, ◌^◌, ◌&&◌, List, [], ◌∷◌, Option, none, some, if◌then◌else◌,
  ◌==◌, ltb, leb, bit_and, bit_or,
}
use crep_os.Word.{u32}

-- What `ioapic::read` and `ioapic::write` do to a controller.
pub record Window (S : Type 0) : Type 0 where
  pub read_reg : S → (reg : ℕ) → ℕ
  pub write_reg : S → (reg value : ℕ) → S

-- The two registers of an entry.
abbrev pub low_reg : (gsi_base gsi : ℕ) → ℕ
low_reg gsi_base gsi = u32 (u32 (gsi + 2 ^ 32 - gsi_base) * 2 + 16)

abbrev pub high_reg : (gsi_base gsi : ℕ) → ℕ
high_reg gsi_base gsi = u32 (low_reg gsi_base gsi + 1)

-- The polarity and the trigger mode of the flags.
abbrev pub flagged : (flags flag at redirect : ℕ) → ℕ
flagged flags flag at redirect =
    if bit_and flags (2 ^ flag) == 0 then redirect else bit_or redirect (2 ^ at)

module _ {S : Type 0} (w : Window S) (gsi_base : ℕ) where
  unfoldable pub read_redirection : S → (gsi : ℕ) → ℕ
  read_redirection s gsi =
      bit_or (w.read_reg s (low_reg gsi_base gsi)) (w.read_reg s (high_reg gsi_base gsi) * 2 ^ 32)

  unfoldable pub write_redirection : S → (gsi value : ℕ) → S
  write_redirection s gsi value =
      w.write_reg (w.write_reg s (low_reg gsi_base gsi) (u32 value)) (high_reg gsi_base gsi)
        (u32 (value / 2 ^ 32))

  unfoldable pub mask_gsi : S → (gsi : ℕ) → S
  unfolding read_redirection write_redirection
  mask_gsi s gsi = write_redirection s gsi (bit_or (read_redirection s gsi) (2 ^ 16))

  unfoldable pub unmask_gsi : S → (gsi : ℕ) → S
  unfolding read_redirection write_redirection
  unmask_gsi s gsi = write_redirection s gsi (bit_and (read_redirection s gsi) (2 ^ 16))

  unfoldable pub max_gsi : S → ℕ
  max_gsi s = bit_and (w.read_reg s 1 / 2 ^ 16) (2 ^ 32 - 1 - 2 ^ 7)

  -- The loop of `mask_all_gsi`, which asks for the limit each time; `none` is an end of the fuel.
  unfoldable pub mask_from : (fuel : ℕ) → S → (i : ℕ) → Option S
  unfolding mask_gsi max_gsi
  mask_from zero s i = none
  mask_from (suc fuel) s i =
      let rest = mask_from fuel (mask_gsi s i) (i + 1) in if ltb i (max_gsi s) then rest else some s

  unfoldable pub mask_all_gsi : (fuel : ℕ) → S → Option S
  unfolding mask_from
  mask_all_gsi fuel s = mask_from fuel s gsi_base

  unfoldable pub redirect_gsi : S → (vector gsi flags : ℕ) → S
  unfolding write_redirection
  redirect_gsi s vector gsi flags =
      write_redirection s gsi (flagged flags 3 15 (flagged flags 1 13 vector))

-- `ioapic_validate`: the first controller whose interrupts the number is among, by its base.
unfoldable pub ioapic_validate : {S : Type 0} → Window S → List (ℕ × S) → (gsi : ℕ) → Option (ℕ × S)
unfolding max_gsi
ioapic_validate w [] gsi = none
ioapic_validate w ((gsi_base, s) ∷ ioapics) gsi =
    if leb gsi_base gsi && leb gsi (max_gsi w gsi_base s)
    then some (gsi_base, s)
    else ioapic_validate w ioapics gsi
