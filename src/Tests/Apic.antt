-- ===== src/Tests/Apic.antt =====
-- Runs on a controller that keeps what is written to it.
use crep_os.Base.{
  ℕ, ◌*◌, ◌%◌, ◌^◌, ◌<◌, ◌≡◌, ◌∙◌, some, if◌then◌else◌, ◌==◌, refl, ap, arith, [], ◌∷◌,
}
use crep_os.Memory.Bits.{bit, bit-mod}
use crep_os.Apic.Routing.{
  Window, read_redirection, mask_gsi, unmask_gsi, max_gsi, mask_all_gsi, ioapic_validate,
}
use crep_os.Apic.Table.{IsTable, HasEntry}
use crep_os.Apic.Redirection.{unmask_gsi-mask_gsi}
use crep_os.Apic.Masking.{MaskedFrom, mask_all_gsi-MaskedFrom}

data Unit0 : Type 0 where
  kept : Unit0

abbrev Kept : ℕ → Type 0
Kept l = Unit0

abbrev window : Window (ℕ → ℕ)
window = record {
  read_reg = λ s reg. s reg % 2 ^ 32;
  write_reg = λ s reg value other. if reg == other then value else s other;
}

window-IsTable : IsTable window Kept
window-IsTable = record {
  register = λ s reg. ground arith;
  apart = λ s reg value other ne. ground arith;
  low_half = λ s reg value l above even h kept_l. same s reg value l h;
  high_half = λ s reg value l above odd h kept_l. same s reg value l h;
}
  where
    same :
        (s : ℕ → ℕ) (reg value l : ℕ)
        → l < 32
        → bit ((if reg == reg then value else s reg) % 2 ^ 32) l ≡ bit value l
    same s reg value l h =
        let e : (if reg == reg then value else s reg) ≡ value = ground arith in
        ap (λ x. bit (x % 2 ^ 32) l) e ∙ bit-mod value 32 l h

abbrev start : ℕ → ℕ
start reg = if reg == 1 then 3 * 2 ^ 16 else 33

max_gsi_run : max_gsi window 0 start ≡ 3
unfolding max_gsi
max_gsi_run = refl

entry : HasEntry 0 2
unfolding HasEntry
entry = (omega arith, omega arith)

unmask_gsi-mask_gsi_example :
    bit (read_redirection window 0 (unmask_gsi window 0 (mask_gsi window 0 start 2) 2) 2) 5
    ≡ (16 == 5)
unmask_gsi-mask_gsi_example =
    unmask_gsi-mask_gsi window window-IsTable 0 start 2 5 entry (omega arith) kept

mask_all_gsi-MaskedFrom_example :
    (s' : ℕ → ℕ) × ((mask_all_gsi window 0 4 start ≡ some s')
      × MaskedFrom window 0 0 (max_gsi window 0 start) start s')
mask_all_gsi-MaskedFrom_example =
    mask_all_gsi-MaskedFrom window window-IsTable kept 0 4 start (omega (arith, max_gsi_run))
      (omega (arith, max_gsi_run))

-- Interrupt 2 belongs to the second of two controllers that share their registers.
ioapic_validate_run : ioapic_validate window ((8, start) ∷ (0, start) ∷ []) 2 ≡ some (0, start)
unfolding ioapic_validate max_gsi
ioapic_validate_run = refl
