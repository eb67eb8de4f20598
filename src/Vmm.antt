-- ===== src/Vmm.antt =====
-- Page table entries (kernel/mm/vmm.hpp). The classes `pml5e` to `pml1e` override eleven virtual
-- functions that give each flag's mask, 0 where the level has no such flag: a class is a record.
pub mod Entries
pub mod Tables
pub mod Walk
pub mod Map
pub mod Opens
pub mod Roundtrip
use crep_os.Base.{ℕ, ◌-◌, ◌/◌, ◌%◌, ◌^◌, bit_and, bit_or, Bool, not, if◌then◌else◌, ◌==◌}

pub record Level : Type 0 where
  pub flags_p : ℕ
  pub flags_rw : ℕ
  pub flags_us : ℕ
  pub flags_pwt : ℕ
  pub flags_pcd : ℕ
  pub flags_a : ℕ
  pub flags_d : ℕ
  pub flags_pat : ℕ
  pub flags_ps : ℕ
  pub flags_g : ℕ
  pub flags_nx : ℕ

abbrev pub pml5e : Level
pml5e = record {
  flags_p = 2 ^ 0;
  flags_rw = 2 ^ 1;
  flags_us = 2 ^ 2;
  flags_pwt = 2 ^ 3;
  flags_pcd = 2 ^ 4;
  flags_a = 2 ^ 5;
  flags_d = 0;
  flags_pat = 0;
  flags_ps = 0;
  flags_g = 0;
  flags_nx = 2 ^ 63;
}

abbrev pub pml4e : Level
pml4e = record {
  flags_p = 2 ^ 0;
  flags_rw = 2 ^ 1;
  flags_us = 2 ^ 2;
  flags_pwt = 2 ^ 3;
  flags_pcd = 2 ^ 4;
  flags_a = 2 ^ 5;
  flags_d = 0;
  flags_pat = 0;
  flags_ps = 0;
  flags_g = 0;
  flags_nx = 2 ^ 63;
}

abbrev pub pml3e : Level
pml3e = record {
  flags_p = 2 ^ 0;
  flags_rw = 2 ^ 1;
  flags_us = 2 ^ 2;
  flags_pwt = 2 ^ 3;
  flags_pcd = 2 ^ 4;
  flags_a = 2 ^ 5;
  flags_d = 2 ^ 6;
  flags_pat = 2 ^ 12;
  flags_ps = 2 ^ 7;
  flags_g = 2 ^ 8;
  flags_nx = 2 ^ 63;
}

abbrev pub pml2e : Level
pml2e = record {
  flags_p = 2 ^ 0;
  flags_rw = 2 ^ 1;
  flags_us = 2 ^ 2;
  flags_pwt = 2 ^ 3;
  flags_pcd = 2 ^ 4;
  flags_a = 2 ^ 5;
  flags_d = 2 ^ 6;
  flags_pat = 2 ^ 12;
  flags_ps = 2 ^ 7;
  flags_g = 2 ^ 8;
  flags_nx = 2 ^ 63;
}

abbrev pub pml1e : Level
pml1e = record {
  flags_p = 2 ^ 0;
  flags_rw = 2 ^ 1;
  flags_us = 2 ^ 2;
  flags_pwt = 2 ^ 3;
  flags_pcd = 2 ^ 4;
  flags_a = 2 ^ 5;
  flags_d = 2 ^ 6;
  flags_pat = 2 ^ 7;
  flags_ps = 0;
  flags_g = 2 ^ 8;
  flags_nx = 2 ^ 63;
}

-- `*entry & mask`, as a condition.
unfoldable pub has : ℕ → ℕ → Bool
has entry mask = not (bit_and entry mask == 0)

abbrev pub is_present : Level → ℕ → Bool
is_present l entry = has entry l.flags_p

abbrev pub is_huge : Level → ℕ → Bool
is_huge l entry = has entry l.flags_ps

unfoldable pub set_bit : ℕ → ℕ → Bool → ℕ
set_bit entry bit value = if value then bit_or entry bit else bit_and entry (2 ^ 64 - 1 - bit)

abbrev pub set_present : Level → ℕ → Bool → ℕ
set_present l entry = set_bit entry l.flags_p

-- `bm_test` on the single 64-bit word of a page attribute index.
abbrev pub pa_bit : ℕ → ℕ → Bool
pa_bit pa_index k = pa_index / 2 ^ k % 2 == 1

unfoldable pub set_pa : Level → (entry pa_index : ℕ) → ℕ
unfolding set_bit
set_pa l entry pa_index =
    set_bit
      (set_bit (set_bit entry l.flags_pat (pa_bit pa_index 2)) l.flags_pcd (pa_bit pa_index 1))
      l.flags_pwt (pa_bit pa_index 0)

-- `*entry & ~(0xfff)`
unfoldable pub get_base : ℕ → ℕ
get_base entry = bit_and entry (2 ^ 64 - 2 ^ 12)
