-- ===== src/Vmm/Entries.antt =====
-- Flags and base of an entry that was made by `|` of a page address and flags.
use crep_os.Base.{
  ℕ, ◌+◌, ◌-◌, ◌*◌, ◌/◌, ◌%◌, ◌^◌, ◌<◌, bit_or, ◌≡◌, refl, ◌∙◌, Bool, true, false, if◌then◌else◌,
  ◌==◌, arith, inl, inr, Bool-cases,
}
use native.Mathlib.Nat.{one-le-pow}
use crep_os.Memory.Bits.{bit, bit-bit_or, bit-bit_and, bit-pow, bit_mask}
use crep_os.Memory.Masks.{bit_or_add, bit_and_ones, bit_and_high, bit_and_pow}
use crep_os.Vmm.{Level, has, set_bit, set_pa, get_base, pa_bit}

-- `e & (1 << k)` is bit `k` of `e`.
pub has-bit : (e k : ℕ) → has e (2 ^ k) ≡ bit e k
unfolding has
has-bit e k = rw (bit_and_pow e k) (elim (Bool-cases (bit e k)) [
  | inl set ↦ rw set (ground (arith, one-le-pow k 2))
  | inr clear ↦ rw clear refl
])

-- The base of an entry is its address cut to a page boundary.
pub get_base_lem : (e : ℕ) → e < 2 ^ 64 → get_base e ≡ e / 2 ^ 12 * 2 ^ 12
unfolding get_base
get_base_lem e h = bit_and_high e (2 ^ 52 - 1) 12 ∙ omega (arith, bit_and_ones (e / 2 ^ 12) 52)

module _ (address flags : ℕ) (aligned : address % 2 ^ 12 ≡ 0) (low : flags < 2 ^ 12) where
  pub join : bit_or address flags ≡ address + flags
  join = bit_or_add address flags 12 aligned low

  pub get_base_join : address < 2 ^ 64 → get_base (bit_or address flags) ≡ address
  get_base_join h = rw join (get_base_lem (address + flags) (omega arith) ∙ omega arith)

-- Setting or clearing a flag changes that bit and no other.
pub bit-set_bit :
    (e k l : ℕ) (v : Bool)
    → k < 64
    → l < 64
    → bit (set_bit e (2 ^ k) v) l ≡ (if k == l then v else bit e l)
unfolding set_bit
bit-set_bit e k l true h i = ground (arith, bit-bit_or e (2 ^ k) l, bit-pow k l)
bit-set_bit e k l false h i =
    ground (arith, bit-bit_and e (2 ^ 64 - 1 - 2 ^ k) l, bit_mask 64 k l h i)

-- For a level whose PAT flag is a bit `k` between 5 and 63, and whose cache-disable and
-- write-through flags are bits 4 and 3: after `set_pa` with index `pa` the bits 3, 4 and `k` of the
-- entry are bits 0, 1 and 2 of `pa`, and each other bit below 64 is as it was.
pub bit-set_pa :
    (l : Level) (e pa k j : ℕ)
    → l.flags_pat ≡ 2 ^ k
    → l.flags_pcd ≡ 2 ^ 4
    → l.flags_pwt ≡ 2 ^ 3
    → 4 < k
    → k < 64
    → j < 64
    → bit (set_pa l e pa) j ≡ (
        if j == 3
        then pa_bit pa 0
        else (if j == 4 then pa_bit pa 1 else (if j == k then pa_bit pa 2 else bit e j)))
unfolding set_pa
bit-set_pa l e pa k j pat pcd pwt a b c =
    rw (pat, pcd, pwt)
      (ground (
        arith,
        bit-set_bit (set_bit (set_bit e (2 ^ k) (pa_bit pa 2)) (2 ^ 4) (pa_bit pa 1)) 3 j
            (pa_bit pa 0),
        bit-set_bit (set_bit e (2 ^ k) (pa_bit pa 2)) 4 j (pa_bit pa 1),
        bit-set_bit e k j (pa_bit pa 2),
      ))
