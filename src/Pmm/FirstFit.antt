-- ===== src/Pmm/FirstFit.antt =====
-- The two loops of `mem_chunk::alloc` against a description of the runs of free pages.
use crep_os.Base.{
  ℕ, zero, suc, ◌+◌, ◌*◌, ◌^◌, ◌≤◌, ◌<◌, ◌≡◌, refl, true, false, inl, inr, Bool-cases, ◌==◌, ltb,
  arith,
}
use mathlib.Core.Path.{subst}
use crep_os.Word.{u64}
use crep_os.Memory.{Memory, bm_test}
use crep_os.Pmm.{
  MemChunk, page_size, Scan, used, complete, ran_out, scan, Search, found, missing, endless, search,
}

-- The `cnt` pages from `i` are all free.
abbrev pub IsFree : Memory → (bitmap i cnt : ℕ) → Type 0
IsFree m bitmap i cnt = (x : ℕ) → i ≤ x → x < i + cnt → bm_test m bitmap x ≡ false

-- One of the `cnt` pages from `i` is in use.
abbrev pub Blocked : Memory → (bitmap i cnt : ℕ) → Type 0
Blocked m bitmap i cnt = (x : ℕ) × (i ≤ x) × (x < i + cnt) × (bm_test m bitmap x ≡ true)

abbrev Scanned : Memory → (bitmap j rounds : ℕ) → Scan → Type 0
Scanned m bitmap j rounds used = Blocked m bitmap j rounds
Scanned m bitmap j rounds complete = IsFree m bitmap j rounds
Scanned m bitmap j rounds ran_out = rounds ≡ 0

Scanned-step :
    (m : Memory) (bitmap j rounds : ℕ) (r : Scan)
    → bm_test m bitmap j ≡ false
    → 0 < rounds
    → Scanned m bitmap (j + 1) rounds r
    → Scanned m bitmap j (suc rounds) r
Scanned-step m bitmap j rounds used e pos (x, lo, hi, h) = (x, omega arith, omega arith, h)
Scanned-step m bitmap j rounds complete e pos h = λ x lo hi. ground (arith, h x)
Scanned-step m bitmap j rounds ran_out e pos h = absurd (omega arith)

scan-Scanned :
    (m : Memory) (bitmap cnt j count rounds : ℕ)
    → count + rounds ≡ cnt
    → Scanned m bitmap j rounds (scan m bitmap cnt j count rounds)
unfolding scan
scan-Scanned m bitmap cnt j count zero e = refl
scan-Scanned m bitmap cnt j count (suc rounds) e = elim (Bool-cases (bm_test m bitmap j)) [
  | inl hit ↦ rw (hit, scan) (j, omega arith, omega arith, hit)
  | inr free ↦
      rw (free, scan)
        (elim (Bool-cases (count + 1 == cnt)) [
          | inl last ↦ rw (last, scan) (λ x lo hi. ground arith)
          | inr more ↦
              rw (more, scan)
                (Scanned-step m bitmap j rounds (scan m bitmap cnt (j + 1) (count + 1) rounds) free
                  (ground arith)
                  (scan-Scanned m bitmap cnt (j + 1) (count + 1) rounds (omega arith)))
        ])
]

module _ (m : Memory) (c : MemChunk) (cnt align : ℕ) where
  -- What the search from candidate `i` comes to: the first candidate with a free run, a multiple of
  -- `align` pages on, or none because each candidate of the chunk is blocked.
  abbrev pub Searched : ℕ → Search → Type 0
  Searched i (found k a) =
      (t : ℕ) × (k ≡ i + t * align)
      × (k < c.page_cnt)
      × (a ≡ c.base + k * page_size)
      × IsFree m c.bitmap k cnt
      × ((s : ℕ) → s < t → Blocked m c.bitmap (i + s * align) cnt)
  Searched i missing = (s : ℕ) → i + s * align < c.page_cnt → Blocked m c.bitmap (i + s * align) cnt
  Searched i endless = ⊥

  Blocked-at : {j : ℕ} (i : ℕ) → i ≡ j → Blocked m c.bitmap i cnt → Blocked m c.bitmap j cnt
  Blocked-at i e (x, lo, hi, h) = (x, omega arith, omega arith, h)

  Searched-step :
      (i : ℕ) (r : Search) → Blocked m c.bitmap i cnt → Searched (i + align) r → Searched i r
  Searched-step i (found k a) b (t, e, fits, at, free, before) =
      (suc t, grind arith, fits, at, free, earlier)
    where
      earlier : (s : ℕ) → s < suc t → Blocked m c.bitmap (i + s * align) cnt
      earlier zero h = Blocked-at i (omega arith) b
      earlier (suc s) h = Blocked-at (i + align + s * align) (grind arith) (before s (omega arith))
  Searched-step i missing b h = λ s inside. later s inside
    where
      later : (s : ℕ) → i + s * align < c.page_cnt → Blocked m c.bitmap (i + s * align) cnt
      later zero inside = Blocked-at i (omega arith) b
      later (suc s) inside = Blocked-at (i + align + s * align) (grind arith) (h s (grind arith))
  Searched-step i endless b h = h

  Searched-scan :
      (i a : ℕ) (r : Scan) (skip next : Search)
      → 0 < cnt
      → i < c.page_cnt
      → a ≡ c.base + i * page_size
      → Scanned m c.bitmap i cnt r
      → Searched (i + align) skip
      → Searched i (elim r [ used ↦ skip | complete ↦ found i a | ran_out ↦ next ])
  Searched-scan i a used skip next some_pages inside at h ih = Searched-step i skip h ih
  Searched-scan i a complete skip next some_pages inside at h ih =
      (0, omega arith, inside, at, h, λ s lt. absurd (omega arith))
  Searched-scan i a ran_out skip next some_pages inside at h ih = absurd (omega arith)

  pub search-Searched :
      (fuel i a : ℕ)
      → 0 < cnt
      → 0 < align
      → c.base + (c.page_cnt + align) * page_size ≤ 2 ^ 63
      → a ≡ u64 (c.base + i * page_size)
      → 0 < fuel
      → c.page_cnt < i + fuel
      → Searched i (search m c cnt align fuel i a)
  unfolding search
  search-Searched zero i a some_pages step fits at pos fuel = absurd (omega arith)
  search-Searched (suc n) i a some_pages step fits at pos fuel =
      elim (Bool-cases (ltb i c.page_cnt)) [
        | inl inside ↦
            let below : i < c.page_cnt = ground arith in
            let wrap : u64 (i + align) ≡ i + align = omega arith in
            let skip = search m c cnt align n (u64 (i + align)) (u64 (a + align * page_size)) in
            let next = search m c cnt align n (u64 (i + align)) a in
            rw (inside, search)
              (Searched-scan i a (scan m c.bitmap cnt i 0 cnt) skip next some_pages below
                (omega arith) (scan-Scanned m c.bitmap cnt i 0 cnt (omega arith))
                (subst (λ k. Searched k skip) wrap
                  (search-Searched n (u64 (i + align)) (u64 (a + align * page_size)) some_pages step
                    fits (omega arith) (omega arith) (omega arith))))
        | inr outside ↦ rw (outside, search) (λ s h. absurd (ground arith))
      ]
