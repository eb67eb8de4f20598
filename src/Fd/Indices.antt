-- ===== src/Fd/Indices.antt =====
-- The indices that `alloc_fd` gives out (kernel/fs/fd.cpp).
use crep_os.Base.{
  ℕ, suc, ◌<◌, ◌≡◌, ◌≢◌, ◌∙◌, ◌||◌, refl, sym, ap, subst, Bool, true, false, Option, none, some,
  ◌==◌, arith,
}
use crep_os.Memory.{bm_test, bm_set, bm_first_free}
use crep_os.Memory.Bitmap.{FirstFree, bm_first_free_lem, bm_test-bm_set}
use crep_os.Mmap.{Heap}
use crep_os.Containers.Map.{Map, remove_key}
use crep_os.Fd.Table.{Fd, FsCalls, Files, find_index, translate}
use crep_os.Fd.Calls.{
  Regs, Return, with_fd, returning, with_list, zero_with, close_at, syscall_close,
}

clash : {b : Bool} → b ≡ false → b ≡ true → ⊥
clash e f = let g = sym e ∙ f in cc

module _ {D : Type 0} where
  find_index-free :
      (heap : Heap) (fuel i : ℕ) (s : Files D)
      → bm_first_free s.memory s.bitmap s.bitmap_size ≡ some i
      → find_index heap (suc fuel) s ≡ some (i, record s { memory = bm_set s.memory s.bitmap i })
  unfolding find_index
  find_index-free heap fuel i s e = rw (e, find_index) refl

  -- Where the bitmap of the task has a clear bit below its size, `alloc_fd` takes the lowest one,
  -- marks it and leaves the other bits, without growing the bitmap.
  pub find_index-FirstFree :
      (heap : Heap) (fuel j : ℕ) (s : Files D)
      → j < s.bitmap_size
      → bm_test s.memory s.bitmap j ≡ false
      → (i : ℕ) × FirstFree s.memory s.bitmap 0 s.bitmap_size (some i)
        × (find_index heap (suc fuel) s
            ≡ some (i, record s { memory = bm_set s.memory s.bitmap i }))
        × ((k : ℕ)
            → bm_test (bm_set s.memory s.bitmap i) s.bitmap k
              ≡ ((i == k) || bm_test s.memory s.bitmap k))
  find_index-FirstFree heap fuel j s inside clear =
      by_search (bm_first_free s.memory s.bitmap s.bitmap_size) refl
        (bm_first_free_lem s.memory s.bitmap s.bitmap_size)
    where
      by_search :
          (o : Option ℕ)
          → bm_first_free s.memory s.bitmap s.bitmap_size ≡ o
          → FirstFree s.memory s.bitmap 0 s.bitmap_size o
          → (i : ℕ) × FirstFree s.memory s.bitmap 0 s.bitmap_size (some i)
            × (find_index heap (suc fuel) s
                ≡ some (i, record s { memory = bm_set s.memory s.bitmap i }))
            × ((k : ℕ)
                → bm_test (bm_set s.memory s.bitmap i) s.bitmap k
                  ≡ ((i == k) || bm_test s.memory s.bitmap k))
      by_search none e all = let full = all j (omega arith) inside in absurd cc
      by_search (some i) e first =
          (i, first, find_index-free heap fuel i s e, λ k. bm_test-bm_set s.memory s.bitmap i k)

  -- What a call leaves of the bitmap.
  record SameBits (s t : Files D) : Type 0 where
    memory : t.memory ≡ s.memory
    bitmap : t.bitmap ≡ s.bitmap
    size : t.bitmap_size ≡ s.bitmap_size

  abbrev LeftBy : Files D → Option (Return D) → Type 0
  LeftBy s none = Unit
  LeftBy s (some ret) = SameBits s ret.files

  module _ (calls : FsCalls D) (heap : Heap) (fuel : ℕ) (r : Regs) where
    with_list-LeftBy :
        (s t : Files D) (o : Option (Map Fd))
        → SameBits s t
        → LeftBy s (returning r (zero_with (with_list t o)))
    with_list-LeftBy s t none w = tt
    with_list-LeftBy s t (some list) w = record {
      memory = w.memory;
      bitmap = w.bitmap;
      size = w.size;
    }

    with_fd-LeftBy :
        (s : Files D) (p : Option Fd × Files D)
        → SameBits s p.1
        → LeftBy s (with_fd r r.rdi (λ fd t. returning r (zero_with (close_at r.rdi t))) p)
    unfolding with_fd
    with_fd-LeftBy s (none, t) w = record { memory = w.memory; bitmap = w.bitmap; size = w.size }
    with_fd-LeftBy s (some fd, t) w = with_list-LeftBy s t (remove_key t.fd_list r.rdi) w

    syscall_close-LeftBy : (s : Files D) → LeftBy s (syscall_close calls heap fuel r s)
    unfolding syscall_close translate
    syscall_close-LeftBy s =
        with_fd-LeftBy s (translate s r.rdi) (record { memory = refl; bitmap = refl; size = refl })

    syscall_close-SameBits :
        (s : Files D) (ret : Return D)
        → syscall_close calls heap fuel r s ≡ some ret
        → SameBits s ret.files
    syscall_close-SameBits s ret e = subst (LeftBy s) e (syscall_close-LeftBy s)

    -- A call of `close` that ends frees no index: where another bit of the bitmap is clear, the
    -- next `alloc_fd` takes an index other than any marked one, whose bit stays set.
    pub syscall_close-find_index :
        (s : Files D) (ret : Return D) (k j : ℕ)
        → syscall_close calls heap fuel r s ≡ some ret
        → bm_test s.memory s.bitmap k ≡ true
        → j < s.bitmap_size
        → bm_test s.memory s.bitmap j ≡ false
        → (i : ℕ) × (t : Files D) × (find_index heap (suc fuel) ret.files ≡ some (i, t))
          × (i ≢ k)
          × (bm_test t.memory t.bitmap k ≡ true)
    syscall_close-find_index s ret k j e used inside clear =
        let b = syscall_close-SameBits s ret e in
        let same : (x : ℕ)
            → bm_test ret.files.memory ret.files.bitmap x ≡ bm_test s.memory s.bitmap x =
          λ x. rw (b.memory, b.bitmap) refl in
        let (i, first, f, bits) =
          find_index-FirstFree heap fuel j ret.files (let size = b.size in omega arith)
            (same j ∙ clear) in
        let used' = same k ∙ used in
        (
          i,
          record (ret.files) { memory = bm_set ret.files.memory ret.files.bitmap i },
          f,
          λ h.
              let c = first.0 in
              clash (sym (ap (bm_test ret.files.memory ret.files.bitmap) h) ∙ c) used',
          bits k ∙ ground arith,
        )
