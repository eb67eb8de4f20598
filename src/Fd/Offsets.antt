-- ===== src/Fd/Offsets.antt =====
-- What `dup2` leaves under the two indices (kernel/fs/fd.cpp).
use crep_os.Base.{
  ℕ, ◌≡◌, ◌≢◌, ◌∙◌, refl, sym, ap, Bool, true, false, Option, none, some, if◌then◌else◌, ◌==◌,
  arith, ==_iff, some-inj,
}
use crep_os.Mmap.{Heap}
use crep_os.Containers.Vector.{size}
use crep_os.Containers.Map.{read, assign}
use crep_os.Containers.Map.Laws.{holds, holds-assign}
use crep_os.Fd.Table.{Fd, no_fd, FsCalls, Files, int_of, when_open, translate}
use crep_os.Fd.Calls.{Regs, Return, with_fd, dup2_over, copied_to, syscall_dup2}
use crep_os.Fd.Errors.{open_at, open_at-read, size-read, translate-when_open, translate-list}

module _ {D : Type 0} where
  with_fd-some :
      (r : Regs) (go : Fd → Files D → Option (Return D)) (p : Option Fd × Files D) (fd : Fd)
      → p.0 ≡ some fd
      → with_fd r r.rdi go p ≡ go fd p.1
  unfolding with_fd
  with_fd-some r go (none, s) fd e = absurd cc
  with_fd-some r go (some f, s) fd e = ap (λ g. go g s) (some-inj f fd e)

  dup2_over-none :
      (calls : FsCalls D) (heap : Heap) (fuel : ℕ) (r : Regs) (fd : Fd) (p : Option Fd × Files D)
      → p.0 ≡ none
      → dup2_over calls heap fuel r fd p ≡ copied_to calls heap fuel r fd (some p.1)
  unfolding dup2_over
  dup2_over-none calls heap fuel r fd (none, s) e = refl
  dup2_over-none calls heap fuel r fd (some f, s) e = absurd cc

  -- Where the map of descriptors has as many keys as values, `dup2` of an open descriptor to
  -- another index that is an `int` and has nothing open returns that index, leaves `rax` and the
  -- offsets as they were, and keeps the old index open as it was; under the new index is what the
  -- dead temporary of the first `translate` reads as after the second one, whatever that is, and
  -- it is open where that is.
  pub syscall_dup2-open_at :
      (calls : FsCalls D) (heap : Heap) (fuel : ℕ) (r : Regs) (s : Files D) (fd : Fd)
      → size s.fd_list.tags ≡ size s.fd_list.values
      → r.rdi ≢ r.rsi
      → int_of r.rsi ≡ r.rsi
      → open_at s.fd_list r.rdi ≡ some fd
      → open_at s.fd_list r.rsi ≡ none
      → (files : Files D) × (syscall_dup2 calls heap fuel r s
          ≡ some (record { result = int_of r.rsi; regs = r; files = files }))
        × (open_at files.fd_list r.rsi ≡ when_open (some (calls.stale 1 fd)))
        × (open_at files.fd_list r.rdi ≡ some fd)
        × (files.cells ≡ s.cells)
  unfolding syscall_dup2 with_fd dup2_over
  syscall_dup2-open_at calls heap fuel r s fd same apart short old new =
      let list1 = (read no_fd s.fd_list (int_of r.rdi)).1 in
      let list2 = (read no_fd list1 (int_of r.rsi)).1 in
      let s1 : Files D = record s { fd_list = list1 } in
      let same1 = size-read s.fd_list (int_of r.rdi) same in
      let same2 = size-read list1 (int_of r.rsi) same1 in
      let e1 = translate-when_open s r.rdi same ∙ old in
      let e2 = translate-when_open s1 r.rsi same1 ∙ open_at-read s.fd_list r.rdi r.rsi same ∙ new in
      let d : (r.rdi == r.rsi) ≡ false = ground arith in
      let differ : (r.rsi == int_of r.rdi) ≡ true → ⊥ = λ e.
        let is = short ∙ (==_iff r.rsi (int_of r.rdi)).0 e in
        let both_ways : none ≡ some fd =
          sym new ∙ ap (λ k. when_open (holds s.fd_list k)) is ∙ old in
        cc in
      let kept =
        open_at-read list1 r.rsi r.rdi same1 ∙ open_at-read s.fd_list r.rdi r.rdi same ∙ old in
      (
        record s { fd_list = assign no_fd list2 r.rsi (calls.stale 1 fd) },
        rw (d, syscall_dup2)
            (with_fd-some r _ (translate s r.rdi) fd e1
              ∙ ap (λ t. dup2_over calls heap fuel r (calls.stale 1 fd) (translate t r.rsi))
                  (translate-list s r.rdi)
              ∙ dup2_over-none calls heap fuel r (calls.stale 1 fd) (translate s1 r.rsi) e2
              ∙ ap (λ t. copied_to calls heap fuel r (calls.stale 1 fd) (some t))
                  (translate-list s1 r.rsi)),
        ap when_open (holds-assign no_fd list2 r.rsi (int_of r.rsi) (calls.stale 1 fd) same2)
            ∙ either (r.rsi == int_of r.rsi) (calls.stale 1 fd)
                ((==_iff r.rsi (int_of r.rsi)).1 (sym short)) (holds list2 (int_of r.rsi)),
        ap when_open (holds-assign no_fd list2 r.rsi (int_of r.rdi) (calls.stale 1 fd) same2)
            ∙ both (r.rsi == int_of r.rdi) (calls.stale 1 fd) differ (holds list2 (int_of r.rdi))
                kept,
        refl,
      )
    where
      either :
          (b : Bool) (copy : Fd)
          → b ≡ true
          → (o : Option Fd) → when_open (if b then some copy else o) ≡ when_open (some copy)
      either true copy e o = refl
      either false copy e o = absurd cc

      both :
          (b : Bool) (copy : Fd)
          → (b ≡ true → ⊥)
          → (o : Option Fd) → when_open o ≡ some fd
          → when_open (if b then some copy else o) ≡ some fd
      both true copy differ o kept = absurd (differ refl)
      both false copy differ o kept = kept
