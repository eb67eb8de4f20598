-- ===== src/Fd/Errors.antt =====
-- The system calls on a descriptor that is not open (kernel/fs/fd.cpp).
use crep_os.Base.{
  ℕ, ◌≡◌, ◌≢◌, ◌∙◌, refl, ap, false, Option, none, some, ◌==◌, arith, Bool-cases, inl, inr, ==_iff,
}
use crep_os.Word.{minus_one}
use crep_os.Mmap.{Heap}
use crep_os.Containers.Vector.{size}
use crep_os.Containers.Map.{Map, read}
use crep_os.Containers.Map.Laws.{holds, read-ReadOf, or_fresh}
use crep_os.Fd.Table.{Fd, no_fd, FsCalls, Files, ebadf, set_errno, int_of, when_open, translate}
use crep_os.Fd.Calls.{
  Regs, Return, with_fd, syscall_close, syscall_read, syscall_write, syscall_seek, syscall_dup,
  syscall_dup2,
}

-- The descriptor that is open under an index.
abbrev pub open_at : Map Fd → (index : ℕ) → Option Fd
open_at list index = when_open (holds list (int_of index))

when_open-fresh : (o : Option Fd) → when_open (some (or_fresh no_fd o)) ≡ when_open o
when_open-fresh none = refl
when_open-fresh (some fd) = refl

-- Looking at one index changes no descriptor.
pub open_at-read :
    (list : Map Fd) (i j : ℕ)
    → size list.tags ≡ size list.values
    → open_at (read no_fd list (int_of i)).1 j ≡ open_at list j
open_at-read list i j same =
    let r = read-ReadOf no_fd list (int_of i) same in
    elim (Bool-cases (int_of i == int_of j)) [
      | inl e ↦
          ap when_open {y = some (or_fresh no_fd (holds list (int_of i)))}
            (r.others (int_of j) ∙ rw e refl)
          ∙ when_open-fresh (holds list (int_of i))
          ∙ ap (λ k. when_open (holds list k)) ((==_iff (int_of i) (int_of j)).0 e)
      | inr e ↦ ap when_open {y = holds list (int_of j)} (r.others (int_of j) ∙ rw e refl)
    ]

pub size-read :
    (list : Map Fd) (k : ℕ)
    → size list.tags ≡ size list.values
    → let m = (read no_fd list k).1 in size m.tags ≡ size m.values
size-read list k same = let r = read-ReadOf no_fd list k same in r.sizes

module _ {D : Type 0} where
  pub translate-list :
      (s : Files D) (index : ℕ)
      → (translate s index).1 ≡ record s { fd_list = (read no_fd s.fd_list (int_of index)).1 }
  unfolding translate
  translate-list s index = refl

  pub translate-when_open :
      (s : Files D) (index : ℕ)
      → size s.fd_list.tags ≡ size s.fd_list.values
      → (translate s index).0 ≡ open_at s.fd_list index
  unfolding translate
  translate-when_open s index same =
      let r = read-ReadOf no_fd s.fd_list (int_of index) same in
      ap when_open r.value ∙ when_open-fresh (holds s.fd_list (int_of index))

  -- -1 in `rax` and `ebadf`, and the descriptors as `translate` leaves them.
  abbrev pub refused : Regs → Files D → Return D
  refused r s = record {
    result = minus_one;
    regs = record r { rax = minus_one };
    files = set_errno ebadf (translate s r.rdi).1;
  }

  with_fd-none :
      (r : Regs) (go : Fd → Files D → Option (Return D)) (p : Option Fd × Files D)
      → p.0 ≡ none
      → with_fd r r.rdi go p
        ≡ some (record {
          result = minus_one;
          regs = record r { rax = minus_one };
          files = set_errno ebadf p.1;
        })
  unfolding with_fd
  with_fd-none r go (none, s) e = refl
  with_fd-none r go (some fd, s) e = absurd cc

  -- Where the map of descriptors has as many keys as values and nothing is open under the index
  -- in `rdi`, `close`, `read`, `write`, `seek` and `dup` return -1 and set `ebadf`, and change
  -- nothing else but what the lookup adds to the map; so does `dup2` to another index.
  pub bad_descriptor :
      (calls : FsCalls D) (heap : Heap) (fuel : ℕ) (r : Regs) (s : Files D)
      → size s.fd_list.tags ≡ size s.fd_list.values
      → open_at s.fd_list r.rdi ≡ none
      → (syscall_close calls heap fuel r s ≡ some (refused r s))
        × (syscall_read calls heap fuel r s ≡ some (refused r s))
        × (syscall_write calls heap fuel r s ≡ some (refused r s))
        × (syscall_seek calls heap fuel r s ≡ some (refused r s))
        × (syscall_dup calls heap fuel r s ≡ some (refused r s))
        × (r.rdi ≢ r.rsi → syscall_dup2 calls heap fuel r s ≡ some (refused r s))
  unfolding syscall_close syscall_read syscall_write syscall_seek syscall_dup syscall_dup2
  bad_descriptor calls heap fuel r s same closed =
      let e = translate-when_open s r.rdi same ∙ closed in
      (
        with_fd-none r _ (translate s r.rdi) e,
        with_fd-none r _ (translate s r.rdi) e,
        with_fd-none r _ (translate s r.rdi) e,
        with_fd-none r _ (translate s r.rdi) e,
        with_fd-none r _ (translate s r.rdi) e,
        λ apart.
            let d : (r.rdi == r.rsi) ≡ false = ground arith in
            rw (d, syscall_dup2) (with_fd-none r _ (translate s r.rdi) e),
      )
