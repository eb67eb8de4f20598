-- ===== src/Tests/Nvme.antt =====
-- A queue of two slots and a controller that answers at the second look.
use crep_os.Base.{
  ℕ, ◌+◌, ◌≡◌, List, [], ◌∷◌, map, length, some, if◌then◌else◌, ltb, refl, ap, arith,
}
use crep_os.Nvme.Queue.{Queue, Controller, new_queue, not_phase}
use crep_os.Nvme.Laps.{phase_at}
use crep_os.Nvme.Sync.{IsAt, Serves}
use crep_os.Nvme.Runs.{send_all, send_all-IsAt, send_all-stuck}

-- The state counts the commands that were taken; the doorbell of the completions counts.
abbrev controller : Controller ℕ ℕ
controller = record {
  submission_doorbell = λ s queue tail. s;
  completion_doorbell = λ s head. s + 1;
  status = λ s look slot. if ltb look 1 then not_phase (phase_at 2 s) else phase_at 2 s;
}

data AnyCmd : Type 0 where
  any : AnyCmd

abbrev Idle : ℕ → ℕ → Type 0
Idle s k = s ≡ k

abbrev Valid : ℕ → Type 0
Valid cmd = AnyCmd

serves : Serves controller 2 Idle Valid 1
serves = record {
  late = λ s k queue idle valid. (
    1,
    omega arith,
    λ look. ap (λ (j : ℕ). if ltb look 1 then not_phase (phase_at 2 j) else phase_at 2 j) idle,
  );
  idle = λ s k queue idle valid. ap (λ (j : ℕ). j + 1) idle;
}

abbrev sent : List ℕ
sent = 5 ∷ 6 ∷ 7 ∷ []

abbrev fresh : Queue ℕ
fresh = new_queue (λ i. 0)

fresh-IsAt : IsAt 2 0 fresh
fresh-IsAt = record { tail = refl; head = refl; lap = refl }

send_all-IsAt_example :
    (q' : Queue ℕ) × (s' : ℕ) × (send_all controller 2 2 0 fresh sent
      ≡ some (map (λ cmd. 0) sent, (q', s')))
    × IsAt 2 (0 + length sent) q'
    × Idle s' (0 + length sent)
send_all-IsAt_example =
    send_all-IsAt controller 2 2 Idle Valid 1 serves sent 0 0 fresh (omega arith) (omega arith)
      fresh-IsAt refl (any, (any, (any, tt)))

abbrev broken : Controller ℕ ℕ
broken = record {
  submission_doorbell = λ s queue tail. s;
  completion_doorbell = λ s head. s;
  status = λ s look slot. 9;
}

send_all-stuck_example :
    (q' : Queue ℕ) × (s' : ℕ) × (send_all broken 2 2 0 fresh sent
      ≡ some (map (λ cmd. 9) sent, (q', s')))
    × (q'.cq_head ≡ 0)
send_all-stuck_example =
    send_all-stuck broken 2 1 9 0 sent 0 fresh refl refl (omega arith) (λ t look. refl)
