-- ===== src/Nvme/Queue.antt =====
-- One pair of queues and the sending of a command (kernel/drivers/nvme/nvme.hpp,
-- kernel/drivers/nvme/nvme.cpp). The controller is given by what it does when a doorbell is rung and
-- by the status words that it has put into the completion queue at each look.
use crep_os.Base.{ℕ, zero, suc, ◌+◌, ◌/◌, ◌%◌, Option, none, some, if◌then◌else◌, ◌==◌}

-- `Cmd` is a command.
pub record Queue (Cmd : Type 0) : Type 0 where
  pub submission_queue : ℕ → Cmd
  pub sq_tail : ℕ
  pub cq_head : ℕ
  pub phase : ℕ

pub record Controller (S Cmd : Type 0) : Type 0 where
  pub submission_doorbell : S → (submission_queue : ℕ → Cmd) → (sq_tail : ℕ) → S
  pub completion_doorbell : S → (cq_head : ℕ) → S
  pub status : S → (look slot : ℕ) → ℕ

-- `++i` on a ring.
abbrev pub next_slot : (queue_entries i : ℕ) → ℕ
next_slot queue_entries i = if i + 1 == queue_entries then 0 else i + 1

abbrev pub not_phase : ℕ → ℕ
not_phase phase = if phase == 0 then 1 else 0

abbrev pub new_queue : {Cmd : Type 0} → (submission_queue : ℕ → Cmd) → Queue Cmd
new_queue submission_queue = record {
  submission_queue = submission_queue;
  sq_tail = 0;
  cq_head = 0;
  phase = 1;
}

module _ {S Cmd : Type 0} (c : Controller S Cmd) (queue_entries : ℕ) where
  -- The loop that waits: the status that has the phase; `none` is an end of the looks.
  unfoldable pub poll : (looks : ℕ) → S → (slot phase look : ℕ) → Option ℕ
  poll zero s slot phase look = none
  poll (suc looks) s slot phase look =
      let rest = poll looks s slot phase (look + 1) in
      if c.status s look slot % 2 == phase then some (c.status s look slot) else rest

  abbrev pub submitted : Queue Cmd → Cmd → Queue Cmd
  submitted q cmd = record q {
    submission_queue = λ i. if i == q.sq_tail then cmd else q.submission_queue i;
    sq_tail = next_slot queue_entries q.sq_tail;
  }

  abbrev pub completed : Queue Cmd → Queue Cmd
  completed q = record q {
    cq_head = next_slot queue_entries q.cq_head;
    phase = if q.cq_head + 1 == queue_entries then not_phase q.phase else q.phase;
  }

  abbrev pub rung : S → Queue Cmd → S
  rung s q = c.submission_doorbell s q.submission_queue q.sq_tail

  -- What `send_cmd` does with a status: an error is returned and nothing is moved.
  unfoldable pub answered : S → Queue Cmd → (status : ℕ) → ℕ × (Queue Cmd × S)
  answered s q status =
      if status / 2 == 0
      then (0, (completed q, c.completion_doorbell s (completed q).cq_head))
      else (status, (q, s))

  unfoldable pub send_cmd : (looks : ℕ) → S → Queue Cmd → Cmd → Option (ℕ × (Queue Cmd × S))
  unfolding poll answered
  send_cmd looks s q cmd =
      let q1 = submitted q cmd in
      elim (poll looks (rung s q1) q1.cq_head q1.phase 0) [
        | none ↦ none
        | some status ↦ some (answered (rung s q1) q1 status)
      ]
