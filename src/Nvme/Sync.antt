-- ===== src/Nvme/Sync.antt =====
-- The queues and the controller stay in step (kernel/drivers/nvme/nvme.cpp, `queue::send_cmd`).
use crep_os.Base.{
  ℕ, zero, suc, ◌+◌, ◌/◌, ◌%◌, ◌<◌, ◌≤◌, ◌≡◌, ◌∙◌, refl, sym, ap, subst, true, false, some,
  if◌then◌else◌, ◌==◌, ltb, Bool-cases, inl, inr, arith,
}
use crep_os.Nvme.Queue.{
  Queue, Controller, next_slot, not_phase, poll, submitted, completed, rung, answered, send_cmd,
}
use crep_os.Nvme.Laps.{phase_at, next_slot-mod, phase_at-suc}

-- The queue has sent `k` commands.
pub record IsAt {Cmd : Type 0} (n k : ℕ) (q : Queue Cmd) : Type 0 where
  pub tail : q.sq_tail ≡ k % n
  pub head : q.cq_head ≡ k % n
  pub lap : q.phase ≡ phase_at n k

module _ {S Cmd : Type 0} (c : Controller S Cmd) (n : ℕ) where
  -- What the specification says of a controller that is idle after `k` commands: when the command at
  -- slot `k % n` is handed to it, it puts a status into that slot, without an error and with the phase
  -- of the lap, before look `delay`; till then the slot has the other phase. It is idle again when the
  -- status is taken.
  pub record Serves (Idle : S → (k : ℕ) → Type 0) (Valid : Cmd → Type 0) (delay : ℕ) : Type 0 where
    pub late :
        (s : S) (k : ℕ) (queue : ℕ → Cmd)
        → Idle s k
        → Valid (queue (k % n))
        → (d : ℕ) × (d ≤ delay)
          × ((look : ℕ)
              → c.status (c.submission_doorbell s queue ((k + 1) % n)) look (k % n)
                ≡ (if ltb look d then not_phase (phase_at n k) else phase_at n k))
    pub idle :
        (s : S) (k : ℕ) (queue : ℕ → Cmd)
        → Idle s k
        → Valid (queue (k % n))
        → Idle
            (c.completion_doorbell (c.submission_doorbell s queue ((k + 1) % n)) ((k + 1) % n))
            (k + 1)

  poll_lem :
      (looks : ℕ) (s : S) (slot phase look d : ℕ)
      → phase < 2
      → d < look + looks
      → look ≤ d
      → ((l : ℕ) → c.status s l slot ≡ (if ltb l d then not_phase phase else phase))
      → poll c n looks s slot phase look ≡ some phase
  unfolding poll
  poll_lem zero s slot phase look d low enough before shows = absurd (omega arith)
  poll_lem (suc looks) s slot phase look d low enough before shows =
      elim (Bool-cases (ltb look d)) [
        | inl early ↦
            let other : not_phase phase % 2 == phase ≡ false = ground arith in
            rw (shows look, early, other)
              (poll_lem looks s slot phase (look + 1) d low (ground arith) (ground arith) shows)
        | inr there ↦
            let same : phase % 2 == phase ≡ true = ground arith in rw (shows look, there, same) refl
      ]

  lap_lem :
      (head phase k : ℕ)
      → 0 < n
      → head ≡ k % n
      → phase ≡ phase_at n k
      → (if head + 1 == n then not_phase phase else phase) ≡ phase_at n (k + 1)
  lap_lem head phase k pos h p =
      ap (λ (x : ℕ). if x + 1 == n then not_phase phase else phase) h
      ∙ ap (λ (x : ℕ). if k % n + 1 == n then not_phase x else x) p
      ∙ phase_at-suc n k pos

  completed-IsAt :
      (k : ℕ) (q : Queue Cmd) (cmd : Cmd)
      → 0 < n
      → IsAt n k q
      → IsAt n (k + 1) (completed c n (submitted c n q cmd))
  completed-IsAt k q cmd pos at_k = record {
    tail = ap (next_slot n) at_k.tail ∙ next_slot-mod n k pos;
    head = ap (next_slot n) at_k.head ∙ next_slot-mod n k pos;
    lap = lap_lem q.cq_head q.phase k pos at_k.head at_k.lap;
  }

  answered_lem :
      (s : S) (q : Queue Cmd)
      → q.phase < 2
      → answered c n s q q.phase
        ≡ (0, (completed c n q, c.completion_doorbell s (completed c n q).cq_head))
  unfolding answered
  answered_lem s q low =
      let none_wrong : (q.phase / 2 == 0) ≡ true = (let p = q.phase in ground arith) in
      rw none_wrong refl

  module _ (Idle : S → (k : ℕ) → Type 0) (Valid : Cmd → Type 0) (delay : ℕ)
      (serves : Serves Idle Valid delay) where
    pub send_cmd_step :
        (looks k : ℕ) (s : S) (q : Queue Cmd) (cmd : Cmd)
        → 0 < n
        → delay < looks
        → IsAt n k q
        → Idle s k
        → Valid cmd
        → (q' : Queue Cmd) × (s' : S) × (send_cmd c n looks s q cmd ≡ some (0, (q', s')))
          × IsAt n (k + 1) q'
          × Idle s' (k + 1)
    unfolding send_cmd
    send_cmd_step looks k s q cmd pos enough at_k idle valid =
        let q1 = submitted c n q cmd in
        let queue = q1.submission_queue in
        let tail = ap (next_slot n) at_k.tail ∙ next_slot-mod n k pos in
        let head = ap (next_slot n) at_k.head ∙ next_slot-mod n k pos in
        let here : (k % n == q.sq_tail) ≡ true =
          (let t = at_k.tail in let x = q.sq_tail in ground arith) in
        let placed : queue (k % n) ≡ cmd = rw here refl in
        let valid' = subst Valid (sym placed) valid in
        let (d, soon, late) = serves.late s k queue idle valid' in
        let shows : (l : ℕ)
            → c.status (rung c n s q1) l q.cq_head
              ≡ (if ltb l d then not_phase q.phase else q.phase) =
          λ l.
            ap (λ t. c.status (c.submission_doorbell s queue t) l q.cq_head) tail
            ∙ ap (λ h. c.status (c.submission_doorbell s queue ((k + 1) % n)) l h) at_k.head
            ∙ late l
            ∙ ap (λ (p : ℕ). if ltb l d then not_phase p else p) (sym at_k.lap) in
        let low : q.phase < 2 = (let p = at_k.lap in let x = q.phase in omega arith) in
        let polled =
          poll_lem looks (rung c n s q1) q.cq_head q.phase 0 d low (omega arith) (omega arith)
            shows in
        let again = serves.idle s k queue idle valid' in
        let again1 =
          subst
            (λ h.
              Idle (c.completion_doorbell (c.submission_doorbell s queue ((k + 1) % n)) h) (k + 1))
            (sym head) again in
        (
          completed c n q1,
          c.completion_doorbell (rung c n s q1) (next_slot n q.cq_head),
          rw (polled, send_cmd) (ap some (answered_lem (rung c n s q1) q1 low)),
          completed-IsAt k q cmd pos at_k,
          subst
              (λ t.
                Idle
                  (c.completion_doorbell (c.submission_doorbell s queue t) (next_slot n q.cq_head))
                  (k + 1))
              (sym tail) again1,
        )
