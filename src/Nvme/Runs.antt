-- ===== src/Nvme/Runs.antt =====
-- Commands sent one after the other (kernel/drivers/nvme/nvme.cpp, `queue::send_cmd`).
use crep_os.Base.{
  ℕ, suc, ◌+◌, ◌/◌, ◌%◌, ◌<◌, ◌≤◌, ◌≡◌, ◌∙◌, refl, ap, subst, true, false, List, [], ◌∷◌, map,
  length, Option, none, some, ◌==◌, arith,
}
use crep_os.Nvme.Queue.{Queue, Controller, poll, submitted, rung, answered, send_cmd}
use crep_os.Nvme.Sync.{IsAt, Serves, send_cmd_step}

abbrev pub Each : {A : Type 0} → (A → Type 0) → List A → Type 0
Each P [] = Unit
Each P (x ∷ xs) = P x × Each P xs

module _ {S Cmd : Type 0} (c : Controller S Cmd) (n looks : ℕ) where
  -- The commands in their order; the results of the calls, and what they leave.
  unfoldable pub send_all : S → Queue Cmd → List Cmd → Option (List ℕ × (Queue Cmd × S))
  unfolding send_cmd
  send_all s q [] = some ([], (q, s))
  send_all s q (cmd ∷ cmds) = elim (send_cmd c n looks s q cmd) [
    | none ↦ none
    | some (status, (q', s')) ↦ elim (send_all s' q' cmds) [
      | none ↦ none
      | some (statuses, r) ↦ some (status ∷ statuses, r)
    ]
  ]

  module _ (Idle : S → (k : ℕ) → Type 0) (Valid : Cmd → Type 0) (delay : ℕ)
      (serves : Serves c n Idle Valid delay) where
    -- On queues of at least one entry that have sent k commands, with a controller that is idle
    -- after k commands and answers each valid command without an error, in its slot and with
    -- the phase of its lap, before some bounded look: with more looks than the bound, valid
    -- commands sent in turn all return 0, and the tail, the head and the phase are then those
    -- of the longer count, so that driver and controller stay in step through every wrap of the
    -- ring.
    pub send_all-IsAt :
        (cmds : List Cmd) (k : ℕ) (s : S) (q : Queue Cmd)
        → 0 < n
        → delay < looks
        → IsAt n k q
        → Idle s k
        → Each Valid cmds
        → (q' : Queue Cmd) × (s' : S) × (send_all s q cmds ≡ some (map (λ cmd. 0) cmds, (q', s')))
          × IsAt n (k + length cmds) q'
          × Idle s' (k + length cmds)
    unfolding send_all
    send_all-IsAt [] k s q pos enough at_k idle valid =
        let same : k ≡ k + 0 = omega arith in
        (q, s, refl, subst (λ j. IsAt n j q) same at_k, subst (Idle s) same idle)
    send_all-IsAt (cmd ∷ cmds) k s q pos enough at_k idle (valid, valids) =
        let (q1, s1, e, at1, idle1) =
          send_cmd_step c n Idle Valid delay serves looks k s q cmd pos enough at_k idle valid in
        let (q2, s2, f, at2, idle2) =
          send_all-IsAt cmds (k + 1) s1 q1 pos enough at1 idle1 valids in
        let same : k + 1 + length cmds ≡ k + suc (length cmds) = omega arith in
        (
          q2,
          s2,
          rw (e, send_all, f) refl,
          subst (λ j. IsAt n j q2) same at2,
          subst (Idle s2) same idle2,
        )

module _ {S Cmd : Type 0} (c : Controller S Cmd) (n looks err slot : ℕ) where
  poll-at_once :
      (t : S) (at_slot phase : ℕ)
      → c.status t 0 at_slot ≡ err
      → err % 2 ≡ phase
      → poll c n (suc looks) t at_slot phase 0 ≡ some err
  unfolding poll
  poll-at_once t at_slot phase shows p =
      let same : (err % 2 == phase) ≡ true = ground arith in rw (shows, same) refl

  answered-wrong : (s : S) (q : Queue Cmd) → 2 ≤ err → answered c n s q err ≡ (err, (q, s))
  unfolding answered
  answered-wrong s q wrong =
      let is_wrong : (err / 2 == 0) ≡ false = ground arith in rw is_wrong refl

  send_cmd-stuck :
      (s : S) (q : Queue Cmd) (cmd : Cmd)
      → q.cq_head ≡ slot
      → err % 2 ≡ q.phase
      → 2 ≤ err
      → ((t : S) (look : ℕ) → c.status t look slot ≡ err)
      → send_cmd c n (suc looks) s q cmd
        ≡ some (err, (submitted c n q cmd, rung c n s (submitted c n q cmd)))
  unfolding send_cmd
  send_cmd-stuck s q cmd here p wrong stays =
      let q1 = submitted c n q cmd in
      let there : c.status (rung c n s q1) 0 q.cq_head ≡ err =
        ap (c.status (rung c n s q1) 0) here ∙ stays (rung c n s q1) 0 in
      let polled = poll-at_once (rung c n s q1) q.cq_head q.phase there p in
      rw (polled, send_cmd) (ap some (answered-wrong (rung c n s q1) q1 wrong))

  -- Where the slot at the head of the completions holds an error with the phase of the queue, and
  -- keeps it, every command sent from then on returns that error at the first look, and the head
  -- stays where it is: an error is never taken from the queue.
  pub send_all-stuck :
      (cmds : List Cmd) (s : S) (q : Queue Cmd)
      → q.cq_head ≡ slot
      → err % 2 ≡ q.phase
      → 2 ≤ err
      → ((t : S) (look : ℕ) → c.status t look slot ≡ err)
      → (q' : Queue Cmd) × (s' : S) × (send_all c n (suc looks) s q cmds
          ≡ some (map (λ cmd. err) cmds, (q', s')))
        × (q'.cq_head ≡ slot)
  unfolding send_all
  send_all-stuck [] s q here p wrong stays = (q, s, refl, here)
  send_all-stuck (cmd ∷ cmds) s q here p wrong stays =
      let e = send_cmd-stuck s q cmd here p wrong stays in
      let (q', s', f, there) =
        send_all-stuck cmds (rung c n s (submitted c n q cmd)) (submitted c n q cmd) here p wrong
          stays in
      (q', s', rw (e, send_all, f) refl, there)
