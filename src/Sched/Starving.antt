-- ===== src/Sched/Starving.antt =====
-- A task that waits without a waiting thread (kernel/sched/scheduler.cpp): `reschedule` returns
-- before it resets the counter of the task that it has chosen.
use crep_os.Base.{
  ℕ, suc, ◌+◌, ◌^◌, ◌<◌, ◌≤◌, ◌≡◌, ◌≢◌, ◌∙◌, refl, sym, ap, true, false, List, [], ◌∷◌, ◌==◌, arith,
  inl, inr, Bool-cases, length, ==_iff,
}
use crep_os.Word.{minus_one}
use crep_os.Sched.{
  Regs, Task, Core, Fresh, Outcome, returns, switches, aged, choose, age, at, modify, tasks_run,
  threads_run, no_task, next_thread, reschedule, task_waiting,
}
use crep_os.Sched.Choice.{
  Every, Any, Waits, NoLonger, Choice, choose-found, none_waits, longest, Every-map, Every-zip,
}
use crep_os.Sched.Entries.{
  Keyed, choose-nobody, age-Every, age-Any, find_both, HasPid, at-Every, modify-Every, modify-Any,
  modify-Keyed, age-Keyed, both,
}

-- The registers and the bases of an interrupt.
pub record Interrupt : Type 0 where
  pub regs_cur : Regs
  pub fs : ℕ
  pub gs : ℕ

-- `reschedule` at each interrupt, as long as it returns to where the interrupt was.
unfoldable pub reschedules : Fresh → Core → List Interrupt → List (ℕ × Task) → Outcome
unfolding reschedule
reschedules f core [] tasks = returns core tasks
reschedules f core (i ∷ is) tasks = elim (reschedule f core i.regs_cur i.fs i.gs tasks) [
  | returns core' tasks' ↦ reschedules f core' is tasks'
  | switches core' tasks' regs ↦ switches core' tasks' regs
]

-- No thread of the task waits.
abbrev pub NobodyWaits : Task → Type 0
NobodyWaits t = Every (λ h. Waits threads_run h → ⊥) t.threads

-- Every task of the id `pid` is without a waiting thread, no other waits as long, and no counter wraps in
-- `n` rounds.
pub record IsStarver (pid w n : ℕ) (t : Task) : Type 0 where
  pub empty : t.pid ≡ pid → NobodyWaits t
  pub shorter : t.status ≡ task_waiting → t.pid ≢ pid → t.idle_cnt < w
  pub bounded : t.status ≡ task_waiting → t.idle_cnt ≤ w
  pub low : t.idle_cnt + n < 2 ^ 64

pub record IsStarved (pid w n : ℕ) (tasks : List (ℕ × Task)) : Type 0 where
  pub keyed : Keyed tasks
  pub all : Every (IsStarver pid w n) tasks
  pub waits : Any (λ t. (t.status ≡ task_waiting) × (t.pid ≡ pid) × (t.idle_cnt ≡ w)) tasks

-- Who is chosen.
chosen :
    (pid w n : ℕ) (tasks : List (ℕ × Task))
    → IsStarved pid w (suc n) tasks
    → choose tasks_run tasks 0 minus_one ≡ pid
chosen pid w n tasks s =
    by_choice
      (choose-found tasks_run tasks (Every-map tasks (λ t h. let l = h.low in omega arith) s.all))
  where
    by_choice : {res : ℕ} → Choice tasks_run tasks res → res ≡ pid
    by_choice (none_waits e all) =
        let (t, idle, busy) = find_both tasks all s.waits in absurd (idle busy.0)
    by_choice (longest v one all) =
        let (t, (starver, far), busy) =
          find_both {P = λ a. IsStarver pid w (suc n) a × NoLonger tasks_run v a} tasks
            (Every-zip tasks (λ a p q. (p, q)) s.all all) s.waits in
        let (u, starver', cand) = find_both tasks s.all one in
        let reach = far busy.0 in
        let idle = busy.2 in
        let low = starver.low in
        let low' = starver'.low in
        let waited = cand.wait in
        elim (Bool-cases (u.pid == pid)) [
          | inl e ↦ sym cand.named ∙ (==_iff u.pid pid).0 e
          | inr e ↦
              let less = starver'.shorter cand.waits (λ q. ground arith) in absurd (omega arith)
        ]

next_thread-NobodyWaits :
    (f : Fresh) (core : Core) (regs_cur : Regs) (fs gs pid : ℕ) (tasks : List (ℕ × Task))
    → NobodyWaits (at (no_task f) pid tasks)
    → next_thread f core regs_cur fs gs pid tasks
      ≡ returns core
          (modify (no_task f) pid (λ t. record t { threads = age threads_run t.threads }) tasks)
unfolding next_thread
next_thread-NobodyWaits f core regs_cur fs gs pid tasks h =
    let e = choose-nobody threads_run (at (no_task f) pid tasks).threads 0 minus_one h in
    let d : (choose threads_run (at (no_task f) pid tasks).threads 0 minus_one == minus_one)
        ≡ true =
      ground (arith, e) in
    rw d refl

-- What a round does to the starving task.
abbrev aged_threads : Task → Task
aged_threads t = record t { threads = age threads_run t.threads }

aged-Starver :
    (pid w n : ℕ) (t : Task)
    → IsStarver pid w (suc n) t
    → IsStarver pid (w + 1) n (aged tasks_run t)
aged-Starver pid w n t s =
    let low = s.low in
    record {
      empty = s.empty;
      shorter = λ waits other. let l = s.shorter waits other in omega arith;
      bounded = λ waits. let l = s.bounded waits in omega arith;
      low = omega arith;
    }

threads-Starver :
    (pid w n : ℕ) (t : Task) → IsStarver pid w n t → IsStarver pid w n (aged_threads t)
threads-Starver pid w n t s = record {
  empty = λ e.
      age-Every threads_run (λ h. Waits threads_run h → ⊥) (λ h. Waits threads_run h → ⊥) t.threads
        (λ h idle waits. idle waits) (s.empty e);
  shorter = s.shorter;
  bounded = s.bounded;
  low = s.low;
}

-- The task that starves the others.
abbrev Starves : (pid w : ℕ) → Task → Type 0
Starves pid w t = (t.status ≡ task_waiting) × (t.pid ≡ pid) × (t.idle_cnt ≡ w)

module _ (f : Fresh) (pid w n : ℕ) (tasks : List (ℕ × Task))
    (s : IsStarved pid w (suc n) tasks) where
  aged_pid : Any (HasPid (no_task f) pid) (age tasks_run tasks)
  aged_pid = age-Any tasks_run (Starves pid w) (HasPid (no_task f) pid) tasks (λ t h. h.1) s.waits

  aged_all : Every (IsStarver pid (w + 1) n) (age tasks_run tasks)
  aged_all =
      age-Every tasks_run (IsStarver pid w (suc n)) (IsStarver pid (w + 1) n) tasks
        (aged-Starver pid w n) s.all

  next_round : IsStarved pid (w + 1) n (modify (no_task f) pid aged_threads (age tasks_run tasks))
  next_round = record {
    keyed =
        modify-Keyed (no_task f) pid aged_threads (age tasks_run tasks) (λ t. refl)
          (age-Keyed tasks s.keyed) aged_pid;
    all =
        modify-Every (no_task f) pid (IsStarver pid (w + 1) n) aged_threads (age tasks_run tasks)
          (threads-Starver pid (w + 1) n) (age-Keyed tasks s.keyed) aged_pid aged_all;
    waits =
        modify-Any (no_task f) pid (Starves pid (w + 1)) aged_threads (age tasks_run tasks)
          (λ t h. h)
          (age-Any tasks_run (λ t. IsStarver pid w (suc n) t × Starves pid w t)
            (Starves pid (w + 1)) tasks
            (λ t (q, (waits, named, idle)). let low = q.low in (waits, named, omega arith))
            (both (IsStarver pid w (suc n)) (Starves pid w) tasks s.all s.waits));
  }

  reschedule-returns :
      (core : Core) (i : Interrupt)
      → pid ≢ minus_one
      → reschedule f core i.regs_cur i.fs i.gs tasks
        ≡ returns core (modify (no_task f) pid aged_threads (age tasks_run tasks))
  unfolding reschedule
  reschedule-returns core i real =
      let e = chosen pid w n tasks s in
      let d : (choose tasks_run tasks 0 minus_one == minus_one) ≡ false = ground (arith, e) in
      let (starver, named) =
        at-Every (no_task f) pid (IsStarver pid (w + 1) n) (age tasks_run tasks)
          (age-Keyed tasks s.keyed) aged_pid aged_all in
      rw d (
        ap (λ p. next_thread f core i.regs_cur i.fs i.gs p (age tasks_run tasks)) e
        ∙ next_thread-NobodyWaits f core i.regs_cur i.fs i.gs pid (age tasks_run tasks)
            (starver.empty named))

-- Where a task with an id that waits has no waiting thread, every other waiting task has waited for
-- less, every entry is under its id and no idle counter wraps within the interrupts, `reschedule`
-- returns to the interrupted thread at each of them: no other task is ever switched to.
pub reschedules-returns :
    (f : Fresh) (core : Core) (is : List Interrupt) (pid w : ℕ) (tasks : List (ℕ × Task))
    → pid ≢ minus_one
    → IsStarved pid w (length is) tasks
    → (tasks' : List (ℕ × Task)) × (reschedules f core is tasks ≡ returns core tasks')
unfolding reschedules
reschedules-returns f core [] pid w tasks real s = (tasks, refl)
reschedules-returns f core (i ∷ is) pid w tasks real s =
    let e = reschedule-returns f pid w (length is) tasks s core i real in
    let (tasks', g) =
      reschedules-returns f core is pid (w + 1)
        (modify (no_task f) pid aged_threads (age tasks_run tasks)) real
        (next_round f pid w (length is) tasks s) in
    (tasks', rw (e, reschedules) g)
