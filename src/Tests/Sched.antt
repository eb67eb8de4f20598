-- ===== src/Tests/Sched.antt =====
-- Small runs of the scheduler.
use crep_os.Base.{ℕ, ◌≡◌, ◌↔◌, refl, inl, inr, List, [], ◌∷◌, arith}
use crep_os.Word.{minus_one}
use crep_os.Sched.{
  Regs, Thread, Task, Core, Fresh, Outcome, switches, returns, choose, age, modify, at, tasks_run,
  reschedule, switch_to, thread_at,
}
use crep_os.Sched.Starving.{Interrupt, IsStarved, reschedules, reschedules-returns}
use crep_os.Sched.Choice.{Every, Waits, Choice, choose-Choice}
use crep_os.Sched.Switch.{IsRunning, IsParked, switch_to-back}

abbrev regs : ℕ → Regs
regs rip = record { rip = rip; cs = 0x28; rflags = 0x202; rsp = 0; ss = 0x30; rest = 0 }

abbrev thread : (tid idle_cnt status rip : ℕ) → Thread
thread tid idle_cnt status rip = record {
  tid = tid;
  idle_cnt = idle_cnt;
  status = status;
  user_gs_base = 0;
  user_fs_base = 0;
  errno = 0;
  regs_cur = regs rip;
}

abbrev task : (pid idle_cnt status : ℕ) → List (ℕ × Thread) → Task
task pid idle_cnt status threads = record {
  pid = pid;
  ppid = minus_one;
  idle_cnt = idle_cnt;
  status = status;
  threads = threads;
  page_map = 0x1000;
}

abbrev unset : Fresh
unset = record { fresh_thread = thread minus_one 0 0 0; fresh_task = task minus_one 0 0 [] }

abbrev tasks : List (ℕ × Task)
tasks =
    (0, task 0 5 8 ((0, thread 0 0 8 100) ∷ []))
    ∷ (1, task 1 3 2 ((1, thread 1 2 2 200) ∷ (2, thread 2 7 2 300) ∷ []))
    ∷ (2, task 2 9 2 ((3, thread 3 0 2 400) ∷ []))
    ∷ []

abbrev core : Core
core = record { pid = 0; tid = 0; errno = 0; page_map = 0x1000 }

abbrev next_regs : Outcome → ℕ
next_regs (returns c ts) = 0
next_regs (switches c ts r) = r.rip

longest_wait : choose tasks_run tasks 0 minus_one ≡ 2
unfolding choose
longest_wait = refl

rescheduled : next_regs (reschedule unset core (regs 150) 0 0 tasks) ≡ 400
unfolding reschedule choose age modify at switch_to
rescheduled = refl

choose-Choice_example :
    Choice tasks_run tasks (choose tasks_run tasks 0 minus_one)
    × ((choose tasks_run tasks 0 minus_one ≡ minus_one) ↔ Every (λ a. Waits tasks_run a → ⊥) tasks)
choose-Choice_example =
    choose-Choice tasks_run tasks (omega arith, (omega arith, (omega arith, tt)))
      ((λ h e. omega arith), ((λ h e. omega arith), ((λ h e. omega arith), tt)))

switch_to-back_example :
    (c1 : Core) × (ts1 : List (ℕ × Task)) × (c2 : Core) × (ts2 : List (ℕ × Task)) × (switch_to unset
        core
        (regs 150)
        7
        8
        2
        3
        tasks
      ≡ switches c1 ts1 (thread_at unset 2 3 tasks).regs_cur)
    × (c1.pid ≡ 2)
    × (c1.tid ≡ 3)
    × IsRunning unset (thread_at unset 2 3 ts1)
    × IsParked (regs 150) 7 8 (thread_at unset 0 0 ts1)
    × (switch_to unset c1 (regs 450) 0 0 0 0 ts1 ≡ switches c2 ts2 (regs 150))
switch_to-back_example =
    switch_to-back unset core (regs 150) 7 8 2 3 tasks (omega arith) (omega arith) (omega arith)
      (regs 450) 0 0

-- Task 2 has been made and has no thread yet; task 1 waits with a thread.
abbrev without_thread : List (ℕ × Task)
without_thread = (1, task 1 3 2 ((1, thread 1 2 2 200) ∷ [])) ∷ (2, task 2 9 2 []) ∷ []

without_thread-IsStarved : IsStarved 2 9 2 without_thread
without_thread-IsStarved = record {
  keyed = (refl, (refl, tt));
  all = (
    record {
      empty = λ e. absurd (omega arith);
      shorter = λ waits other. omega arith;
      bounded = λ waits. omega arith;
      low = omega arith;
    },
    (
      record {
        empty = λ e. tt;
        shorter = λ waits other. absurd (other refl);
        bounded = λ waits. omega arith;
        low = omega arith;
      },
      tt,
    ),
  );
  waits = inr (inl (refl, refl, refl));
}

abbrev tick : Interrupt
tick = record { regs_cur = regs 150; fs = 0; gs = 0 }

reschedules-returns_example :
    (tasks' : List (ℕ × Task)) × (reschedules unset core (tick ∷ tick ∷ []) without_thread
      ≡ returns core tasks')
reschedules-returns_example =
    reschedules-returns unset core (tick ∷ tick ∷ []) 2 9 without_thread (λ e. omega arith)
      without_thread-IsStarved
