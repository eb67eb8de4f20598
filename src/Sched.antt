-- ===== src/Sched.antt =====
-- The scheduler (kernel/sched/scheduler.hpp, kernel/sched/scheduler.cpp). `task_list` and the
-- `threads` of a task are the entries of a map in their order: `operator[]` adds the keys that are
-- missing, so no key is there twice, and the entry at index `i` is the one under its tag.
pub mod Choice
pub mod Switch
pub mod Create
pub mod Entries
pub mod Starving
use crep_os.Base.{
  ℕ, zero, suc, ◌+◌, ◌≡◌, refl, Bool, true, false, not, ◌&&◌, List, [], ◌∷◌, ◌++◌, Option, none,
  some, if◌then◌else◌, ◌==◌, ltb,
}
use crep_os.Word.{u64, minus_one}

abbrev pub task_waiting : ℕ
task_waiting = 2

abbrev pub task_running : ℕ
task_running = 8

-- The registers that the scheduler reads or sets; `rest` stands for the others.
pub record Regs : Type 0 where
  pub rip : ℕ
  pub cs : ℕ
  pub rflags : ℕ
  pub rsp : ℕ
  pub ss : ℕ
  pub rest : ℕ

pub record Thread : Type 0 where
  pub tid : ℕ
  pub idle_cnt : ℕ
  pub status : ℕ
  pub user_gs_base : ℕ
  pub user_fs_base : ℕ
  pub errno : ℕ
  pub regs_cur : Regs

pub record Task : Type 0 where
  pub pid : ℕ
  pub ppid : ℕ
  pub idle_cnt : ℕ
  pub status : ℕ
  pub threads : List (ℕ × Thread)
  pub page_map : ℕ

pub record Core : Type 0 where
  pub pid : ℕ
  pub tid : ℕ
  pub errno : ℕ
  pub page_map : ℕ

-- What the default constructors leave open, as the memory holds it.
pub record Fresh : Type 0 where
  pub fresh_thread : Thread
  pub fresh_task : Task

-- `thread()` and `task()`.
abbrev pub no_thread : Fresh → Thread
no_thread f = record (f.fresh_thread) { tid = minus_one; idle_cnt = 0; errno = 0 }

abbrev pub no_task : Fresh → Task
no_task f = record (f.fresh_task) { pid = minus_one; ppid = minus_one; idle_cnt = 0; threads = [] }

module _ {ℓ} {A : Type ℓ} where
  -- `map::operator[]` as a value and as a place to write to.
  unfoldable pub at : A → ℕ → List (ℕ × A) → A
  at fresh k [] = fresh
  at fresh k ((j, a) ∷ es) = if j == k then a else at fresh k es

  unfoldable pub modify : A → ℕ → (A → A) → List (ℕ × A) → List (ℕ × A)
  modify fresh k f [] = (k, f fresh) ∷ []
  modify fresh k f ((j, a) ∷ es) = if j == k then (j, f a) ∷ es else (j, a) ∷ modify fresh k f es

-- What the two searches of `reschedule` read and write of a task or a thread.
pub record Runnable {ℓ} (A : Type ℓ) : Type ℓ where
  pub idle : A → ℕ
  pub set_idle : A → ℕ → A
  pub state : A → ℕ
  pub id : A → ℕ
  pub idle-set : (a : A) (n : ℕ) → idle (set_idle a n) ≡ n
  pub state-set : (a : A) (n : ℕ) → state (set_idle a n) ≡ state a
  pub id-set : (a : A) (n : ℕ) → id (set_idle a n) ≡ id a

abbrev pub tasks_run : Runnable Task
tasks_run = record {
  idle = λ t. t.idle_cnt;
  set_idle = λ t n. record t { idle_cnt = n };
  state = λ t. t.status;
  id = λ t. t.pid;
  idle-set = λ t n. refl;
  state-set = λ t n. refl;
  id-set = λ t n. refl;
}

abbrev pub threads_run : Runnable Thread
threads_run = record {
  idle = λ t. t.idle_cnt;
  set_idle = λ t n. record t { idle_cnt = n };
  state = λ t. t.status;
  id = λ t. t.tid;
  idle-set = λ t n. refl;
  state-set = λ t n. refl;
  id-set = λ t n. refl;
}

module _ {ℓ} {A : Type ℓ} (r : Runnable A) where
  -- `idle_cnt++`
  abbrev pub aged : A → A
  aged a = r.set_idle a (u64 (r.idle a + 1))

  abbrev pub is_better : A → (cnt : ℕ) → Bool
  is_better a cnt = r.state (aged a) == task_waiting && ltb cnt (r.idle (aged a))

  -- The loops behind `next_pid` and `next_tid`: `cnt` is the longest wait so far, `ret` who has it.
  unfoldable pub choose : List (ℕ × A) → (cnt ret : ℕ) → ℕ
  choose [] cnt ret = ret
  choose ((k, a) ∷ es) cnt ret =
      choose es (if is_better a cnt then r.idle (aged a) else cnt)
        (if is_better a cnt then r.id (aged a) else ret)

  unfoldable pub age : List (ℕ × A) → List (ℕ × A)
  age [] = []
  age ((k, a) ∷ es) = (k, aged a) ∷ age es

-- The task that `create_task` makes: what it decides on the parent is overwritten.
abbrev pub new_task : Fresh → (kernel_mapping pid ppid page_map : ℕ) → Task
new_task f kernel_mapping pid ppid page_map = record (no_task f) {
  pid = pid;
  ppid = ppid;
  status = task_waiting;
  page_map = if page_map == 0 then kernel_mapping else page_map;
}

-- `create_task`: the pid, the next `task_cnt` and the tasks. The lookup of the parent adds an entry
-- where there is none.
unfoldable pub create_task :
    Fresh
    → (kernel_mapping : ℕ) → List (ℕ × Task)
    → (task_cnt ppid page_map : ℕ) → ℕ × ℕ × List (ℕ × Task)
unfolding modify
create_task f kernel_mapping tasks task_cnt ppid page_map = (
  task_cnt,
  u64 (task_cnt + 1),
  modify (no_task f) task_cnt (λ t. new_task f kernel_mapping task_cnt ppid page_map)
      (modify (no_task f) ppid (λ t. t) tasks),
)

-- What a call of `reschedule` ends in: a return to where the interrupt was, or a switch to the
-- registers of the next thread.
pub data Outcome : Type 0 where
  returns : Core → List (ℕ × Task) → Outcome
  switches : Core → List (ℕ × Task) → Regs → Outcome

abbrev pub parked_thread : (regs_cur : Regs) → (fs gs : ℕ) → Thread → Thread
parked_thread regs_cur fs gs h = record h {
  status = task_waiting;
  regs_cur = regs_cur;
  user_fs_base = fs;
  user_gs_base = gs;
}

abbrev pub parked_task : Fresh → (tid : ℕ) → (regs_cur : Regs) → (fs gs : ℕ) → Task → Task
parked_task f tid regs_cur fs gs t = record t {
  status = task_waiting;
  threads = modify (no_thread f) tid (parked_thread regs_cur fs gs) t.threads;
}

-- The last thread goes back to the waiting ones.
unfoldable pub park :
    Fresh → Core → (regs_cur : Regs) → (fs gs : ℕ) → List (ℕ × Task) → List (ℕ × Task)
unfolding modify
park f core regs_cur fs gs tasks =
    if not (core.tid == minus_one) && not (core.pid == minus_one)
    then modify (no_task f) core.pid (parked_task f core.tid regs_cur fs gs) tasks
    else tasks

abbrev pub running_thread : Thread → Thread
running_thread h = record h { idle_cnt = 0; status = task_running }

abbrev pub running_task : Fresh → (tid : ℕ) → Task → Task
running_task f tid t = record t {
  idle_cnt = 0;
  status = task_running;
  threads = modify (no_thread f) tid running_thread t.threads;
}

-- The next thread runs.
unfoldable pub run_next : Fresh → (pid tid : ℕ) → List (ℕ × Task) → List (ℕ × Task)
unfolding modify
run_next f pid tid tasks = modify (no_task f) pid (running_task f tid) tasks

abbrev pub thread_at : Fresh → (pid tid : ℕ) → List (ℕ × Task) → Thread
thread_at f pid tid tasks = at (no_thread f) tid (at (no_task f) pid tasks).threads

unfoldable pub switch_to :
    Fresh → Core → (regs_cur : Regs) → (fs gs : ℕ) → (pid tid : ℕ) → List (ℕ × Task) → Outcome
unfolding park run_next at
switch_to f core regs_cur fs gs pid tid tasks =
    let parked = park f core regs_cur fs gs tasks in
    let next = thread_at f pid tid parked in
    switches
      (record {
        pid = pid;
        tid = tid;
        errno = next.errno;
        page_map = (at (no_task f) pid parked).page_map;
      })
      (run_next f pid tid parked) next.regs_cur

-- The search for a thread of task `pid`.
unfoldable pub next_thread :
    Fresh → Core → (regs_cur : Regs) → (fs gs : ℕ) → (pid : ℕ) → List (ℕ × Task) → Outcome
unfolding choose age modify at switch_to
next_thread f core regs_cur fs gs pid tasks =
    let next_tid = choose threads_run (at (no_task f) pid tasks).threads 0 minus_one in
    let tasks' =
      modify (no_task f) pid (λ t. record t { threads = age threads_run t.threads }) tasks in
    if next_tid == minus_one
    then returns core tasks'
    else switch_to f core regs_cur fs gs pid next_tid tasks'

unfoldable pub reschedule :
    Fresh → Core → (regs_cur : Regs) → (fs gs : ℕ) → List (ℕ × Task) → Outcome
unfolding next_thread
reschedule f core regs_cur fs gs tasks =
    let next_pid = choose tasks_run tasks 0 minus_one in
    let tasks' = age tasks_run tasks in
    if next_pid == minus_one
    then (if core.pid == minus_one
        then returns core tasks'
        else next_thread f core regs_cur fs gs core.pid tasks')
    else next_thread f core regs_cur fs gs next_pid tasks'
