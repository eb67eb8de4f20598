-- ===== src/Sched/Create.antt =====
-- What `create_task` leaves in the list of tasks.
use crep_os.Base.{ℕ, ◌+◌, ◌≡◌, ◌≢◌, ◌∙◌, refl, sym, Bool, true, false, List, if◌then◌else◌, ◌==◌}
use crep_os.Word.{u64}
use crep_os.Sched.{Task, Fresh, no_task, at, modify, new_task, create_task}
use crep_os.Sched.Switch.{at-modify, at-modify_same, at-modify_other}

if_same : {A : Type 0} (b : Bool) (x : A) → (if b then x else x) ≡ x
if_same true x = refl
if_same false x = refl

module _ (f : Fresh) (kernel_mapping : ℕ) (tasks : List (ℕ × Task))
    (task_cnt ppid page_map : ℕ) where
  abbrev with_parent : List (ℕ × Task)
  with_parent = modify (no_task f) ppid (λ t. t) tasks

  parent_kept : (k : ℕ) → at (no_task f) k with_parent ≡ at (no_task f) k tasks
  parent_kept k =
      at-modify (no_task f) k ppid (λ t. t) tasks ∙ if_same (ppid == k) (at (no_task f) k tasks)

  -- `create_task` returns the count of tasks as the pid, raises the count by one, and leaves
  -- under that pid a waiting task with no threads, the parent that it was given and the page map
  -- that it was given, or the one of the kernel for a null one; every other pid reads as before.
  pub create_task_lem :
      (pid : ℕ) × (ts : List (ℕ × Task)) × (create_task f kernel_mapping tasks task_cnt ppid
          page_map
        ≡ (pid, u64 (task_cnt + 1), ts))
      × (at (no_task f) pid ts ≡ new_task f kernel_mapping pid ppid page_map)
      × ((k : ℕ) → k ≢ pid → at (no_task f) k ts ≡ at (no_task f) k tasks)
  unfolding create_task
  create_task_lem = (
    task_cnt,
    modify (no_task f) task_cnt (λ t. new_task f kernel_mapping task_cnt ppid page_map) with_parent,
    refl,
    at-modify_same (no_task f) task_cnt (λ t. new_task f kernel_mapping task_cnt ppid page_map)
        with_parent,
    λ k other.
        at-modify_other (no_task f) k task_cnt
          (λ t. new_task f kernel_mapping task_cnt ppid page_map) with_parent (λ e. other (sym e))
        ∙ parent_kept k,
  )
