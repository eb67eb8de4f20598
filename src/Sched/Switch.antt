-- ===== src/Sched/Switch.antt =====
-- What a switch does to the two threads.
use crep_os.Base.{
  ℕ, ◌≡◌, ◌≢◌, ◌∙◌, refl, sym, ap, subst, true, false, List, [], ◌∷◌, if◌then◌else◌, ◌==◌, arith,
  not, ◌&&◌, inl, inr, Bool-cases,
}
use crep_os.Word.{minus_one}
use crep_os.Sched.{
  Regs, Thread, Task, Core, Fresh, no_thread, no_task, switches, at, modify, park, parked_thread,
  parked_task, running_thread, running_task, run_next, thread_at, switch_to, task_waiting,
  task_running,
}

module _ {ℓ} {A : Type ℓ} where
  pub at-modify :
      (fresh : A) (k j : ℕ) (f : A → A) (es : List (ℕ × A))
      → at fresh k (modify fresh j f es) ≡ (if j == k then f (at fresh k es) else at fresh k es)
  unfolding at modify
  at-modify fresh k j f [] = refl
  at-modify fresh k j f ((i, a) ∷ es) = ground (arith, at-modify fresh k j f es)

  pub at-modify_same :
      (fresh : A) (k : ℕ) (f : A → A) (es : List (ℕ × A))
      → at fresh k (modify fresh k f es) ≡ f (at fresh k es)
  at-modify_same fresh k f es =
      let e : (k == k) ≡ true = ground arith in at-modify fresh k k f es ∙ rw e refl

  pub at-modify_other :
      (fresh : A) (k j : ℕ) (f : A → A) (es : List (ℕ × A))
      → j ≢ k
      → at fresh k (modify fresh j f es) ≡ at fresh k es
  at-modify_other fresh k j f es h =
      let e : (j == k) ≡ false = ground arith in at-modify fresh k j f es ∙ rw e refl

-- A thread that has been parked.
pub record IsParked (regs_cur : Regs) (fs gs : ℕ) (h : Thread) : Type 0 where
  pub status : h.status ≡ task_waiting
  pub saved : h.regs_cur ≡ regs_cur
  pub fs_base : h.user_fs_base ≡ fs
  pub gs_base : h.user_gs_base ≡ gs

module _ (f : Fresh) (core : Core) (regs_cur : Regs) (fs gs : ℕ) (tasks : List (ℕ × Task))
    (busy_pid : core.pid ≢ minus_one) (busy_tid : core.tid ≢ minus_one) where
  park_lem :
      park f core regs_cur fs gs tasks
      ≡ modify (no_task f) core.pid (parked_task f core.tid regs_cur fs gs) tasks
  unfolding park
  park_lem =
      let a : (core.pid == minus_one) ≡ false = ground arith in
      let b : (core.tid == minus_one) ≡ false = ground arith in rw (a, b) refl

  park-IsParked :
      IsParked regs_cur fs gs (thread_at f core.pid core.tid (park f core regs_cur fs gs tasks))
  park-IsParked =
      subst (IsParked regs_cur fs gs)
        (sym (
          ap (thread_at f core.pid core.tid) park_lem
          ∙ ap (λ t. at (no_thread f) core.tid t.threads)
              (at-modify_same (no_task f) core.pid (parked_task f core.tid regs_cur fs gs) tasks)
          ∙ at-modify_same (no_thread f) core.tid (parked_thread regs_cur fs gs)
              (at (no_task f) core.pid tasks).threads))
        (record { status = refl; saved = refl; fs_base = refl; gs_base = refl })

module _ (f : Fresh) where
  park_other :
      (core : Core) (regs_cur : Regs) (fs gs pid : ℕ) (tasks : List (ℕ × Task))
      → core.pid ≢ pid
      → at (no_task f) pid (park f core regs_cur fs gs tasks) ≡ at (no_task f) pid tasks
  unfolding park
  park_other core regs_cur fs gs pid tasks h =
      elim (Bool-cases (not (core.tid == minus_one) && not (core.pid == minus_one))) [
        | inl e ↦
            rw (e, park)
              (at-modify_other (no_task f) pid core.pid (parked_task f core.tid regs_cur fs gs)
                tasks h)
        | inr e ↦ rw (e, park) refl
      ]

  run_other :
      (pid tid p : ℕ) (tasks : List (ℕ × Task))
      → pid ≢ p
      → at (no_task f) p (run_next f pid tid tasks) ≡ at (no_task f) p tasks
  unfolding run_next
  run_other pid tid p tasks h = at-modify_other (no_task f) p pid (running_task f tid) tasks h

  -- A thread that the core has been given.
  pub record IsRunning (h : Thread) : Type 0 where
    pub status : h.status ≡ task_running
    pub idle : h.idle_cnt ≡ 0

  run_next-IsRunning :
      (pid tid : ℕ) (tasks : List (ℕ × Task))
      → IsRunning (thread_at f pid tid (run_next f pid tid tasks))
  unfolding run_next
  run_next-IsRunning pid tid tasks =
      subst IsRunning
        (sym (
          ap (λ t. at (no_thread f) tid t.threads)
            (at-modify_same (no_task f) pid (running_task f tid) tasks)
          ∙ at-modify_same (no_thread f) tid running_thread (at (no_task f) pid tasks).threads))
        (record { status = refl; idle = refl })

  module _ (core : Core) (regs_cur : Regs) (fs gs pid tid : ℕ) (tasks : List (ℕ × Task))
      (busy_pid : core.pid ≢ minus_one) (busy_tid : core.tid ≢ minus_one)
      (other : core.pid ≢ pid) where
    abbrev parked : List (ℕ × Task)
    parked = park f core regs_cur fs gs tasks

    abbrev after : List (ℕ × Task)
    after = run_next f pid tid parked

    abbrev core_after : Core
    core_after = record {
      pid = pid;
      tid = tid;
      errno = (thread_at f pid tid parked).errno;
      page_map = (at (no_task f) pid parked).page_map;
    }

    next_parked : thread_at f pid tid parked ≡ thread_at f pid tid tasks
    next_parked =
        ap (λ t. at (no_thread f) tid t.threads) (park_other core regs_cur fs gs pid tasks other)

    switched :
        switch_to f core regs_cur fs gs pid tid tasks
        ≡ switches core_after after (thread_at f pid tid tasks).regs_cur
    unfolding switch_to
    switched = ap (λ h. switches core_after after h.regs_cur) next_parked

    last_after : thread_at f core.pid core.tid after ≡ thread_at f core.pid core.tid parked
    last_after =
        ap (λ t. at (no_thread f) core.tid t.threads)
          (run_other pid tid core.pid parked (λ e. other (sym e)))

    last-IsParked : IsParked regs_cur fs gs (thread_at f core.pid core.tid after)
    last-IsParked =
        subst (IsParked regs_cur fs gs) (sym last_after)
          (park-IsParked f core regs_cur fs gs tasks busy_pid busy_tid)

    -- A switch from a running thread to a thread of another task resumes that thread with its
    -- own registers, makes it the running one with an idle counter of 0, and parks the last
    -- thread as waiting with the registers and bases of the interrupt; a later switch from
    -- there back to the last thread resumes it with exactly those registers.
    pub switch_to-back :
        (regs_now : Regs) (fs_now gs_now : ℕ)
        → (c1 : Core) × (ts1 : List (ℕ × Task)) × (c2 : Core) × (ts2 : List (ℕ × Task)) × (switch_to
              f core regs_cur fs gs pid tid tasks
            ≡ switches c1 ts1 (thread_at f pid tid tasks).regs_cur)
          × (c1.pid ≡ pid)
          × (c1.tid ≡ tid)
          × IsRunning (thread_at f pid tid ts1)
          × IsParked regs_cur fs gs (thread_at f core.pid core.tid ts1)
          × (switch_to f c1 regs_now fs_now gs_now core.pid core.tid ts1 ≡ switches c2 ts2 regs_cur)
    unfolding switch_to
    switch_to-back regs_now fs_now gs_now =
        let later = park f core_after regs_now fs_now gs_now after in
        let back : (thread_at f core.pid core.tid later).regs_cur ≡ regs_cur =
          ap (λ t. (at (no_thread f) core.tid t.threads).regs_cur)
            (park_other core_after regs_now fs_now gs_now core.pid after (λ e. other (sym e)))
          ∙ last-IsParked.saved in
        let c2 : Core = record {
          pid = core.pid;
          tid = core.tid;
          errno = (thread_at f core.pid core.tid later).errno;
          page_map = (at (no_task f) core.pid later).page_map;
        } in
        let ts2 : List (ℕ × Task) = run_next f core.pid core.tid later in
        (
          core_after,
          after,
          c2,
          ts2,
          switched,
          refl,
          refl,
          run_next-IsRunning pid tid parked,
          last-IsParked,
          ap (switches c2 ts2) back,
        )
