-- ===== src/Core/Live/Machine.antt =====
-- The scheduler in motion: any sequence of the entries of core.c.
use cs356_project.Prelude.{
  ℕ, ◌≡◌, arith, Bool, true, false, ◌==◌, ℤ, pos, pos_part, eqb_ℤ, subst, sym, ◌∙◌, Bool-cases, inl,
  inr,
}
use cs356_project.Kernel.Types.{State, done, finished}
use cs356_project.Kernel.External.{Kernel, ClassLaws, ListLaws, IdleLaw}
use cs356_project.Core.Policy.Request.{
  check_param, check_permission, check_bandwidth, asked_policy, asked_reset,
}
use cs356_project.Core.Policy.Change.{
  unchanged, is_stop, rt_mutex_setprio, sched_setscheduler_common, sched_setscheduler_locked,
}
use cs356_project.Core.Policy.Checks.{check_param-word}
use cs356_project.Core.Wake.{try_to_wake_up}
use cs356_project.Core.Fork.{wake_up_new_task}
use cs356_project.Core.Nice.{set_user_nice}
use cs356_project.Core.Groups.{sched_move_task}
use cs356_project.Core.Waiters.{Completion, complete, complete_all}
use cs356_project.Core.Live.Moves.{sched_move_task-Live, complete-Live}
use cs356_project.Core.Switch.{scheduler_tick, schedule_pass, sched_yield}
use cs356_project.Core.Live.State.{Live}
use cs356_project.Core.Live.Wakes.{try_to_wake_up-Live}
use cs356_project.Core.Live.Starts.{wake_up_new_task-Live}
use cs356_project.Core.Live.Switches.{schedule_pass-Live}
use cs356_project.Core.Live.Ticks.{scheduler_tick-done, sched_yield-Live}
use cs356_project.Core.Live.Changes.{change_policy-Live, rt_mutex_setprio-done}
use cs356_project.Core.Live.Nices.{set_user_nice-Live}

-- A task whose policy, priority or nice value may be changed: not the idle task, which no process
-- finds, and runnable if it is the one that runs, as a task that makes a call is.
abbrev pub MayChange : ℕ → State → Type 0
MayChange p s = ((p == s.rq.idle) ≡ false) × ((p == s.rq.curr) ≡ true → (s.task p).on_rq ≡ true)

pub data Step (k : Kernel) : State → State → Type 0 where
  ticks : (s t : State) → scheduler_tick k s ≡ done t → Step k s t
  schedules : (preempted : Bool) (s t : State) → schedule_pass k preempted s ≡ done t → Step k s t
  yields : (s t : State) → sched_yield k s ≡ done t → Step k s t
  wakes : (p mask flags : ℕ) (s : State) → Step k s (try_to_wake_up k p mask flags s).0
  starts : (p : ℕ) (s : State) → (s.task p).on_rq ≡ false → Step k s (wake_up_new_task k p s)
  sets_policy :
      (p : ℕ) (policy prio : ℤ) (user : Bool) (s : State)
      → MayChange p s
      → Step k s (sched_setscheduler_common k p policy prio user s).0
  inherits :
      (p : ℕ) (prio : ℤ) (s t : State)
      → MayChange p s
      → rt_mutex_setprio k p prio s ≡ done t
      → Step k s t
  renices : (p : ℕ) (nice : ℤ) (s : State) → MayChange p s → Step k s (set_user_nice k p nice s)
  moves : (p tg : ℕ) (s : State) → MayChange p s → Step k s (sched_move_task k p tg s)
  completes : (x : Completion) (s : State) → Step k s (complete k x s).1
  completes_all : (x : Completion) (s : State) → Step k s (complete_all k x s).1

pub data Reach (k : Kernel) (s : State) : State → Type 0 where
  here : Reach k s s
  next : {t u : State} → Reach k s t → Step k t u → Reach k s u

module _ (k : Kernel) (l : ListLaws k.lists) (laws : ClassLaws k) (idle : IdleLaw k) where
  locked-Live :
      (p : ℕ) (policy prio : ℤ) (user : Bool) (s : State)
      → check_param (s.task p) policy prio ≡ pos 0
      → MayChange p s
      → Live s
      → Live (sched_setscheduler_locked k p policy prio user s).0
  unfolding sched_setscheduler_locked
  locked-Live p policy prio user s h m v =
      let t = s.task p in
      let asked = asked_policy t policy in
      let w =
        change_policy-Live k l laws p asked (pos_part prio) (asked_reset t policy) s
          (check_param-word t policy prio h) m.0 m.1 v in
      elim (Bool-cases (is_stop p s.rq.stop)) [
        | inl stop ↦ rw stop v
        | inr run ↦ rw run (elim (Bool-cases (unchanged t asked prio)) [
          | inl same ↦ rw same v
          | inr new ↦ rw new (elim (Bool-cases (eqb_ℤ (check_bandwidth k s t asked user) (pos 0))) [
            | inl may ↦ rw may w
            | inr denied ↦ rw denied v
          ])
        ])
      ]

  sched_setscheduler-Live :
      (p : ℕ) (policy prio : ℤ) (user : Bool) (s : State)
      → MayChange p s
      → Live s
      → Live (sched_setscheduler_common k p policy prio user s).0
  unfolding sched_setscheduler_common
  sched_setscheduler-Live p policy prio user s m v =
      let t = s.task p in
      elim (Bool-cases (eqb_ℤ (check_param t policy prio) (pos 0))) [
        | inr invalid ↦ rw invalid v
        | inl valid ↦
            rw valid (elim (Bool-cases (eqb_ℤ (check_permission k p t policy prio user) (pos 0))) [
              | inr denied ↦ rw denied v
              | inl may ↦ rw may (locked-Live p policy prio user s (ground (arith, valid)) m v)
            ])
      ]

  Step-Live : {s t : State} → Step k s t → Live s → Live t
  Step-Live (ticks s t e) v = scheduler_tick-done k l laws s t v e
  Step-Live (schedules b s t e) v =
      let (u, run, w) = schedule_pass-Live k l laws idle b s v in
      subst Live (finished (sym run ∙ e)) w
  Step-Live (yields s t e) v =
      let (u, run, w) = sched_yield-Live k l laws idle s v in subst Live (finished (sym run ∙ e)) w
  Step-Live (wakes p mask flags s) v = try_to_wake_up-Live k l laws p mask flags s v
  Step-Live (starts p s off) v = wake_up_new_task-Live k l laws p s off v
  Step-Live (sets_policy p policy prio user s m) v =
      sched_setscheduler-Live p policy prio user s m v
  Step-Live (inherits p prio s t m e) v = rt_mutex_setprio-done k l laws p prio s t m.1 v e
  Step-Live (renices p nice s m) v = set_user_nice-Live k l laws p nice s m.0 m.1 v
  Step-Live (moves p tg s m) v = sched_move_task-Live k l laws p tg s m.0 m.1 v
  Step-Live (completes x s) v = (complete-Live k l laws x s v).0
  Step-Live (completes_all x s) v = (complete-Live k l laws x s v).1

  -- Between two entries WRR's queue is well formed and holds exactly the runnable WRR tasks, a
  -- running WRR task is on it, and the idle task is not a WRR task. From a state where this holds
  -- every sequence of steps, in any order, leads to such a state. A step is a tick, a pass of the
  -- scheduler or a yield, if the kernel survives it; a wake-up, the first wake-up of a task that is
  -- not marked as runnable, or the end of a completion; a change of policy, group, nice value or,
  -- if the kernel survives it, by priority inheritance, of a task that is not idle and is runnable
  -- if it runs.
  pub Reach-Live : {s t : State} → Reach k s t → Live s → Live t
  Reach-Live here v = v
  Reach-Live (next r e) v = Step-Live e (Reach-Live r v)
