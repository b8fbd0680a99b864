-- ===== src/Core/Ready/Switches.antt =====
-- Passes of the scheduler, yields and ticks (core.c) leave slice to all queued WRR tasks.
use cs356_project.Prelude.{
  ℕ, ◌≡◌, ◌≤◌, refl, arith, Bool, true, false, ◌||◌, List, [], ◌∷◌, Option, some, none, ◌==◌, pos,
  ltb_ℤ, elem,
}
use cs356_project.Kernel.Types.{
  SchedClass, same_class, wrr_class, fair_class, State, Outcome, done, bug,
}
use cs356_project.Kernel.External.{Kernel, ClassLaws, ListLaws, yield_op, tick_op}
use cs356_project.Wrr.Weight.{wrr_throttled}
use cs356_project.Wrr.Class.{pick_next_task_wrr, start_task, yield_task_wrr, requeue_task_wrr}
use cs356_project.Wrr.RoundRobin.View.{wrr_throttled-Still}
use cs356_project.Core.Classes.{class_order, class_yield}
use cs356_project.Core.Switch.{
  class_pick, pick_from, pick_after_fair, pick_next_task, put_prev_task, fall_asleep, leave,
  count_switch, switch_to, schedule_pass, sched_yield, class_tick, scheduler_tick,
}
use cs356_project.Core.Frames.{update_rq_clock-Kept}
use cs356_project.Core.Sound.{is_wrr}
use cs356_project.Loads.Cpu.{update_cpu_load_active}
use cs356_project.Core.Ready.Tick.{task_tick_wrr-Ready}
use cs356_project.Core.Policy.Weights.{Frame-Still, update_rq_clock-Still}
use cs356_project.Core.Ready.State.{Ready, Still-Ready, same-Ready, if-Ready, Ends, if-Ends}
use cs356_project.Core.Ready.Queue.{requeue-Ready}
use cs356_project.Core.Ready.Calls.{rq-Ready, deactivate_task-Ready, class_put_prev-Still}
use cs356_project.Core.Ready.Wakes.{wake_worker-Ready}

module _ (k : Kernel) (l : ListLaws k.lists) (laws : ClassLaws k) where
  put_prev_task-Ready : (p : ℕ) (s : State) → Ready s → Ready (put_prev_task k p s)
  unfolding put_prev_task
  put_prev_task-Ready p s v =
      let v' =
        if-Ready ((s.task p).on_rq || ltb_ℤ s.rq.skip_clock_update (pos 0))
          (Still-Ready (update_rq_clock-Still k l s) v) v in
      Still-Ready (class_put_prev-Still k l laws _ p _) v'

  -- A choice that leaves a ready state.
  abbrev Chosen : Option ℕ × State → Type 0
  Chosen r = Ready r.1

  start_task-Ready : (o : Option ℕ) (s : State) → Ready s → Ends Chosen (start_task k o s)
  unfolding start_task
  start_task-Ready none s v = tt
  start_task-Ready (some p) s v = same-Ready p _ s refl v

  wrr_pick-Ready : (s : State) → Ready s → Ends Chosen (pick_next_task_wrr k s)
  unfolding pick_next_task_wrr
  wrr_pick-Ready s v =
      let s' = (wrr_throttled k s).1 in
      let v' = Still-Ready (wrr_throttled-Still k s) v in
      if-Ends Chosen (s.rq.wrr.wrr_nr_running == 0) _ _ v (
        if-Ends Chosen (wrr_throttled k s).0 _ _ v'
          (start_task-Ready (k.list_first_entry s'.rq.wrr.active) s' v'))

  class_pick-Ready : (c : SchedClass) (s : State) → Ready s → Ends Chosen (class_pick k c s)
  unfolding class_pick
  class_pick-Ready wrr_class s v = wrr_pick-Ready s v
  class_pick-Ready c s v = Still-Ready (Frame-Still (laws.pick_Frame c s)) v

  -- The search goes on where a class has no task.
  asked_next :
      (cs : List SchedClass)
      → ((t : State) → Ready t → Ends Chosen (pick_from k cs t))
      → (o : Outcome (Option ℕ × State)) → Ends Chosen o
      → Ends Chosen (elim o [
        | bug ↦ bug
        | done (some p, s') ↦ done (some p, s')
        | done (none, s') ↦ pick_from k cs s'
      ])
  asked_next cs rest bug v = tt
  asked_next cs rest (done (some p, t)) v = v
  asked_next cs rest (done (none, t)) v = rest t v

  pick_from-Ready : (cs : List SchedClass) (s : State) → Ready s → Ends Chosen (pick_from k cs s)
  unfolding pick_from
  pick_from-Ready [] s v = tt
  pick_from-Ready (c ∷ cs) s v =
      asked_next cs (λ t w. pick_from-Ready cs t w) (class_pick k c s) (class_pick-Ready c s v)

  after_fair-Ready : (r : Option ℕ × State) → Chosen r → Ends Chosen (pick_after_fair k r)
  unfolding pick_after_fair
  after_fair-Ready (some p, s) v = v
  after_fair-Ready (none, s) v = pick_from-Ready class_order s v

  pick_next_task-Ready : (s : State) → Ready s → Ends Chosen (pick_next_task k s)
  unfolding pick_next_task
  pick_next_task-Ready s v =
      if-Ends Chosen (s.rq.nr_running == k.cfs_h_nr_running s.rq.others) _ _
        (after_fair-Ready (k.class_pick_next fair_class s)
          (Still-Ready (Frame-Still (laws.pick_Frame fair_class s)) v))
        (pick_from-Ready class_order s v)

module _ (k : Kernel) where
  count_switch-Ready : (p : ℕ) (b : Bool) (s : State) → Ready s → Ready (count_switch k p b s)
  count_switch-Ready p true s v = same-Ready p _ s refl v
  count_switch-Ready p false s v = same-Ready p _ s refl v

  switch_to-Ready :
      (prev : ℕ) (b : Bool) (r : Option ℕ × State) → Ready r.1 → Ends Ready (switch_to k prev b r)
  unfolding switch_to
  switch_to-Ready prev b (none, s) v = tt
  switch_to-Ready prev b (some next, s) v =
      let v1 = same-Ready prev (record (s.task prev) { need_resched = false }) s refl v in
      let v2 = rq-Ready _ _ refl v1 in
      if-Ready (prev == next) v2 (count_switch-Ready prev b _ (rq-Ready _ _ refl v2))

  switched :
      (prev : ℕ) (b : Bool) (o : Outcome (Option ℕ × State))
      → Ends (λ r. Ready r.1) o
      → Ends Ready (elim o [ bug ↦ bug | done r ↦ switch_to k prev b r ])
  switched prev b bug v = tt
  switched prev b (done r) v = switch_to-Ready prev b r v

module _ (k : Kernel) (l : ListLaws k.lists) (laws : ClassLaws k) (fast : 100 ≤ k.hz)
    (slow : k.hz ≤ 10000) where
  fall_asleep-Ready : (p : ℕ) (s : State) → Ready s → Ready (fall_asleep k p s)
  unfolding fall_asleep
  fall_asleep-Ready p s v =
      let v' = same-Ready p _ _ refl (deactivate_task-Ready k l laws p 1 s v) in
      if-Ready _ (wake_worker-Ready k l laws fast slow _ _ v') v'

  leave-Ready : (p : ℕ) (preempted : Bool) (s : State) → Ready s → Ready (leave k p preempted s)
  unfolding leave
  leave-Ready p preempted s v =
      if-Ready _ v (if-Ready _ (same-Ready p _ s refl v) (fall_asleep-Ready p s v))

  pub schedule_pass-Ready :
      (preempted : Bool) (s : State) → Ready s → Ends Ready (schedule_pass k preempted s)
  unfolding schedule_pass
  schedule_pass-Ready preempted s v =
      let p = s.rq.curr in
      switched k p _ _ (
        pick_next_task-Ready k l laws _
          (put_prev_task-Ready k l laws p _ (leave-Ready p preempted s v)))

  class_yield-Ready :
      (c : SchedClass) (s : State)
      → (same_class c wrr_class ≡ true → elem s.rq.curr s.rq.wrr.active ≡ true)
      → Ready s
      → Ready (class_yield k c s)
  unfolding class_yield yield_task_wrr requeue_task_wrr
  class_yield-Ready wrr_class s h v =
      requeue-Ready k l s.rq.curr false s (v.armed s.rq.curr (h refl)) v
  class_yield-Ready c s h v = Still-Ready (Frame-Still (laws.op_Frame c yield_op s.rq.curr 0 s)) v

  -- The task that yields is on the queue, if it is a WRR task.
  pub sched_yield-Ready :
      (s : State)
      → (is_wrr (s.task s.rq.curr) ≡ true → elem s.rq.curr s.rq.wrr.active ≡ true)
      → Ready s
      → Ends Ready (sched_yield k s)
  unfolding sched_yield
  sched_yield-Ready s h v = schedule_pass-Ready false _ (class_yield-Ready _ s h v)

  class_tick-Ready :
      (c : SchedClass) (p : ℕ) (s : State)
      → (same_class c wrr_class ≡ true → elem p s.rq.wrr.active ≡ true)
      → Ready s
      → (t : State) × (class_tick k c p s ≡ done t) × Ready t
  unfolding class_tick
  class_tick-Ready wrr_class p s h v = task_tick_wrr-Ready k l fast slow p s (h refl) v
  class_tick-Ready c p s h v =
      (_, refl, Still-Ready (Frame-Still (laws.op_Frame c tick_op p 0 s)) v)

  pub scheduler_tick-Ready :
      (s : State)
      → (is_wrr (s.task s.rq.curr) ≡ true → elem s.rq.curr s.rq.wrr.active ≡ true)
      → Ready s
      → (t : State) × (scheduler_tick k s ≡ done t) × Ready t
  unfolding scheduler_tick update_cpu_load_active
  scheduler_tick-Ready s h v =
      let f = update_rq_clock-Still k l s in
      let g = update_rq_clock-Kept k s in
      class_tick-Ready _ s.rq.curr _
        (λ w. rw f.wrr_kept (h (ground (arith, g.fields_kept s.rq.curr, w))))
        (Still-Ready (record { wrr_kept = f.wrr_kept; entity_kept = f.entity_kept }) v)
