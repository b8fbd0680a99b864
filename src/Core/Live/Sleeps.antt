-- ===== src/Core/Live/Sleeps.antt =====
-- The first half of __schedule in core.c: the running task leaves the queue, and a worker that goes
-- to sleep has another one woken.
use cs356_project.Prelude.{
  ℕ, ◌≡◌, refl, arith, ◌∙◌, Bool, false, not, ◌||◌, ◌==◌, if◌then◌else◌, Option, some, none,
  Bool-cases, inl, inr, pos, ltb_ℤ, add32,
}
use Prim.Native.Nat.{bit_and}
use cs356_project.Kernel.Types.{State, set_task}
use cs356_project.Kernel.External.{Kernel, ClassLaws, ListLaws}
use cs356_project.Core.Classes.{update_rq_clock, deactivate_task, task_contributes_to_load}
use cs356_project.Core.Frames.{
  Kept-trans, dequeue_task-Kept, class_put_prev-Kept, update_rq_clock-Kept,
}
use cs356_project.Core.Sound.{Quiet-Sound, update_rq_clock-Steady, class_put_prev-Steady}
use cs356_project.Core.Off.{dequeue-Off, unmarked-Sound, asleep-Off}
use cs356_project.Core.Wake.{ttwu_activate, ttwu_do_wakeup, try_to_wake_up_local}
use cs356_project.Core.Switch.{put_prev_task, wake_worker, fall_asleep, leave}
use cs356_project.Core.Live.State.{
  Live, Safe, Quiet-Safe, write-Safe, Kept-idle, check_preempt_curr-Steady, check_preempt_curr-Kept,
}
use cs356_project.Core.Live.Wakes.{
  count-Steady, count-Kept, activate_marked-Sound, marked-idle, activate_task-Kept,
}

module _ (k : Kernel) (l : ListLaws k.lists) (laws : ClassLaws k) where
  ttwu_activate-Safe :
      (c p flags : ℕ) (s : State)
      → (s.task p).on_rq ≡ false
      → Safe c s
      → Safe c (ttwu_activate k p flags s)
  unfolding ttwu_activate
  ttwu_activate-Safe c p flags s off v = record {
    sound = activate_marked-Sound k l laws p flags s (asleep-Off k l laws p s v.sound off);
    idle_own = marked-idle k l laws p flags s v.idle_own;
    at = (activate_task-Kept k l laws p flags s).curr_kept ∙ v.at;
  }

  ttwu_do_wakeup-Safe : (c p flags : ℕ) (s : State) → Safe c s → Safe c (ttwu_do_wakeup k p flags s)
  unfolding ttwu_do_wakeup
  ttwu_do_wakeup-Safe c p flags s v = write-Safe p _ _ refl refl refl (
      Quiet-Safe (check_preempt_curr-Steady k laws p flags s)
        (check_preempt_curr-Kept k laws p flags s) v)

  activate_if-Safe :
      (c p : ℕ) (s : State)
      → Safe c s
      → Safe c (if not (s.task p).on_rq then ttwu_activate k p 1 s else s)
  activate_if-Safe c p s v = elim (Bool-cases (s.task p).on_rq) [
    | inl on ↦ rw on v
    | inr off ↦ rw off (ttwu_activate-Safe c p 1 s off v)
  ]

  try_to_wake_up_local-Safe : (c p : ℕ) (s : State) → Safe c s → Safe c (try_to_wake_up_local k p s)
  unfolding try_to_wake_up_local
  try_to_wake_up_local-Safe c p s v = elim (Bool-cases (p == s.rq.curr)) [
    | inl self ↦ rw self v
    | inr other ↦ rw other (elim (Bool-cases (bit_and (s.task p).state 3 == 0)) [
      | inl awake ↦ rw awake v
      | inr asleep ↦ rw asleep (ttwu_do_wakeup-Safe c p 0 _ (activate_if-Safe c p s v))
    ])
  ]

  wake_worker-Safe : (c : ℕ) (w : Option ℕ) (s : State) → Safe c s → Safe c (wake_worker k w s)
  wake_worker-Safe c none s v = v
  wake_worker-Safe c (some w) s v = try_to_wake_up_local-Safe c w s v

  deactivate_task-Safe :
      (s : State)
      → Live s
      → let p = s.rq.curr in
        let t = deactivate_task k p 1 s in
        Safe p (set_task p (record (t.task p) { on_rq = false }) t)
  unfolding deactivate_task
  deactivate_task-Safe s v =
      let p = s.rq.curr in
      let b = task_contributes_to_load (s.task p) in
      let f = count-Steady (add32 s.rq.nr_uninterruptible 1) b s in
      let g = count-Kept (add32 s.rq.nr_uninterruptible 1) b s in
      let g' = Kept-trans g (dequeue_task-Kept k laws p 1 _) in
      record {
        sound = unmarked-Sound k l laws p _ (
            dequeue-Off k l laws p 1 _ (Quiet-Sound f g v.sound)
              (λ w. ground (arith, g.fields_kept p, v.running)));
        idle_own = ground (arith, Kept-idle g' v.idle_own);
        at = g'.curr_kept;
      }

  fall_asleep-Safe : (s : State) → Live s → Safe s.rq.curr (fall_asleep k s.rq.curr s)
  unfolding fall_asleep
  fall_asleep-Safe s v = elim (Bool-cases (s.task s.rq.curr).wq_worker) [
    | inl worker ↦ rw worker (wake_worker-Safe s.rq.curr _ _ (deactivate_task-Safe s v))
    | inr plain ↦ rw plain (deactivate_task-Safe s v)
  ]

  Live-Safe : (s : State) → Live s → Safe s.rq.curr s
  Live-Safe s v = record { sound = v.sound; idle_own = v.idle_own; at = refl }

  pub leave-Safe :
      (preempted : Bool) (s : State) → Live s → Safe s.rq.curr (leave k s.rq.curr preempted s)
  unfolding leave
  leave-Safe preempted s v =
      let p = s.rq.curr in
      elim (Bool-cases ((s.task p).state == 0 || preempted)) [
        | inl stays ↦ rw stays (Live-Safe s v)
        | inr goes ↦ rw goes (elim (Bool-cases (k.signal_pending_state p s)) [
          | inl signal ↦
              rw signal
                (write-Safe p (record (s.task p) { state = 0 }) s refl refl refl (Live-Safe s v))
          | inr quiet ↦ rw quiet (fall_asleep-Safe s v)
        ])
      ]

  pub put_prev_task-Safe : (c p : ℕ) (s : State) → Safe c s → Safe c (put_prev_task k p s)
  unfolding put_prev_task
  put_prev_task-Safe c p s v =
      let put = λ (t : State) (h : Safe c t).
        Quiet-Safe (class_put_prev-Steady k l laws (t.task p).sched_class p t)
          (class_put_prev-Kept k laws (t.task p).sched_class p t) h in
      elim (Bool-cases ((s.task p).on_rq || ltb_ℤ s.rq.skip_clock_update (pos 0))) [
        | inl tick ↦ rw tick (
            put (update_rq_clock k s)
              (Quiet-Safe (update_rq_clock-Steady k l s) (update_rq_clock-Kept k s) v))
        | inr still ↦ rw still (put s v)
      ]
