-- ===== src/Core/Live/Wakes.antt =====
-- Wake-ups of core.c keep the invariant.
use cs356_project.Prelude.{
  ℕ, ◌≡◌, refl, arith, Bool, true, false, not, ◌==◌, if◌then◌else◌, Bool-cases, inl, inr,
}
use Prim.Native.Nat.{bit_and}
use cs356_project.Kernel.Types.{State, set_task, set_rq}
use cs356_project.Kernel.External.{Kernel, ClassLaws, ListLaws}
use cs356_project.Wrr.Invariant.Steady.{Steady}
use cs356_project.Core.Classes.{activate_task, task_contributes_to_load}
use cs356_project.Core.Wake.{
  ttwu_activate, ttwu_do_wakeup, ttwu_do_activate, ttwu_remote, ttwu_queue, try_to_wake_up,
  try_to_wake_up_local,
}
use cs356_project.Core.Frames.{Kept, Kept-trans, enqueue_task-Kept}
use cs356_project.Core.Sound.{Sound, is_wrr}
use cs356_project.Core.Off.{Off, asleep-Off, Quiet-Off, enqueue_marked-Sound}
use cs356_project.Core.Live.State.{
  Live, Kept-running, Kept-idle, Quiet-Live, write-Live, check_preempt_curr-Steady,
  check_preempt_curr-Kept,
}

-- What activate_task and deactivate_task do to the count of uninterruptible tasks.
pub count-Steady :
    (n : ℕ) (b : Bool) (s : State)
    → Steady s (if b then set_rq (record s.rq { nr_uninterruptible = n }) s else s)
count-Steady n true s = record { wrr_kept = refl; weight_kept = λ q. refl }
count-Steady n false s = record { wrr_kept = refl; weight_kept = λ q. refl }

pub count-Kept :
    (n : ℕ) (b : Bool) (s : State)
    → Kept s (if b then set_rq (record s.rq { nr_uninterruptible = n }) s else s)
count-Kept n true s = record { curr_kept = refl; idle_kept = refl; fields_kept = λ q. refl }
count-Kept n false s = record { curr_kept = refl; idle_kept = refl; fields_kept = λ q. refl }

module _ (k : Kernel) (l : ListLaws k.lists) (laws : ClassLaws k) where
  pub activate_task-Kept : (p flags : ℕ) (s : State) → Kept s (activate_task k p flags s)
  unfolding activate_task
  activate_task-Kept p flags s =
      Kept-trans (count-Kept _ (task_contributes_to_load (s.task p)) s)
        (enqueue_task-Kept k laws p flags _)

  pub activate_marked-Sound :
      (p flags : ℕ) (s : State)
      → Off p s
      → Sound (
          set_task p
            (record ((activate_task k p flags s).task p) { on_rq = true })
            (activate_task k p flags s))
  unfolding activate_task
  activate_marked-Sound p flags s v =
      let b = task_contributes_to_load (s.task p) in
      enqueue_marked-Sound k l laws p flags _
        (Quiet-Off k l laws (count-Steady _ b s) (count-Kept _ b s) v)

  -- A sleeping task goes on the queue and is marked.
  pub marked-running :
      (p flags : ℕ) (s : State)
      → (is_wrr (s.task s.rq.curr) ≡ true → (s.task s.rq.curr).on_rq ≡ true)
      → let t =
          set_task p
            (record ((activate_task k p flags s).task p) { on_rq = true })
            (activate_task k p flags s) in
        is_wrr (t.task t.rq.curr) ≡ true → (t.task t.rq.curr).on_rq ≡ true
  marked-running p flags s r =
      let g = Kept-running (activate_task-Kept p flags s) r in λ w. ground (arith, g)

  pub marked-idle :
      (p flags : ℕ) (s : State)
      → is_wrr (s.task s.rq.idle) ≡ false
      → let t =
          set_task p
            (record ((activate_task k p flags s).task p) { on_rq = true })
            (activate_task k p flags s) in
        is_wrr (t.task t.rq.idle) ≡ false
  marked-idle p flags s r = let g = Kept-idle (activate_task-Kept p flags s) r in ground (arith, g)

  pub ttwu_activate-Live :
      (p flags : ℕ) (s : State)
      → (s.task p).on_rq ≡ false
      → Live s
      → Live (ttwu_activate k p flags s)
  unfolding ttwu_activate
  ttwu_activate-Live p flags s off v = record {
    sound = activate_marked-Sound p flags s (asleep-Off k l laws p s v.sound off);
    running = marked-running p flags s v.running;
    idle_own = marked-idle p flags s v.idle_own;
  }

  pub ttwu_do_wakeup-Live : (p flags : ℕ) (s : State) → Live s → Live (ttwu_do_wakeup k p flags s)
  unfolding ttwu_do_wakeup
  ttwu_do_wakeup-Live p flags s v = write-Live p _ _ refl refl refl (
      Quiet-Live (check_preempt_curr-Steady k laws p flags s)
        (check_preempt_curr-Kept k laws p flags s) v)

  ttwu_queue-Live :
      (p : ℕ) (s : State) → (s.task p).on_rq ≡ false → Live s → Live (ttwu_queue k p s)
  unfolding ttwu_queue ttwu_do_activate
  ttwu_queue-Live p s off v = ttwu_do_wakeup-Live p 0 _ (ttwu_activate-Live p 1 s off v)

  -- A wake-up with any mask keeps the invariant, of a task in any state.
  pub try_to_wake_up-Live :
      (p mask flags : ℕ) (s : State) → Live s → Live (try_to_wake_up k p mask flags s).0
  unfolding try_to_wake_up ttwu_remote
  try_to_wake_up-Live p mask flags s v = elim (Bool-cases (bit_and (s.task p).state mask == 0)) [
    | inl asleep ↦ rw asleep v
    | inr woken ↦ rw woken (elim (Bool-cases (s.task p).on_rq) [
      | inl on ↦ rw on (ttwu_do_wakeup-Live p flags s v)
      | inr off ↦ rw off (ttwu_queue-Live p s off v)
    ])
  ]

  activate_if-Live :
      (p : ℕ) (s : State)
      → Live s
      → Live (if not (s.task p).on_rq then ttwu_activate k p 1 s else s)
  activate_if-Live p s v = elim (Bool-cases (s.task p).on_rq) [
    | inl on ↦ rw on v
    | inr off ↦ rw off (ttwu_activate-Live p 1 s off v)
  ]

  -- A wake-up from inside the scheduler keeps the invariant, of a task in any state.
  pub try_to_wake_up_local-Live : (p : ℕ) (s : State) → Live s → Live (try_to_wake_up_local k p s)
  unfolding try_to_wake_up_local
  try_to_wake_up_local-Live p s v = elim (Bool-cases (p == s.rq.curr)) [
    | inl self ↦ rw self v
    | inr other ↦ rw other (elim (Bool-cases (bit_and (s.task p).state 3 == 0)) [
      | inl awake ↦ rw awake v
      | inr asleep ↦ rw asleep (ttwu_do_wakeup-Live p 0 _ (activate_if-Live p s v))
    ])
  ]
