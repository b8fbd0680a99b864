-- ===== src/Core/Rounds/Timer.antt =====
-- The timer's interrupt (core.c, scheduler_tick, and __schedule behind it) does what the abstract
-- line of turns does, for as many interrupts as there are.
use cs356_project.Prelude.{
  ℕ, zero, suc, ◌≡◌, ◌<◌, refl, arith, ◌∙◌, sym, ap, subst, true, List, [], ◌∷◌, ◌++◌, elem, length,
  Distinct, map, ◌==◌, ==_refl, if◌then◌else◌, Bool-cases, inl, inr,
}
use native.Mathlib.Nat.{le_refl}
use cs356_project.Kernel.Types.{
  SchedClass, wrr_class, same_class, State, Task, Outcome, bug, done, finished, WrrRq, WrrEntity,
}
use cs356_project.Kernel.External.{Kernel, ListLaws, ClassLaws, IdleLaw}
use cs356_project.Loads.Cpu.{update_cpu_load_active}
use cs356_project.Wrr.Class.{task_tick_wrr}
use cs356_project.Wrr.RoundRobin.Turns.{
  Turn, spend, spend_for, slices, AllReady, renewed, spend_for-slices,
}
use cs356_project.Wrr.RoundRobin.View.{Still, view, line, line-append, Still-view}
use cs356_project.Wrr.RoundRobin.Refines.{task_tick_wrr-spend}
use cs356_project.Wrr.RoundRobin.Ticks.{HeadReady, FrontReady, front-ready}
use cs356_project.Wrr.RoundRobin.GivesWay.{GivesWay, GivesWay-after, task_tick_wrr-GivesWay}
use cs356_project.Core.Classes.{update_rq_clock}
use cs356_project.Core.Policy.Weights.{update_rq_clock-Still}
use cs356_project.Core.Frames.{update_rq_clock-Kept}
use cs356_project.Core.Sound.{is_wrr, queued}
use cs356_project.Core.Switch.{class_tick, scheduler_tick, schedule_pass}
use cs356_project.Core.Live.State.{Live}
use cs356_project.Core.Live.Ticks.{scheduler_tick-Live}
use cs356_project.Core.Live.Switches.{schedule_pass-Live}
use cs356_project.Core.Rounds.Pass.{OnlyWrr, Calm, schedule_pass-front}

abbrev then_run : Outcome State → (State → Outcome State) → Outcome State
then_run bug f = bug
then_run (done t) f = f t

module _ (k : Kernel) where
  -- Behind the interrupt: a pass of the scheduler if the running task was asked to give way.
  abbrev pub behind : State → Outcome State
  behind t = if (t.task t.rq.curr).need_resched then schedule_pass k true t else done t

  -- One interrupt, with the tick in it.
  unfoldable pub timer : State → Outcome State
  timer s = then_run (scheduler_tick k s) behind

  unfoldable pub timers : ℕ → State → Outcome State
  timers zero s = done s
  timers (suc n) s = then_run (timer s) (timers n)

-- The invariant of the main loop, and the front task of WRR's queue, which is not too long for its
-- counter, runs.
pub record FrontRuns (s : State) : Type 0 where
  pub live : Live s
  pub behind_it : List ℕ
  pub front : s.rq.wrr.active ≡ s.rq.curr ∷ behind_it
  pub few : length s.rq.wrr.active < 4294967296

abbrev tasks : List Turn → List ℕ
tasks = map λ (x : Turn). x.task

tasks-line : (k : Kernel) (m : ℕ → Task) (q : List ℕ) → tasks (line k m q) ≡ q
tasks-line k m [] = refl
tasks-line k m (p ∷ q) = ap (◌∷◌ p) (tasks-line k m q)

tasks-renewed :
    (k : Kernel) (m : ℕ → Task) (q r : List ℕ)
    → tasks (line k m q ++ map renewed (line k m r)) ≡ q ++ r
tasks-renewed k m [] [] = refl
tasks-renewed k m [] (x ∷ r) = ap (◌∷◌ x) (tasks-renewed k m [] r)
tasks-renewed k m (x ∷ q) r = ap (◌∷◌ x) (tasks-renewed k m q r)

length_last : (q : List Turn) (x : Turn) → length (tasks (q ++ x ∷ [])) ≡ suc (length (tasks q))
length_last [] x = refl
length_last (y ∷ q) x = ap suc (length_last q x)

length-spend : (q : List Turn) → length (tasks (spend q)) ≡ length (tasks q)
unfolding spend
length-spend [] = refl
length-spend (x ∷ q) = elim (Bool-cases (x.slice == 1)) [
  | inl last ↦ rw last (length_last q (renewed x))
  | inr more ↦ rw more refl
]

-- A tick changes the length of the queue no more than the line's.
same_length :
    (k : Kernel) (s t : State)
    → view k t ≡ spend (view k s)
    → length t.rq.wrr.active ≡ length s.rq.wrr.active
same_length k s t seen =
    ap length (sym (tasks-line k t.task t.rq.wrr.active))
    ∙ ap (λ v. length (tasks v)) seen
    ∙ length-spend (view k s)
    ∙ ap length (tasks-line k s.task s.rq.wrr.active)

module _ (k : Kernel) (l : ListLaws k.lists) (laws : ClassLaws k) (idle : IdleLaw k)
    (only : OnlyWrr k) where
  wrr_tick :
      (c : SchedClass) (p : ℕ) (s : State)
      → same_class c wrr_class ≡ true
      → class_tick k c p s ≡ task_tick_wrr k p s
  unfolding class_tick
  wrr_tick wrr_class p s h = refl
  wrr_tick c p s h = ground (arith, h)

  clocks-Calm : (s : State) → Calm s (update_cpu_load_active k (update_rq_clock k s))
  unfolding update_cpu_load_active
  clocks-Calm s =
      let f = update_rq_clock-Still k l s in
      record {
        still = record { wrr_kept = f.wrr_kept; entity_kept = f.entity_kept };
        curr_kept = (update_rq_clock-Kept k s).curr_kept;
      }

  clocks-class :
      (p : ℕ) (s : State)
      → is_wrr ((update_cpu_load_active k (update_rq_clock k s)).task p) ≡ is_wrr (s.task p)
  unfolding update_cpu_load_active
  clocks-class p s = ground (arith, (update_rq_clock-Kept k s).fields_kept p)

  front_class : (s : State) → FrontRuns s → is_wrr (s.task s.rq.curr) ≡ true
  front_class s v =
      let there : queued s.rq.curr s ≡ true =
        subst (λ a. elem s.rq.curr a ≡ true) (sym v.front) (ground (arith, ==_refl s.rq.curr)) in
      ground (arith, v.live.sound.linked s.rq.curr, there)

  tick_front :
      (s : State) (v : FrontRuns s)
      → 0 < (s.task s.rq.curr).wrr.time_slice
      → (t : State) × (scheduler_tick k s ≡ done t)
        × Live t
        × (view k t ≡ spend (view k s))
        × GivesWay s.rq.curr s t
  unfolding scheduler_tick
  tick_front s v ready =
      let p = s.rq.curr in
      let s' = update_cpu_load_active k (update_rq_clock k s) in
      let f = clocks-Calm s in
      let e' = ap (λ (w : WrrRq). w.active) f.still.wrr_kept ∙ v.front in
      let d =
        subst Distinct (sym (ap (λ (w : WrrRq). w.active) f.still.wrr_kept))
          v.live.sound.inv.distinct in
      let ready' : 0 < (s'.task p).wrr.time_slice =
        subst (λ (e : WrrEntity). 0 < e.time_slice) (sym (f.still.entity_kept p)) ready in
      let (t, run, seen) = task_tick_wrr-spend k l s' p v.behind_it e' d ready' in
      let ran : scheduler_tick k s ≡ done t =
        wrr_tick (s'.task p).sched_class p s' (clocks-class p s ∙ front_class s v) ∙ run in
      let (t', run', live) = scheduler_tick-Live k l laws s (λ _. ready) v.live in
      (
        t,
        ran,
        subst Live (finished (sym run' ∙ ran)) live,
        seen ∙ ap spend (Still-view k f.still),
        GivesWay-after f.curr_kept f.still.wrr_kept (task_tick_wrr-GivesWay k p s' t ready' run),
      )

  -- Behind a tick the front task runs, by a pass of the scheduler if need be.
  behind-FrontRuns :
      (s t : State) (v : FrontRuns s)
      → Live t
      → GivesWay s.rq.curr s t
      → (a : List ℕ) → t.rq.wrr.active ≡ a
      → length a ≡ length s.rq.wrr.active
      → (u : State) × (behind k t ≡ done u) × FrontRuns u × Still t u
  behind-FrontRuns s t v live g [] e same = absurd (ground (arith, same, ap length v.front))
  behind-FrontRuns s t v live g (p ∷ q) e same =
      let few : length (p ∷ q) < 4294967296 = omega (arith, same, v.few) in
      elim (Bool-cases (t.task t.rq.curr).need_resched) [
        | inl asked ↦
            let (u, run, f, front) = schedule_pass-front k l laws only p q t e live.sound.inv few in
            let (u', run', live') = schedule_pass-Live k l laws idle true t live in
            let e' = ap (λ (w : WrrRq). w.active) f.wrr_kept ∙ e in
            (
              u,
              rw asked run,
              record {
                live = subst Live (finished (sym run' ∙ run)) live';
                behind_it = q;
                front = e' ∙ ap (λ c. c ∷ q) (sym front);
                few = subst (λ b. length b < 4294967296) (sym e') few;
              },
              f,
            )
        | inr stays ↦
            let kept : t.rq.wrr.active ≡ s.rq.wrr.active =
              elim g.asked as (λ _. t.rq.wrr.active ≡ s.rq.wrr.active) [
                | inl h ↦
                    absurd (
                      ground
                        (arith, sym (ap (λ c. (t.task c).need_resched) g.curr_kept) ∙ stays, h))
                | inr h ↦ h
              ] in
            (
              t,
              rw stays refl,
              record {
                live = live;
                behind_it = v.behind_it;
                front = kept ∙ v.front ∙ ap (λ c. c ∷ v.behind_it) (sym g.curr_kept);
                few = subst (λ b. length b < 4294967296) (sym e) few;
              },
              record { wrr_kept = refl; entity_kept = λ r. refl },
            )
      ]

  timer-spend :
      (s : State)
      → FrontRuns s
      → HeadReady (view k s)
      → (u : State) × (timer k s ≡ done u) × FrontRuns u × (view k u ≡ spend (view k s))
  unfolding timer
  timer-spend s v h =
      let ready = subst (λ a. HeadReady (line k s.task a)) v.front h in
      let (t, run, live, seen, g) = tick_front s v ready in
      let (u, run', v', f) =
        behind-FrontRuns s t v live g t.rq.wrr.active refl (same_length k s t seen) in
      (u, ap (λ o. then_run o (behind k)) run ∙ run', v', Still-view k f ∙ seen)

  timers-spend_for :
      (n : ℕ) (s : State)
      → FrontRuns s
      → FrontReady n (view k s)
      → (t : State) × (timers k n s ≡ done t) × FrontRuns t × (view k t ≡ spend_for n (view k s))
  unfolding timers
  timers-spend_for zero s v h = (s, refl, v, refl)
  timers-spend_for (suc n) s v h =
      let (t, run, v', seen) = timer-spend s v h.0 in
      let (u, run', v'', seen') = timers-spend_for n t v' (subst (FrontReady n) (sym seen) h.1) in
      (u, ap (λ o. then_run o (timers k n)) run ∙ run', v'', seen' ∙ ap (spend_for n) seen)

  -- Under the laws of the lists, the other classes and the idle class, let the invariant of the
  -- main loop hold, let the stop, real-time and fair classes have no task and the clock not
  -- throttle WRR, let fewer than 2 ^ 32 tasks be queued and the front one run, and let each task
  -- of the queue's first part have slice left. Then after exactly the sum of those slices in
  -- interrupts of the timer, each a tick of the task that runs then and, if it is asked to give
  -- way, a pass of the scheduler, all of which the kernel survives, every task of the first part
  -- has run out its slice and waits in the old order behind the second part with a full slice, the
  -- second part is in front as it was, and the task that runs is the front one.
  pub timers-turn :
      (s : State) (q r : List ℕ)
      → FrontRuns s
      → s.rq.wrr.active ≡ q ++ r
      → AllReady (line k s.task q)
      → (t : State) × (timers k (slices (line k s.task q)) s ≡ done t)
        × (t.rq.wrr.active ≡ r ++ q)
        × (view k t ≡ line k s.task r ++ map renewed (line k s.task q))
        × FrontRuns t
  timers-turn s q r v e h =
      let a = line k s.task q in
      let b = line k s.task r in
      let split : view k s ≡ a ++ b = ap (line k s.task) e ∙ line-append k s.task q r in
      let ready =
        subst (FrontReady (slices a)) (sym split)
          (front-ready (slices a) a b h (le_refl (slices a))) in
      let (t, run, v', seen) = timers-spend_for (slices a) s v ready in
      let seen' = seen ∙ ap (spend_for (slices a)) split ∙ spend_for-slices a b h in
      (
        t,
        run,
        sym (tasks-line k t.task t.rq.wrr.active) ∙ ap tasks seen' ∙ tasks-renewed k s.task r q,
        seen',
        v',
      )
