-- ===== src/Core/Rounds/Pass.antt =====
-- A pass of the scheduler (core.c, __schedule) makes the front task of WRR's queue the running one.
use cs356_project.Prelude.{
  ℕ, ◌+◌, ◌≡◌, ◌<◌, refl, arith, ◌∙◌, sym, ap, subst, Bool, true, false, not, ◌&&◌, ◌||◌, List, [],
  ◌∷◌, Option, some, none, pos, ltb_ℤ, add64, leb, length, ◌%◌, ◌==◌, if◌then◌else◌, Bool-cases,
  inl, inr,
}
use cs356_project.Kernel.Types.{
  SchedClass, stop_class, rt_class, wrr_class, fair_class, idle_class, State, Outcome, bug, done,
  WrrRq, WrrEntity, Rq, set_task, set_rq, set_stats,
}
use cs356_project.Kernel.External.{Kernel, ListLaws, ClassLaws}
use cs356_project.Wrr.Class.{pick_next_task_wrr}
use cs356_project.Wrr.Invariant.{Inv}
use cs356_project.Wrr.Invariant.Steady.{Steady-trans, Steady-Inv, Frame-Steady}
use cs356_project.Wrr.Behaviour.Pick.{choice, pick_next_task_wrr_lem}
use cs356_project.Wrr.RoundRobin.View.{Still, Still-trans, write-Still}
use cs356_project.Core.Classes.{class_order, update_rq_clock}
use cs356_project.Core.Policy.Weights.{Frame-Still, update_rq_clock-Still}
use cs356_project.Core.Ready.Calls.{class_put_prev-Still}
use cs356_project.Core.Frames.{update_rq_clock-Kept, class_put_prev-Kept}
use cs356_project.Core.Order.{pass_over, found_in, pick_stop, pick_rt, pick_wrr}
use cs356_project.Core.Switch.{
  pick_from, pick_after_fair, pick_next_task, put_prev_task, leave, count_switch, switch_to,
  schedule_pass,
}

-- No task of the stop class, of the real-time class or of the fair class is runnable, and the clock
-- never throttles WRR.
pub record OnlyWrr (k : Kernel) : Type 0 where
  pub no_stop : (s : State) → (k.class_pick_next stop_class s).0 ≡ none
  pub no_rt : (s : State) → (k.class_pick_next rt_class s).0 ≡ none
  pub no_fair : (s : State) → (k.class_pick_next fair_class s).0 ≡ none
  pub free : (n : ℕ) → leb (k.tv_nsec n % 100) 71 ≡ false

-- The queue, WRR's entities and the running task stay.
pub record Calm (s t : State) : Type 0 where
  pub still : Still s t
  pub curr_kept : t.rq.curr ≡ s.rq.curr

Calm-trans : {s t u : State} → Calm s t → Calm t u → Calm s u
Calm-trans f g = record {
  still = Still-trans f.still g.still;
  curr_kept = g.curr_kept ∙ f.curr_kept;
}

if-Calm : (b : Bool) {s t u : State} → Calm s t → Calm s u → Calm s (if b then t else u)
if-Calm true f g = f
if-Calm false f g = g

Calm-refl : (s : State) → Calm s s
Calm-refl s = record {
  still = record { wrr_kept = refl; entity_kept = λ p. refl };
  curr_kept = refl;
}

pub Still-Inv : {s t : State} → Still s t → Inv s → Inv t
Still-Inv f v =
    Steady-Inv
      (record {
        wrr_kept = f.wrr_kept;
        weight_kept = λ p. ap (λ (e : WrrEntity). e.weight) (f.entity_kept p);
      })
      v

set_rq-Still : (r : Rq) (s t : State) → r.wrr ≡ s.rq.wrr → Still s t → Still s (set_rq r t)
set_rq-Still r s t w f = record { wrr_kept = w; entity_kept = f.entity_kept }

count_switch-Calm : (k : Kernel) (p : ℕ) (b : Bool) (s : State) → Calm s (count_switch k p b s)
count_switch-Calm k p true s = record { still = write-Still p _ s refl; curr_kept = refl }
count_switch-Calm k p false s = record { still = write-Still p _ s refl; curr_kept = refl }

module _ (k : Kernel) (l : ListLaws k.lists) (laws : ClassLaws k) where
  pick-Calm : (c : SchedClass) (s : State) → Calm s (k.class_pick_next c s).1
  pick-Calm c s = record {
    still = Frame-Still (laws.pick_Frame c s);
    curr_kept = (laws.pick_Frame c s).curr_kept;
  }

  put_prev_task-Calm : (p : ℕ) (s : State) → Calm s (put_prev_task k p s)
  unfolding put_prev_task
  put_prev_task-Calm p s =
      let clock : Calm s (update_rq_clock k s) = record {
        still = update_rq_clock-Still k l s;
        curr_kept = (update_rq_clock-Kept k s).curr_kept;
      } in
      let f =
        if-Calm ((s.task p).on_rq || ltb_ℤ s.rq.skip_clock_update (pos 0)) clock (Calm-refl s) in
      Calm-trans f (record {
        still = class_put_prev-Still k l laws _ p _;
        curr_kept = (class_put_prev-Kept k laws _ p _).curr_kept;
      })

  module _ (only : OnlyWrr k) where
    -- The front task is picked.
    abbrev Front : Outcome (Option ℕ × State) → State → ℕ → Type 0
    Front o s p = (t : State) × (o ≡ done (some p, t)) × Calm s t

    wrr-Front :
        (p : ℕ) (q : List ℕ) (s : State)
        → s.rq.wrr.active ≡ p ∷ q
        → Inv s
        → length (p ∷ q) < 4294967296
        → Front (pick_next_task_wrr k s) s p
    wrr-Front p q s e v few =
        let few' : length s.rq.wrr.active < 4294967296 =
          subst (λ a. length a < 4294967296) (sym e) few in
        let s' = record s { readings = s.readings + 1 } in
        (
          set_stats p (record (s.task p).se { exec_start = s.rq.clock_task }) s',
          pick_next_task_wrr_lem k l s v few'
              ∙ ap (λ a. done (choice k s a)) e
              ∙ ap
                  (λ (b : Bool). done (
                    if b then (none, s') else (
                      some p,
                      set_stats p (record (s.task p).se { exec_start = s.rq.clock_task }) s',
                    )))
                  (only.free s.readings),
          record {
            still = record { wrr_kept = refl; entity_kept = λ r. ground arith };
            curr_kept = refl;
          },
        )

    pick_from-Front :
        (p : ℕ) (q : List ℕ) (s : State)
        → s.rq.wrr.active ≡ p ∷ q
        → Inv s
        → length (p ∷ q) < 4294967296
        → Front (pick_from k class_order s) s p
    pick_from-Front p q s e v few =
        let s1 = (k.class_pick_next stop_class s).1 in
        let s2 = (k.class_pick_next rt_class s1).1 in
        let f = Calm-trans (pick-Calm stop_class s) (pick-Calm rt_class s1) in
        let g =
          Steady-trans (Frame-Steady (laws.pick_Frame stop_class s))
            (Frame-Steady (laws.pick_Frame rt_class s1)) in
        let (t, run, h) =
          wrr-Front p q s2 (ap (λ (w : WrrRq). w.active) f.still.wrr_kept ∙ e) (Steady-Inv g v)
            few in
        (
          t,
          pass_over k stop_class (rt_class ∷ wrr_class ∷ fair_class ∷ idle_class ∷ []) s _
                (pick_stop k s) (only.no_stop s)
              ∙ pass_over k rt_class (wrr_class ∷ fair_class ∷ idle_class ∷ []) s1 _ (pick_rt k s1)
                  (only.no_rt s1)
              ∙ found_in k wrr_class (fair_class ∷ idle_class ∷ []) s2 p t (pick_wrr k s2 ∙ run),
          Calm-trans f h,
        )

    pick_next_task-Front :
        (p : ℕ) (q : List ℕ) (s : State)
        → s.rq.wrr.active ≡ p ∷ q
        → Inv s
        → length (p ∷ q) < 4294967296
        → Front (pick_next_task k s) s p
    unfolding pick_next_task pick_after_fair
    pick_next_task-Front p q s e v few =
        let r = k.class_pick_next fair_class s in
        let f = pick-Calm fair_class s in
        let (t, run, g) = pick_from-Front p q s e v few in
        let (t', run', g') =
          pick_from-Front p q r.1 (ap (λ (w : WrrRq). w.active) f.still.wrr_kept ∙ e)
            (Steady-Inv (Frame-Steady (laws.pick_Frame fair_class s)) v) few in
        elim (Bool-cases (s.rq.nr_running == k.cfs_h_nr_running s.rq.others)) [
          | inl short ↦ (
            t',
            rw short (ap (λ o. pick_after_fair k (o, r.1)) (only.no_fair s) ∙ run'),
            Calm-trans f g',
          )
          | inr long ↦ (t, rw long run, g)
        ]

    leave-preempted : (p : ℕ) (s : State) → leave k p true s ≡ s
    unfolding leave
    leave-preempted p s = ground arith

    switch_to-front :
        (prev next : ℕ) (b : Bool) (s : State)
        → s.rq.curr ≡ prev
        → (t : State) × (switch_to k prev b (some next, s) ≡ done t)
          × Still s t
          × (t.rq.curr ≡ next)
    unfolding switch_to
    switch_to-front prev next b s h =
        let s1 = set_task prev (record (s.task prev) { need_resched = false }) s in
        let s2 = set_rq (record s1.rq { skip_clock_update = pos 0 }) s1 in
        let s3 =
          set_rq (record s2.rq { nr_switches = add64 s2.rq.nr_switches 1; curr = next }) s2 in
        let cleared : Still s s1 =
          write-Still prev (record (s.task prev) { need_resched = false }) s refl in
        let with_rq = λ (r : Rq) (w : r.wrr ≡ s.rq.wrr). set_rq-Still r s s1 w cleared in
        elim (Bool-cases (prev == next)) [
          | inl same ↦
              let here : prev ≡ next = ground (arith, same) in
              (s2, rw same refl, with_rq s2.rq refl, h ∙ here)
          | inr other ↦ (
            count_switch k prev b s3,
            rw other refl,
            Still-trans (with_rq s3.rq refl) (count_switch-Calm k prev b s3).still,
            (count_switch-Calm k prev b s3).curr_kept,
          )
        ]

    -- A pass after the running task was preempted.
    pub schedule_pass-front :
        (p : ℕ) (q : List ℕ) (s : State)
        → s.rq.wrr.active ≡ p ∷ q
        → Inv s
        → length (p ∷ q) < 4294967296
        → (t : State) × (schedule_pass k true s ≡ done t) × Still s t × (t.rq.curr ≡ p)
    unfolding schedule_pass
    schedule_pass-front p q s e v few =
        let prev = s.rq.curr in
        let s0 = leave k prev true s in
        let kept = leave-preempted prev s in
        let f : Calm s (put_prev_task k prev s0) =
          subst (λ z. Calm z (put_prev_task k prev s0)) kept (put_prev_task-Calm prev s0) in
        let s1 = put_prev_task k prev s0 in
        let b = not ((s.task prev).state == 0) && not true in
        let v1 : Inv s1 = Still-Inv f.still v in
        let (t, run, g) =
          pick_next_task-Front p q s1 (ap (λ (w : WrrRq). w.active) f.still.wrr_kept ∙ e) v1 few in
        let (u, run', h, front) = switch_to-front prev p b t (g.curr_kept ∙ f.curr_kept) in
        let ran : schedule_pass k true s ≡ switch_to k prev b (some p, t) =
          ap
            (λ (o : Outcome (Option ℕ × State)). elim o as (λ _. Outcome State) [
              | bug ↦ bug
              | done r ↦ switch_to k prev b r
            ])
            run in
        (u, ran ∙ run', Still-trans (Still-trans f.still g.still) h, front)
