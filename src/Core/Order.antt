-- ===== src/Core/Order.antt =====
-- The place of WRR among the classes in pick_next_task of core.c.
use cs356_project.Prelude.{
  ℕ, ◌≡◌, ◌<◌, refl, ◌∙◌, false, ◌==◌, List, [], ◌∷◌, Option, some, none, ap, length,
}
use cs356_project.Kernel.Types.{
  SchedClass, stop_class, rt_class, wrr_class, fair_class, idle_class, State, Outcome, done, WrrRq,
}
use cs356_project.Kernel.External.{Kernel, ClassLaws, ListLaws}
use cs356_project.Wrr.Class.{pick_next_task_wrr}
use cs356_project.Wrr.Invariant.{Inv}
use cs356_project.Wrr.Invariant.Steady.{Steady-trans, Steady-Inv, Frame-Steady}
use cs356_project.Wrr.Behaviour.Pick.{choice, pick_next_task_wrr_lem}
use cs356_project.Core.Switch.{class_pick, pick_from, pick_next_task}

module _ (k : Kernel) where
  -- What the stop class and the real-time class leave when they have no task.
  abbrev pub above_asked : State → State
  above_asked s = (k.class_pick_next rt_class (k.class_pick_next stop_class s).1).1

  -- WRR's choice, or else that of the classes below it.
  abbrev pub wrr_or_below : Option ℕ × State → Outcome (Option ℕ × State)
  wrr_or_below (some p, s) = done (some p, s)
  wrr_or_below (none, s) = pick_from k (fair_class ∷ idle_class ∷ []) s

  pub pass_over :
      (c : SchedClass) (cs : List SchedClass) (s : State) (r : Option ℕ × State)
      → class_pick k c s ≡ done r
      → r.0 ≡ none
      → pick_from k (c ∷ cs) s ≡ pick_from k cs r.1
  unfolding pick_from
  pass_over c cs s r h n = rw (pick_from, h, n) refl

  pub found_in :
      (c : SchedClass) (cs : List SchedClass) (s : State) (p : ℕ) (t : State)
      → class_pick k c s ≡ done (some p, t)
      → pick_from k (c ∷ cs) s ≡ done (some p, t)
  unfolding pick_from
  found_in c cs s p t h = rw (pick_from, h) refl

  pub pick_wrr : (s : State) → class_pick k wrr_class s ≡ pick_next_task_wrr k s
  unfolding class_pick
  pick_wrr s = refl

  from_wrr :
      (s : State) (r : Option ℕ × State)
      → pick_next_task_wrr k s ≡ done r
      → pick_from k (wrr_class ∷ fair_class ∷ idle_class ∷ []) s ≡ wrr_or_below r
  from_wrr s (some p, t) h =
      found_in wrr_class (fair_class ∷ idle_class ∷ []) s p t (pick_wrr s ∙ h)
  from_wrr s (none, t) h =
      pass_over wrr_class (fair_class ∷ idle_class ∷ []) s (none, t) (pick_wrr s ∙ h) refl

  pub pick_stop : (s : State) → class_pick k stop_class s ≡ done (k.class_pick_next stop_class s)
  unfolding class_pick
  pick_stop s = refl

  pub pick_rt : (s : State) → class_pick k rt_class s ≡ done (k.class_pick_next rt_class s)
  unfolding class_pick
  pick_rt s = refl

module _ (k : Kernel) (l : ListLaws k.lists) (laws : ClassLaws k) where
  -- Let the run queue be well formed and within the range of its counter, let not all runnable
  -- tasks be fair ones, and let the stop class and the real-time class have no task. Then the first
  -- task of WRR's queue is chosen before any fair task; if the queue is empty or WRR is throttled,
  -- the fair class is asked and then the idle class.
  pub pick_next_task-wrr :
      (s : State)
      → Inv s
      → length s.rq.wrr.active < 4294967296
      → (s.rq.nr_running == k.cfs_h_nr_running s.rq.others) ≡ false
      → (k.class_pick_next stop_class s).0 ≡ none
      → (k.class_pick_next rt_class (k.class_pick_next stop_class s).1).0 ≡ none
      → pick_next_task k s ≡ wrr_or_below k (choice k (above_asked k s) s.rq.wrr.active)
  unfolding pick_next_task
  pick_next_task-wrr s v h mixed no_stop no_rt =
      let f =
        Steady-trans (Frame-Steady (laws.pick_Frame stop_class s))
          (Frame-Steady (laws.pick_Frame rt_class (k.class_pick_next stop_class s).1)) in
      let a = ap (λ (w : WrrRq). w.active) f.wrr_kept in
      let run = pick_next_task_wrr_lem k l (above_asked k s) (Steady-Inv f v) (rw a h) in
      let stop =
        pass_over k stop_class (rt_class ∷ wrr_class ∷ fair_class ∷ idle_class ∷ []) s _
          (pick_stop k s) no_stop in
      let rt =
        pass_over k rt_class (wrr_class ∷ fair_class ∷ idle_class ∷ []) _ _ (pick_rt k _) no_rt in
      rw mixed
        (stop ∙ rt ∙ from_wrr k _ _ run ∙ ap (λ q. wrr_or_below k (choice k (above_asked k s) q)) a)
