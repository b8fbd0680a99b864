-- ===== src/Core/Live/Picks.antt =====
-- pick_next_task of core.c: every class is asked in turn, and the idle class always has a task.
use cs356_project.Prelude.{
  ℕ, ◌≡◌, refl, arith, ◌∙◌, true, false, ◌==◌, List, [], ◌∷◌, ◌++◌, Option, some, none, Bool-cases,
  inl, inr, ap, length, leb, ◌%◌, ◌+◌, u32, ==_refl,
}
use cs356_project.Kernel.Types.{
  SchedClass, stop_class, rt_class, wrr_class, fair_class, idle_class, State, Outcome, done,
  SchedEntity, set_stats,
}
use cs356_project.Kernel.External.{Kernel, ClassLaws, ListLaws, IdleLaw}
use cs356_project.Wrr.Weight.{wrr_throttled}
use cs356_project.Wrr.Class.{pick_next_task_wrr, start_task}
use cs356_project.Wrr.Invariant.Steady.{Steady, Steady-trans, Frame-Steady}
use cs356_project.Core.Frames.{Kept, Kept-trans, Frame-Kept}
use cs356_project.Core.Sound.{Sound, Quiet-Sound, is_wrr, queued}
use cs356_project.Core.Live.State.{Kept-idle}
use cs356_project.Core.Switch.{class_pick, pick_from, pick_after_fair, pick_next_task}

-- What the choice of a class leaves as it was; a WRR task that is chosen is on the queue.
pub record Picked (s : State) (r : Option ℕ × State) : Type 0 where
  pub steady : Steady s r.1
  pub kept : Kept s r.1
  pub runs : (p : ℕ) → r.0 ≡ some p → is_wrr (r.1.task p) ≡ true → (r.1.task p).on_rq ≡ true

Picked-after :
    {s t : State} {r : Option ℕ × State} → Steady s t → Kept s t → Picked t r → Picked s r
Picked-after f g v = record {
  steady = Steady-trans f v.steady;
  kept = Kept-trans g v.kept;
  runs = v.runs;
}

module _ (k : Kernel) (l : ListLaws k.lists) (laws : ClassLaws k) where
  pub class_pick-other : (c : SchedClass) (s : State) → Picked s (k.class_pick_next c s)
  class_pick-other c s = record {
    steady = Frame-Steady (laws.pick_Frame c s);
    kept = Frame-Kept (laws.pick_Frame c s);
    runs = λ p e w. ground (arith, laws.pick_own c s p e);
  }

  none-Picked : (n : ℕ) (s : State) → Picked s (none, record s { readings = n })
  none-Picked n s = record {
    steady = record { wrr_kept = refl; weight_kept = λ p. refl };
    kept = record { curr_kept = refl; idle_kept = refl; fields_kept = λ p. refl };
    runs = λ p e w. cc;
  }

  some-Picked :
      (n p : ℕ) (e : SchedEntity) (s : State)
      → (s.task p).on_rq ≡ true
      → Picked s (some p, set_stats p e (record s { readings = n }))
  some-Picked n p e s on = record {
    steady = record { wrr_kept = refl; weight_kept = λ q. ground arith };
    kept = record { curr_kept = refl; idle_kept = refl; fields_kept = λ q. ground arith };
    runs = λ q h w. ground (arith, on);
  }

  queued-on :
      (p : ℕ) (q : List ℕ) (s : State) → s.rq.wrr.active ≡ p ∷ q → Sound s → (s.task p).on_rq ≡ true
  queued-on p q s e v =
      let h : queued p s ≡ true = rw (e, ==_refl p) in ground (arith, v.linked p, h)

  wrr_pick :
      (s : State) (q : List ℕ)
      → s.rq.wrr.active ≡ q
      → Sound s
      → (r : Option ℕ × State) × (pick_next_task_wrr k s ≡ done r) × Picked s r
  unfolding pick_next_task_wrr start_task wrr_throttled
  wrr_pick s [] e v =
      let n : s.rq.wrr.wrr_nr_running ≡ 0 = v.inv.counted ∙ ap (λ a. u32 (length a)) e in
      ((none, s), rw n, none-Picked s.readings s)
  wrr_pick s (p ∷ q) e v =
      let f = ap k.list_first_entry e ∙ l.first_cons p q in
      elim (Bool-cases (s.rq.wrr.wrr_nr_running == 0)) [
        | inl empty ↦ ((none, s), rw empty, none-Picked s.readings s)
        | inr some_there ↦ elim (Bool-cases (leb (k.tv_nsec s.readings % 100) 71)) [
          | inl held ↦ (
            (none, record s { readings = s.readings + 1 }),
            rw (some_there, held),
            none-Picked (s.readings + 1) s,
          )
          | inr free ↦ (
            (
              some p,
              set_stats p (record (s.task p).se { exec_start = s.rq.clock_task })
                  (record s { readings = s.readings + 1 }),
            ),
            rw (some_there, free, f),
            some-Picked (s.readings + 1) p _ s (queued-on p q s e v),
          )
        ]
      ]

  class_pick-Picked :
      (c : SchedClass) (s : State)
      → Sound s
      → (r : Option ℕ × State) × (class_pick k c s ≡ done r) × Picked s r
  unfolding class_pick
  class_pick-Picked wrr_class s v = wrr_pick s s.rq.wrr.active refl v
  class_pick-Picked c s v = (k.class_pick_next c s, refl, class_pick-other c s)

  pick_idle : (s : State) → class_pick k idle_class s ≡ done (k.class_pick_next idle_class s)
  unfolding class_pick
  pick_idle s = refl

  -- A run of the search that finds a task.
  abbrev Finds : Outcome (Option ℕ × State) → State → Type 0
  Finds o s = (p : ℕ) × (t : State) × (o ≡ done (some p, t)) × Picked s (some p, t)

  go_on :
      (c : SchedClass) (cs : List SchedClass) (s : State)
      → Sound s
      → is_wrr (s.task s.rq.idle) ≡ false
      → ((t : State) → Sound t → is_wrr (t.task t.rq.idle) ≡ false → Finds (pick_from k cs t) t)
      → (o : Option ℕ) (t : State) → class_pick k c s ≡ done (o, t)
      → Picked s (o, t)
      → Finds (pick_from k (c ∷ cs) s) s
  unfolding pick_from
  go_on c cs s v i rest (some p) t run f = (p, t, rw (pick_from, run), f)
  go_on c cs s v i rest none t run f =
      let (p, u, run', f') = rest t (Quiet-Sound f.steady f.kept v) (Kept-idle f.kept i) in
      (p, u, rw (pick_from, run) run', Picked-after f.steady f.kept f')

  -- Behind any list of classes the idle class ends the search.
  pub pick_from-Picked :
      (idle : IdleLaw k) (cs : List SchedClass) (s : State)
      → Sound s
      → is_wrr (s.task s.rq.idle) ≡ false
      → Finds (pick_from k (cs ++ idle_class ∷ []) s) s
  unfolding pick_from
  pick_from-Picked idle [] s v i =
      let r = k.class_pick_next idle_class s in
      let f = class_pick-other idle_class s in
      let e = idle.idle_lem s i in
      (
        s.rq.idle,
        r.1,
        rw (pick_from, pick_idle s, e),
        record { steady = f.steady; kept = f.kept; runs = λ p h w. f.runs p (e ∙ h) w },
      )
  pick_from-Picked idle (c ∷ cs) s v i =
      let (r, run, f) = class_pick-Picked c s v in
      go_on c (cs ++ idle_class ∷ []) s v i (λ t. pick_from-Picked idle cs t) r.0 r.1 run f

  -- The search behind the short cut for the fair class.
  after_fair :
      (idle : IdleLaw k) (s : State)
      → Sound s
      → is_wrr (s.task s.rq.idle) ≡ false
      → (o : Option ℕ) (t : State) → Picked s (o, t)
      → Finds (pick_after_fair k (o, t)) s
  unfolding pick_after_fair
  after_fair idle s v i (some p) t f = (p, t, refl, f)
  after_fair idle s v i none t f =
      let (p, u, run, f') =
        pick_from-Picked idle (stop_class ∷ rt_class ∷ wrr_class ∷ fair_class ∷ []) t
          (Quiet-Sound f.steady f.kept v) (Kept-idle f.kept i) in
      (p, u, run, Picked-after f.steady f.kept f')

  -- On a sound queue, with an idle task that is not a WRR task, the search for the next task never
  -- meets BUG(): some task is chosen, nothing else is changed that the invariant reads, and if it
  -- is a WRR task it is on the queue.
  pub pick_next_task-Picked :
      (idle : IdleLaw k) (s : State)
      → Sound s
      → is_wrr (s.task s.rq.idle) ≡ false
      → (p : ℕ) × (t : State) × (pick_next_task k s ≡ done (some p, t)) × Picked s (some p, t)
  unfolding pick_next_task
  pick_next_task-Picked idle s v i =
      let r = k.class_pick_next fair_class s in
      let (p, t, run, f) = after_fair idle s v i r.0 r.1 (class_pick-other fair_class s) in
      let (p', t', run', f') =
        pick_from-Picked idle (stop_class ∷ rt_class ∷ wrr_class ∷ fair_class ∷ []) s v i in
      elim (Bool-cases (s.rq.nr_running == k.cfs_h_nr_running s.rq.others)) [
        | inl short ↦ (p, t, rw (short, run), f)
        | inr long ↦ (p', t', rw (long, run'), f')
      ]
