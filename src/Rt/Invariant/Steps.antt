-- ===== src/Rt/Invariant/Steps.antt =====
-- What one operation on an entity writes: rt.c (inc_rt_tasks, dec_rt_tasks, __enqueue_rt_entity,
-- __dequeue_rt_entity), as writes of one priority array.
use cs356_project.Prelude.{
  ℕ, ◌≡◌, refl, ◌∙◌, arith, Bool, true, false, Option, some, none, add32, sub32, ◌==◌,
  if◌then◌else◌, ltb, Bool-cases, inl, inr,
}
use cs356_project.Kernel.RealTime.{RtRq}
use cs356_project.Kernel.Types.{State}
use cs356_project.Kernel.External.{Kernel}
use cs356_project.Rt.Memory.{set_rt_rq, rt_se_prio, rt_se_boosted, start_rt_bandwidth}
use cs356_project.Rt.Array.{
  inc_rt_prio, dec_rt_prio, inc_rt_group, dec_rt_group, inc_rt_tasks, dec_rt_tasks, start_of,
}

-- Run queues with the same array and counter.
pub record SameArray (x y : RtRq) : Type 0 where
  pub bitmap_same : y.bitmap ≡ x.bitmap
  pub queue_same : y.queue ≡ x.queue
  pub nr_same : y.rt_nr_running ≡ x.rt_nr_running
  pub highest_same : y.highest_prio ≡ x.highest_prio

-- From `s` to `t`, run queue `r` gets the array of `x`; the other arrays, the entities and the tasks
-- stay.
pub record Writes (r : ℕ) (x : RtRq) (s t : State) : Type 0 where
  pub at_r : SameArray x (t.rt.rt_rq r)
  pub elsewhere : (q : ℕ) → (r == q) ≡ false → t.rt.rt_rq q ≡ s.rt.rt_rq q
  pub entity_kept : t.rt.entity ≡ s.rt.entity
  pub tasks_kept : t.task ≡ s.task

pub SameArray-trans : {x y z : RtRq} → SameArray x y → SameArray y z → SameArray x z
SameArray-trans f g = record {
  bitmap_same = g.bitmap_same ∙ f.bitmap_same;
  queue_same = g.queue_same ∙ f.queue_same;
  nr_same = g.nr_same ∙ f.nr_same;
  highest_same = g.highest_same ∙ f.highest_same;
}

-- A step after which the array of `r` is still the one it was.
Writes-trans :
    {r : ℕ} {x : RtRq} {s t u : State}
    → Writes r x s t
    → Writes r (t.rt.rt_rq r) t u
    → Writes r x s u
Writes-trans f g = record {
  at_r = SameArray-trans f.at_r g.at_r;
  elsewhere = λ q h. g.elsewhere q h ∙ f.elsewhere q h;
  entity_kept = g.entity_kept ∙ f.entity_kept;
  tasks_kept = g.tasks_kept ∙ f.tasks_kept;
}

write-Writes : (r : ℕ) (x : RtRq) (s : State) → Writes r x s (set_rt_rq r x s)
write-Writes r x s = record {
  at_r = record {
    bitmap_same = ground arith;
    queue_same = ground arith;
    nr_same = ground arith;
    highest_same = ground arith;
  };
  elsewhere = λ q h. ground (arith, h);
  entity_kept = refl;
  tasks_kept = refl;
}

if-Writes :
    {r : ℕ} {x : RtRq} (b : Bool) {s t u : State}
    → Writes r x s t
    → Writes r x s u
    → Writes r x s (if b then t else u)
if-Writes true f g = f
if-Writes false f g = g

-- No write at all, where the array is already the one wanted.
kept-Writes : (r : ℕ) (x : RtRq) (s : State) → SameArray x (s.rt.rt_rq r) → Writes r x s s
kept-Writes r x s h = record {
  at_r = h;
  elsewhere = λ q c. refl;
  entity_kept = refl;
  tasks_kept = refl;
}

SameArray-refl : (x : RtRq) → SameArray x x
SameArray-refl x = record {
  bitmap_same = refl;
  queue_same = refl;
  nr_same = refl;
  highest_same = refl;
}

boosted-Same : (n : ℕ) (x : RtRq) → SameArray x (record x { rt_nr_boosted = n })
boosted-Same n x = record {
  bitmap_same = refl;
  queue_same = refl;
  nr_same = refl;
  highest_same = refl;
}

as-Writes : {r : ℕ} {x y : RtRq} {s t : State} → SameArray x y → Writes r y s t → Writes r x s t
as-Writes f g = record {
  at_r = SameArray-trans f g.at_r;
  elsewhere = g.elsewhere;
  entity_kept = g.entity_kept;
  tasks_kept = g.tasks_kept;
}

inc_rt_prio-Writes :
    (r prio : ℕ) (s : State)
    → let x = s.rt.rt_rq r in
      Writes r
        (record x { highest_prio = if ltb prio x.highest_prio then prio else x.highest_prio })
        s
        (inc_rt_prio r prio s)
unfolding inc_rt_prio
inc_rt_prio-Writes r prio s =
    let x = s.rt.rt_rq r in
    elim (Bool-cases (ltb prio x.highest_prio)) [
      | inl e ↦ rw e (write-Writes r _ s)
      | inr e ↦ rw e (kept-Writes r _ s (SameArray-refl _))
    ]

-- A write, and then one of the highest priority that follows from the array.
next-Writes :
    {r : ℕ} {y : RtRq} {s t u : State} (F : RtRq → ℕ)
    → ((x : RtRq) → SameArray y x → F x ≡ F y)
    → Writes r y s t
    → Writes r (record (t.rt.rt_rq r) { highest_prio = F (t.rt.rt_rq r) }) t u
    → Writes r (record y { highest_prio = F y }) s u
next-Writes {r} {y} {s} {t} {u} F h f g = record {
  at_r = record {
    bitmap_same = g.at_r.bitmap_same ∙ f.at_r.bitmap_same;
    queue_same = g.at_r.queue_same ∙ f.at_r.queue_same;
    nr_same = g.at_r.nr_same ∙ f.at_r.nr_same;
    highest_same = g.at_r.highest_same ∙ h (t.rt.rt_rq r) f.at_r;
  };
  elsewhere = λ q c. g.elsewhere q c ∙ f.elsewhere q c;
  entity_kept = g.entity_kept ∙ f.entity_kept;
  tasks_kept = g.tasks_kept ∙ f.tasks_kept;
}

module _ (k : Kernel) where
  dec_rt_prio-Writes :
      (r prio : ℕ) (s : State)
      → let x = s.rt.rt_rq r in
        Writes r
          (record x {
            highest_prio =
                if x.rt_nr_running == 0
                then 100
                else if prio == x.highest_prio
                then k.sched_find_first_bit x.bitmap
                else x.highest_prio;
          })
          s
          (dec_rt_prio k r prio s)
  unfolding dec_rt_prio
  dec_rt_prio-Writes r prio s =
      let x = s.rt.rt_rq r in
      elim (Bool-cases (x.rt_nr_running == 0)) [
        | inl e ↦ rw e (write-Writes r _ s)
        | inr e ↦ rw e (elim (Bool-cases (prio == x.highest_prio)) [
          | inl e' ↦ rw e' (write-Writes r _ s)
          | inr e' ↦ rw e' (kept-Writes r _ s (SameArray-refl _))
        ])
      ]

  start-Writes : (r : ℕ) (o : Option ℕ) (s : State) → Writes r (s.rt.rt_rq r) s (start_of k o s)
  unfolding start_rt_bandwidth
  start-Writes r none s = kept-Writes r _ s (SameArray-refl _)
  start-Writes r (some g) s = if-Writes _ (kept-Writes r _ s (SameArray-refl _)) (
      if-Writes _ (kept-Writes r _ s (SameArray-refl _)) (record {
        at_r = SameArray-refl _;
        elsewhere = λ q h. refl;
        entity_kept = refl;
        tasks_kept = refl;
      }))

  boosted-Writes :
      (b : Bool) (n r : ℕ) (s : State)
      → Writes r
          (s.rt.rt_rq r)
          s
          (if b then set_rt_rq r (record (s.rt.rt_rq r) { rt_nr_boosted = n }) s else s)
  boosted-Writes true n r s = as-Writes (boosted-Same n (s.rt.rt_rq r)) (write-Writes r _ s)
  boosted-Writes false n r s = kept-Writes r _ s (SameArray-refl _)

  inc_rt_group-Writes : (e r : ℕ) (s : State) → Writes r (s.rt.rt_rq r) s (inc_rt_group k e r s)
  unfolding inc_rt_group
  inc_rt_group-Writes e r s =
      Writes-trans (boosted-Writes (rt_se_boosted e s) _ r s) (start-Writes r _ _)

  dec_rt_group-Writes : (e r : ℕ) (s : State) → Writes r (s.rt.rt_rq r) s (dec_rt_group k e r s)
  unfolding dec_rt_group
  dec_rt_group-Writes e r s = boosted-Writes (rt_se_boosted e s) _ r s

  -- What inc_rt_tasks and dec_rt_tasks make of an array, for an entity of a priority.
  abbrev pub counted_in : ℕ → RtRq → RtRq
  counted_in prio x = record x {
    rt_nr_running = add32 x.rt_nr_running 1;
    highest_prio = if ltb prio x.highest_prio then prio else x.highest_prio;
  }

  abbrev pub counted_out : ℕ → RtRq → RtRq
  counted_out prio x =
      let n = sub32 x.rt_nr_running 1 in
      record x {
        rt_nr_running = n;
        highest_prio =
            if n == 0
            then 100
            else if prio == x.highest_prio
            then k.sched_find_first_bit x.bitmap
            else x.highest_prio;
      }

  pub inc_rt_tasks-Writes :
      (e r : ℕ) (s : State)
      → Writes r (counted_in (rt_se_prio e s) (s.rt.rt_rq r)) s (inc_rt_tasks k e r s)
  unfolding inc_rt_tasks
  inc_rt_tasks-Writes e r s =
      let x = s.rt.rt_rq r in
      let y = record x { rt_nr_running = add32 x.rt_nr_running 1 } in
      let prio = rt_se_prio e s in
      let higher = λ (z : RtRq). if ltb prio z.highest_prio then prio else z.highest_prio in
      let f = write-Writes r y s in
      let g = inc_rt_prio-Writes r prio (set_rt_rq r y s) in
      Writes-trans (next-Writes higher (λ z h. rw h.highest_same refl) f g)
        (inc_rt_group-Writes e r _)

  pub dec_rt_tasks-Writes :
      (e r : ℕ) (s : State)
      → rt_se_prio e (
          set_rt_rq r
            (record (s.rt.rt_rq r) { rt_nr_running = sub32 (s.rt.rt_rq r).rt_nr_running 1 })
            s)
        ≡ rt_se_prio e s
      → Writes r (counted_out (rt_se_prio e s) (s.rt.rt_rq r)) s (dec_rt_tasks k e r s)
  unfolding dec_rt_tasks
  dec_rt_tasks-Writes e r s same =
      let x = s.rt.rt_rq r in
      let y = record x { rt_nr_running = sub32 x.rt_nr_running 1 } in
      let prio = rt_se_prio e s in
      let lower = λ (z : RtRq).
        if z.rt_nr_running == 0
        then 100
        else if prio == z.highest_prio
        then k.sched_find_first_bit z.bitmap
        else z.highest_prio in
      let f = write-Writes r y s in
      let g = dec_rt_prio-Writes r prio (set_rt_rq r y s) in
      rw same (
        Writes-trans
          (next-Writes lower (λ z h. rw (h.highest_same, h.nr_same, h.bitmap_same) refl) f g)
          (dec_rt_group-Writes e r _))
