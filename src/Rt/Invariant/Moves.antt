-- ===== src/Rt/Invariant/Moves.antt =====
-- What __enqueue_rt_entity and __dequeue_rt_entity of rt.c make of the arrays.
use cs356_project.Prelude.{
  ℕ, ◌≡◌, refl, sym, ap, ◌∙◌, arith, Bool, true, false, List, elem, remove, remove_absent, Option,
  some, none, sub32, ◌==◌, if◌then◌else◌, Bool-cases, inl, inr, pos_part,
}
use std.Path.{fun_ext}
use cs356_project.Kernel.RealTime.{RtRq, RtEntity}
use cs356_project.Kernel.Types.{State, Task, write_at}
use cs356_project.Kernel.External.{Kernel, ListLaws}
use cs356_project.Rt.Memory.{set_rt_rq, rt_se_prio}
use cs356_project.Rt.Entity.{
  no_tasks, unlink, link, set_bit, not_to_run, enqueue_rt_entity_one, dequeue_rt_entity_one,
}
use cs356_project.Rt.Invariant.Arrays.{put, taken, bits_left}
use cs356_project.Rt.Invariant.Steps.{
  SameArray, counted_in, inc_rt_tasks-Writes, dec_rt_tasks-Writes, SameArray-trans,
}

-- The priority by what the entity owns.
unfoldable pub prio_of : Option ℕ → ℕ → State → ℕ
prio_of none e s = pos_part (s.task e).prio
prio_of (some g) e s = (s.rt.rt_rq g).highest_prio

prio_of-agree :
    (o : Option ℕ) (e : ℕ) (s t : State)
    → ((g : ℕ) → (t.rt.rt_rq g).highest_prio ≡ (s.rt.rt_rq g).highest_prio)
    → t.task ≡ s.task
    → prio_of o e t ≡ prio_of o e s
unfolding prio_of
prio_of-agree none e s t h same = ap (λ (m : ℕ → Task). pos_part (m e).prio) same
prio_of-agree (some g) e s t h same = h g

pub prio_is : (e : ℕ) (s : State) → rt_se_prio e s ≡ prio_of (s.rt.entity e).my_q e s
unfolding rt_se_prio prio_of
prio_is e s =
    elim (s.rt.entity e).my_q
      as (λ (o : Option ℕ).
        elim o [ some r ↦ (s.rt.rt_rq r).highest_prio | none ↦ pos_part (s.task e).prio ]
        ≡ prio_of o e s) [ none ↦ refl | some g ↦ refl ]

pub rt_se_prio-same :
    (e : ℕ) (s t : State)
    → (t.rt.entity e).my_q ≡ (s.rt.entity e).my_q
    → ((g : ℕ) → (t.rt.rt_rq g).highest_prio ≡ (s.rt.rt_rq g).highest_prio)
    → t.task ≡ s.task
    → rt_se_prio e t ≡ rt_se_prio e s
rt_se_prio-same e s t owns h same =
    prio_is e t
    ∙ ap (λ o. prio_of o e t) owns
    ∙ prio_of-agree (s.rt.entity e).my_q e s t h same
    ∙ sym (prio_is e s)

prio_of-own :
    (o : Option ℕ) (e : ℕ) (s t : State)
    → ((g : ℕ) → o ≡ some g → (t.rt.rt_rq g).highest_prio ≡ (s.rt.rt_rq g).highest_prio)
    → t.task ≡ s.task
    → prio_of o e t ≡ prio_of o e s
unfolding prio_of
prio_of-own none e s t h same = ap (λ (m : ℕ → Task). pos_part (m e).prio) same
prio_of-own (some g) e s t h same = h g refl

-- The priority stays where the owned run queue keeps its own.
pub rt_se_prio-own :
    (e : ℕ) (s t : State)
    → (t.rt.entity e).my_q ≡ (s.rt.entity e).my_q
    → ((g : ℕ)
        → (s.rt.entity e).my_q ≡ some g
        → (t.rt.rt_rq g).highest_prio ≡ (s.rt.rt_rq g).highest_prio)
    → t.task ≡ s.task
    → rt_se_prio e t ≡ rt_se_prio e s
rt_se_prio-own e s t owns h same =
    prio_is e t
    ∙ ap (λ o. prio_of o e t) owns
    ∙ prio_of-own (s.rt.entity e).my_q e s t h same
    ∙ sym (prio_is e s)

equal_arrays : {x y : RtRq} → y ≡ x → SameArray x y
equal_arrays h = record {
  bitmap_same = ap (λ (z : RtRq). z.bitmap) h;
  queue_same = ap (λ (z : RtRq). z.queue) h;
  nr_same = ap (λ (z : RtRq). z.rt_nr_running) h;
  highest_same = ap (λ (z : RtRq). z.highest_prio) h;
}

-- From `s` to `t`, run queue `r` gets the array of `x`, the entity is put on a list or taken off,
-- and all other arrays, entities and tasks stay.
pub record Moves (r : ℕ) (x : RtRq) (e : ℕ) (on : Bool) (s t : State) : Type 0 where
  pub at_r : SameArray x (t.rt.rt_rq r)
  pub elsewhere : (q : ℕ) → (r == q) ≡ false → SameArray (s.rt.rt_rq q) (t.rt.rt_rq q)
  pub entities :
      (d : ℕ)
      → t.rt.entity d ≡ (if e == d then record (s.rt.entity e) { linked = on } else s.rt.entity d)
  pub tasks_kept : t.task ≡ s.task

module _ (k : Kernel) where
  abbrev pub queue_with : ℕ → Bool → List ℕ → List ℕ
  queue_with e head q = if head then k.list_add e q else k.list_add_tail e q

  pub enqueue_one-Moves :
      (e : ℕ) (head : Bool) (s : State)
      → not_to_run k (s.rt.entity e).my_q s ≡ false
      → let r = (s.rt.entity e).rt_rq in
        let x = s.rt.rt_rq r in
        let prio = rt_se_prio e s in
        Moves r
          (put prio (queue_with e head (x.queue prio)) x)
          e
          true
          s
          (enqueue_rt_entity_one k e head s)
  unfolding enqueue_rt_entity_one link
  enqueue_one-Moves e head s runs =
      let r = (s.rt.entity e).rt_rq in
      let x = s.rt.rt_rq r in
      let prio = rt_se_prio e s in
      let s1 = link k r prio e head s in
      let p1 : rt_se_prio e s1 ≡ prio =
        rt_se_prio-same e s s1 (ground arith) (λ g. ground arith) refl in
      let s2 = set_bit k r true (rt_se_prio e s1) s1 in
      let p2 : rt_se_prio e s2 ≡ prio =
        rt_se_prio-same e s s2 (ground arith) (λ g. ground arith) refl in
      let g = inc_rt_tasks-Writes k e r s2 in
      let put_array : SameArray (put prio (queue_with e head (x.queue prio)) x)
          (counted_in k (rt_se_prio e s2) (s2.rt.rt_rq r)) =
        record {
          bitmap_same = ground (arith, p1);
          queue_same = ground arith;
          nr_same = ground arith;
          highest_same = ground (arith, p2);
        } in
      rw runs (record {
        at_r = SameArray-trans put_array g.at_r;
        elsewhere = λ q c. equal_arrays (g.elsewhere q c ∙ ground (arith, c));
        entities = λ d. ap (λ (f : ℕ → RtEntity). f d) g.entity_kept ∙ ground arith;
        tasks_kept = g.tasks_kept;
      })

module _ (k : Kernel) (l : ListLaws k.lists) where
  -- Taking a node out of its list changes no other queue.
  absent :
      (e r i : ℕ) (s : State)
      → elem e ((s.rt.rt_rq r).queue i) ≡ false
      → k.list_del_init e ((s.rt.rt_rq r).queue i) ≡ (s.rt.rt_rq r).queue i
  absent e r i s h = l.del_init_lem e _ ∙ remove_absent e _ h

  unlinked :
      (e r : ℕ) (s : State)
      → ((q i : ℕ)
          → elem e ((s.rt.rt_rq q).queue i) ≡ true
          → ((s.rt.entity e).rt_rq ≡ q) × (rt_se_prio e s ≡ i))
      → (i : ℕ)
      → k.list_del_init e ((s.rt.rt_rq r).queue i)
        ≡ write_at
            (rt_se_prio e s)
            (remove e ((s.rt.rt_rq r).queue (rt_se_prio e s)))
            (s.rt.rt_rq r).queue
            i
  unlinked e r s only i = elim (Bool-cases (rt_se_prio e s == i)) [
    | inl same ↦ ground (arith, same, l.del_init_lem e ((s.rt.rt_rq r).queue i))
    | inr other ↦ rw other (absent e r i s (ground (arith, other, only r i)))
  ]

  others_unlinked :
      (e q : ℕ) (s : State)
      → ((r i : ℕ)
          → elem e ((s.rt.rt_rq r).queue i) ≡ true
          → ((s.rt.entity e).rt_rq ≡ r) × (rt_se_prio e s ≡ i))
      → ((s.rt.entity e).rt_rq == q) ≡ false
      → SameArray
          (s.rt.rt_rq q)
          (record (s.rt.rt_rq q) { queue = λ i. k.list_del_init e ((s.rt.rt_rq q).queue i) })
  others_unlinked e q s only c = record {
    bitmap_same = refl;
    queue_same = fun_ext (λ i. absent e q i s (ground (arith, c, only q i)));
    nr_same = refl;
    highest_same = refl;
  }

  -- An entity that is on the queue of its priority, and on no other.
  pub dequeue_one-Moves :
      (e : ℕ) (s : State)
      → ((r i : ℕ)
          → elem e ((s.rt.rt_rq r).queue i) ≡ true
          → ((s.rt.entity e).rt_rq ≡ r) × (rt_se_prio e s ≡ i))
      → let r = (s.rt.entity e).rt_rq in
        let x = s.rt.rt_rq r in
        let prio = rt_se_prio e s in
        Moves r (taken k prio (remove e (x.queue prio)) x) e false s (dequeue_rt_entity_one k e s)
  unfolding dequeue_rt_entity_one unlink
  dequeue_one-Moves e s only =
      let r = (s.rt.entity e).rt_rq in
      let x = s.rt.rt_rq r in
      let prio = rt_se_prio e s in
      let s1 = unlink k e s in
      let p1 : rt_se_prio e s1 ≡ prio =
        rt_se_prio-same e s s1 (ground arith) (λ g. ground arith) refl in
      let left = (s1.rt.rt_rq r).queue (rt_se_prio e s1) in
      let s2 = if no_tasks left then set_bit k r false (rt_se_prio e s1) s1 else s1 in
      let p2 : rt_se_prio e s2 ≡ prio =
        rt_se_prio-same e s s2 (ground arith) (λ g. ground arith) (ground arith) in
      let s3 =
        set_rt_rq r
          (record (s2.rt.rt_rq r) { rt_nr_running = sub32 (s2.rt.rt_rq r).rt_nr_running 1 }) s2 in
      let p3 : rt_se_prio e s3 ≡ rt_se_prio e s2 =
        rt_se_prio-same e s2 s3 refl (λ g. ground arith) refl in
      let g = dec_rt_tasks-Writes k e r s2 p3 in
      let rest = remove e (x.queue prio) in
      let y = s2.rt.rt_rq r in
      let is_rest : left ≡ rest =
        ap (λ i. k.list_del_init e (x.queue i)) p1 ∙ l.del_init_lem e (x.queue prio) in
      let map_y : y.bitmap ≡ bits_left k prio rest x.bitmap = ground (arith, is_rest, p1) in
      let queue_y : y.queue ≡ write_at prio rest x.queue =
        ground arith ∙ fun_ext (unlinked e r s only) in
      let nr_y : y.rt_nr_running ≡ x.rt_nr_running = ground arith in
      let highest_y : y.highest_prio ≡ x.highest_prio = ground arith in
      record {
        at_r =
            SameArray-trans
              (record {
                bitmap_same = map_y;
                queue_same = queue_y;
                nr_same = ap (λ n. sub32 n 1) nr_y;
                highest_same = rw (p2, nr_y, highest_y, map_y) refl;
              })
              g.at_r;
        elsewhere = λ q c.
            SameArray-trans (others_unlinked e q s only c)
              (equal_arrays (g.elsewhere q c ∙ ground (arith, c)));
        entities = λ d. ap (λ (f : ℕ → RtEntity). f d) g.entity_kept ∙ ground arith;
        tasks_kept = g.tasks_kept ∙ ground arith;
      }
