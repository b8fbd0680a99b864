-- ===== src/Rt/Invariant/Climb.antt =====
-- Putting an entity and its ancestors on their queues from the bottom up: rt.c (enqueue_rt_entity,
-- dequeue_rt_entity).
use cs356_project.Prelude.{
  ℕ, suc, ◌<◌, ◌≡◌, refl, sym, subst, ap, ◌∙◌, arith, Bool, true, false, List, [], ◌∷◌, elem,
  Distinct, none, pos_part, ◌==◌, if◌then◌else◌, Bool-cases, inl, inr,
}
use std.Path.{fun_ext}
use cs356_project.Kernel.Types.{State, Task}
use cs356_project.Kernel.External.{Kernel, ListLaws}
use cs356_project.Rt.Entity.{
  not_to_run, has_tasks, enqueue_rt_entity_one, enqueue_each, enqueue_groups,
}
use cs356_project.Rt.Invariant.Bits.{BitLaws}
use cs356_project.Rt.Invariant.Moves.{enqueue_one-Moves}
use cs356_project.Rt.Invariant.Entities.{
  Tree, RtInv, Loose, Moves-Tree, moved_linked, moved_parent, moved_my_q,
}
use cs356_project.Rt.Invariant.Enqueued.{weaker, enqueued-RtInv}
use cs356_project.Rt.Invariant.Filled.{rt_se_prio-below}
use cs356_project.Rt.Invariant.Chains.{Upward, parents, parent_off}

-- The priority of a task that is not a group's entity is one of a real-time task.
abbrev pub RtPrio : ℕ → State → Type 0
RtPrio e s = (s.rt.entity e).my_q ≡ none → pos_part (s.task e).prio < 100

-- Room for `n` more after the entities of a list.
abbrev pub room_for : List ℕ → ℕ → ℕ
room_for [] n = n
room_for (e ∷ es) n = suc (room_for es n)

-- From `s` to `t`, the entity may have been put on its queue.
record Entered (k : Kernel) (n e : ℕ) (s t : State) : Type 0 where
  tree : Tree t
  inv : RtInv k n t
  parent_kept : (d : ℕ) → parents t d ≡ parents s d
  my_q_kept : (d : ℕ) → (t.rt.entity d).my_q ≡ (s.rt.entity d).my_q
  others : (d : ℕ) → (e == d) ≡ false → (t.rt.entity d).linked ≡ (s.rt.entity d).linked
  tasks_kept : t.task ≡ s.task

differs_in : (e d : ℕ) (es : List ℕ) → elem e es ≡ false → elem d es ≡ true → (e == d) ≡ false
differs_in e d es absent present = elim (Bool-cases (e == d)) [
  | inl same ↦
      let at_d : e ≡ d = ground (arith, same) in
      ground (arith, ap (λ z. elem z es) at_d, absent, present)
  | inr other ↦ other
]

module _ (k : Kernel) (b : BitLaws k) (l : ListLaws k.lists) where
  same-Entered :
      (n e : ℕ) (head : Bool) (s : State)
      → Tree s
      → RtInv k (suc n) s
      → (s.rt.entity e).linked ≡ false
      → Loose e s
      → Entered k n e s s
  same-Entered n e head s tree v off loose = record {
    tree = tree;
    inv = weaker k b l n e head s tree v off loose;
    parent_kept = λ d. refl;
    my_q_kept = λ d. refl;
    others = λ d c. refl;
    tasks_kept = refl;
  }

  enqueue_one-Entered :
      (n e : ℕ) (head : Bool) (s : State)
      → Tree s
      → RtInv k (suc n) s
      → (s.rt.entity e).linked ≡ false
      → Loose e s
      → RtPrio e s
      → Entered k n e s (enqueue_rt_entity_one k e head s)
  unfolding enqueue_rt_entity_one
  enqueue_one-Entered n e head s tree v off loose rt =
      elim (Bool-cases (not_to_run k (s.rt.entity e).my_q s)) [
        | inl idle ↦ rw idle (same-Entered n e head s tree v off loose)
        | inr runs ↦
            let m = enqueue_one-Moves k e head s runs in
            let bound = rt_se_prio-below k b e s v.arrays runs rt in
            record {
              tree = Moves-Tree m tree;
              inv = enqueued-RtInv k b l n e head s tree v off loose runs bound;
              parent_kept = moved_parent m;
              my_q_kept = moved_my_q m;
              others = λ d c. ground (arith, c, moved_linked m d);
              tasks_kept = m.tasks_kept;
            }
      ]

  group-RtPrio : (e : ℕ) (s : State) → has_tasks k (s.rt.entity e).my_q s ≡ true → RtPrio e s
  group-RtPrio e s h c =
      let none_has : false ≡ true = sym (ap (λ o. has_tasks k o s) c) ∙ h in
      ground (arith, none_has)

  group-Entered :
      (n e : ℕ) (s : State)
      → Tree s
      → RtInv k (suc n) s
      → (s.rt.entity e).linked ≡ false
      → Loose e s
      → Entered k n e s
          (if has_tasks k (s.rt.entity e).my_q s then enqueue_rt_entity_one k e false s else s)
  group-Entered n e s tree v off loose = elim (Bool-cases (has_tasks k (s.rt.entity e).my_q s)) [
    | inl has ↦ rw has (enqueue_one-Entered n e false s tree v off loose (group-RtPrio e s has))
    | inr idle ↦ rw idle (same-Entered n e false s tree v off loose)
  ]

  -- The list of an entity and its ancestors, of which none is linked.
  pub record Climb (n : ℕ) (es : List ℕ) (s : State) : Type 0 where
    pub tree : Tree s
    pub inv : RtInv k (room_for es n) s
    pub upward : Upward (parents s) es
    pub distinct : Distinct es
    pub off : (d : ℕ) → elem d es ≡ true → (s.rt.entity d).linked ≡ false

  Climb-Loose : (n e : ℕ) (es : List ℕ) (s : State) → Climb n (e ∷ es) s → Loose e s
  Climb-Loose n e es s c d h =
      parent_off (parents s) e es (λ z. (s.rt.entity z).linked) c.upward
        (λ z m. c.off z (ground (arith, m))) d h

  Climb-linked :
      (n e : ℕ) (es : List ℕ) (s : State) → Climb n (e ∷ es) s → (s.rt.entity e).linked ≡ false
  Climb-linked n e es s c = c.off e (ground arith)

  Entered-Climb :
      (n e : ℕ) (es : List ℕ) (s t : State)
      → Climb n (e ∷ es) s
      → Entered k (room_for es n) e s t
      → Climb n es t
  Entered-Climb n e es s t c f = record {
    tree = f.tree;
    inv = f.inv;
    upward = subst (λ up. Upward up es) (sym (fun_ext f.parent_kept)) c.upward.1;
    distinct = c.distinct.1;
    off = λ d m. f.others d (differs_in e d es c.distinct.0 m) ∙ c.off d (ground (arith, m));
  }

  -- From `s` to `t`, entities of the list were put on their queues.
  pub record Climbed (n : ℕ) (es : List ℕ) (s t : State) : Type 0 where
    pub tree : Tree t
    pub inv : RtInv k n t
    pub others : (d : ℕ) → elem d es ≡ false → (t.rt.entity d).linked ≡ (s.rt.entity d).linked
    pub my_q_kept : (d : ℕ) → (t.rt.entity d).my_q ≡ (s.rt.entity d).my_q

  none-Climbed : (n : ℕ) (s : State) → Climb n [] s → Climbed n [] s s
  none-Climbed n s c = record {
    tree = c.tree;
    inv = c.inv;
    others = λ d m. refl;
    my_q_kept = λ d. refl;
  }

  step-Climbed :
      (n e : ℕ) (es : List ℕ) (s t u : State)
      → Entered k (room_for es n) e s t
      → Climbed n es t u
      → Climbed n (e ∷ es) s u
  step-Climbed n e es s t u f g = record {
    tree = g.tree;
    inv = g.inv;
    others = λ d m. g.others d (ground (arith, m)) ∙ f.others d (ground (arith, m));
    my_q_kept = λ d. g.my_q_kept d ∙ f.my_q_kept d;
  }

  enter :
      (n e : ℕ) (es : List ℕ) (head : Bool) (s : State)
      → Climb n (e ∷ es) s
      → RtPrio e s
      → Entered k (room_for es n) e s (enqueue_rt_entity_one k e head s)
  enter n e es head s c rt =
      enqueue_one-Entered (room_for es n) e head s c.tree c.inv (Climb-linked n e es s c)
        (Climb-Loose n e es s c) rt

  Entered-RtPrio :
      (n e : ℕ) (es : List ℕ) (s t : State)
      → Entered k (room_for es n) e s t
      → ((d : ℕ) → elem d (e ∷ es) ≡ true → RtPrio d s)
      → (d : ℕ) → elem d es ≡ true
      → RtPrio d t
  Entered-RtPrio n e es s t f rt d m own =
      subst (λ (g : ℕ → Task). pos_part (g d).prio < 100) (sym f.tasks_kept)
        (rt d (ground (arith, m)) (sym (f.my_q_kept d) ∙ own))

  pub enqueue_each-Climbed :
      (n : ℕ) (es : List ℕ) (head : Bool) (s : State)
      → Climb n es s
      → ((d : ℕ) → elem d es ≡ true → RtPrio d s)
      → Climbed n es s (enqueue_each k es head s)
  unfolding enqueue_each
  enqueue_each-Climbed n [] head s c rt = none-Climbed n s c
  enqueue_each-Climbed n (e ∷ es) head s c rt =
      let f = enter n e es head s c (rt e (ground arith)) in
      step-Climbed n e es s (enqueue_rt_entity_one k e head s) _ f (
        enqueue_each-Climbed n es head (enqueue_rt_entity_one k e head s)
          (Entered-Climb n e es s _ c f)
          (Entered-RtPrio n e es s (enqueue_rt_entity_one k e head s) f rt))

  pub enqueue_groups-Climbed :
      (n : ℕ) (es : List ℕ) (s : State) → Climb n es s → Climbed n es s (enqueue_groups k es s)
  unfolding enqueue_groups
  enqueue_groups-Climbed n [] s c = none-Climbed n s c
  enqueue_groups-Climbed n (e ∷ es) s c =
      let f =
        group-Entered (room_for es n) e s c.tree c.inv (Climb-linked n e es s c)
          (Climb-Loose n e es s c) in
      step-Climbed n e es s _ _ f (enqueue_groups-Climbed n es _ (Entered-Climb n e es s _ c f))

  -- The first of the list, if it is a task's entity, is linked then.
  pub enqueue_each-linked :
      (n e : ℕ) (es : List ℕ) (head : Bool) (s : State)
      → Climb n (e ∷ es) s
      → ((d : ℕ) → elem d (e ∷ es) ≡ true → RtPrio d s)
      → (s.rt.entity e).my_q ≡ none
      → ((enqueue_each k (e ∷ es) head s).rt.entity e).linked ≡ true
  unfolding enqueue_each
  enqueue_each-linked n e es head s c rt task =
      let t = enqueue_rt_entity_one k e head s in
      let f = enter n e es head s c (rt e (ground arith)) in
      let g =
        enqueue_each-Climbed n es head t (Entered-Climb n e es s t c f)
          (Entered-RtPrio n e es s t f rt) in
      let m = enqueue_one-Moves k e head s (ap (λ o. not_to_run k o s) task) in
      g.others e c.distinct.0 ∙ ground (arith, moved_linked m e)

  -- It is not where only groups with tasks are put on their queues.
  pub enqueue_groups-off :
      (n e : ℕ) (es : List ℕ) (s : State)
      → Climb n (e ∷ es) s
      → (s.rt.entity e).my_q ≡ none
      → ((enqueue_groups k (e ∷ es) s).rt.entity e).linked ≡ false
  unfolding enqueue_groups
  enqueue_groups-off n e es s c task =
      let f =
        same-Entered (room_for es n) e false s c.tree c.inv (Climb-linked n e es s c)
          (Climb-Loose n e es s c) in
      let g = enqueue_groups-Climbed n es s (Entered-Climb n e es s s c f) in
      let skipped : has_tasks k (s.rt.entity e).my_q s ≡ false = ap (λ o. has_tasks k o s) task in
      subst
        (λ (b : Bool).
          ((enqueue_groups k es (if b then enqueue_rt_entity_one k e false s else s)).rt.entity
            e).linked
          ≡ false)
        (sym skipped) (g.others e c.distinct.0 ∙ Climb-linked n e es s c)
