-- ===== src/Rt/Invariant/Keeps.antt =====
-- The arrays after an entity was put on its queue or taken off, with its ancestors: rt.c
-- (enqueue_rt_entity, dequeue_rt_entity).
use cs356_project.Prelude.{
  ℕ, zero, suc, ◌≡◌, refl, sym, subst, ◌∙◌, arith, Bool, true, false, List, [], ◌∷◌, elem, Distinct,
  some, none, ◌==◌, Bool-cases, inl, inr, pos_part, ◌<◌,
}
use std.Path.{fun_ext}
use cs356_project.Kernel.Types.{State, Task}
use cs356_project.Kernel.External.{Kernel, ListLaws}
use cs356_project.Rt.Memory.{ancestors}
use cs356_project.Rt.Entity.{
  reverse, enqueue_each, enqueue_groups, dequeue_rt_stack, enqueue_rt_entity, dequeue_rt_entity,
}
use cs356_project.Rt.Invariant.Bits.{BitLaws}
use cs356_project.Rt.Invariant.Entities.{Tree, RtInv}
use cs356_project.Rt.Invariant.Chains.{
  Upward, parents, reverse-Downward, elem-reverse, Cleared, dequeue_each-Cleared,
}
use cs356_project.Rt.Invariant.Climb.{
  RtPrio, room_for, Climb, enqueue_each-Climbed, enqueue_groups-Climbed, enqueue_each-linked,
  enqueue_groups-off,
}

-- An ancestor owns a run queue.
owner-RtPrio :
    (s : State) (tree : Tree s) (e : ℕ) (es : List ℕ)
    → Upward (parents s) (e ∷ es)
    → (d : ℕ) → elem d es ≡ true
    → RtPrio d s
owner-RtPrio s tree e [] h d m = ground (arith, m)
owner-RtPrio s tree e (p ∷ es) h d m = elim (Bool-cases (p == d)) [
  | inl same ↦
      let at_d : p ≡ d = ground (arith, same) in
      subst (λ z. RtPrio z s) at_d
        (λ own.
          let clash : none ≡ some (s.rt.entity e).rt_rq = sym own ∙ tree.owned p e h.0 in
          ground (arith, clash))
  | inr other ↦ owner-RtPrio s tree p es h.1 d (ground (arith, m, other))
]

-- The entity and its ancestors up to one without a parent, none of them twice.
pub record Line (depth e : ℕ) (s : State) : Type 0 where
  pub upward : Upward (parents s) (ancestors depth e s)
  pub distinct : Distinct (ancestors depth e s)

line-RtPrio :
    (depth e : ℕ) (s : State)
    → Tree s
    → Line depth e s
    → RtPrio e s
    → (d : ℕ) → elem d (ancestors depth e s) ≡ true
    → RtPrio d s
unfolding ancestors
line-RtPrio zero e s tree line rt d m =
    let at_d : e ≡ d = ground (arith, m) in subst (λ z. RtPrio z s) at_d rt
line-RtPrio (suc depth) e s tree line rt d m = elim (Bool-cases (e == d)) [
  | inl same ↦ let at_d : e ≡ d = ground (arith, same) in subst (λ z. RtPrio z s) at_d rt
  | inr other ↦ owner-RtPrio s tree e _ line.upward d (ground (arith, m, other))
]

-- The first of the ancestors is the entity itself.
line_head : (depth e : ℕ) (s : State) → (es : List ℕ) × (ancestors depth e s ≡ e ∷ es)
unfolding ancestors
line_head zero e s = ([], refl)
line_head (suc depth) e s = (_, refl)

-- The arrays are well formed, with room for `n` entities more, and an entity is linked or not.
pub record Moved (k : Kernel) (n e : ℕ) (on : Bool) (t : State) : Type 0 where
  pub tree : Tree t
  pub inv : RtInv k n t
  pub linked_now : (t.rt.entity e).linked ≡ on

module _ (k : Kernel) (b : BitLaws k) (l : ListLaws k.lists) (n depth e : ℕ) (s : State)
    (tree : Tree s) (line : Line depth e s) (v : RtInv k (room_for (ancestors depth e s) n) s) where
  cleared :
      Cleared k
        (room_for (ancestors depth e s) n)
        (reverse (ancestors depth e s))
        s
        (dequeue_rt_stack k depth e s)
  unfolding dequeue_rt_stack
  cleared =
      let es = ancestors depth e s in
      dequeue_each-Cleared k b l (room_for es n) (reverse es) none s tree v
        (λ d c. ground (arith, c)) (reverse-Downward (parents s) es line.upward)

  climb : Climb k b l n (ancestors depth e s) (dequeue_rt_stack k depth e s)
  climb =
      let es = ancestors depth e s in
      let c = cleared in
      record {
        tree = c.tree;
        inv = c.inv;
        upward = subst (λ up. Upward up es) (sym (fun_ext c.parent_kept)) line.upward;
        distinct = line.distinct;
        off = λ d m. ground (arith, c.linked_left d, elem-reverse d es, m);
      }

  task_prios :
      RtPrio e s
      → (d : ℕ) → elem d (ancestors depth e s) ≡ true
      → RtPrio d (dequeue_rt_stack k depth e s)
  task_prios rt d m own =
      let c = cleared in
      subst (λ (g : ℕ → Task). pos_part (g d).prio < 100) (sym c.tasks_kept)
        (line-RtPrio depth e s tree line rt d m (sym (c.my_q_kept d) ∙ own))

  enqueue_rt_entity-Moved :
      (head : Bool)
      → (s.rt.entity e).my_q ≡ none
      → pos_part (s.task e).prio < 100
      → Moved k n e true (enqueue_rt_entity k depth e head s)
  unfolding enqueue_rt_entity
  enqueue_rt_entity-Moved head task low =
      let t = dequeue_rt_stack k depth e s in
      let c = cleared in
      let m =
        enqueue_each-Climbed k b l n (ancestors depth e s) head t climb (task_prios (λ _. low)) in
      let (es, is_line) = line_head depth e s in
      record {
        tree = m.tree;
        inv = m.inv;
        linked_now =
            subst
              (λ z.
                Climb k b l n z t
                → ((d : ℕ) → elem d z ≡ true → RtPrio d t)
                → ((enqueue_each k z head t).rt.entity e).linked ≡ true)
              (sym is_line)
              (λ at rts. enqueue_each-linked k b l n e es head t at rts (c.my_q_kept e ∙ task))
              climb (task_prios (λ _. low));
      }

  dequeue_rt_entity-Moved :
      (s.rt.entity e).my_q ≡ none → Moved k n e false (dequeue_rt_entity k depth e s)
  unfolding dequeue_rt_entity
  dequeue_rt_entity-Moved task =
      let t = dequeue_rt_stack k depth e s in
      let c = cleared in
      let m = enqueue_groups-Climbed k b l n (ancestors depth e s) t climb in
      let (es, is_line) = line_head depth e s in
      record {
        tree = m.tree;
        inv = m.inv;
        linked_now =
            subst (λ z. Climb k b l n z t → ((enqueue_groups k z t).rt.entity e).linked ≡ false)
              (sym is_line) (λ at. enqueue_groups-off k b l n e es t at (c.my_q_kept e ∙ task))
              climb;
      }

  -- Let a task of a priority below 100 have its ancestors up to one without a parent, none of them
  -- twice, and let the arrays of rt.c be well formed, with room for all of these and for `n` more.
  -- Then putting the task's entity on its queue, at either end, and taking it off, both with its
  -- ancestors, keep the arrays well formed, with room for `n` more: the bits are set where a queue is
  -- not empty, the highest priority is the first of them, each entity is in the queue of its own
  -- priority on its run queue if it is linked and in no other, and the counters are right. The task
  -- is on a queue after the first and on none after the second.
  pub rt_entity-Moved :
      (head : Bool)
      → (s.rt.entity e).my_q ≡ none
      → pos_part (s.task e).prio < 100
      → Moved k n e true (enqueue_rt_entity k depth e head s)
        × Moved k n e false (dequeue_rt_entity k depth e s)
  rt_entity-Moved head task low =
      (enqueue_rt_entity-Moved head task low, dequeue_rt_entity-Moved task)
