-- ===== src/Rt/Invariant/Entities.antt =====
-- What holds of all entities and arrays of rt.c between two operations.
use cs356_project.Prelude.{
  ℕ, ◌+◌, ◌<◌, ◌≡◌, sym, subst, ap, ◌∙◌, arith, Bool, true, false, List, elem, remove, elem-remove,
  length-remove, remove-Distinct, some, sub32, ◌==◌, if◌then◌else◌, Bool-cases, inl, inr,
}
use cs356_project.Kernel.RealTime.{RtRq, RtEntity}
use cs356_project.Kernel.Types.{State, write_at}
use cs356_project.Kernel.External.{Kernel, ListLaws}
use cs356_project.Rt.Memory.{rt_se_prio}
use cs356_project.Rt.Entity.{dequeue_rt_entity_one}
use cs356_project.Rt.Invariant.Bits.{BitLaws}
use cs356_project.Rt.Invariant.Arrays.{ArrayInv, taken-ArrayInv, rt_nr_running-pos}
use cs356_project.Rt.Invariant.Steps.{SameArray}
use cs356_project.Rt.Invariant.Moves.{Moves, rt_se_prio-own, dequeue_one-Moves}

-- Groups are nested: an entity's parent is the one that owns the run queue that it is put on.
pub record Tree (s : State) : Type 0 where
  pub owner :
      (d e : ℕ)
      → (s.rt.entity d).my_q ≡ some (s.rt.entity e).rt_rq
      → (s.rt.entity e).parent ≡ some d
  pub owned :
      (d e : ℕ)
      → (s.rt.entity e).parent ≡ some d
      → (s.rt.entity d).my_q ≡ some (s.rt.entity e).rt_rq
  pub proper : (e : ℕ) → (s.rt.entity e).parent ≡ some e → ⊥

-- The arrays are well formed and can count `n` entities more; an entity is in the queue of its
-- priority on its run queue if it is linked, and in no other.
pub record RtInv (k : Kernel) (n : ℕ) (s : State) : Type 0 where
  pub arrays : (r : ℕ) → ArrayInv k (s.rt.rt_rq r)
  pub room : (r : ℕ) → (s.rt.rt_rq r).rt_nr_running + n < 4294967296
  pub placed :
      (e r i : ℕ)
      → elem e ((s.rt.rt_rq r).queue i) ≡ true
      → ((s.rt.entity e).linked ≡ true) × ((s.rt.entity e).rt_rq ≡ r) × (rt_se_prio e s ≡ i)
  pub on_queue :
      (e : ℕ)
      → (s.rt.entity e).linked ≡ true
      → (rt_se_prio e s < 100)
        × (elem e ((s.rt.rt_rq (s.rt.entity e).rt_rq).queue (rt_se_prio e s)) ≡ true)

-- The parent of an entity is not linked.
abbrev pub Loose : ℕ → State → Type 0
Loose e s = (d : ℕ) → (s.rt.entity e).parent ≡ some d → (s.rt.entity d).linked ≡ false

Same-ArrayInv : (k : Kernel) {x y : RtRq} → SameArray x y → ArrayInv k x → ArrayInv k y
Same-ArrayInv k {x} {y} f v = record {
  bits = λ i c. rw (f.bitmap_same, f.queue_same) (v.bits i c);
  delimiter = rw f.bitmap_same v.delimiter;
  highest = rw (f.highest_same, f.bitmap_same) v.highest;
  distinct = λ i. rw f.queue_same (v.distinct i);
  counted = rw (f.nr_same, f.queue_same) v.counted;
}

differs : (p q : ℕ) → (p ≡ q → ⊥) → (p == q) ≡ false
differs p q h = ground (arith, h)

-- What a move leaves of the fields of an entity.
module _ {r e : ℕ} {x : RtRq} {on : Bool} {s t : State} (m : Moves r x e on s t) where
  pub moved_linked :
      (d : ℕ) → (t.rt.entity d).linked ≡ (if e == d then on else (s.rt.entity d).linked)
  moved_linked d = ap (λ (z : RtEntity). z.linked) (m.entities d) ∙ ground arith

  pub moved_rt_rq : (d : ℕ) → (t.rt.entity d).rt_rq ≡ (s.rt.entity d).rt_rq
  moved_rt_rq d = ap (λ (z : RtEntity). z.rt_rq) (m.entities d) ∙ ground arith

  pub moved_parent : (d : ℕ) → (t.rt.entity d).parent ≡ (s.rt.entity d).parent
  moved_parent d = ap (λ (z : RtEntity). z.parent) (m.entities d) ∙ ground arith

  pub moved_my_q : (d : ℕ) → (t.rt.entity d).my_q ≡ (s.rt.entity d).my_q
  moved_my_q d = ap (λ (z : RtEntity). z.my_q) (m.entities d) ∙ ground arith

  pub Moves-Tree : Tree s → Tree t
  Moves-Tree v = record {
    owner = λ d c. rw (moved_my_q d, moved_rt_rq c, moved_parent c) (v.owner d c);
    owned = λ d c. rw (moved_my_q d, moved_rt_rq c, moved_parent c) (v.owned d c);
    proper = λ d. rw (moved_parent d) (v.proper d);
  }

  -- The priority of an entity that does not own the run queue.
  pub moved_prio : (d : ℕ) → ((s.rt.entity d).my_q ≡ some r → ⊥) → rt_se_prio d t ≡ rt_se_prio d s
  moved_prio d h =
      rt_se_prio-own d s t (moved_my_q d)
        (λ g c. (m.elsewhere g (differs r g (λ same. h (c ∙ ap some (sym same))))).highest_same)
        m.tasks_kept

  -- The array of each run queue then.
  pub moved_arrays :
      (k : Kernel) (n : ℕ)
      → ArrayInv k x
      → x.rt_nr_running + n < 4294967296
      → (q : ℕ) → ArrayInv k (s.rt.rt_rq q)
      → (s.rt.rt_rq q).rt_nr_running + n < 4294967296
      → ArrayInv k (t.rt.rt_rq q) × ((t.rt.rt_rq q).rt_nr_running + n < 4294967296)
  moved_arrays k n new room q old room' = elim (Bool-cases (r == q)) [
    | inl same ↦
        let at_q : r ≡ q = ground (arith, same) in
        subst (λ z. ArrayInv k (t.rt.rt_rq z) × ((t.rt.rt_rq z).rt_nr_running + n < 4294967296))
          at_q (Same-ArrayInv k m.at_r new, rw m.at_r.nr_same room)
    | inr other ↦ let f = m.elsewhere q other in (Same-ArrayInv k f old, rw f.nr_same room')
  ]

  -- A queue then, where it is not the one that the entity moves on.
  pub moved_queue :
      (q i : ℕ) → (t.rt.rt_rq q).queue i ≡ (if r == q then x.queue i else (s.rt.rt_rq q).queue i)
  moved_queue q i = elim (Bool-cases (r == q)) [
    | inl same ↦ rw same (
        subst (λ z. (t.rt.rt_rq z).queue i ≡ x.queue i) (ground (arith, same))
          (ap (λ (f : ℕ → List ℕ). f i) m.at_r.queue_same))
    | inr other ↦ rw other (ap (λ (f : ℕ → List ℕ). f i) (m.elsewhere q other).queue_same)
  ]

module _ (k : Kernel) (b : BitLaws k) (l : ListLaws k.lists) (n e : ℕ) (s : State) (tree : Tree s)
    (v : RtInv k n s) where
  pub only_there :
      (r i : ℕ)
      → elem e ((s.rt.rt_rq r).queue i) ≡ true
      → ((s.rt.entity e).rt_rq ≡ r) × (rt_se_prio e s ≡ i)
  only_there r i h = let (_, at_r, at_i) = v.placed e r i h in (at_r, at_i)

  -- An entity that is linked does not own the run queue of another that has a loose parent.
  pub not_owner :
      Loose e s
      → (d : ℕ) → (s.rt.entity d).linked ≡ true
      → (s.rt.entity d).my_q ≡ some (s.rt.entity e).rt_rq
      → ⊥
  not_owner loose d on h = ground (arith, loose d (tree.owner d e h), on)

  dequeued_queue :
      (d i : ℕ)
      → let x = s.rt.rt_rq (s.rt.entity e).rt_rq in
        let prio = rt_se_prio e s in
        elem d (write_at prio (remove e (x.queue prio)) x.queue i)
        ≡ (if e == d then false else elem d (x.queue i))
  dequeued_queue d i =
      let r = (s.rt.entity e).rt_rq in
      let x = s.rt.rt_rq r in
      let prio = rt_se_prio e s in
      elim (Bool-cases (prio == i)) [
        | inl same ↦ ground (arith, same, elem-remove e d (x.queue prio))
        | inr other ↦ ground (arith, other, only_there r i)
      ]

  -- The entities on each queue after one was taken off.
  dequeued_elem :
      (d q i : ℕ)
      → elem d (((dequeue_rt_entity_one k e s).rt.rt_rq q).queue i)
        ≡ (if e == d then false else elem d ((s.rt.rt_rq q).queue i))
  dequeued_elem d q i =
      let r = (s.rt.entity e).rt_rq in
      let t = dequeue_rt_entity_one k e s in
      let m = dequeue_one-Moves k l e s only_there in
      elim (Bool-cases (r == q)) [
        | inl same ↦
            subst
              (λ z.
                elem d ((t.rt.rt_rq z).queue i)
                ≡ (if e == d then false else elem d ((s.rt.rt_rq z).queue i)))
              (ground (arith, same))
              (ap (λ (f : ℕ → List ℕ). elem d (f i)) m.at_r.queue_same ∙ dequeued_queue d i)
        | inr other ↦
            ap (λ (f : ℕ → List ℕ). elem d (f i)) (m.elsewhere q other).queue_same
            ∙ ground (arith, other, only_there q i)
      ]

  dequeued_prio :
      (loose : Loose e s) (d : ℕ)
      → (s.rt.entity d).linked ≡ true
      → rt_se_prio d (dequeue_rt_entity_one k e s) ≡ rt_se_prio d s
  dequeued_prio loose d on =
      moved_prio (dequeue_one-Moves k l e s only_there) d (not_owner loose d on)

  dequeued_placed :
      (s.rt.entity e).linked ≡ true
      → Loose e s
      → (d q i : ℕ)
      → let t = dequeue_rt_entity_one k e s in
        elem d ((t.rt.rt_rq q).queue i) ≡ true
        → ((t.rt.entity d).linked ≡ true) × ((t.rt.entity d).rt_rq ≡ q) × (rt_se_prio d t ≡ i)
  dequeued_placed on loose d q i h =
      let m = dequeue_one-Moves k l e s only_there in
      let f = dequeued_elem d q i in
      let there : elem d ((s.rt.rt_rq q).queue i) ≡ true = ground (arith, f, h) in
      let (on', at_q, at_i) = v.placed d q i there in
      (
        ground (arith, f, h, moved_linked m d, on'),
        moved_rt_rq m d ∙ at_q,
        dequeued_prio loose d on' ∙ at_i,
      )

  dequeued_on :
      (s.rt.entity e).linked ≡ true
      → Loose e s
      → (d : ℕ)
      → let t = dequeue_rt_entity_one k e s in
        (t.rt.entity d).linked ≡ true
        → (rt_se_prio d t < 100)
          × (elem d ((t.rt.rt_rq (t.rt.entity d).rt_rq).queue (rt_se_prio d t)) ≡ true)
  dequeued_on on loose d h =
      let m = dequeue_one-Moves k l e s only_there in
      let f = moved_linked m d in
      let other : (e == d) ≡ false = ground (arith, f, h) in
      let on' : (s.rt.entity d).linked ≡ true = ground (arith, f, h) in
      let (below, there) = v.on_queue d on' in
      let p = dequeued_prio loose d on' in
      rw (p, moved_rt_rq m d)
        (
          below,
          dequeued_elem d (s.rt.entity d).rt_rq (rt_se_prio d s) ∙ ground (arith, other, there),
        )

  pub dequeue_one-RtInv :
      (s.rt.entity e).linked ≡ true → Loose e s → RtInv k n (dequeue_rt_entity_one k e s)
  dequeue_one-RtInv on loose =
      let r = (s.rt.entity e).rt_rq in
      let x = s.rt.rt_rq r in
      let prio = rt_se_prio e s in
      let m = dequeue_one-Moves k l e s only_there in
      let here = v.on_queue e on in
      let shorter = length-remove e (x.queue prio) ((v.arrays r).distinct prio) here.1 in
      let new =
        taken-ArrayInv k b prio (remove e (x.queue prio)) x here.0 shorter
          (remove-Distinct e (x.queue prio) ((v.arrays r).distinct prio)) (omega (arith, v.room r))
          (v.arrays r) in
      let room : sub32 x.rt_nr_running 1 + n < 4294967296 =
        omega (arith, v.room r, rt_nr_running-pos k e prio x here.0 here.1 (v.arrays r)) in
      record {
        arrays = λ q. (moved_arrays m k n new room q (v.arrays q) (v.room q)).0;
        room = λ q. (moved_arrays m k n new room q (v.arrays q) (v.room q)).1;
        placed = λ d q i h. dequeued_placed on loose d q i h;
        on_queue = λ d h. dequeued_on on loose d h;
      }
