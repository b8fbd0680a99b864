-- ===== src/Rt/Invariant/Enqueued.antt =====
-- Putting an entity on its queue (rt.c, __enqueue_rt_entity) keeps the arrays well formed.
use cs356_project.Prelude.{
  ℕ, suc, ◌+◌, ◌<◌, ◌≡◌, refl, subst, ap, ◌∙◌, arith, Bool, true, false, ◌&&◌, List, [], ◌∷◌, elem,
  elem-append, length, length-append, Distinct, append-Distinct, add32, ◌==◌, if◌then◌else◌,
  Bool-cases, inl, inr,
}
use cs356_project.Kernel.Types.{State, write_at}
use cs356_project.Kernel.External.{Kernel, ListLaws}
use cs356_project.Rt.Memory.{rt_se_prio}
use cs356_project.Rt.Entity.{no_tasks, not_to_run, enqueue_rt_entity_one}
use cs356_project.Rt.Invariant.Bits.{BitLaws}
use cs356_project.Rt.Invariant.Arrays.{put, put-ArrayInv, filled_queue}
use cs356_project.Rt.Invariant.Moves.{Moves, queue_with, enqueue_one-Moves}
use cs356_project.Rt.Invariant.Entities.{
  Tree, RtInv, Loose, moved_linked, moved_rt_rq, moved_prio, moved_arrays, not_owner,
}

module _ (k : Kernel) (l : ListLaws k.lists) (e : ℕ) (head : Bool) (q : List ℕ) where
  -- A queue with one entity more.
  with-elem : (d : ℕ) → elem d (queue_with k e head q) ≡ (if e == d then true else elem d q)
  with-elem d = elim (Bool-cases head) [
    | inl first ↦ rw (first, l.add_lem e q) (ground arith)
    | inr last ↦ rw (last, l.add_tail_lem e q) (ground (arith, elem-append d q (e ∷ [])))
  ]

  with-length : length (queue_with k e head q) ≡ suc (length q)
  with-length = elim (Bool-cases head) [
    | inl first ↦ rw (first, l.add_lem e q) refl
    | inr last ↦ rw (last, l.add_tail_lem e q) (omega (arith, length-append q (e ∷ [])))
  ]

  with-some : no_tasks (queue_with k e head q) ≡ false
  with-some = filled_queue (queue_with k e head q) (length q) with-length

  with-Distinct : Distinct q → elem e q ≡ false → Distinct (queue_with k e head q)
  with-Distinct d h = elim (Bool-cases head) [
    | inl first ↦ rw (first, l.add_lem e q) (h, d)
    | inr last ↦ rw (last, l.add_tail_lem e q) (append-Distinct e q d h)
  ]

module _ (k : Kernel) (b : BitLaws k) (l : ListLaws k.lists) (n e : ℕ) (head : Bool) (s : State)
    (tree : Tree s) (v : RtInv k (suc n) s) (off : (s.rt.entity e).linked ≡ false)
    (loose : Loose e s) where
  not_there : (r i : ℕ) → elem e ((s.rt.rt_rq r).queue i) ≡ false
  not_there r i = ground (arith, off, v.placed e r i)

  pub weaker : RtInv k n s
  weaker = record {
    arrays = v.arrays;
    room = λ r. omega (arith, v.room r);
    placed = v.placed;
    on_queue = v.on_queue;
  }

  module _ (runs : not_to_run k (s.rt.entity e).my_q s ≡ false) (bound : rt_se_prio e s < 100) where
    moves :
        Moves
          (s.rt.entity e).rt_rq
          (put
            (rt_se_prio e s)
            (queue_with k e head ((s.rt.rt_rq (s.rt.entity e).rt_rq).queue (rt_se_prio e s)))
            (s.rt.rt_rq (s.rt.entity e).rt_rq))
          e
          true
          s
          (enqueue_rt_entity_one k e head s)
    moves = enqueue_one-Moves k e head s runs

    put-elem :
        (d i : ℕ)
        → let x = s.rt.rt_rq (s.rt.entity e).rt_rq in
          let prio = rt_se_prio e s in
          elem d (write_at prio (queue_with k e head (x.queue prio)) x.queue i)
          ≡ (if e == d then prio == i else elem d (x.queue i))
    put-elem d i =
        let r = (s.rt.entity e).rt_rq in
        let x = s.rt.rt_rq r in
        let prio = rt_se_prio e s in
        elim (Bool-cases (prio == i)) [
          | inl same ↦ ground (arith, same, with-elem k l e head (x.queue prio) d)
          | inr other ↦ ground (arith, other, not_there r i)
        ]

    enqueued_elem :
        (d q i : ℕ)
        → elem d (((enqueue_rt_entity_one k e head s).rt.rt_rq q).queue i) ≡ (
            if e == d
            then (s.rt.entity e).rt_rq == q && rt_se_prio e s == i
            else elem d ((s.rt.rt_rq q).queue i))
    enqueued_elem d q i =
        let r = (s.rt.entity e).rt_rq in
        let t = enqueue_rt_entity_one k e head s in
        elim (Bool-cases (r == q)) [
          | inl same ↦
              subst
                (λ z. elem d ((t.rt.rt_rq z).queue i) ≡ (
                  if e == d then true && rt_se_prio e s == i else elem d ((s.rt.rt_rq z).queue i)))
                (ground (arith, same))
                (ap (λ (f : ℕ → List ℕ). elem d (f i)) moves.at_r.queue_same ∙ put-elem d i)
              ∙ ground (arith, same)
          | inr other ↦
              ap (λ (f : ℕ → List ℕ). elem d (f i)) (moves.elsewhere q other).queue_same
              ∙ ground (arith, other, not_there q i)
        ]

    enqueued_prio_self : rt_se_prio e (enqueue_rt_entity_one k e head s) ≡ rt_se_prio e s
    enqueued_prio_self = moved_prio moves e (λ own. tree.proper e (tree.owner e e own))

    enqueued_prio :
        (d : ℕ)
        → (s.rt.entity d).linked ≡ true
        → rt_se_prio d (enqueue_rt_entity_one k e head s) ≡ rt_se_prio d s
    enqueued_prio d on = moved_prio moves d (not_owner k b l (suc n) e s tree v loose d on)

    enqueued_placed :
        (d q i : ℕ)
        → let t = enqueue_rt_entity_one k e head s in
          elem d ((t.rt.rt_rq q).queue i) ≡ true
          → ((t.rt.entity d).linked ≡ true) × ((t.rt.entity d).rt_rq ≡ q) × (rt_se_prio d t ≡ i)
    enqueued_placed d q i h =
        let f = enqueued_elem d q i in
        elim (Bool-cases (e == d)) [
          | inl self ↦
              subst
                (λ z.
                  let t = enqueue_rt_entity_one k e head s in
                  ((t.rt.entity z).linked ≡ true)
                  × ((t.rt.entity z).rt_rq ≡ q)
                  × (rt_se_prio z t ≡ i))
                (ground (arith, self))
                (
                  ground (arith, moved_linked moves e),
                  moved_rt_rq moves e ∙ ground (arith, f, h, self),
                  enqueued_prio_self ∙ ground (arith, f, h, self),
                )
          | inr other ↦
              let there : elem d ((s.rt.rt_rq q).queue i) ≡ true = ground (arith, f, h, other) in
              let (on', at_q, at_i) = v.placed d q i there in
              (
                ground (arith, other, moved_linked moves d, on'),
                moved_rt_rq moves d ∙ at_q,
                enqueued_prio d on' ∙ at_i,
              )
        ]

    enqueued_on :
        (d : ℕ)
        → let t = enqueue_rt_entity_one k e head s in
          (t.rt.entity d).linked ≡ true
          → (rt_se_prio d t < 100)
            × (elem d ((t.rt.rt_rq (t.rt.entity d).rt_rq).queue (rt_se_prio d t)) ≡ true)
    enqueued_on d h = elim (Bool-cases (e == d)) [
      | inl self ↦
          let at_d : e ≡ d = ground (arith, self) in
          subst
            (λ z.
              let t = enqueue_rt_entity_one k e head s in
              (rt_se_prio z t < 100)
              × (elem z ((t.rt.rt_rq (t.rt.entity z).rt_rq).queue (rt_se_prio z t)) ≡ true))
            at_d
            (rw (enqueued_prio_self, moved_rt_rq moves e)
              (bound, enqueued_elem e (s.rt.entity e).rt_rq (rt_se_prio e s) ∙ ground arith))
      | inr other ↦
          let on' : (s.rt.entity d).linked ≡ true =
            ground (arith, other, h, moved_linked moves d) in
          let (below, there) = v.on_queue d on' in
          rw (enqueued_prio d on', moved_rt_rq moves d)
            (
              below,
              enqueued_elem d (s.rt.entity d).rt_rq (rt_se_prio d s) ∙ ground (arith, other, there),
            )
    ]

    pub enqueued-RtInv : RtInv k n (enqueue_rt_entity_one k e head s)
    enqueued-RtInv =
        let r = (s.rt.entity e).rt_rq in
        let x = s.rt.rt_rq r in
        let prio = rt_se_prio e s in
        let q = x.queue prio in
        let new =
          put-ArrayInv k b prio (queue_with k e head q) x bound (with-some k l e head q)
            (with-length k l e head q)
            (with-Distinct k l e head q ((v.arrays r).distinct prio) (not_there r prio))
            (omega (arith, v.room r)) (v.arrays r) in
        let room : add32 x.rt_nr_running 1 + n < 4294967296 = omega (arith, v.room r) in
        record {
          arrays = λ z. (moved_arrays moves k n new room z (v.arrays z) (weaker.room z)).0;
          room = λ z. (moved_arrays moves k n new room z (v.arrays z) (weaker.room z)).1;
          placed = enqueued_placed;
          on_queue = enqueued_on;
        }
