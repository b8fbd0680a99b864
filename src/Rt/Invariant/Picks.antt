-- ===== src/Rt/Invariant/Picks.antt =====
-- The entity that rt.c (pick_next_rt_entity) picks.
use cs356_project.Prelude.{
  ℕ, ◌≡◌, ◌≤◌, refl, sym, ap, ◌∙◌, arith, true, false, List, [], ◌∷◌, elem, some, ◌==◌, ltb, leb,
  Bool-cases, inl, inr,
}
use cs356_project.Kernel.Types.{State, done}
use cs356_project.Kernel.External.{Kernel, ListLaws}
use cs356_project.Rt.Memory.{rt_se_prio}
use cs356_project.Rt.Entity.{no_tasks, pick_next_rt_entity}
use cs356_project.Rt.Invariant.Bits.{BitLaws}
use cs356_project.Rt.Invariant.Entities.{RtInv}
use cs356_project.Rt.Invariant.Filled.{none_before, highest_below, highest_filled}

-- An entity that is on the run queue, where none has a higher priority.
pub record Highest (r e : ℕ) (s : State) : Type 0 where
  pub linked : (s.rt.entity e).linked ≡ true
  pub on : (s.rt.entity e).rt_rq ≡ r
  pub first :
      (d : ℕ)
      → (s.rt.entity d).linked ≡ true
      → (s.rt.entity d).rt_rq ≡ r
      → rt_se_prio e s ≤ rt_se_prio d s

-- The head of a queue that is not empty.
head_of : (q : List ℕ) → no_tasks q ≡ false → (e : ℕ) × (rest : List ℕ) × (q ≡ e ∷ rest)
head_of [] h = ground (arith, h)
head_of (e ∷ rest) h = (e, rest, refl)

not_before : (e : ℕ) (q : List ℕ) → no_tasks q ≡ true → elem e q ≡ false
not_before e [] h = refl
not_before e (d ∷ q) h = ground (arith, h)

module _ (k : Kernel) (b : BitLaws k) (l : ListLaws k.lists) (n r : ℕ) (s : State)
    (v : RtInv k n s) where
  waits :
      (d : ℕ)
      → (s.rt.entity d).linked ≡ true
      → (s.rt.entity d).rt_rq ≡ r
      → (s.rt.rt_rq r).highest_prio ≤ rt_se_prio d s
  waits d on at_r =
      let (below, there) = v.on_queue d on in
      let here : elem d ((s.rt.rt_rq r).queue (rt_se_prio d s)) ≡ true =
        sym (ap (λ q. elem d ((s.rt.rt_rq q).queue (rt_se_prio d s))) at_r) ∙ there in
      elim (Bool-cases (ltb (rt_se_prio d s) (s.rt.rt_rq r).highest_prio)) [
        | inl before ↦
            let none_there =
              none_before k b (s.rt.rt_rq r) (v.arrays r) (rt_se_prio d s) (ground (arith, before))
                below in
            ground (arith, not_before d ((s.rt.rt_rq r).queue (rt_se_prio d s)) none_there, here)
        | inr after ↦ ground (arith, after)
      ]

  -- On a run queue with tasks, where the arrays are well formed, the search for the next entity never
  -- meets BUG_ON(): it gives an entity that is linked on this run queue, and none there has a higher
  -- priority.
  pub pick_next_rt_entity-Highest :
      ((s.rt.rt_rq r).rt_nr_running == 0) ≡ false
      → (e : ℕ) × (pick_next_rt_entity k r s ≡ done e) × Highest r e s
  unfolding pick_next_rt_entity
  pick_next_rt_entity-Highest some_run =
      let x = s.rt.rt_rq r in
      let a = v.arrays r in
      let below = highest_below k b x a some_run in
      let (e, rest, is_head) = head_of (x.queue x.highest_prio) (highest_filled k b x a some_run) in
      let there : elem e (x.queue x.highest_prio) ≡ true = ap (elem e) is_head ∙ ground arith in
      let (on, at_r, at_prio) = v.placed e r x.highest_prio there in
      let found : k.list_first_entry (x.queue (k.sched_find_first_bit x.bitmap)) ≡ some e =
        ap (λ i. k.list_first_entry (x.queue i)) (sym a.highest)
        ∙ ap k.list_first_entry is_head
        ∙ l.first_cons e rest in
      let few : leb 100 (k.sched_find_first_bit x.bitmap) ≡ false =
        ground (arith, below, a.highest) in
      (
        e,
        rw (few, found) refl,
        record { linked = on; on = at_r; first = λ d on' at_r'. rw at_prio (waits d on' at_r') },
      )
