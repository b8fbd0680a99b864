-- ===== src/Rt/Invariant/Filled.antt =====
-- Priorities of arrays with entities: rt.c (rt_se_prio, pick_next_rt_entity).
use cs356_project.Prelude.{
  ℕ, zero, suc, ◌<◌, ◌≡◌, refl, ap, ◌∙◌, arith, true, false, List, [], ◌∷◌, length, Option, some,
  none, pos_part, ◌==◌, ltb, Bool-cases, inl, inr,
}
use cs356_project.Kernel.RealTime.{RtRq}
use cs356_project.Kernel.Types.{State}
use cs356_project.Kernel.External.{Kernel}
use cs356_project.Rt.Memory.{rt_se_prio}
use cs356_project.Rt.Entity.{no_tasks, not_to_run}
use cs356_project.Rt.Invariant.Bits.{sum_to, BitLaws}
use cs356_project.Rt.Invariant.Arrays.{ArrayInv, on_queues}
use cs356_project.Rt.Invariant.Moves.{prio_of, prio_is}

sum_to_none : (n : ℕ) (f : ℕ → ℕ) → ((i : ℕ) → i < n → f i ≡ 0) → sum_to n f ≡ 0
sum_to_none zero f h = refl
sum_to_none (suc n) f h =
    omega (arith, sum_to_none n f (λ i c. h i (omega arith)), h n (omega arith))

length_none : (q : List ℕ) → no_tasks q ≡ true → length q ≡ 0
length_none [] h = refl
length_none (x ∷ q) h = ground (arith, h)

module _ (k : Kernel) (b : BitLaws k) (x : RtRq) (v : ArrayInv k x) where
  -- No entity waits before the highest priority.
  pub none_before : (i : ℕ) → i < x.highest_prio → i < 100 → no_tasks (x.queue i) ≡ true
  none_before i h c =
      ground (arith, v.bits i c, b.first_least x.bitmap i v.delimiter (omega (arith, v.highest)))

  pub highest_below : (x.rt_nr_running == 0) ≡ false → x.highest_prio < 100
  unfolding on_queues
  highest_below h = elim (Bool-cases (ltb x.highest_prio 100)) [
    | inl below ↦ ground (arith, below)
    | inr above ↦
        let nothing : sum_to 100 (λ i. length (x.queue i)) ≡ 0 =
          sum_to_none 100 (λ i. length (x.queue i))
            (λ i c. length_none (x.queue i) (none_before i (ground (arith, above)) c)) in
        ground (arith, h, v.counted ∙ nothing)
  ]

  pub highest_filled : (x.rt_nr_running == 0) ≡ false → no_tasks (x.queue x.highest_prio) ≡ false
  highest_filled h =
      let f = b.first_set x.bitmap v.delimiter in
      ground (arith, v.bits x.highest_prio (highest_below h), ap x.bitmap v.highest ∙ f)

module _ (k : Kernel) (b : BitLaws k) where
  prio_of-below :
      (o : Option ℕ) (e : ℕ) (s : State)
      → ((r : ℕ) → ArrayInv k (s.rt.rt_rq r))
      → not_to_run k o s ≡ false
      → (o ≡ none → pos_part (s.task e).prio < 100)
      → prio_of o e s < 100
  unfolding prio_of
  prio_of-below none e s v runs h = h refl
  prio_of-below (some g) e s v runs h =
      highest_below k b (s.rt.rt_rq g) (v g) (ground (arith, runs))

  -- The priority of an entity that is to run.
  pub rt_se_prio-below :
      (e : ℕ) (s : State)
      → ((r : ℕ) → ArrayInv k (s.rt.rt_rq r))
      → not_to_run k (s.rt.entity e).my_q s ≡ false
      → ((s.rt.entity e).my_q ≡ none → pos_part (s.task e).prio < 100)
      → rt_se_prio e s < 100
  rt_se_prio-below e s v runs h = rw (prio_is e s) (prio_of-below (s.rt.entity e).my_q e s v runs h)
