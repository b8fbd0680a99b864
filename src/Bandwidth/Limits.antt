-- ===== src/Bandwidth/Limits.antt =====
-- What the check of core.c (tg_rt_schedulable) asks of a group, without the order of its tests.
use cs356_project.Prelude.{
  ℕ, if◌then◌else◌, ◌+◌, ◌*◌, ◌/◌, ◌%◌, ◌≡◌, ◌≤◌, ◌<◌, arith, ◌∙◌, true, false, ◌&&◌, List, [], ◌∷◌,
  pos, eqb_ℤ, add32, ◌==◌, Bool-cases, inl, inr, ◌⊎◌, none,
}
use cs356_project.Kernel.Types.{State}
use cs356_project.Rt.Memory.{runtime_inf}
use cs356_project.Bandwidth.Admission.{
  Sysctl, RtSchedulableData, to_ratio, tg_has_rt_tasks, sum_ratios, tg_rt_schedulable,
  rt_bandwidth_enabled, global_rt_period, global_rt_runtime,
}

-- No proposal.
abbrev pub settled : RtSchedulableData
settled = record { tg = none; rt_period = 0; rt_runtime = 0 }

-- A runtime in parts of 2 ^ 20 of its period, a word of 32 bits; a runtime without a limit counts
-- as the whole period. The product with 2 ^ 20 is a word of 64 bits.
abbrev pub parts : ℕ → ℕ → ℕ
parts period runtime =
    if runtime == 18446744073709551615
    then 1048576
    else runtime * 1048576 % 18446744073709551616 / period % 4294967296

-- The ratio of a group's runtime to its period, and the sum of those of several groups.
abbrev pub ratio : State → ℕ → ℕ
ratio s g = parts (s.rt.group g).rt_period (s.rt.group g).rt_runtime

abbrev pub ratios : State → List ℕ → ℕ
ratios s [] = 0
ratios s (g ∷ gs) = ratio s g + ratios s gs

-- A group's runtime is within its period or without a limit; it is not 0 if real-time tasks are
-- found for the group and their bandwidth is limited; its ratio is within the global one; and the
-- sum of its children's ratios, as a word of 32 bits, is within its own.
pub record Schedulable (c : Sysctl) (tasks : List ℕ) (s : State) (g : ℕ) : Type 0 where
  pub within :
      ((s.rt.group g).rt_runtime ≡ runtime_inf)
      ⊎ ((s.rt.group g).rt_runtime ≤ (s.rt.group g).rt_period)
  pub fed :
      ((rt_bandwidth_enabled c && tg_has_rt_tasks tasks g s) ≡ false)
      ⊎ (0 < (s.rt.group g).rt_runtime)
  pub global : ratio s g ≤ parts (global_rt_period c) (global_rt_runtime c)
  pub children : ratios s (s.rt.group g).children % 4294967296 ≤ ratio s g

sum_ratios-mod :
    (gs : List ℕ) (s : State) (sum : ℕ)
    → sum < 4294967296
    → sum_ratios settled gs s sum ≡ (sum + ratios s gs) % 4294967296
unfolding sum_ratios to_ratio
sum_ratios-mod [] s sum h = omega (arith, h)
sum_ratios-mod (g ∷ gs) s sum h =
    sum_ratios-mod gs s (add32 sum (ratio s g)) (omega arith) ∙ omega arith

module _ (c : Sysctl) (tasks : List ℕ) (s : State) (g : ℕ) where
  children_sum :
      sum_ratios settled (s.rt.group g).children s 0 ≡ ratios s (s.rt.group g).children % 4294967296
  children_sum = sum_ratios-mod (s.rt.group g).children s 0 (omega arith) ∙ omega arith

  pub check-Schedulable :
      eqb_ℤ (tg_rt_schedulable c tasks settled s g) (pos 0) ≡ true → Schedulable c tasks s g
  unfolding tg_rt_schedulable to_ratio
  check-Schedulable h = record {
    within = elim (Bool-cases ((s.rt.group g).rt_runtime == runtime_inf)) [
      | inl unlimited ↦ inl (ground (arith, unlimited))
      | inr limited ↦ inr (ground (arith, limited, h))
    ];
    fed = elim (Bool-cases (rt_bandwidth_enabled c && tg_has_rt_tasks tasks g s)) [
      | inl has ↦ inr (ground (arith, has, h))
      | inr has_none ↦ inl has_none
    ];
    global = ground (arith, h);
    children = ground (arith, h, children_sum);
  }

  pub Schedulable-check :
      Schedulable c tasks s g → eqb_ℤ (tg_rt_schedulable c tasks settled s g) (pos 0) ≡ true
  unfolding tg_rt_schedulable to_ratio
  Schedulable-check v = ground (arith, v.within, v.fed, v.global, v.children, children_sum)
