-- ===== src/Bandwidth/Checked.antt =====
-- What a change of a group's bandwidth leaves behind: core.c (tg_set_rt_bandwidth).
use cs356_project.Prelude.{
  ℕ, suc, ◌≡◌, refl, sym, ap, ◌∙◌, arith, Bool, true, false, ◌||◌, ◌&&◌, List, [], ◌∷◌, some, ℤ,
  pos, eqb_ℤ, add32, ◌==◌, if◌then◌else◌, Bool-cases, inl, inr, ◌⊎◌,
}
use cs356_project.Kernel.Types.{State, Task}
use cs356_project.Core.Prio.{rt_prio}
use cs356_project.Bandwidth.Admission.{
  Sysctl, RtSchedulableData, to_ratio, is_group, tg_has_rt_tasks, period_of, runtime_of, sum_ratios,
  tg_rt_schedulable, rt_schedulable, write_bandwidth, write_unless, tg_set_rt_bandwidth,
}
use cs356_project.Bandwidth.Limits.{settled, Schedulable, check-Schedulable, Schedulable-check}
use cs356_project.Bandwidth.Tree.{
  Forest, roots, member, steps, or_else, Fits, first_error, walk_tg_tree_from_lem, first_error-none,
  first_error-some, first_clear, second_clear,
}

-- A proposal for a group.
abbrev pub proposal : ℕ → ℕ → ℕ → RtSchedulableData
proposal g period runtime = record { tg = some g; rt_period = period; rt_runtime = runtime }

-- Groups with the same settings, where a proposal counts as the setting of its group, and the same
-- children, and states with the same tasks.
record SameSettings (d d' : RtSchedulableData) (s t : State) : Type 0 where
  same_period : (h : ℕ) → period_of d' h t ≡ period_of d h s
  same_runtime : (h : ℕ) → runtime_of d' h t ≡ runtime_of d h s
  same_children : (h : ℕ) → (t.rt.group h).children ≡ (s.rt.group h).children
  same_tasks : t.task ≡ s.task
  same_tg : (t.rt.rt_rq 0).tg ≡ (s.rt.rt_rq 0).tg

write_bandwidth-SameSettings :
    (g period runtime : ℕ) (s : State)
    → SameSettings (proposal g period runtime) settled s (write_bandwidth g period runtime s)
write_bandwidth-SameSettings g period runtime s = record {
  same_period = λ h. ground arith;
  same_runtime = λ h. ground arith;
  same_children = λ h. ground arith;
  same_tasks = refl;
  same_tg = ground arith;
}

module _ {d d' : RtSchedulableData} {s t : State} (v : SameSettings d d' s t) where
  sum_ratios-same : (cs : List ℕ) (sum : ℕ) → sum_ratios d' cs t sum ≡ sum_ratios d cs s sum
  unfolding sum_ratios
  sum_ratios-same [] sum = refl
  sum_ratios-same (c ∷ cs) sum =
      ap (λ r. sum_ratios d' cs t (add32 sum r))
        (ap (λ p. to_ratio p (runtime_of d' c t)) (v.same_period c)
          ∙ ap (to_ratio (period_of d c s)) (v.same_runtime c))
      ∙ sum_ratios-same cs _

  tg_has_rt_tasks-same :
      (tasks : List ℕ) (g : ℕ) → tg_has_rt_tasks tasks g t ≡ tg_has_rt_tasks tasks g s
  unfolding tg_has_rt_tasks
  tg_has_rt_tasks-same [] g = refl
  tg_has_rt_tasks-same (p ∷ ps) g =
      ap
        (λ (m : ℕ → Task).
          if rt_prio (m p).prio && is_group g (t.rt.rt_rq 0).tg
          then true
          else tg_has_rt_tasks ps g t)
        v.same_tasks
      ∙ ap (λ o. if rt_prio (s.task p).prio && is_group g o then true else tg_has_rt_tasks ps g t)
          v.same_tg
      ∙ ap (λ r. if rt_prio (s.task p).prio && is_group g (s.rt.rt_rq 0).tg then true else r)
          (tg_has_rt_tasks-same ps g)

  tg_rt_schedulable-same :
      (c : Sysctl) (tasks : List ℕ) (h : ℕ)
      → tg_rt_schedulable c tasks d' t h ≡ tg_rt_schedulable c tasks d s h
  unfolding tg_rt_schedulable
  tg_rt_schedulable-same c tasks h =
      let sums : sum_ratios d' (t.rt.group h).children t 0
          ≡ sum_ratios d (s.rt.group h).children s 0 =
        sum_ratios-same (t.rt.group h).children 0
        ∙ ap (λ cs. sum_ratios d cs s 0) (v.same_children h) in
      rw (v.same_period h, v.same_runtime h, tg_has_rt_tasks-same tasks h, sums) refl

-- A group of the tree below the root group 0, the root included.
abbrev pub in_tree : ℕ → Forest → Bool
in_tree h f = 0 == h || member h f

-- The setting is written, and all groups are within their limits.
pub record Granted (c : Sysctl) (tasks : List ℕ) (f : Forest) (g period runtime : ℕ) (s t : State)
    : Type 0 where
  pub period_written : (t.rt.group g).rt_period ≡ period
  pub runtime_written : (t.rt.group g).rt_runtime ≡ runtime
  pub queue_written : (t.rt.rt_rq (s.rt.group g).rt_rq).rt_runtime ≡ runtime
  pub within_limits : (h : ℕ) → in_tree h f ≡ true → Schedulable c tasks t h

-- Nothing is changed, and with the setting written some group would not be within its limits.
pub record Refused (c : Sysctl) (tasks : List ℕ) (f : Forest) (g period runtime : ℕ) (s t : State)
    : Type 0 where
  pub unchanged : t ≡ s
  pub offender : ℕ
  pub offends : in_tree offender f ≡ true
  pub beyond_limits : Schedulable c tasks (write_bandwidth g period runtime s) offender → ⊥

module _ (c : Sysctl) (tasks : List ℕ) (f : Forest) (s : State) where
  -- The first error of the check, in preorder.
  abbrev pub verdict : RtSchedulableData → ℤ
  verdict d =
      let check = tg_rt_schedulable c tasks d s in
      or_else (check 0) (first_error s.rt.group 0 check f)

module _ (c : Sysctl) (tasks : List ℕ) (f : Forest) (n : ℕ) (s : State)
    (below : (s.rt.group 0).children ≡ roots f) (fits : Fits s.rt.group 0 0 f) where
  pub rt_schedulable_lem :
      (d : RtSchedulableData)
      → rt_schedulable c tasks (suc (steps f (suc n))) d s ≡ some (verdict c tasks f s d)
  unfolding rt_schedulable
  rt_schedulable_lem d =
      walk_tg_tree_from_lem s.rt.group 0 (tg_rt_schedulable c tasks d s) f n below fits

  -- The check of a group with the request in the place of its setting, and with it written.
  written_check :
      (g period runtime h : ℕ)
      → eqb_ℤ (tg_rt_schedulable c tasks settled (write_bandwidth g period runtime s) h) (pos 0)
        ≡ eqb_ℤ (tg_rt_schedulable c tasks (proposal g period runtime) s h) (pos 0)
  written_check g period runtime h =
      ap (λ e. eqb_ℤ e (pos 0))
        (tg_rt_schedulable-same (write_bandwidth-SameSettings g period runtime s) c tasks h)

  clear-Granted :
      (g period runtime : ℕ)
      → eqb_ℤ (verdict c tasks f s (proposal g period runtime)) (pos 0) ≡ true
      → Granted c tasks f g period runtime s (write_bandwidth g period runtime s)
  clear-Granted g period runtime clear =
      let check = tg_rt_schedulable c tasks (proposal g period runtime) s in
      let rest = first_error s.rt.group 0 check f in
      record {
        period_written = ground arith;
        runtime_written = ground arith;
        queue_written = ground arith;
        within_limits = λ h m. check-Schedulable c tasks _ h (
            written_check g period runtime h ∙ elim (Bool-cases (0 == h)) [
              | inl top ↦
                  let at_h : 0 ≡ h = ground (arith, top) in
                  ap (λ z. eqb_ℤ (check z) (pos 0)) (sym at_h) ∙ first_clear (check 0) rest clear
              | inr inner ↦
                  first_error-none s.rt.group 0 check f h (second_clear (check 0) rest clear)
                    (ground (arith, m, inner))
            ]);
      }

  refuses :
      (g period runtime h : ℕ)
      → in_tree h f ≡ true
      → eqb_ℤ (tg_rt_schedulable c tasks (proposal g period runtime) s h) (pos 0) ≡ false
      → Refused c tasks f g period runtime s s
  refuses g period runtime h m error = record {
    unchanged = refl;
    offender = h;
    offends = m;
    beyond_limits = λ v.
        let clear = sym (written_check g period runtime h) ∙ Schedulable-check c tasks _ h v in
        ground (arith, clear, error);
  }

  error-Refused :
      (g period runtime : ℕ)
      → eqb_ℤ (verdict c tasks f s (proposal g period runtime)) (pos 0) ≡ false
      → Refused c tasks f g period runtime s s
  error-Refused g period runtime error =
      let check = tg_rt_schedulable c tasks (proposal g period runtime) s in
      let rest = first_error s.rt.group 0 check f in
      elim (Bool-cases (eqb_ℤ (check 0) (pos 0))) [
        | inr top ↦ refuses g period runtime 0 refl top
        | inl clear ↦
            let below : eqb_ℤ rest (pos 0) ≡ false =
              sym (ap (λ (b : Bool). eqb_ℤ (if b then rest else check 0) (pos 0)) clear) ∙ error in
            let (h, m, e) = first_error-some s.rt.group 0 check f below in
            refuses g period runtime h (ground (arith, m)) e
      ]

  -- Let the groups below the root group form a tree. Then the request for a period and a runtime of
  -- a group ends, with three rounds for each group as fuel. It answers 0 and writes the setting, and
  -- then every group has a runtime within its period or without a limit, which is not 0 if the code
  -- finds real-time tasks for the group and their bandwidth is limited, a ratio of runtime to period
  -- within the global one, and children whose ratios add up, modulo 2 ^ 32, to no more than its own;
  -- or it answers with an error and changes nothing, and with the setting written some group would
  -- not be so.
  pub tg_set_rt_bandwidth_lem :
      (g period runtime : ℕ)
      → (e : ℤ) × (t : State) × (tg_set_rt_bandwidth c tasks
            (suc (steps f (suc n)))
            g
            period
            runtime
            s
          ≡ some (e, t))
        × (((eqb_ℤ e (pos 0) ≡ true) × Granted c tasks f g period runtime s t)
            ⊎ ((eqb_ℤ e (pos 0) ≡ false) × Refused c tasks f g period runtime s t))
  unfolding tg_set_rt_bandwidth
  tg_set_rt_bandwidth_lem g period runtime =
      let e = verdict c tasks f s (proposal g period runtime) in
      let t = write_bandwidth g period runtime s in
      let ends =
        ap (λ o. write_unless o g period runtime s)
          (rt_schedulable_lem (proposal g period runtime)) in
      elim (Bool-cases (eqb_ℤ e (pos 0))) [
        | inl clear ↦ (
          e,
          t,
          ends ∙ ap (λ (b : Bool). if b then some (e, t) else some (e, s)) clear,
          inl (clear, clear-Granted g period runtime clear),
        )
        | inr error ↦ (
          e,
          s,
          ends ∙ ap (λ (b : Bool). if b then some (e, t) else some (e, s)) error,
          inr (error, error-Refused g period runtime error),
        )
      ]
