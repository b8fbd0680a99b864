-- ===== src/Core/Answers.antt =====
-- What the system calls of core.c read back after a change of policy.
use cs356_project.Prelude.{
  ℕ, ◌+◌, ◌-◌, ◌≤◌, ◌≡◌, refl, arith, ◌∙◌, Bool, true, false, Bool-cases, inl, inr, ap, ℤ, eqb_ℤ,
  pos, pos_part, some, sym,
}
use cs356_project.Kernel.Types.{Task, State}
use cs356_project.Kernel.External.{Kernel, ClassLaws, ListLaws}
use cs356_project.Core.Prio.{set_load_weight}
use cs356_project.Core.Frames.{Kept, Kept-trans}
use cs356_project.Core.Policy.Request.{
  einval, asked_policy, asked_reset, check_param, check_permission, check_bandwidth, has_reset_flag,
  without_reset_flag,
}
use cs356_project.Core.Policy.Change.{
  change_policy, setscheduler, write_policy, write_class, sched_setscheduler,
  sched_setscheduler_common, sched_setscheduler_locked, unchanged, is_stop,
}
use cs356_project.Core.Policy.Checks.{check_param-word}
use cs356_project.Core.Live.Changes.{change_policy-Alters, put_back-Kept, check_class_changed-Kept}
use cs356_project.Core.Syscalls.{
  policy_and_flag, param, sys_sched_setscheduler, sys_sched_getscheduler, do_sched_setscheduler,
  find_process_by_pid,
}

refused : {s t : State} (x : ℤ) → eqb_ℤ x (pos 0) ≡ false → ¬ ◌≡◌ {A = State × ℤ} (s, x) (t, pos 0)
refused {s} {t} x n e = let h : x ≡ pos 0 = ap (λ (y : State × ℤ). y.1) e in ground (arith, n, h)

-- The settings of a task that a user reads back.
abbrev pub settings : Task → ℕ × Bool
settings t = (t.policy, t.sched_reset_on_fork)

Kept-settings : {s t : State} → Kept s t → (p : ℕ) → settings (t.task p) ≡ settings (s.task p)
Kept-settings g p = ground (arith, g.fields_kept p)

of_flag : (policy : ℕ) → has_reset_flag policy ≡ true → 0x40000000 ≤ policy
of_flag policy h = ground (arith, h)

-- Taking the flag out of a policy and putting it back.
flag_back :
    (t : Task) (policy : ℕ)
    → settings t ≡ (without_reset_flag policy, has_reset_flag policy)
    → policy_and_flag t ≡ pos policy
flag_back t policy h =
    let a : t.policy ≡ without_reset_flag policy = ap (λ (x : ℕ × Bool). x.0) h in
    let b : t.sched_reset_on_fork ≡ has_reset_flag policy = ap (λ (x : ℕ × Bool). x.1) h in
    elim (Bool-cases (has_reset_flag policy)) [
      | inl flag ↦
          let e : policy - 0x40000000 + 0x40000000 ≡ policy = omega (arith, of_flag policy flag) in
          rw (b, a, flag, e) refl
      | inr plain ↦ rw (b, a, plain) refl
    ]

module _ (k : Kernel) where
  set_load_weight-settings :
      (p : ℕ) (s : State) → settings ((set_load_weight p s).task p) ≡ settings (s.task p)
  unfolding set_load_weight
  set_load_weight-settings p s = ground arith

  setscheduler-settings :
      (p policy prio : ℕ) (s : State)
      → settings ((setscheduler k p policy prio s).task p)
        ≡ (policy, (s.task p).sched_reset_on_fork)
  unfolding setscheduler write_policy write_class
  setscheduler-settings p policy prio s = set_load_weight-settings p _ ∙ ground arith

module _ (k : Kernel) (l : ListLaws k.lists) (laws : ClassLaws k) where
  -- A change of policy, of any task in any state, leaves the policy and the flag that it was given.
  pub change_policy-settings :
      (p policy prio : ℕ) (reset : Bool) (s : State)
      → settings ((change_policy k p policy prio reset s).task p) ≡ (policy, reset)
  unfolding change_policy
  change_policy-settings p policy prio reset s =
      Kept-settings
        (Kept-trans (put_back-Kept k l laws p 0 _ _ _) (check_class_changed-Kept k l laws p _ _ _))
        p
      ∙ setscheduler-settings k p policy prio _
      ∙ ground arith

  -- A request that succeeds, and does not keep policy and priority, has changed the policy.
  locked-changes :
      (p : ℕ) (policy prio : ℤ) (user : Bool) (s t : State)
      → unchanged (s.task p) (asked_policy (s.task p) policy) prio ≡ false
      → sched_setscheduler_locked k p policy prio user s ≡ (t, pos 0)
      → t
        ≡ change_policy k p
            (asked_policy (s.task p) policy)
            (pos_part prio)
            (asked_reset (s.task p) policy)
            s
  unfolding sched_setscheduler_locked
  locked-changes p policy prio user s t new e =
      let d = check_bandwidth k s (s.task p) (asked_policy (s.task p) policy) user in
      elim (Bool-cases (is_stop p s.rq.stop)) [
        | inl stop ↦ absurd (refused einval refl (rw stop at e))
        | inr run ↦ elim (Bool-cases (eqb_ℤ d (pos 0))) [
          | inl may ↦ sym (ap (λ (x : State × ℤ). x.0) (rw (run, new, may) at e))
          | inr denied ↦ absurd (refused d denied (rw (run, new, denied) at e))
        ]
      ]

  succeeds-changes :
      (p : ℕ) (policy prio : ℤ) (user : Bool) (s t : State)
      → unchanged (s.task p) (asked_policy (s.task p) policy) prio ≡ false
      → sched_setscheduler_common k p policy prio user s ≡ (t, pos 0)
      → (t
          ≡ change_policy k p
              (asked_policy (s.task p) policy)
              (pos_part prio)
              (asked_reset (s.task p) policy)
              s)
        × (check_param (s.task p) policy prio ≡ pos 0)
  unfolding sched_setscheduler_common
  succeeds-changes p policy prio user s t new e =
      let c = check_param (s.task p) policy prio in
      let d = check_permission k p (s.task p) policy prio user in
      elim (Bool-cases (eqb_ℤ c (pos 0))) [
        | inr invalid ↦ absurd (refused c invalid (rw invalid at e))
        | inl valid ↦ elim (Bool-cases (eqb_ℤ d (pos 0))) [
          | inr denied ↦ absurd (refused d denied (rw (valid, denied) at e))
          | inl may ↦ (
            locked-changes p policy prio user s t new (rw (valid, may) at e),
            ground (arith, valid),
          )
        ]
      ]

  found_again :
      (pid p : ℕ) (s t : State)
      → t.rq.curr ≡ s.rq.curr
      → find_process_by_pid k pid s ≡ some p
      → find_process_by_pid k pid t ≡ some p
  unfolding find_process_by_pid
  found_again pid p s t c h = ground (arith, c, h)

  -- A policy, with or without the flag, that a process is given by sched_setscheduler, by a request
  -- that succeeds and does not keep policy and priority, is what sched_getscheduler then returns,
  -- if it may be asked.
  pub getscheduler-setscheduler :
      (pid policy p : ℕ) (prio : ℤ) (s t : State)
      → find_process_by_pid k pid s ≡ some p
      → k.security_getscheduler p ≡ pos 0
      → unchanged (s.task p) (asked_policy (s.task p) (pos policy)) prio ≡ false
      → sys_sched_setscheduler k (pos pid) (pos policy) (param prio) s ≡ (t, pos 0)
      → sys_sched_getscheduler k (pos pid) t ≡ pos policy
  unfolding sys_sched_setscheduler do_sched_setscheduler sched_setscheduler sys_sched_getscheduler
      asked_policy asked_reset
  getscheduler-setscheduler pid policy p prio s t found may new e =
      let (changed, valid) = succeeds-changes p (pos policy) prio true s t new (rw found at e) in
      let h =
        change_policy-settings p (without_reset_flag policy) (pos_part prio) (has_reset_flag policy)
          s in
      let g =
        change_policy-Alters k l laws p (without_reset_flag policy) (pos_part prio)
          (has_reset_flag policy) s (check_param-word (s.task p) (pos policy) prio valid) in
      let c : t.rq.curr ≡ s.rq.curr = ap (λ (u : State). u.rq.curr) changed ∙ g.curr_kept in
      let m : settings (t.task p) ≡ (without_reset_flag policy, has_reset_flag policy) =
        ap (λ (u : State). settings (u.task p)) changed ∙ h in
      rw (found_again pid p s t c found, may) (flag_back (t.task p) policy m)
