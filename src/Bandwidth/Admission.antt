-- ===== src/Bandwidth/Admission.antt =====
-- Which bandwidth a group may have, and writing it: core.c (to_ratio, tg_has_rt_tasks,
-- tg_rt_schedulable, __rt_schedulable, tg_set_rt_bandwidth, sched_group_set_rt_runtime,
-- sched_group_set_rt_period, sched_group_rt_runtime, sched_group_rt_period, sched_rt_can_attach,
-- sched_rt_global_constraints, sched_rt_handler). Times are nanoseconds, a ktime_t is the same number. The tasks of
-- the system are an argument, and the root group is group 0.
use cs356_project.Prelude.{
  ℕ, ◌-◌, ◌*◌, ◌/◌, ◌%◌, Bool, true, false, not, ◌&&◌, List, [], ◌∷◌, Option, some, none, Option, ℤ,
  pos, negsuc, ltb_ℤ, eqb_ℤ, ltb, u32, add32, ◌==◌, if◌then◌else◌,
}
use cs356_project.Kernel.Types.{State}
use cs356_project.Core.Prio.{rt_prio}
use cs356_project.Core.Policy.Request.{einval}
use cs356_project.Rt.Memory.{runtime_inf, set_rt_rq, set_rt_group}
use cs356_project.Bandwidth.Walk.{walk_tg_tree_from, tg_nop}

-- sysctl_sched_rt_period and sysctl_sched_rt_runtime, in microseconds.
pub record Sysctl : Type 0 where
  pub sched_rt_period : ℕ
  pub sched_rt_runtime : ℤ

-- A proposal: a group with a period and a runtime.
pub record RtSchedulableData : Type 0 where
  pub tg : Option ℕ
  pub rt_period : ℕ
  pub rt_runtime : ℕ

abbrev pub ebusy : ℤ
ebusy = negsuc 15

-- (u64)x of a long.
abbrev pub word64 : ℤ → ℕ
word64 (pos n) = n % 18446744073709551616
word64 (negsuc n) = 18446744073709551615 - n % 18446744073709551616

-- A u64 as a long of 32 bits.
abbrev pub long_of : ℕ → ℤ
long_of n = if ltb (u32 n) 2147483648 then pos (u32 n) else negsuc (4294967295 - u32 n)

abbrev pub usec : ℕ → ℕ
usec n = n * 1000 % 18446744073709551616

unfoldable pub global_rt_period : Sysctl → ℕ
global_rt_period c = usec c.sched_rt_period

unfoldable pub global_rt_runtime : Sysctl → ℕ
global_rt_runtime c =
    if ltb_ℤ c.sched_rt_runtime (pos 0) then runtime_inf else usec (word64 c.sched_rt_runtime)

abbrev pub rt_bandwidth_enabled : Sysctl → Bool
rt_bandwidth_enabled c = not (ltb_ℤ c.sched_rt_runtime (pos 0))

-- Parts of 2 ^ 20; an unsigned long. No period is 0 here.
unfoldable pub to_ratio : ℕ → ℕ → ℕ
to_ratio period runtime =
    if runtime == runtime_inf
    then 1048576
    else u32 (runtime * 1048576 % 18446744073709551616 / period)

abbrev pub is_group : ℕ → Option ℕ → Bool
is_group g none = false
is_group g (some h) = h == g

-- The run queue whose group is compared is the processor's, for every task.
unfoldable pub tg_has_rt_tasks : List ℕ → ℕ → State → Bool
tg_has_rt_tasks [] g s = false
tg_has_rt_tasks (p ∷ ps) g s =
    let rest = tg_has_rt_tasks ps g s in
    if rt_prio (s.task p).prio && is_group g (s.rt.rt_rq 0).tg then true else rest

abbrev pub proposed : RtSchedulableData → ℕ → Bool
proposed d g = is_group g d.tg

abbrev pub period_of : RtSchedulableData → ℕ → State → ℕ
period_of d g s = if proposed d g then d.rt_period else (s.rt.group g).rt_period

abbrev pub runtime_of : RtSchedulableData → ℕ → State → ℕ
runtime_of d g s = if proposed d g then d.rt_runtime else (s.rt.group g).rt_runtime

unfoldable pub sum_ratios : RtSchedulableData → List ℕ → State → ℕ → ℕ
sum_ratios d [] s sum = sum
sum_ratios d (c ∷ cs) s sum =
    sum_ratios d cs s (add32 sum (to_ratio (period_of d c s) (runtime_of d c s)))

unfoldable pub tg_rt_schedulable : Sysctl → List ℕ → RtSchedulableData → State → ℕ → ℤ
tg_rt_schedulable c tasks d s g =
    let period = period_of d g s in
    let runtime = runtime_of d g s in
    let total = to_ratio period runtime in
    if ltb period runtime && not (runtime == runtime_inf)
    then einval
    else if rt_bandwidth_enabled c && runtime == 0 && tg_has_rt_tasks tasks g s
    then ebusy
    else if ltb (to_ratio (global_rt_period c) (global_rt_runtime c)) total
    then einval
    else if ltb total (sum_ratios d (s.rt.group g).children s 0)
    then einval
    else pos 0

abbrev pub write_bandwidth : ℕ → ℕ → ℕ → State → State
write_bandwidth g period runtime s =
    let s1 =
      set_rt_group g (record (s.rt.group g) { rt_period = period; rt_runtime = runtime }) s in
    let r = (s.rt.group g).rt_rq in set_rt_rq r (record (s1.rt.rt_rq r) { rt_runtime = runtime }) s1

abbrev pub write_unless : Option ℤ → ℕ → ℕ → ℕ → State → Option (ℤ × State)
write_unless none g period runtime s = none
write_unless (some err) g period runtime s =
    if eqb_ℤ err (pos 0) then some (err, write_bandwidth g period runtime s) else some (err, s)

module _ (c : Sysctl) (tasks : List ℕ) (fuel : ℕ) where
  unfoldable pub rt_schedulable : RtSchedulableData → State → Option ℤ
  rt_schedulable d s = walk_tg_tree_from s.rt.group 0 (tg_rt_schedulable c tasks d s) tg_nop fuel

  unfoldable pub tg_set_rt_bandwidth : ℕ → ℕ → ℕ → State → Option (ℤ × State)
  tg_set_rt_bandwidth g period runtime s =
      write_unless
        (rt_schedulable (record { tg = some g; rt_period = period; rt_runtime = runtime }) s) g
        period runtime s

  unfoldable pub sched_group_set_rt_runtime : ℕ → ℤ → State → Option (ℤ × State)
  sched_group_set_rt_runtime g us s =
      tg_set_rt_bandwidth g (s.rt.group g).rt_period
        (if ltb_ℤ us (pos 0) then runtime_inf else usec (word64 us)) s

  unfoldable pub sched_group_set_rt_period : ℕ → ℤ → State → Option (ℤ × State)
  sched_group_set_rt_period g us s =
      let period = usec (word64 us) in
      let set = tg_set_rt_bandwidth g period (s.rt.group g).rt_runtime s in
      if period == 0 then some (einval, s) else set

  -- The sysctl variables, after they were written.
  unfoldable pub sched_rt_global_constraints : State → Option ℤ
  sched_rt_global_constraints s =
      let runtime = global_rt_runtime c in
      let checked = rt_schedulable (record { tg = none; rt_period = 0; rt_runtime = 0 }) s in
      if c.sched_rt_period == 0
      then some einval
      else if ltb (global_rt_period c) runtime && not (runtime == runtime_inf)
      then some einval
      else checked

unfoldable pub sched_group_rt_runtime : ℕ → State → ℤ
sched_group_rt_runtime g s =
    let runtime = (s.rt.group g).rt_runtime in
    if runtime == runtime_inf then negsuc 0 else long_of (runtime / 1000)

unfoldable pub sched_group_rt_period : ℕ → State → ℤ
sched_group_rt_period g s = long_of ((s.rt.group g).rt_period / 1000)

unfoldable pub sched_rt_can_attach : ℕ → ℕ → State → Bool
sched_rt_can_attach g p s = not (rt_prio (s.task p).prio && (s.rt.group g).rt_runtime == 0)

-- The bandwidth of def_rt_bandwidth.
pub record RtBandwidth : Type 0 where
  pub rt_period : ℕ
  pub rt_runtime : ℕ

-- The settings after the check of new ones: the old ones again if it fails.
abbrev pub keep_or_restore :
    Option ℤ → Sysctl → Sysctl → RtBandwidth → Option (ℤ × Sysctl × RtBandwidth)
keep_or_restore none old new b = none
keep_or_restore (some err) old new b =
    if eqb_ℤ err (pos 0)
    then some
        (err, new, record { rt_period = global_rt_period new; rt_runtime = global_rt_runtime new })
    else some (err, old, b)

-- `read` is what proc_dointvec makes of the settings: its answer and the new ones.
unfoldable pub sched_rt_handler :
    List ℕ
    → ℕ
    → (Sysctl → ℤ × Sysctl)
    → Bool
    → Sysctl
    → RtBandwidth
    → State
    → Option (ℤ × Sysctl × RtBandwidth)
sched_rt_handler tasks fuel read write old b s =
    let (ret, new) = read old in
    let checked = keep_or_restore (sched_rt_global_constraints new tasks fuel s) old new b in
    if eqb_ℤ ret (pos 0) && write then checked else some (ret, new, b)
