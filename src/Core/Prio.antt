-- ===== src/Core/Prio.antt =====
-- Priorities and load weights: core.c (normal_prio, effective_prio, set_load_weight, task_prio,
-- task_nice) with sched.h's NICE_TO_PRIO, PRIO_TO_NICE and the tables for nice values, and rt_prio
-- of patch/include/linux/sched.h.
use cs356_project.Prelude.{
  ℕ, zero, suc, ◌-◌, Bool, ◌||◌, List, [], ◌∷◌, ℤ, pos, ◌+ℤ◌, ◌-ℤ◌, ltb_ℤ, pos_part, ◌==◌,
  if◌then◌else◌,
}
use cs356_project.Kernel.Types.{Task, State, set_task, set_stats}
use cs356_project.Kernel.Constants.{sched_fifo, sched_rr, sched_idle, max_rt_prio}

unfoldable pub nice_to_prio : ℤ → ℤ
unfolding ◌+ℤ◌
nice_to_prio nice = pos max_rt_prio +ℤ nice +ℤ pos 20

unfoldable pub prio_to_nice : ℤ → ℤ
unfolding ◌-ℤ◌
prio_to_nice prio = prio -ℤ pos max_rt_prio -ℤ pos 20

unfoldable pub task_nice : Task → ℤ
unfolding prio_to_nice
task_nice t = prio_to_nice t.static_prio

-- The priority that users see in /proc.
unfoldable pub task_prio : Task → ℤ
unfolding ◌-ℤ◌
task_prio t = t.prio -ℤ pos max_rt_prio

abbrev pub rt_prio : ℤ → Bool
rt_prio prio = ltb_ℤ prio (pos max_rt_prio)

abbrev pub rt_policy : ℕ → Bool
rt_policy policy = policy == sched_fifo || policy == sched_rr

unfoldable pub normal_prio : Task → ℤ
unfolding ◌-ℤ◌
normal_prio t =
    if rt_policy t.policy then pos (max_rt_prio - 1) -ℤ pos t.rt_priority else t.static_prio

-- Writes the normal priority, and returns the effective one.
unfoldable pub effective_prio : ℕ → State → ℤ × State
unfolding normal_prio
effective_prio p s =
    let t = s.task p in
    let n = normal_prio t in
    ((if rt_prio t.prio then t.prio else n), set_task p (record t { normal_prio = n }) s)

abbrev prio_to_weight : List ℕ
prio_to_weight =
    88761 ∷ 71755 ∷ 56483 ∷ 46273 ∷ 36291 ∷ 29154 ∷ 23254 ∷ 18705 ∷ 14949 ∷ 11916 ∷ 9548 ∷ 7620
    ∷ 6100 ∷ 4904 ∷ 3906 ∷ 3121 ∷ 2501 ∷ 1991 ∷ 1586 ∷ 1277 ∷ 1024 ∷ 820 ∷ 655 ∷ 526 ∷ 423 ∷ 335
    ∷ 272 ∷ 215 ∷ 172 ∷ 137 ∷ 110 ∷ 87 ∷ 70 ∷ 56 ∷ 45 ∷ 36 ∷ 29 ∷ 23 ∷ 18 ∷ 15 ∷ []

abbrev prio_to_wmult : List ℕ
prio_to_wmult =
    48388 ∷ 59856 ∷ 76040 ∷ 92818 ∷ 118348 ∷ 147320 ∷ 184698 ∷ 229616 ∷ 287308 ∷ 360437 ∷ 449829
    ∷ 563644 ∷ 704093 ∷ 875809 ∷ 1099582 ∷ 1376151 ∷ 1717300 ∷ 2157191 ∷ 2708050 ∷ 3363326 ∷ 4194304
    ∷ 5237765 ∷ 6557202 ∷ 8165337 ∷ 10153587 ∷ 12820798 ∷ 15790321 ∷ 19976592 ∷ 24970740 ∷ 31350126
    ∷ 39045157 ∷ 49367440 ∷ 61356676 ∷ 76695844 ∷ 95443717 ∷ 119304647 ∷ 148102320 ∷ 186737708
    ∷ 238609294 ∷ 286331153 ∷ []

-- A read of a table; an index outside it has no meaning in C, and reads 0 here.
get_or_zero : List ℕ → ℕ → ℕ
get_or_zero [] i = 0
get_or_zero (x ∷ xs) zero = x
get_or_zero (x ∷ xs) (suc i) = get_or_zero xs i

unfoldable pub set_load_weight : ℕ → State → State
unfolding ◌-ℤ◌ get_or_zero
set_load_weight p s =
    let t = s.task p in
    let prio = pos_part (t.static_prio -ℤ pos max_rt_prio) in
    if t.policy == sched_idle
    then set_stats p (record t.se { load_weight = 3; inv_weight = 1431655765 }) s
    else set_stats p
        (record t.se {
          load_weight = get_or_zero prio_to_weight prio;
          inv_weight = get_or_zero prio_to_wmult prio;
        })
        s
