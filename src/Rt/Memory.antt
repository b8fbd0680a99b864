-- ===== src/Rt/Memory.antt =====
-- Reads and writes of the real-time class's structures, and its small functions: rt.c
-- (rt_rq_throttled, rt_se_boosted, rt_se_prio, sched_rt_runtime, sched_rt_period,
-- for_each_sched_rt_entity, start_rt_bandwidth, init_rt_rq, init_tg_rt_entry, init_rt_bandwidth).
use cs356_project.Prelude.{
  ℕ, zero, suc, Bool, true, false, not, ◌&&◌, ◌||◌, List, [], ◌∷◌, Option, some, none, pos_part,
  eqb_ℤ, ◌==◌, if◌then◌else◌,
}
use cs356_project.Kernel.RealTime.{RtEntity, RtRq, RtGroup, RealTime}
use cs356_project.Kernel.Types.{State, write_at}
use cs356_project.Kernel.External.{Kernel}
use cs356_project.Kernel.Constants.{max_rt_prio}

-- (u64)~0ULL.
abbrev pub runtime_inf : ℕ
runtime_inf = 18446744073709551615

abbrev pub set_rt : RealTime → State → State
set_rt m s = record s { rt = m }

abbrev pub set_rt_entity : ℕ → RtEntity → State → State
set_rt_entity e x s = set_rt (record s.rt { entity = write_at e x s.rt.entity }) s

abbrev pub set_rt_rq : ℕ → RtRq → State → State
set_rt_rq r x s = set_rt (record s.rt { rt_rq = write_at r x s.rt.rt_rq }) s

abbrev pub set_rt_group : ℕ → RtGroup → State → State
set_rt_group g x s = set_rt (record s.rt { group = write_at g x s.rt.group }) s

-- set_task_rq of sched.h, for the real-time class; the fair class's part is its own.
unfoldable pub set_task_rq : ℕ → State → State
set_task_rq p s =
    let g = s.rt.group (s.task p).sched_task_group in
    set_rt_entity p (record (s.rt.entity p) { rt_rq = g.rt_rq; parent = g.rt_se }) s

unfoldable pub rt_rq_throttled : RtRq → Bool
rt_rq_throttled r = r.rt_throttled && r.rt_nr_boosted == 0

-- The priority of a group is the highest one that waits in it.
unfoldable pub rt_se_prio : ℕ → State → ℕ
rt_se_prio e s = elim (s.rt.entity e).my_q [
  | some r ↦ (s.rt.rt_rq r).highest_prio
  | none ↦ pos_part (s.task e).prio
]

unfoldable pub rt_se_boosted : ℕ → State → Bool
rt_se_boosted e s = elim (s.rt.entity e).my_q [
  | some r ↦ not ((s.rt.rt_rq r).rt_nr_boosted == 0)
  | none ↦ not (eqb_ℤ (s.task e).prio (s.task e).normal_prio)
]

unfoldable pub sched_rt_runtime : RtRq → ℕ
sched_rt_runtime r = elim r.tg [ none ↦ runtime_inf | some g ↦ r.rt_runtime ]

-- Asked only where the run queue has a group.
unfoldable pub sched_rt_period : RtRq → State → ℕ
sched_rt_period r s = elim r.tg [ none ↦ 0 | some g ↦ (s.rt.group g).rt_period ]

-- The entity, its parent, and so on: the order of for_each_sched_rt_entity, for groups that are
-- nested at most `depth` deep.
unfoldable pub ancestors : ℕ → ℕ → State → List ℕ
ancestors zero e s = e ∷ []
ancestors (suc depth) e s =
    e ∷ elim (s.rt.entity e).parent [ none ↦ [] | some q ↦ ancestors depth q s ]

module _ (k : Kernel) where
  unfoldable pub start_rt_bandwidth : ℕ → State → State
  start_rt_bandwidth g s =
      let b = s.rt.group g in
      if not k.rt_bandwidth_enabled || b.rt_runtime == runtime_inf
      then s
      else if b.rt_period_timer
      then s
      else set_rt_group g (record b { rt_period_timer = true }) s

  -- The bit behind the last priority ends the search for a bit.
  unfoldable pub init_rt_rq : ℕ → State → State
  init_rt_rq r s =
      set_rt_rq r
        (record (s.rt.rt_rq r) {
          bitmap = λ i. i == max_rt_prio;
          queue = λ _. k.init_list_head;
          rt_time = 0;
          rt_throttled = false;
          rt_runtime = 0;
        })
        s

unfoldable pub init_rt_bandwidth : ℕ → ℕ → ℕ → State → State
init_rt_bandwidth g period runtime s =
    set_rt_group g
      (record (s.rt.group g) { rt_period = period; rt_runtime = runtime; rt_period_timer = false })
      s

-- The run queue that a parent's entity owns, or the processor's.
abbrev pub queue_of_parent : Option ℕ → State → ℕ
queue_of_parent none s = 0
queue_of_parent (some q) s = elim (s.rt.entity q).my_q [ none ↦ 0 | some r ↦ r ]

unfoldable pub init_tg_rt_entry : ℕ → ℕ → Option ℕ → Option ℕ → State → State
init_tg_rt_entry tg r se parent s =
    let s1 =
      set_rt_rq r
        (record (s.rt.rt_rq r) { highest_prio = max_rt_prio; rt_nr_boosted = 0; tg = some tg }) s in
    let s2 = set_rt_group tg (record (s1.rt.group tg) { rt_rq = r; rt_se = se }) s1 in
    elim se [
      | none ↦ s2
      | some e ↦
          set_rt_entity e
            (record (s2.rt.entity e) {
              rt_rq = queue_of_parent parent s2;
              my_q = some r;
              parent = parent;
              linked = false;
            })
            s2
    ]

-- Memory that kzalloc gives for a run queue and its entity.
abbrev blank_rq : RtRq
blank_rq = record {
  bitmap = λ _. false;
  queue = λ _. [];
  rt_nr_running = 0;
  highest_prio = 0;
  rt_throttled = false;
  rt_time = 0;
  rt_runtime = 0;
  rt_nr_boosted = 0;
  tg = none;
}

abbrev blank_entity : RtEntity
blank_entity = record {
  linked = false;
  timeout = 0;
  time_slice = 0;
  parent = none;
  rt_rq = 0;
  my_q = none;
  sched_exp = 0;
}

module _ (k : Kernel) where
  -- Whether the allocator found the two arrays of pointers, and the run queue and the entity that it
  -- found then, if it did; a group starts with the default period and no runtime.
  unfoldable pub alloc_rt_sched_group : ℕ → ℕ → ℕ → Bool → Option (ℕ × ℕ) → State → Bool × State
  alloc_rt_sched_group tg parent period false memory s = (false, s)
  alloc_rt_sched_group tg parent period true none s = (false, init_rt_bandwidth tg period 0 s)
  alloc_rt_sched_group tg parent period true (some (r, e)) s =
      let s1 = init_rt_bandwidth tg period 0 s in
      let s2 = set_rt_entity e blank_entity (set_rt_rq r blank_rq s1) in
      let s3 = init_rt_rq k r s2 in
      let s4 =
        set_rt_rq r (record (s3.rt.rt_rq r) { rt_runtime = (s3.rt.group tg).rt_runtime }) s3 in
      (true, init_tg_rt_entry tg r (some e) (s4.rt.group parent).rt_se s4)
