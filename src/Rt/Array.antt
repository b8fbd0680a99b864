-- ===== src/Rt/Array.antt =====
-- The priority arrays and their counters: rt.c (inc_rt_prio, dec_rt_prio, inc_rt_group,
-- dec_rt_group, inc_rt_tasks, dec_rt_tasks). Warnings are left out.
use cs356_project.Prelude.{ℕ, Option, some, none, add32, sub32, ltb, ◌==◌, if◌then◌else◌}
use cs356_project.Kernel.Types.{State}
use cs356_project.Kernel.External.{Kernel}
use cs356_project.Kernel.Constants.{max_rt_prio}
use cs356_project.Rt.Memory.{set_rt_rq, rt_se_prio, rt_se_boosted, start_rt_bandwidth}

unfoldable pub inc_rt_prio : ℕ → ℕ → State → State
inc_rt_prio r prio s =
    let x = s.rt.rt_rq r in
    if ltb prio x.highest_prio then set_rt_rq r (record x { highest_prio = prio }) s else s

module _ (k : Kernel) where
  unfoldable pub dec_rt_prio : ℕ → ℕ → State → State
  dec_rt_prio r prio s =
      let x = s.rt.rt_rq r in
      let first = k.sched_find_first_bit x.bitmap in
      if x.rt_nr_running == 0
      then set_rt_rq r (record x { highest_prio = max_rt_prio }) s
      else if prio == x.highest_prio
      then set_rt_rq r (record x { highest_prio = first }) s
      else s

  abbrev pub start_of : Option ℕ → State → State
  start_of none s = s
  start_of (some g) s = start_rt_bandwidth k g s

  unfoldable pub inc_rt_group : ℕ → ℕ → State → State
  inc_rt_group e r s =
      let x = s.rt.rt_rq r in
      let boosted = record x { rt_nr_boosted = add32 x.rt_nr_boosted 1 } in
      start_of x.tg (if rt_se_boosted e s then set_rt_rq r boosted s else s)

  unfoldable pub dec_rt_group : ℕ → ℕ → State → State
  dec_rt_group e r s =
      let x = s.rt.rt_rq r in
      if rt_se_boosted e s
      then set_rt_rq r (record x { rt_nr_boosted = sub32 x.rt_nr_boosted 1 }) s
      else s

  unfoldable pub inc_rt_tasks : ℕ → ℕ → State → State
  inc_rt_tasks e r s =
      let x = s.rt.rt_rq r in
      let s' = set_rt_rq r (record x { rt_nr_running = add32 x.rt_nr_running 1 }) s in
      inc_rt_group e r (inc_rt_prio r (rt_se_prio e s) s')

  unfoldable pub dec_rt_tasks : ℕ → ℕ → State → State
  dec_rt_tasks e r s =
      let x = s.rt.rt_rq r in
      let s' = set_rt_rq r (record x { rt_nr_running = sub32 x.rt_nr_running 1 }) s in
      dec_rt_group e r (dec_rt_prio r (rt_se_prio e s') s')
