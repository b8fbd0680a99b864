-- ===== src/Wrr/Behaviour/Pick.antt =====
-- pick_next_task_wrr of wrr.c.
use cs356_project.Prelude.{
  ℕ, ◌+◌, ◌%◌, ◌<◌, ◌≡◌, refl, arith, ap, ◌∙◌, List, [], ◌∷◌, Option, some, none, leb, u32, length,
  if◌then◌else◌,
}
use cs356_project.Kernel.Types.{State, done, set_stats}
use cs356_project.Kernel.External.{Kernel, ListLaws}
use cs356_project.Wrr.Weight.{wrr_throttled}
use cs356_project.Wrr.Class.{pick_next_task_wrr, start_task}
use cs356_project.Wrr.Invariant.{Inv}

-- The task in front, if there is one and WRR may run; the time of its start is written down.
abbrev pub choice : Kernel → State → List ℕ → Option ℕ × State
choice k s [] = (none, s)
choice k s (p ∷ q) =
    let s' = record s { readings = s.readings + 1 } in
    if leb (k.tv_nsec s.readings % 100) 71
    then (none, s')
    else (some p, set_stats p (record (s.task p).se { exec_start = s.rq.clock_task }) s')

choice_at :
    (k : Kernel) (l : ListLaws k.lists) (s : State) (q : List ℕ)
    → s.rq.wrr.active ≡ q
    → s.rq.wrr.wrr_nr_running ≡ u32 (length q)
    → length q < 4294967296
    → pick_next_task_wrr k s ≡ done (choice k s q)
unfolding pick_next_task_wrr start_task wrr_throttled
choice_at k l s [] e c h = ground arith
choice_at k l s (p ∷ q) e c h =
    let f = ap k.list_first_entry e ∙ l.first_cons p q in ground (arith, f)

-- On a well-formed run queue that does not overflow its counter the code never meets BUG_ON. It
-- chooses the first task of the queue, and none if the queue is empty or the clock's nanoseconds
-- end in 00 to 71; the clock is read only if there is a task.
pub pick_next_task_wrr_lem :
    (k : Kernel) (l : ListLaws k.lists) (s : State)
    → Inv s
    → length s.rq.wrr.active < 4294967296
    → pick_next_task_wrr k s ≡ done (choice k s s.rq.wrr.active)
pick_next_task_wrr_lem k l s v h = choice_at k l s s.rq.wrr.active refl v.counted h
