-- ===== src/Wrr/Weight.antt =====
-- Weights and time slices of wrr.c: the path of a task's group, update_weight, wrr_throttled, and
-- the unit WRR_WEIGHT_UNIT of patch/include/linux/sched.h.
use cs356_project.Prelude.{
  ℕ, ◌*◌, ◌+◌, ◌/◌, ◌%◌, Bool, ◌&&◌, not, some, none, u32, leb, ◌==◌, if◌then◌else◌, if◌then◌else◌,
}
use cs356_project.Kernel.Types.{State, write_at, set_entity}
use cs356_project.Kernel.External.{Kernel}
use cs356_project.Kernel.Constants.{wrr_fg_weight, wrr_bg_weight}

-- The weight that update_weight writes, from the second character of the path.
unfoldable pub group_weight : ℕ → ℕ → ℕ
group_weight c w =
    let w' = if c == b'b' && not (w == wrr_bg_weight) then wrr_bg_weight else w in
    if not (c == b'b') && not (w' == wrr_fg_weight) then wrr_fg_weight else w'

-- A weight that the user chose is kept.
unfoldable pub reweigh : ℕ → ℕ → State → State
reweigh p c s =
    let e = (s.task p).wrr in
    if e.custom_weight == 0
    then set_entity p (record e { weight = group_weight c e.weight }) s
    else s

module _ (k : Kernel) where
  -- Jiffies of a time slice for each unit of weight: 10 ms.
  unfoldable pub wrr_weight_unit : ℕ
  wrr_weight_unit = 10 * k.hz / 1000

  unfoldable pub full_slice : ℕ → ℕ
  full_slice weight = u32 (weight * wrr_weight_unit)

  -- Leaves the path of task group `tg` in the static buffer of wrr.c.
  unfoldable pub task_group_path : ℕ → State → State
  task_group_path tg s = elim (k.autogroup_path tg s.wrr_path) [
    | some path ↦ record s { wrr_path = path }
    | none ↦ elim (s.cgroup tg) [
      | none ↦ record s { wrr_path = write_at 1 0 (write_at 0 0 s.wrr_path) }
      | some c ↦ record s { wrr_path = k.cgroup_path c s.wrr_path }
    ]
  ]

  unfoldable pub update_weight : ℕ → State → State
  update_weight p s =
      let s' = task_group_path (s.task p).sched_task_group s in reweigh p (s'.wrr_path 1) s'

  -- Reads the wall clock, and answers from its nanoseconds.
  unfoldable pub wrr_throttled : State → Bool × State
  wrr_throttled s = (leb (k.tv_nsec s.readings % 100) 71, record s { readings = s.readings + 1 })
