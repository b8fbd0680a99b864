-- ===== src/Wrr/Behaviour/Weights.antt =====
-- update_weight of wrr.c, and the time slice that follows from a weight.
use cs356_project.Prelude.{ℕ, ◌*◌, ◌/◌, ◌<◌, ◌≤◌, ◌≡◌, arith, some, none, ◌==◌, if◌then◌else◌}
use cs356_project.Kernel.Types.{State}
use cs356_project.Kernel.External.{Kernel}
use cs356_project.Wrr.Weight.{
  task_group_path, update_weight, reweigh, group_weight, full_slice, wrr_weight_unit,
}

-- The second character of the path of a task's group; 0 if the group has no control group yet.
abbrev pub path_char : Kernel → ℕ → State → ℕ
path_char k tg s = elim (k.autogroup_path tg s.wrr_path) [
  | some path ↦ path 1
  | none ↦ elim (s.cgroup tg) [ none ↦ 0 | some c ↦ k.cgroup_path c s.wrr_path 1 ]
]

module _ (k : Kernel) (p : ℕ) (s : State) where
  -- A task without a weight of its own weighs 1 if the path of its group goes on with a `b`, and 10
  -- else, whatever it weighed before; a weight of its own is kept. Slice and mark stay.
  pub update_weight_lem : ((update_weight k p s).task p).wrr ≡ record (s.task p).wrr {
    weight =
        if (s.task p).wrr.custom_weight == 0
        then (if path_char k (s.task p).sched_task_group s == b'b' then 1 else 10)
        else (s.task p).wrr.weight;
  }
  unfolding update_weight reweigh group_weight task_group_path
  update_weight_lem = ground arith

-- At 100 ticks a second a task of weight up to 99 gets 10 ms, one tick, for each unit of weight.
pub full_slice_100 : (k : Kernel) (w : ℕ) → k.hz ≡ 100 → w ≤ 99 → full_slice k w ≡ w
unfolding full_slice wrr_weight_unit
full_slice_100 k w h b = rw h (omega arith)

-- No slice is 0, at 100 ticks a second or more and a weight that a user may choose, as long as the
-- product fits its word.
pub full_slice-pos :
    (k : Kernel) (w : ℕ)
    → 100 ≤ k.hz
    → 0 < w
    → w * (10 * k.hz / 1000) < 4294967296
    → 0 < full_slice k w
unfolding full_slice wrr_weight_unit
full_slice-pos k w h b m = grind arith
