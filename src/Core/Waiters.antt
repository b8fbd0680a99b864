-- ===== src/Core/Waiters.antt =====
-- Wait queues and completions of core.c (default_wake_function, __wake_up_common, complete,
-- complete_all). All waiters have the default wake function.
use cs356_project.Prelude.{ℕ, Bool, ◌&&◌, ◌==◌, List, [], ◌∷◌, add32, sub32, if◌then◌else◌}
use cs356_project.Kernel.Types.{State}
use cs356_project.Kernel.External.{Kernel}
use cs356_project.Kernel.Constants.{task_normal}
use cs356_project.Core.Wake.{try_to_wake_up}

-- An entry of a wait queue; `exclusive` is the flag WQ_FLAG_EXCLUSIVE.
pub record Waiter : Type 0 where
  pub task : ℕ
  pub exclusive : Bool

pub record Completion : Type 0 where
  pub done : ℕ
  pub wait : List Waiter

module _ (k : Kernel) where
  unfoldable pub default_wake_function : Waiter → ℕ → ℕ → State → State × Bool
  default_wake_function w mode flags s = try_to_wake_up k w.task mode flags s

  -- Stops after the last exclusive task that may be woken; with 0 there is no limit.
  unfoldable pub wake_up_common : List Waiter → ℕ → ℕ → ℕ → State → State
  wake_up_common [] mode nr_exclusive flags s = s
  wake_up_common (w ∷ q) mode nr_exclusive flags s =
      let (s', woken) = default_wake_function w mode flags s in
      let counts = woken && w.exclusive in
      let left = if counts then sub32 nr_exclusive 1 else nr_exclusive in
      let rest = wake_up_common q mode left flags s' in if counts && left == 0 then s' else rest

  unfoldable pub complete : Completion → State → Completion × State
  complete x s = (record x { done = add32 x.done 1 }, wake_up_common x.wait task_normal 1 0 s)

  unfoldable pub complete_all : Completion → State → Completion × State
  complete_all x s =
      (record x { done = add32 x.done 2147483647 }, wake_up_common x.wait task_normal 0 0 s)
