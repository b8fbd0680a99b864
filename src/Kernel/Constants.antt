-- ===== src/Kernel/Constants.antt =====
-- Constants of patch/include/linux/sched.h.
use cs356_project.Prelude.{ℕ}

-- Policies.
abbrev pub sched_normal : ℕ
sched_normal = 0

abbrev pub sched_fifo : ℕ
sched_fifo = 1

abbrev pub sched_rr : ℕ
sched_rr = 2

abbrev pub sched_batch : ℕ
sched_batch = 3

abbrev pub sched_idle : ℕ
sched_idle = 5

abbrev pub sched_wrr : ℕ
sched_wrr = 6

abbrev pub sched_reset_on_fork : ℕ
sched_reset_on_fork = 0x40000000

-- Weights of foreground and background tasks.
abbrev pub wrr_fg_weight : ℕ
wrr_fg_weight = 10

abbrev pub wrr_bg_weight : ℕ
wrr_bg_weight = 1

-- Flags of enqueue_task.
abbrev pub enqueue_wakeup : ℕ
enqueue_wakeup = 1

abbrev pub enqueue_head : ℕ
enqueue_head = 2

abbrev pub dequeue_sleep : ℕ
dequeue_sleep = 1

-- Task states.
abbrev pub task_running : ℕ
task_running = 0

abbrev pub task_interruptible : ℕ
task_interruptible = 1

abbrev pub task_uninterruptible : ℕ
task_uninterruptible = 2

abbrev pub task_normal : ℕ
task_normal = 3

abbrev pub max_rt_prio : ℕ
max_rt_prio = 100

abbrev pub max_prio : ℕ
max_prio = 140
