-- ===== src/Kernel/External.antt =====
-- What the scheduler calls and does not define: headers and subsystems of the kernel, which are
-- not in this repository, and the classes other than WRR. Every theorem takes them as a parameter,
-- with the documented behaviour that it relies on as fields of the laws' records.
use cs356_project.Prelude.{ℕ, Bool, List, [], ◌∷◌, ◌++◌, Option, some, none, ◌≡◌, ℤ, remove, false}
use cs356_project.Kernel.Types.{SchedClass, wrr_class, idle_class, same_class, Task, State}

-- include/linux/list.h, seen through the entries behind a list head.
pub record ListHead : Type 0 where
  pub init_list_head : List ℕ
  pub list_move : ℕ → List ℕ → List ℕ
  pub list_move_tail : ℕ → List ℕ → List ℕ
  pub list_add : ℕ → List ℕ → List ℕ
  pub list_add_tail : ℕ → List ℕ → List ℕ
  pub list_del_init : ℕ → List ℕ → List ℕ
  pub list_first_entry : List ℕ → Option ℕ

-- "add a new entry" at the head and at the tail, "delete from one list and add as another's head", "… another's tail", "deletes entry from list
-- and reinitialize it", "get the first element from a list" (of an empty list: no task).
pub record ListLaws (l : ListHead) : Type 0 where
  pub init_lem : l.init_list_head ≡ []
  pub move_lem : (p : ℕ) (q : List ℕ) → l.list_move p q ≡ p ∷ remove p q
  pub move_tail_lem : (p : ℕ) (q : List ℕ) → l.list_move_tail p q ≡ remove p q ++ p ∷ []
  pub add_lem : (p : ℕ) (q : List ℕ) → l.list_add p q ≡ p ∷ q
  pub add_tail_lem : (p : ℕ) (q : List ℕ) → l.list_add_tail p q ≡ q ++ p ∷ []
  pub del_init_lem : (p : ℕ) (q : List ℕ) → l.list_del_init p q ≡ remove p q
  pub first_nil : l.list_first_entry [] ≡ none
  pub first_cons : (p : ℕ) (q : List ℕ) → l.list_first_entry (p ∷ q) ≡ some p

-- The operations of a class's table, without pick_next_task and get_rr_interval.
pub data ClassOp : Type 0 where
  enqueue_op dequeue_op yield_op check_preempt_op put_prev_op set_curr_op move_group_op : ClassOp
  tick_op fork_op switched_from_op switched_to_op prio_changed_op : ClassOp

pub record Kernel : Type 0 where
  pub lists : ListHead
  pub open lists use *
  -- CONFIG_SCHED_DEBUG, and HZ, of asm/param.h.
  pub sched_debug : Bool
  pub hz : ℕ
  -- The n-th readings of CURRENT_TIME.tv_nsec, of sched_clock_cpu and of jiffies.
  pub tv_nsec : ℕ → ℕ
  pub sched_clock : ℕ → ℕ
  pub jiffies : ℕ → ℕ
  -- Writes into a buffer: a control group's path, and a task group's autogroup path, if it has one.
  pub cgroup_path : ℕ → (ℕ → ℕ) → ℕ → ℕ
  pub autogroup_path : ℕ → (ℕ → ℕ) → Option (ℕ → ℕ)
  -- The operations of the classes that are not WRR: an operation, the task and its argument.
  pub class_op : SchedClass → ClassOp → ℕ → ℕ → State → State
  pub class_pick_next : SchedClass → State → Option ℕ × State
  pub class_rr_interval : SchedClass → Task → ℕ
  -- rq->cfs.h_nr_running and rq->load.weight, read from the other classes' run queues.
  pub cfs_h_nr_running : List ℕ → ℕ
  pub load_weight : List ℕ → ℕ
  -- rt_mutex_getprio, of kernel/rtmutex.c: the priority of a task with its boosts.
  pub rt_mutex_getprio : State → ℕ → ℤ
  -- Capabilities, the caller's and a task's credentials, limits and security modules, for a call
  -- on a task.
  pub capable_sys_nice : Bool
  pub current_euid : ℕ
  pub current_user_ns : ℕ
  pub cred_euid : ℕ → ℕ
  pub cred_uid : ℕ → ℕ
  pub cred_user_ns : ℕ → ℕ
  pub rlimit_rtprio : ℕ → ℕ
  pub rlimit_nice : ℕ → ℤ
  pub security_setscheduler : ℕ → ℤ
  pub security_getscheduler : ℕ → ℤ
  pub security_setnice : ℕ → ℤ → ℤ
  -- The bandwidth of real-time groups.
  pub rt_bandwidth_enabled : Bool
  pub group_is_autogroup : ℕ → Bool
  -- Pids, signals, and the workqueues' answer when a worker sleeps.
  pub find_task_by_vpid : ℕ → Option ℕ
  pub signal_pending_state : ℕ → State → Bool
  pub wq_worker_sleeping : ℕ → State → Option ℕ
  -- The first set bit of a bitmap, of asm/bitops.h.
  pub sched_find_first_bit : (ℕ → Bool) → ℕ
  -- The limit RLIMIT_RTTIME of a task, soft and hard; ~0 is no limit.
  pub rlimit_rttime : ℕ → ℕ
  pub rlimit_rttime_max : ℕ → ℕ
  -- jiffies_to_timespec, of kernel/time.c: seconds and nanoseconds.
  pub jiffies_to_timespec : ℕ → ℕ × ℕ

-- What another class may touch: its own run queue, the number of running tasks, the clocks and
-- the statistics, and the tasks' need_resched flags. It leaves WRR's run queue and its tasks'
-- scheduling fields alone.
pub record Frame (s t : State) : Type 0 where
  pub wrr_kept : t.rq.wrr ≡ s.rq.wrr
  pub curr_kept : t.rq.curr ≡ s.rq.curr
  pub idle_kept : t.rq.idle ≡ s.rq.idle
  pub task_kept :
      (p : ℕ)
      → t.task p ≡ record (s.task p) { se = (t.task p).se; need_resched = (t.task p).need_resched }

-- A class chooses among its own tasks.
pub record ClassLaws (k : Kernel) : Type 0 where
  pub op_Frame :
      (c : SchedClass) (op : ClassOp) (p a : ℕ) (s : State) → Frame s (k.class_op c op p a s)
  pub pick_Frame : (c : SchedClass) (s : State) → Frame s (k.class_pick_next c s).1
  pub pick_own :
      (c : SchedClass) (s : State) (p : ℕ)
      → (k.class_pick_next c s).0 ≡ some p
      → same_class ((k.class_pick_next c s).1.task p).sched_class wrr_class ≡ false

-- The idle class chooses the idle task of the run queue.
pub record IdleLaw (k : Kernel) : Type 0 where
  pub idle_lem :
      (s : State)
      → same_class (s.task s.rq.idle).sched_class wrr_class ≡ false
      → (k.class_pick_next idle_class s).0 ≡ some s.rq.idle
