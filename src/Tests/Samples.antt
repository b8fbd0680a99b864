-- ===== src/Tests/Samples.antt =====
-- A kernel and a machine with three WRR tasks: 1 and 2 in the foreground, 3 in the background.
use cs356_project.Prelude.{
  ℕ, zero, suc, ◌+◌, ◌*◌, ◌/◌, ◌%◌, ◌≡◌, refl, arith, Bool, true, false, List, [], ◌∷◌, ◌++◌,
  Option, none, some, pos, remove, ◌==◌, if◌then◌else◌,
}
use cs356_project.Kernel.RealTime.{RealTime}
use cs356_project.Kernel.Types.{
  SchedClass, stop_class, rt_class, wrr_class, fair_class, idle_class, same_class, SchedEntity,
  WrrEntity, Task, State, Load,
}
use cs356_project.Kernel.External.{ListHead, ListLaws, Kernel, ClassLaws, Frame, IdleLaw}
use cs356_project.Wrr.Invariant.{Inv}
use cs356_project.Core.Sound.{Sound}

abbrev first : List ℕ → Option ℕ
first [] = none
first (p ∷ _) = some p

abbrev lists : ListHead
lists = record {
  init_list_head = [];
  list_move = λ p q. p ∷ remove p q;
  list_move_tail = λ p q. remove p q ++ p ∷ [];
  list_add = λ p q. p ∷ q;
  list_add_tail = λ p q. q ++ p ∷ [];
  list_del_init = remove;
  list_first_entry = first;
}

pub list_laws : ListLaws lists
list_laws = record {
  init_lem = refl;
  move_lem = λ p q. refl;
  move_tail_lem = λ p q. refl;
  add_lem = λ p q. refl;
  add_tail_lem = λ p q. refl;
  del_init_lem = λ p q. refl;
  first_nil = refl;
  first_cons = λ p q. refl;
}

-- Searches the bits from `i` to 100, of which the last is always set, with 100 - i as fuel.
abbrev pub bit_from : ℕ → ℕ → (ℕ → Bool) → ℕ
bit_from zero i bits = i
bit_from (suc n) i bits = let rest = bit_from n (i + 1) bits in if bits i then i else rest

abbrev first_bit : ℕ → (ℕ → Bool) → ℕ
first_bit n bits = bit_from n 0 bits

-- Control group 7 is "/bg", all others are "/".
abbrev path_of : ℕ → (ℕ → ℕ) → ℕ → ℕ
path_of c old i = if i == 1 then (if c == 7 then b'b' else 0) else if i == 0 then b'/' else old i

-- The idle class chooses the idle task, if that is not a WRR task; the others have no task.
abbrev pick_of : SchedClass → State → Option ℕ × State
pick_of idle_class s =
    (if same_class (s.task s.rq.idle).sched_class wrr_class then none else some s.rq.idle, s)
pick_of _ s = (none, s)

-- 100 ticks a second; the other classes do nothing.
abbrev pub kernel : Kernel
kernel = record {
  lists = lists;
  sched_debug = true;
  hz = 100;
  tv_nsec = λ n. 90 + n;
  sched_clock = λ n. 1000 * n;
  jiffies = λ n. 1000 + n;
  cgroup_path = path_of;
  autogroup_path = λ _ _. none;
  class_op = λ _ _ _ _ s. s;
  class_pick_next = pick_of;
  class_rr_interval = λ _ _. 0;
  cfs_h_nr_running = λ _. 0;
  load_weight = λ _. 1024;
  rt_mutex_getprio = λ s p. (s.task p).normal_prio;
  capable_sys_nice = true;
  current_euid = 1000;
  current_user_ns = 0;
  cred_euid = λ _. 1000;
  cred_uid = λ _. 1000;
  cred_user_ns = λ _. 0;
  rlimit_rtprio = λ _. 0;
  rlimit_nice = λ _. pos 0;
  security_setscheduler = λ _. pos 0;
  security_getscheduler = λ _. pos 0;
  security_setnice = λ _ _. pos 0;
  rt_bandwidth_enabled = true;
  group_is_autogroup = λ _. false;
  find_task_by_vpid = λ n. some n;
  signal_pending_state = λ _ _. false;
  wq_worker_sleeping = λ _ _. none;
  sched_find_first_bit = first_bit 100;
  rlimit_rttime = λ _. 4294967295;
  rlimit_rttime_max = λ _. 4294967295;
  jiffies_to_timespec = λ j. (j / 100, j % 100 * 10000000);
}

pick_of-Frame : (c : SchedClass) (s : State) → Frame s (pick_of c s).1
pick_of-Frame idle_class s = record {
  wrr_kept = refl;
  curr_kept = refl;
  idle_kept = refl;
  task_kept = λ q. refl;
}
pick_of-Frame _ s = record {
  wrr_kept = refl;
  curr_kept = refl;
  idle_kept = refl;
  task_kept = λ q. refl;
}

pick_of-own :
    (c : SchedClass) (s : State) (p : ℕ)
    → (pick_of c s).0 ≡ some p
    → same_class ((pick_of c s).1.task p).sched_class wrr_class ≡ false
pick_of-own idle_class s p h = ground (arith, h)
pick_of-own stop_class s p h = cc
pick_of-own rt_class s p h = cc
pick_of-own wrr_class s p h = cc
pick_of-own fair_class s p h = cc

pub class_laws : ClassLaws kernel
class_laws = record {
  op_Frame = λ c op p a s. record {
    wrr_kept = refl;
    curr_kept = refl;
    idle_kept = refl;
    task_kept = λ q. refl;
  };
  pick_Frame = pick_of-Frame;
  pick_own = pick_of-own;
}

pub idle_law : IdleLaw kernel
idle_law = record { idle_lem = λ s h. ground (arith, h) }

abbrev entity : SchedEntity
entity = record {
  exec_start = 0;
  sum_exec_runtime = 0;
  exec_max = 0;
  load_weight = 1024;
  inv_weight = 4194304;
}

-- A task by its policy and class.
abbrev pub task_with : ℕ → SchedClass → Bool → ℕ → WrrEntity → Task
task_with policy c on group e = record {
  state = 0;
  on_rq = on;
  prio = pos 120;
  static_prio = pos 120;
  normal_prio = pos 120;
  rt_priority = 0;
  policy = policy;
  sched_class = c;
  se = entity;
  wrr = e;
  sched_task_group = group;
  sched_reset_on_fork = false;
  mm = true;
  frozen = false;
  wq_worker = false;
  need_resched = false;
  nvcsw = 0;
  nivcsw = 0;
}

abbrev pub slice_of : ℕ → ℕ → ℕ → WrrEntity
slice_of slice weight custom = record {
  time_slice = slice;
  weight = weight;
  custom_weight = custom;
}

-- Task 0 is idle, 1 to 3 are WRR tasks, 4 is a runnable fair task, the others sleep.
abbrev pub tasks : ℕ → Task
tasks p =
    if p == 0
    then task_with 0 idle_class false 0 (slice_of 0 1 0)
    else if p == 1
    then task_with 6 wrr_class true 0 (slice_of 2 10 0)
    else if p == 2
    then task_with 6 wrr_class true 0 (slice_of 1 10 0)
    else if p == 3
    then task_with 6 wrr_class true 7 (slice_of 1 1 0)
    else if p == 4
    then task_with 0 fair_class true 0 (slice_of 0 1 0)
    else task_with 0 fair_class false 0 (slice_of 0 1 0)

abbrev pub load : Load
load = record {
  cpu_load = λ _. 0;
  last_load_update_tick = 999;
  nr_load_updates = 0;
  calc_load_active = 0;
  next_sample = 1000;
  calc_load_tasks = 0;
  calc_load_update = 1000;
  avenrun = λ _. 0;
  calc_load_idle = λ _. 0;
  calc_load_idx = 0;
}

-- No real-time task; group 0 has the processor's run queue, and 95 % of each second.
abbrev pub real_time : RealTime
real_time = record {
  entity = λ _. record {
    linked = false;
    timeout = 0;
    time_slice = 10;
    parent = none;
    rt_rq = 0;
    my_q = none;
    sched_exp = 0;
  };
  rt_rq = λ _. record {
    bitmap = λ i. i == 100;
    queue = λ _. [];
    rt_nr_running = 0;
    highest_prio = 100;
    rt_throttled = false;
    rt_time = 0;
    rt_runtime = 950000000;
    rt_nr_boosted = 0;
    tg = some 0;
  };
  group = λ _. record {
    rt_se = none;
    rt_rq = 0;
    rt_runtime = 950000000;
    rt_period = 1000000000;
    rt_period_timer = false;
    parent = none;
    children = [];
  };
}

abbrev pub machine : State
machine = record {
  task = tasks;
  rq = record {
    nr_running = 4;
    skip_clock_update = pos 0;
    nr_switches = 0;
    nr_uninterruptible = 0;
    wrr = record { active = 1 ∷ 2 ∷ 3 ∷ []; wrr_nr_running = 3; total_weight = 21 };
    others = [];
    curr = 1;
    idle = 0;
    stop = none;
    clock = 0;
    clock_task = 0;
  };
  load = load;
  rt = real_time;
  cgroup = λ g. some g;
  wrr_path = λ _. 0;
  core_path = λ _. 0;
  readings = 0;
}

pub machine-Inv : Inv machine
machine-Inv = record {
  distinct = (refl, (refl, (refl, tt)));
  counted = refl;
  weighed = refl;
  weight_word = λ p. ground arith;
}

pub machine-Sound : Sound machine
machine-Sound = record { inv = machine-Inv; linked = λ p. ground arith }
