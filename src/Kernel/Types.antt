-- ===== src/Kernel/Types.antt =====
-- The data of the scheduler: patch/include/linux/sched.h (task_struct and its entities) and
-- patch/kernel/sched/sched.h (wrr_rq, rq), for one processor, with the fields that the modelled
-- code reads or writes. A task is named by a number, which stands for the address of its
-- task_struct; `task` is the memory that holds the structures.
use cs356_project.Kernel.RealTime.{RealTime}
use cs356_project.Prelude.{ℕ, ◌≡◌, Bool, true, false, List, Option, ℤ, if◌then◌else◌, ◌==◌}

-- The five scheduling classes, named by the address of their operation tables.
pub data SchedClass : Type 0 where
  stop_class rt_class wrr_class fair_class idle_class : SchedClass

pub SchedClass-discrete : Discrete SchedClass
SchedClass-discrete = hlevel

abbrev pub same_class : SchedClass → SchedClass → Bool
same_class stop_class stop_class = true
same_class rt_class rt_class = true
same_class wrr_class wrr_class = true
same_class fair_class fair_class = true
same_class idle_class idle_class = true
same_class _ _ = false

-- struct sched_wrr_entity; its list node is a place in `WrrRq.active`. All are unsigned int.
pub record WrrEntity : Type 0 where
  pub time_slice : ℕ
  pub weight : ℕ
  pub custom_weight : ℕ

-- The statistics and the load of struct sched_entity (u64, and unsigned long for the load).
pub record SchedEntity : Type 0 where
  pub exec_start : ℕ
  pub sum_exec_runtime : ℕ
  pub exec_max : ℕ
  pub load_weight : ℕ
  pub inv_weight : ℕ

pub record Task : Type 0 where
  pub state : ℕ
  pub on_rq : Bool
  pub prio : ℤ
  pub static_prio : ℤ
  pub normal_prio : ℤ
  pub rt_priority : ℕ
  pub policy : ℕ
  pub sched_class : SchedClass
  pub se : SchedEntity
  pub wrr : WrrEntity
  pub sched_task_group : ℕ
  pub sched_reset_on_fork : Bool
  pub mm : Bool
  pub frozen : Bool
  pub wq_worker : Bool
  pub need_resched : Bool
  pub nvcsw : ℕ
  pub nivcsw : ℕ

-- struct wrr_rq: `active` lists the tasks behind the list head, first to last.
pub record WrrRq : Type 0 where
  pub active : List ℕ
  pub wrr_nr_running : ℕ
  pub total_weight : ℕ

-- struct rq; `others` holds the run queues of the other classes, as words of memory.
pub record Rq : Type 0 where
  pub nr_running : ℕ
  pub skip_clock_update : ℤ
  pub nr_switches : ℕ
  pub nr_uninterruptible : ℕ
  pub wrr : WrrRq
  pub others : List ℕ
  pub curr : ℕ
  pub idle : ℕ
  pub stop : Option ℕ
  pub clock : ℕ
  pub clock_task : ℕ

-- The load averages: of the run queue, its fields cpu_load, last_load_update_tick, nr_load_updates,
-- calc_load_active and calc_load_update (`next_sample`); then the variables of the same names in
-- core.c. All are words of 32 bits, signed or not.
pub record Load : Type 0 where
  pub cpu_load : ℕ → ℕ
  pub last_load_update_tick : ℕ
  pub nr_load_updates : ℕ
  pub calc_load_active : ℕ
  pub next_sample : ℕ
  pub calc_load_tasks : ℕ
  pub calc_load_update : ℕ
  pub avenrun : ℕ → ℕ
  pub calc_load_idle : ℕ → ℕ
  pub calc_load_idx : ℕ

-- The memory that the scheduler works on. `cgroup` gives each task group its control group, or
-- NULL; the paths are the two static buffers `group_path`, of wrr.c and of core.c; `readings`
-- counts how often a clock was read.
pub record State : Type 0 where
  pub task : ℕ → Task
  pub rq : Rq
  pub load : Load
  pub rt : RealTime
  pub cgroup : ℕ → Option ℕ
  pub wrr_path : ℕ → ℕ
  pub core_path : ℕ → ℕ
  pub readings : ℕ

-- Writes through a pointer.
abbrev pub write_at {ℓ} : {A : Type ℓ} → ℕ → A → (ℕ → A) → ℕ → A
write_at p v m q = if p == q then v else m q

abbrev pub set_task : ℕ → Task → State → State
set_task p t s = record s { task = write_at p t s.task }

abbrev pub set_rq : Rq → State → State
set_rq r s = record s { rq = r }

abbrev pub set_wrr : WrrRq → State → State
set_wrr w s = set_rq (record s.rq { wrr = w }) s

abbrev pub set_entity : ℕ → WrrEntity → State → State
set_entity p e s = set_task p (record (s.task p) { wrr = e }) s

abbrev pub set_stats : ℕ → SchedEntity → State → State
set_stats p e s = set_task p (record (s.task p) { se = e }) s

-- A call that may meet BUG() or BUG_ON(), where the kernel stops.
pub data Outcome {ℓ} (A : Type ℓ) : Type ℓ where
  bug : Outcome A
  done : A → Outcome A

pub stopped {ℓ} : {A : Type ℓ} {a : A} → ¬ (bug ≡ done a)
stopped e = cc

pub finished {ℓ} : {A : Type ℓ} {a b : A} → done a ≡ done b → a ≡ b
finished e = cc
