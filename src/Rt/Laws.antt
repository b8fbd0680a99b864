-- ===== src/Rt/Laws.antt =====
-- The real-time class of rt.c in the place of the arbitrary one.
use cs356_project.Prelude.{ℕ, suc, Bool, true, false, Option, none, ◌==◌, if◌then◌else◌}
use cs356_project.Kernel.Types.{SchedClass, rt_class, State, Outcome, bug, done}
use cs356_project.Kernel.External.{Kernel, ClassOp, ClassLaws, Frame}
use cs356_project.Rt.Memory.{rt_rq_throttled}
use cs356_project.Rt.Class.{rt_op, pick_down, start_picked, pick_next_task_rt}
use cs356_project.Rt.Frames.{Frame-refl, task-Frame}
use cs356_project.Rt.Frames.Table.{rt_op-Frame}

-- The operations of one class replaced, all but pick_next_task.
abbrev op_with : Kernel → ℕ → SchedClass → ClassOp → ℕ → ℕ → State → State
op_with k depth rt_class op p a s = rt_op k depth op p a s
op_with k depth c op p a s = k.class_op c op p a s

abbrev pub with_rt : Kernel → ℕ → Kernel
with_rt k depth = record k { class_op = op_with k depth }

op_with-Frame :
    (k : Kernel) (depth : ℕ) (laws : ClassLaws k) (c : SchedClass) (op : ClassOp) (p a : ℕ)
    (s : State)
    → Frame s (op_with k depth c op p a s)
op_with-Frame k depth laws rt_class op p a s = rt_op-Frame k depth op p a s
op_with-Frame k depth laws c op p a s = laws.op_Frame c op p a s

-- What a search that does not stop the kernel leaves alone.
abbrev pub Leaves : State → Outcome (Option ℕ × State) → Type 0
Leaves s bug = Unit {0}
Leaves s (done r) = Frame s r.1

start_picked-Leaves :
    (k : Kernel) (depth : ℕ) (o : Outcome ℕ) (s : State) → Leaves s (start_picked k depth o s)
start_picked-Leaves k depth bug s = tt
start_picked-Leaves k depth (done p) s =
    task-Frame p (record (s.task p).se { exec_start = s.rq.clock_task }) (s.task p).need_resched s

if-Leaves :
    (s : State) (b : Bool) (o o' : Outcome (Option ℕ × State))
    → Leaves s o
    → Leaves s o'
    → Leaves s (if b then o else o')
if-Leaves s true o o' h h' = h
if-Leaves s false o o' h h' = h'

pick_next_task_rt-Leaves :
    (k : Kernel) (depth : ℕ) (s : State) → Leaves s (pick_next_task_rt k depth s)
unfolding pick_next_task_rt
pick_next_task_rt-Leaves k depth s =
    let picked = start_picked k depth (pick_down k depth (suc depth) 0 s) s in
    if-Leaves s ((s.rt.rt_rq 0).rt_nr_running == 0) (done (none, s))
      (if rt_rq_throttled (s.rt.rt_rq 0) then done (none, s) else picked) (Frame-refl s)
      (if-Leaves s (rt_rq_throttled (s.rt.rt_rq 0)) (done (none, s)) picked (Frame-refl s)
        (start_picked-Leaves k depth (pick_down k depth (suc depth) 0 s) s))

-- When the other classes keep the laws of the interface, they keep them also with the operations of
-- rt.c's table, except pick_next_task and get_rr_interval, in the place of the arbitrary ones of the
-- real-time class, at any depth of nested groups: each leaves WRR's run queue, the running and the
-- idle task, and of every task all but its statistics and its need_resched flag alone. rt.c's
-- pick_next_task, where it does not stop the kernel, leaves the same alone. That the task it chooses
-- is not a WRR task is not stated.
pub with_rt-ClassLaws :
    (k : Kernel) (depth : ℕ)
    → ClassLaws k
    → ClassLaws (with_rt k depth) × ((s : State) → Leaves s (pick_next_task_rt k depth s))
with_rt-ClassLaws k depth laws = (
  record {
    op_Frame = op_with-Frame k depth laws;
    pick_Frame = laws.pick_Frame;
    pick_own = laws.pick_own;
  },
  pick_next_task_rt-Leaves k depth,
)
