-- ===== src/Lib.antt =====
-- A weighted round-robin (WRR) scheduling class for an Android Linux kernel, on one processor.
--
-- The program is a patch of the kernel's scheduler. patch/kernel/sched/wrr.c is the class: a run
-- queue of tasks, each with a weight that gives its time slice, behind the table of operations
-- wrr_sched_class. patch/kernel/sched/core.c is the common part: it calls the operations of a
-- task's class when the task wakes, sleeps, changes its policy or is charged a tick, and asks the
-- classes in order (stop, real-time, WRR, fair, idle) for the next task.
--
-- The files:
--   Prelude    shared names; Boolean tests, integers, machine words, and entries of lists.
--   Kernel     Types: the structures of patch/include/linux/sched.h and patch/kernel/sched/sched.h
--              as records, and the whole memory as a `State`; Constants; External: code that is
--              not in the repository (the list functions, clocks, security hooks) and the classes
--              other than WRR as a record `Kernel` of parameters, with the laws `ListLaws` of the
--              list functions, and `ClassLaws`, by which the other classes leave WRR's queue and
--              all but their own fields alone; Links: the pointers of list nodes.
--   Wrr        wrr.c. Weight: group paths, weights, slices, the throttle; Queue: the entities on
--              the run queue; Class: the operations of the table.
--     Invariant   well-formed run queues, and the operations that keep them so.
--     RoundRobin  an abstract line of turns, and that a tick implements it.
--     Behaviour   what single operations do.
--   Core       core.c. Prio: priorities and load weights; Classes: the calls through the tables;
--              Policy: changes of policy and priority inheritance; Fork, Wake, Nice, Switch: new
--              tasks, wake-ups, nice values, ticks and the choice of the next task; Syscalls;
--              Waiters: completions; Groups: moves between groups, normalize_rt_tasks.
--     Frames, Sound, Off, Live            what these operations keep; Live.Machine has all of them as
--                                         steps of one relation.
--     Ready                               that queued WRR tasks always have slice, step by step.
--     Order, Answers, Children            the order of the classes, what is read back after a change,
--                                         what a child inherits.
--     Rounds                              the timer's interrupt and the pass of the scheduler behind
--                                         it, while WRR has the processor to itself.
--   Rt         patch/kernel/sched/rt.c, the real-time class with nested groups. Memory, Array, Entity,
--              Time, Class: its structures, priority arrays, entities, times, and its table;
--              Frames, Laws: what its operations leave alone, as the interface asks.
--     Invariant   well-formed priority arrays; entities with their ancestors put on and taken off.
--   Bandwidth  the admission of real-time bandwidth in core.c. Walk: the walk through the groups;
--              Admission: the checks and settings; Tree, Limits, Checked: what the walk, the check
--              and a request do.
--   Loads      The load averages of core.c. Average: fixed point; Sample: the global averages; Cpu:
--              those of the run queue. Bounds, Powers, Approach, Count, Window: what they keep
--              within, what the loops give, how they follow a load, what the counters add up to,
--              and when samples are due.
--   Tests      a sample machine, and the results at concrete inputs.
--
-- A C function f(p, ...) is a function of the same name from the state to the new state, with its
-- result beside it where it returns one; rq and the lists are parts of the state, a task is named
-- by the number of its structure. A function of several stages is split at its comments, and the
-- stages have names of their own. __setscheduler is `setscheduler`, __sched_setscheduler is
-- `sched_setscheduler_common`, task_group_path of core.c is `core_group_path`, __schedule is
-- `schedule_pass`, one pass of its loop, __sched_fork is `sched_fork_common`, and a system call f is
-- `sys_f`, except sched_yield. A group is an argument of sched_move_task, and the
-- tasks of the system are an argument of normalize_rt_tasks. BUG() and BUG_ON() stop
-- the kernel: such functions return an `Outcome`. Errors are negative integers. unsigned int, and
-- unsigned long on this 32-bit machine, are numbers modulo 2 ^ 32, times are modulo 2 ^ 64. The
-- loop of fixed_power_int has 32 rounds of fuel, one for each bit of the exponent; all other loops
-- go over lists or are unrolled. Loops up and
-- down through nested real-time groups are bounded by their depth, a parameter; the walk through all
-- groups has three rounds of fuel for each. The root group is group 0. __rt_schedulable is
-- `rt_schedulable`.
--
-- Not modelled: code for several processors, locks (one entry runs at a time), statistics and debug
-- output, except that the output of a debug kernel writes the static path buffer of wrr.c; the
-- inside of the stop, fair and idle classes, which other files of the kernel hold; control group
-- files, the waiting side of completions; the programs under utils. The classes above and below WRR
-- are arbitrary, under the laws; Rt.Laws puts the operations of rt.c, all but pick_next_task and
-- get_rr_interval, in the place of those of one of them. rt_mutex_adjust_pi, of kernel/rtmutex.c,
-- which passes a change of policy on to the owners of locks that the task waits for, is left out; so
-- is what set_task_rq writes for the fair class. The path back from an interrupt is not in the
-- repository: Core.Rounds takes it to be a pass of the scheduler where the running task is marked.
pub mod Prelude
pub mod Kernel
pub mod Wrr
pub mod Loads
pub mod Core
pub mod Bandwidth
pub mod Rt
mod Tests
