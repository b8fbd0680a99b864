-- ===== src/Tests/Loads.antt =====
-- The load averages on sample counters.
use cs356_project.Prelude.{◌≡◌, ◌≤◌, refl, arith}
use cs356_project.Loads.Average.{fixed_mul, fixed_power_loop, fixed_power_int, calc_load_n}
use cs356_project.Loads.Cpu.{
  update_cpu_load, new_cpu_load, decay_loop, decay_load_missed, degrade_factor,
}
use cs356_project.Loads.Sample.{calc_global_load, calc_load_enter_idle, calc_load_account_active}
use cs356_project.Loads.Bounds.{calc_load_n-between}
use cs356_project.Loads.Powers.{fixed_power_int_lem, with_bits, decay_load_missed_one}
use cs356_project.Loads.Approach.{steady_tick, steady_ticks, steady_ticks-arrive}
use cs356_project.Loads.Count.{
  Counts, LoadSteps, here, more, ticks, samples, enters_idle, LoadSteps-Counts,
}
use cs356_project.Loads.Window.{calc_global_load_twice}
use cs356_project.Tests.Samples.{kernel, machine, load}

-- The power of EXP_1 for a minute is about 1/e.
minute : fixed_power_int 1884 11 12 ≡ 751
unfolding fixed_power_int fixed_power_loop fixed_mul
minute = refl

-- A load of 10 is reached from 9 and not missed.
near_ten : (steady_ticks 1 10 (record load { cpu_load = λ i. 9 })).cpu_load 4 ≡ 10
unfolding steady_ticks steady_tick update_cpu_load new_cpu_load decay_load_missed
near_ten = refl

steady_ticks-arrive_example : (steady_ticks 1024 1024 load).cpu_load 4 ≡ 1024
steady_ticks-arrive_example =
    steady_ticks-arrive 1024 1024 load 4 (omega arith) (omega arith) (omega arith) (omega arith)
      (omega arith) (omega arith)

fixed_power_int_example : fixed_power_int 1884 11 12 ≡ with_bits 32 0 1884 11 12 2048
fixed_power_int_example = fixed_power_int_lem 1884 11 12 (omega arith)

decay_load_missed_one_example : decay_load_missed 1000 3 1 ≡ decay_loop (degrade_factor 1) 3 1000
decay_load_missed_one_example = decay_load_missed_one 1000 3 (omega arith) (omega arith)

-- Three tasks were active, then two for an hour without samples.
calc_load_n-between_example :
    (4096 ≤ calc_load_n 6144 1884 4096 720) × (calc_load_n 6144 1884 4096 720 ≤ 6144)
calc_load_n-between_example =
    calc_load_n-between 6144 1884 4096 720 4096 6144 (omega arith) (omega arith) (omega arith)
      (omega arith) (omega arith) (omega arith)

load-Counts : Counts load
load-Counts = record { active = omega arith; all = refl }

-- A due tick with the sample machine's tasks, a sample that comes late, and an idle time.
run : LoadSteps kernel load (
    calc_load_enter_idle 1600
      (record machine.rq { nr_running = 0 })
      (calc_global_load kernel 1520
        (calc_load_account_active kernel 1005 machine.rq (update_cpu_load 1005 3072 load))))
run =
    more _ _ (more _ _ (more _ _ here (ticks 1005 3072 machine.rq load)) (samples 1520 _))
      (enters_idle 1600 _ _)

LoadSteps-Counts_example : Counts (
    calc_load_enter_idle 1600
      (record machine.rq { nr_running = 0 })
      (calc_global_load kernel 1520
        (calc_load_account_active kernel 1005 machine.rq (update_cpu_load 1005 3072 load))))
LoadSteps-Counts_example = LoadSteps-Counts kernel run load-Counts

calc_global_load_twice_example :
    calc_global_load kernel 5000 (calc_global_load kernel 5000 load)
    ≡ calc_global_load kernel 5000 load
calc_global_load_twice_example = calc_global_load_twice kernel 5000 load (omega arith) (omega arith)
