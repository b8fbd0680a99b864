-- ===== src/Loads/Sample.antt =====
-- The global load average: core.c (get_avenrun, calc_load_fold_active, the NO_HZ part,
-- calc_global_load, calc_load_account_active, nr_uninterruptible).
use cs356_project.Prelude.{
  ℕ, not, ◌+◌, ◌*◌, ◌/◌, ◌%◌, ◌^◌, u32, add32, sub32, mul32, positive32, time_before, ltb, ◌==◌,
  if◌then◌else◌,
}
use cs356_project.Kernel.Types.{Load, Rq, State, write_at}
use cs356_project.Kernel.External.{Kernel}
use cs356_project.Loads.Average.{calc_load, calc_load_n, fixed_1, exp_1, exp_5, exp_15}

-- The sum over one processor; a negative one counts as 0.
unfoldable pub nr_uninterruptible : State → ℕ
nr_uninterruptible s = if ltb s.rq.nr_uninterruptible 2147483648 then s.rq.nr_uninterruptible else 0

unfoldable pub get_avenrun : ℕ → ℕ → Load → ℕ → ℕ
get_avenrun offset shift x i = u32 (add32 (x.avenrun i) offset * 2 ^ shift)

-- The change since the last sample.
unfoldable pub calc_load_fold_active : Rq → Load → ℕ × Load
calc_load_fold_active r x =
    let nr_active = add32 r.nr_running r.nr_uninterruptible in
    if nr_active == x.calc_load_active
    then (0, x)
    else (sub32 nr_active x.calc_load_active, record x { calc_load_active = nr_active })

unfoldable pub calc_load_write_idx : ℕ → Load → ℕ
calc_load_write_idx jiffies x =
    (if not (time_before jiffies x.calc_load_update) then x.calc_load_idx + 1 else x.calc_load_idx)
    % 2

unfoldable pub calc_load_read_idx : Load → ℕ
calc_load_read_idx x = x.calc_load_idx % 2

unfoldable pub calc_load_enter_idle : ℕ → Rq → Load → Load
calc_load_enter_idle jiffies r x =
    let (delta, x') = calc_load_fold_active r x in
    let idx = calc_load_write_idx jiffies x' in
    if delta == 0 then x' else record x' {
      calc_load_idle = write_at idx (add32 (x'.calc_load_idle idx) delta) x'.calc_load_idle;
    }

module _ (k : Kernel) where
  -- Ticks between two samples.
  abbrev pub load_freq : ℕ
  load_freq = 5 * k.hz + 1

  unfoldable pub calc_load_exit_idle : ℕ → Load → Load
  calc_load_exit_idle jiffies x =
      let next = x.calc_load_update in
      if time_before jiffies x.next_sample
      then x
      else if time_before jiffies (add32 next 10)
      then record x { next_sample = add32 next load_freq }
      else record x { next_sample = next }

  unfoldable pub calc_load_fold_idle : Load → ℕ × Load
  calc_load_fold_idle x =
      let idx = calc_load_read_idx x in
      let delta = x.calc_load_idle idx in
      if delta == 0
      then (0, x)
      else (delta, record x { calc_load_idle = write_at idx 0 x.calc_load_idle })

  -- Tasks that count, in fixed point.
  unfoldable pub active_load : Load → ℕ
  active_load x = if positive32 x.calc_load_tasks then mul32 x.calc_load_tasks fixed_1 else 0

  -- The three averages go on by one rule each.
  abbrev pub average_with : (ℕ → ℕ → ℕ) → (ℕ → ℕ) → ℕ → ℕ
  average_with rule old i =
      if i == 0
      then rule (old 0) exp_1
      else if i == 1
      then rule (old 1) exp_5
      else if i == 2
      then rule (old 2) exp_15
      else old i

  -- The samples that were missed.
  unfoldable pub catch_up : ℕ → Load → Load
  catch_up jiffies x =
      let delta = sub32 (sub32 jiffies x.calc_load_update) 10 in
      let n = 1 + delta / load_freq in
      let active = active_load x in
      record x {
        avenrun = average_with (λ old exp. calc_load_n old exp active n) x.avenrun;
        calc_load_update = add32 x.calc_load_update (mul32 n load_freq);
      }

  unfoldable pub calc_global_nohz : ℕ → Load → Load
  calc_global_nohz jiffies x =
      let x' =
        if not (time_before jiffies (add32 x.calc_load_update 10)) then catch_up jiffies x else x in
      record x' { calc_load_idx = add32 x'.calc_load_idx 1 }

  -- The pending idle delta is taken over, and the averages go on by one sample.
  unfoldable pub take_sample : Load → Load
  take_sample x =
      let (delta, x1) = calc_load_fold_idle x in
      let x2 = record x1 { calc_load_tasks = add32 x1.calc_load_tasks delta } in
      let active = active_load x2 in
      record x2 {
        avenrun = average_with (λ old exp. calc_load old exp active) x2.avenrun;
        calc_load_update = add32 x2.calc_load_update load_freq;
      }

  unfoldable pub calc_global_load : ℕ → Load → Load
  calc_global_load jiffies x =
      if time_before jiffies (add32 x.calc_load_update 10)
      then x
      else calc_global_nohz jiffies (take_sample x)

  unfoldable pub calc_load_account_active : ℕ → Rq → Load → Load
  calc_load_account_active jiffies r x =
      let (delta, x') = calc_load_fold_active r x in
      if time_before jiffies x.next_sample then x else record x' {
        calc_load_tasks = add32 x'.calc_load_tasks delta;
        next_sample = add32 x'.next_sample load_freq;
      }
