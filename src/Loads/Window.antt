-- ===== src/Loads/Window.antt =====
-- The window of the global sample: core.c (calc_global_load, calc_global_nohz, the two indexes of
-- the pending deltas).
use native.Mathlib.Nat.{lt-mul-div-succ, mul-div-le, mul_comm}
use cs356_project.Prelude.{
  ℕ, true, false, ◌+◌, ◌/◌, ◌≤◌, ◌<◌, ◌≡◌, arith, add32, sub32, mul32, time_before,
}
use cs356_project.Kernel.Types.{Load}
use cs356_project.Kernel.External.{Kernel}
use cs356_project.Loads.Sample.{
  load_freq, calc_load_write_idx, calc_load_read_idx, calc_load_fold_idle, take_sample,
  calc_global_nohz, catch_up, calc_global_load,
}

-- Enough rounds of `freq` to get past `now`.
ahead :
    (now update freq : ℕ)
    → 0 < freq
    → freq < 1073741824
    → now < 4294967296
    → update < 4294967296
    → time_before now (add32 update 10) ≡ false
    → time_before now
        (add32 (add32 update (mul32 (1 + sub32 (sub32 now update) 10 / freq) freq)) 10)
      ≡ true
ahead now update freq p q n u late =
    let delta = sub32 (sub32 now update) 10 in
    ground (arith, mul-div-le delta freq, lt-mul-div-succ delta p, mul_comm freq (1 + delta / freq))

module _ (k : Kernel) where
  -- 5 s of ticks, far below the range of jiffies.
  freq_pos : 0 < load_freq k
  freq_pos = omega arith

  take_sample-word : (x : Load) → (take_sample k x).calc_load_update < 4294967296
  unfolding take_sample
  take_sample-word x = omega arith

  nohz-ahead :
      (now : ℕ) (x : Load)
      → k.hz ≤ 10000
      → now < 4294967296
      → x.calc_load_update < 4294967296
      → time_before now (add32 (calc_global_nohz k now x).calc_load_update 10) ≡ true
  unfolding calc_global_nohz catch_up
  nohz-ahead now x h n u =
      ground (arith, ahead now x.calc_load_update (load_freq k) freq_pos (omega arith) n u)

  not_due :
      (now : ℕ) (x : Load)
      → time_before now (add32 x.calc_load_update 10) ≡ true
      → calc_global_load k now x ≡ x
  unfolding calc_global_load
  not_due now x e = ground (arith, e)

  -- After the sample of the timer the next one lies ahead, however late the timer came.
  pub calc_global_load-ahead :
      (now : ℕ) (x : Load)
      → k.hz ≤ 10000
      → now < 4294967296
      → time_before now (add32 (calc_global_load k now x).calc_load_update 10) ≡ true
  unfolding calc_global_load
  calc_global_load-ahead now x h n =
      ground (arith, nohz-ahead now (take_sample k x) h n (take_sample-word x))

  -- One call catches up with all samples that were missed, so that a second call at the same time
  -- changes nothing.
  pub calc_global_load_twice :
      (now : ℕ) (x : Load)
      → k.hz ≤ 10000
      → now < 4294967296
      → calc_global_load k now (calc_global_load k now x) ≡ calc_global_load k now x
  calc_global_load_twice now x h n =
      not_due now (calc_global_load k now x) (calc_global_load-ahead now x h n)

  -- Before the window, a processor that goes idle writes its delta where the coming sample reads it;
  -- in the window, where the sample after that one reads it.
  pub write_idx-read_idx :
      (now late : ℕ) (x : Load)
      → time_before late (add32 x.calc_load_update 10) ≡ false
      → (time_before now x.calc_load_update ≡ true
          → calc_load_write_idx now x ≡ calc_load_read_idx x)
        × (time_before now x.calc_load_update ≡ false
            → calc_load_write_idx now x ≡ calc_load_read_idx (calc_global_load k late x))
  unfolding calc_global_load calc_global_nohz catch_up take_sample calc_load_fold_idle
      calc_load_write_idx calc_load_read_idx
  write_idx-read_idx now late x due = (ground arith, ground (arith, due))
