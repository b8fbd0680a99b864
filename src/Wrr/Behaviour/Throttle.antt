-- ===== src/Wrr/Behaviour/Throttle.antt =====
-- wrr_throttled of wrr.c: how often it holds.
use cs356_project.Prelude.{ℕ, zero, suc, ◌+◌, ◌%◌, ◌≡◌, refl, arith, Bool, leb, if◌then◌else◌}
use cs356_project.Kernel.Types.{State}
use cs356_project.Kernel.External.{Kernel}
use cs356_project.Wrr.Weight.{wrr_throttled}

-- How many of the n readings from `start` on, in steps of a nanosecond, throttle WRR.
abbrev pub throttled_in : Kernel → State → ℕ → ℕ → ℕ
throttled_in k s start zero = 0
throttled_in k s start (suc n) =
    let rest = throttled_in k s (suc start) n in
    if (wrr_throttled (record k { tv_nsec = λ _. start }) s).0 then suc rest else rest

abbrev one_if : Bool → ℕ
one_if b = if b then 1 else 0

abbrev late : ℕ → ℕ
late x = one_if (leb (x % 100) 71)

module _ (k : Kernel) (s : State) where
  first_reading : (x n : ℕ) → throttled_in k s x (suc n) ≡ late x + throttled_in k s (suc x) n
  unfolding wrr_throttled
  first_reading x n = ground arith

  last_reading : (n x : ℕ) → throttled_in k s x (suc n) ≡ throttled_in k s x n + late (x + n)
  unfolding wrr_throttled
  last_reading zero x = let e : x + 0 ≡ x = omega arith in rw e (ground arith)
  last_reading (suc n) x =
      let e : x + suc n ≡ suc x + n = omega arith in
      rw e (omega (arith, first_reading x (suc n), first_reading x n, last_reading n (suc x)))

  late_again : (x : ℕ) → late (x + 100) ≡ late x
  late_again x = let e : (x + 100) % 100 ≡ x % 100 = omega arith in rw e

  at_zero : throttled_in k s 0 100 ≡ 72
  unfolding wrr_throttled
  at_zero = refl

  -- Of any hundred consecutive nanoseconds 72 throttle WRR.
  pub throttled_share : (start : ℕ) → throttled_in k s start 100 ≡ 72
  throttled_share zero = at_zero
  throttled_share (suc x) =
      omega (arith, throttled_share x, first_reading x 100, last_reading 100 x, late_again x)
