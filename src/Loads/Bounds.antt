-- ===== src/Loads/Bounds.antt =====
-- Bounds of the averages and of the loads: core.c (calc_load, fixed_power_int, calc_load_n,
-- decay_load_missed). Below the bounds here no product of the source wraps around.
use native.Mathlib.Nat.{mul-add, mul-le-mul, mul-le-mul_left, mul-le-mul_right, mul_comm}
use cs356_project.Prelude.{
  ℕ, zero, suc, ◌+◌, ◌*◌, ◌/◌, ◌%◌, ◌≤◌, ◌<◌, ◌≡◌, ap, ◌∙◌, sym, List, [], ◌∷◌, arith, add32, mul32,
  sub32,
}
use cs356_project.Loads.Average.{
  calc_load, fixed_mul, fixed_power_loop, fixed_power_int, calc_load_n, fixed_1,
}
use cs356_project.Loads.Cpu.{decay_loop, decay_load_missed, degrade_factor}

-- The two parts of an average sum up to the whole.
parts : (m exp : ℕ) → exp ≤ 2048 → m * exp + m * sub32 2048 exp ≡ m * 2048
parts m exp h = sym (mul-add m exp (sub32 2048 exp)) ∙ ap (λ e. m * e) (omega arith)

rounded :
    (p q l m : ℕ)
    → l * 2048 ≤ p + q
    → p + q ≤ m * 2048
    → m ≤ 2097151
    → (l ≤ add32 (add32 (p % 4294967296) (q % 4294967296)) 1024 / 2048)
      × (add32 (add32 (p % 4294967296) (q % 4294967296)) 1024 / 2048 ≤ m)
rounded p q l m h1 h2 h3 = (omega arith, omega arith)

-- The average after a sample lies between the old one and the sample, for an average and a sample
-- of at most 2,097,151, that is 1023.99 tasks.
pub calc_load-between :
    (load exp active l m : ℕ)
    → exp ≤ fixed_1
    → l ≤ load
    → l ≤ active
    → load ≤ m
    → active ≤ m
    → m ≤ 2097151
    → (l ≤ calc_load load exp active) × (calc_load load exp active ≤ m)
unfolding calc_load
calc_load-between load exp active l m h l1 l2 m1 m2 h3 =
    rounded (load * exp) (active * sub32 2048 exp) l m
      (omega (arith, parts l exp h, mul-le-mul_right exp l1, mul-le-mul_right (sub32 2048 exp) l2))
      (omega (arith, parts m exp h, mul-le-mul_right exp m1, mul-le-mul_right (sub32 2048 exp) m2))
      h3

-- A product of two factors that are at most 1 is at most 1.
pub fixed_mul-bound : (a b : ℕ) → a ≤ fixed_1 → b ≤ fixed_1 → fixed_mul 11 a b ≤ fixed_1
unfolding fixed_mul
fixed_mul-bound a b h h' = omega (arith, mul-le-mul h h')

power_loop-bound :
    (fuel x n result : ℕ)
    → x ≤ fixed_1
    → result ≤ fixed_1
    → fixed_power_loop fuel x 11 n result ≤ fixed_1
unfolding fixed_power_loop
power_loop-bound zero x n result h h' = h'
power_loop-bound (suc fuel) x n result h h' =
    let x' = fixed_mul-bound x x h h in
    let result' = fixed_mul-bound result x h' h in
    ground (
      arith,
      power_loop-bound fuel (fixed_mul 11 x x) (n / 2) (fixed_mul 11 result x) x' result',
      power_loop-bound fuel (fixed_mul 11 x x) (n / 2) result x' h',
    )

-- A power of a factor that is at most 1 is at most 1.
pub fixed_power_int-bound : (x n : ℕ) → x ≤ fixed_1 → fixed_power_int x 11 n ≤ fixed_1
unfolding fixed_power_int
fixed_power_int-bound x n h = ground (arith, power_loop-bound 32 x n 2048 h)

-- However many samples were missed, the average that catches up lies between the old one and the
-- load, for loads of at most 1023.99 tasks.
pub calc_load_n-between :
    (load exp active n l m : ℕ)
    → exp ≤ fixed_1
    → l ≤ load
    → l ≤ active
    → load ≤ m
    → active ≤ m
    → m ≤ 2097151
    → (l ≤ calc_load_n load exp active n) × (calc_load_n load exp active n ≤ m)
unfolding calc_load_n
calc_load_n-between load exp active n l m h =
    calc_load-between load (fixed_power_int exp 11 n) active l m (fixed_power_int-bound exp n h)

scaled : (load factor : ℕ) → factor ≤ 128 → load < 33554432 → mul32 load factor / 128 ≤ load
scaled load factor h h' = omega (arith, mul-le-mul_left load h, mul_comm load factor)

-- No entry of the tables is above 1, that is 128.
abbrev Small : List ℕ → Type 0
Small [] = Unit {0}
Small (x ∷ xs) = (x ≤ 128) × Small xs

decay_loop-bound :
    (row : List ℕ) (missed load : ℕ)
    → Small row
    → load < 33554432
    → decay_loop row missed load ≤ load
unfolding decay_loop
decay_loop-bound [] missed load h l = omega arith
decay_loop-bound (factor ∷ row) missed load h l =
    let smaller = scaled load factor h.0 l in
    ground (
      arith,
      decay_loop-bound row (missed / 2) (mul32 load factor / 128) h.1,
      decay_loop-bound row (missed / 2) load h.1,
    )

rows-Small : (idx : ℕ) → Small (degrade_factor idx)
rows-Small zero = ground arith
rows-Small (suc zero) = ground arith
rows-Small (suc (suc zero)) = ground arith
rows-Small (suc (suc (suc zero))) = ground arith
rows-Small (suc (suc (suc (suc n)))) = ground arith

-- Missed ticks never raise the old load.
pub decay_load_missed-bound :
    (load missed idx : ℕ) → load < 33554432 → decay_load_missed load missed idx ≤ load
unfolding decay_load_missed
decay_load_missed-bound load missed idx h =
    ground (arith, decay_loop-bound (degrade_factor idx) missed load (rows-Small idx) h)
