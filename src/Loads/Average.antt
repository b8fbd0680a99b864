-- ===== src/Loads/Average.antt =====
-- Exponential averages in fixed point: core.c (calc_load, fixed_power_int, calc_load_n).
use cs356_project.Prelude.{
  ℕ, zero, suc, ◌-◌, ◌/◌, ◌%◌, ◌^◌, u32, add32, sub32, mul32, ◌==◌, if◌then◌else◌,
}

-- FIXED_1, that is 1 << FSHIFT.
abbrev pub fixed_1 : ℕ
fixed_1 = 2048

abbrev pub exp_1 : ℕ
exp_1 = 1884

abbrev pub exp_5 : ℕ
exp_5 = 2014

abbrev pub exp_15 : ℕ
exp_15 = 2037

unfoldable pub calc_load : ℕ → ℕ → ℕ → ℕ
calc_load load exp active =
    add32 (add32 (mul32 load exp) (mul32 active (sub32 fixed_1 exp))) 1024 / fixed_1

-- A product of two numbers with `frac_bits` bits behind the point, rounded.
unfoldable pub fixed_mul : ℕ → ℕ → ℕ → ℕ
fixed_mul frac_bits a b = add32 (mul32 a b) (2 ^ (frac_bits - 1)) / 2 ^ frac_bits

-- The loop, for an exponent that is not 0: its bits are used up from the lowest.
unfoldable pub fixed_power_loop : ℕ → ℕ → ℕ → ℕ → ℕ → ℕ
fixed_power_loop zero x frac_bits n result = result
fixed_power_loop (suc fuel) x frac_bits n result =
    let result' = if n % 2 == 1 then fixed_mul frac_bits result x else result in
    let rest = fixed_power_loop fuel (fixed_mul frac_bits x x) frac_bits (n / 2) result' in
    if n / 2 == 0 then result' else rest

-- The exponent has 32 bits.
unfoldable pub fixed_power_int : ℕ → ℕ → ℕ → ℕ
fixed_power_int x frac_bits n =
    if n == 0 then u32 (2 ^ frac_bits) else fixed_power_loop 32 x frac_bits n (u32 (2 ^ frac_bits))

unfoldable pub calc_load_n : ℕ → ℕ → ℕ → ℕ → ℕ
calc_load_n load exp active n = calc_load load (fixed_power_int exp 11 n) active
