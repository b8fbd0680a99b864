-- ===== src/Loads/Powers.antt =====
-- The loops of fixed_power_int and decay_load_missed in core.c: when they end, and what they agree
-- with.
use cs356_project.Prelude.{
  ℕ, zero, suc, ◌/◌, ◌%◌, ◌^◌, ◌≤◌, ◌<◌, ◌≡◌, ◌∙◌, refl, sym, arith, ap, u32, ◌==◌, if◌then◌else◌,
  Bool-cases, inl, inr,
}
use native.Mathlib.Nat.{pow-suc, mul_comm, div-div-eq-div-mul, zero-div}
use cs356_project.Loads.Average.{
  calc_load, fixed_mul, fixed_power_loop, fixed_power_int, calc_load_n, fixed_1,
}
use cs356_project.Loads.Cpu.{decay_loop, decay_load_missed, degrade_factor}

half_below : (n fuel : ℕ) → n < 2 ^ suc fuel → n / 2 < 2 ^ fuel
half_below n fuel h = omega (arith, pow-suc 2 fuel)

-- x squared i times.
abbrev pub squared : ℕ → ℕ → ℕ → ℕ
squared zero x frac_bits = x
squared (suc i) x frac_bits = squared i (fixed_mul frac_bits x x) frac_bits

-- The product of a number and the powers of x for the bits of n that are set, from bit i on for
-- `bits` bits.
abbrev pub with_bits : ℕ → ℕ → ℕ → ℕ → ℕ → ℕ → ℕ
with_bits zero i x frac_bits n result = result
with_bits (suc bits) i x frac_bits n result =
    with_bits bits (suc i) x frac_bits n
      (if n / 2 ^ i % 2 == 1 then fixed_mul frac_bits result (squared i x frac_bits) else result)

div_pow : (n i : ℕ) → n / 2 ^ suc i ≡ n / 2 / 2 ^ i
div_pow n i =
    ap (λ d. n / d) (pow-suc 2 i ∙ mul_comm (2 ^ i) 2) ∙ sym (div-div-eq-div-mul n 2 (2 ^ i))

with_bits-half :
    (bits i x frac_bits n result : ℕ)
    → with_bits bits (suc i) x frac_bits n result
      ≡ with_bits bits i (fixed_mul frac_bits x x) frac_bits (n / 2) result
with_bits-half zero i x frac_bits n result = refl
with_bits-half (suc bits) i x frac_bits n result =
    ap
      (λ d.
        with_bits bits (suc (suc i)) x frac_bits n
          (if d % 2 == 1 then fixed_mul frac_bits result (squared (suc i) x frac_bits) else result))
      (div_pow n i)
    ∙ with_bits-half bits (suc i) x frac_bits n _

with_bits-none : (bits i x frac_bits result : ℕ) → with_bits bits i x frac_bits 0 result ≡ result
with_bits-none zero i x frac_bits result = refl
with_bits-none (suc bits) i x frac_bits result =
    ap
      (λ d.
        with_bits bits (suc i) x frac_bits 0
          (if d % 2 == 1 then fixed_mul frac_bits result (squared i x frac_bits) else result))
      (zero-div (2 ^ i))
    ∙ with_bits-none bits (suc i) x frac_bits result

first_bit :
    (bits x frac_bits n result : ℕ)
    → with_bits (suc bits) 0 x frac_bits n result
      ≡ with_bits bits 0
          (fixed_mul frac_bits x x)
          frac_bits
          (n / 2)
          (if n % 2 == 1 then fixed_mul frac_bits result x else result)
first_bit bits x frac_bits n result =
    ap
      (λ d.
        with_bits bits 1 x frac_bits n
          (if d % 2 == 1 then fixed_mul frac_bits result x else result))
      (omega arith)
    ∙ with_bits-half bits 0 x frac_bits n _

fixed_power_loop_lem :
    (fuel x frac_bits n result : ℕ)
    → 0 < n
    → n < 2 ^ fuel
    → fixed_power_loop fuel x frac_bits n result ≡ with_bits fuel 0 x frac_bits n result
unfolding fixed_power_loop
fixed_power_loop_lem zero x frac_bits n result p h = ground arith
fixed_power_loop_lem (suc fuel) x frac_bits n result p h =
    let r = if n % 2 == 1 then fixed_mul frac_bits result x else result in
    let x' = fixed_mul frac_bits x x in
    elim (Bool-cases (n / 2 == 0)) [
      | inl last ↦
          let none_left : n / 2 ≡ 0 = ground (arith, last) in
          rw last (
            sym (
              first_bit fuel x frac_bits n result
              ∙ ap (λ m. with_bits fuel 0 x' frac_bits m r) none_left
              ∙ with_bits-none fuel 0 x' frac_bits r))
      | inr more ↦ rw more (
          fixed_power_loop_lem fuel x' frac_bits (n / 2) r (ground (arith, more))
            (half_below n fuel h)
          ∙ sym (first_bit fuel x frac_bits n result))
    ]

-- The power, for an exponent of 32 bits, is the product, taken and rounded from the lowest bit up,
-- of the powers of x with exponents 2 ^ i, by i squares, for the bits i of the exponent that are
-- set, and 1 if none is; no bit is left out, though the loop of the source ends with the last one
-- that is set.
pub fixed_power_int_lem :
    (x frac_bits n : ℕ)
    → n < 4294967296
    → fixed_power_int x frac_bits n ≡ with_bits 32 0 x frac_bits n (u32 (2 ^ frac_bits))
unfolding fixed_power_int
fixed_power_int_lem x frac_bits n h = elim (Bool-cases (n == 0)) [
  | inl none_set ↦
      let no_exponent : n ≡ 0 = ground (arith, none_set) in
      rw none_set (
        sym (
          ap (λ m. with_bits 32 0 x frac_bits m (u32 (2 ^ frac_bits))) no_exponent
          ∙ with_bits-none 32 0 x frac_bits (u32 (2 ^ frac_bits))))
  | inr set ↦ rw set (
      fixed_power_loop_lem 32 x frac_bits n (u32 (2 ^ frac_bits)) (ground (arith, set))
        (omega (arith, h)))
]

-- One missed sample counts as one sample that was taken.
pub calc_load_n_one :
    (load exp active : ℕ)
    → exp ≤ fixed_1
    → calc_load_n load exp active 1 ≡ calc_load load exp active
unfolding calc_load_n fixed_power_int fixed_power_loop fixed_mul
calc_load_n_one load exp active h = ap (λ e. calc_load load e active) (omega arith)

decay_row_one :
    (missed load : ℕ)
    → missed < 8
    → load < 33554432
    → decay_loop (degrade_factor 1) missed load ≡ load / 2 ^ missed
unfolding decay_loop
decay_row_one zero load h l = omega arith
decay_row_one (suc zero) load h l = omega arith
decay_row_one (suc (suc zero)) load h l = omega arith
decay_row_one (suc (suc (suc zero))) load h l = omega arith
decay_row_one (suc (suc (suc (suc zero)))) load h l = omega arith
decay_row_one (suc (suc (suc (suc (suc zero))))) load h l = omega arith
decay_row_one (suc (suc (suc (suc (suc (suc zero)))))) load h l = omega arith
decay_row_one (suc (suc (suc (suc (suc (suc (suc zero))))))) load h l = omega arith
decay_row_one (suc (suc (suc (suc (suc (suc (suc (suc n)))))))) load h l = omega arith

-- For the second index the source shifts the load: below the limit of 8 missed ticks, the loop over
-- its row of factors would give the same, for loads below 2^25.
pub decay_load_missed_one :
    (load missed : ℕ)
    → missed < 8
    → load < 33554432
    → decay_load_missed load missed 1 ≡ decay_loop (degrade_factor 1) missed load
unfolding decay_load_missed
decay_load_missed_one load missed h l = ground (arith, decay_row_one missed load h l)
