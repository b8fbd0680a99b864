-- ===== src/Rt/Invariant/Bits.antt =====
-- Sums over priorities, and the first set bit of a bitmap.
use cs356_project.Prelude.{
  ℕ, zero, suc, ◌+◌, ◌≤◌, ◌<◌, ◌≡◌, refl, arith, Bool, true, false, ◌==◌, if◌then◌else◌, ltb,
  Bool-cases, inl, inr,
}
use cs356_project.Kernel.Types.{write_at}
use cs356_project.Kernel.External.{Kernel}

-- The sum of f 0 to f (n - 1).
abbrev pub sum_to : ℕ → (ℕ → ℕ) → ℕ
sum_to zero f = 0
sum_to (suc n) f = sum_to n f + f n

sum_to_above : (n i v : ℕ) (f : ℕ → ℕ) → n ≤ i → sum_to n (write_at i v f) ≡ sum_to n f
sum_to_above zero i v f h = refl
sum_to_above (suc n) i v f h = ground (arith, sum_to_above n i v f)

pub sum_to_write :
    (n i v : ℕ) (f : ℕ → ℕ) → i < n → sum_to n (write_at i v f) + f i ≡ sum_to n f + v
sum_to_write zero i v f h = omega arith
sum_to_write (suc n) i v f h = ground (arith, sum_to_write n i v f, sum_to_above n i v f)

pub sum_to_zero : (n i : ℕ) (f : ℕ → ℕ) → sum_to n f ≡ 0 → i < n → f i ≡ 0
sum_to_zero zero i f h b = omega arith
sum_to_zero (suc n) i f h b = ground (arith, sum_to_zero n i f)

pub sum_to_agree : (n : ℕ) (f g : ℕ → ℕ) → ((i : ℕ) → f i ≡ g i) → sum_to n f ≡ sum_to n g
sum_to_agree zero f g h = refl
sum_to_agree (suc n) f g h = omega (arith, sum_to_agree n f g h, h n)

-- The search for the first set bit of asm/bitops.h, for a bitmap in which the bit behind the last
-- priority is set.
pub record BitLaws (k : Kernel) : Type 0 where
  pub first_set : (bits : ℕ → Bool) → bits 100 ≡ true → bits (k.sched_find_first_bit bits) ≡ true
  pub first_least :
      (bits : ℕ → Bool) (j : ℕ) → bits 100 ≡ true → j < k.sched_find_first_bit bits → bits j ≡ false

module _ (k : Kernel) (b : BitLaws k) where
  pub first_is :
      (bits : ℕ → Bool) (m : ℕ)
      → bits 100 ≡ true
      → bits m ≡ true
      → ((j : ℕ) → j < m → bits j ≡ false)
      → k.sched_find_first_bit bits ≡ m
  first_is bits m d h below =
      let f = k.sched_find_first_bit bits in
      ground (arith, b.first_set bits d, b.first_least bits m d, h, below f)

  -- A bit more.
  pub first_of_set :
      (bits : ℕ → Bool) (i : ℕ)
      → bits 100 ≡ true
      → k.sched_find_first_bit (write_at i true bits)
        ≡ (if ltb i (k.sched_find_first_bit bits) then i else k.sched_find_first_bit bits)
  first_of_set bits i d =
      let f = k.sched_find_first_bit bits in
      let d' : write_at i true bits 100 ≡ true = ground (arith, d) in
      elim (Bool-cases (ltb i f)) [
        | inl below ↦ rw below (
            first_is (write_at i true bits) i d' (ground arith)
              (λ j c. ground (arith, below, b.first_least bits j d)))
        | inr above ↦ rw above (
            first_is (write_at i true bits) f d' (ground (arith, b.first_set bits d))
              (λ j c. ground (arith, above, b.first_least bits j d c)))
      ]

  -- A bit less, that was not the first.
  pub first_of_clear :
      (bits : ℕ → Bool) (i : ℕ)
      → bits 100 ≡ true
      → i < 100
      → (i == k.sched_find_first_bit bits) ≡ false
      → k.sched_find_first_bit (write_at i false bits) ≡ k.sched_find_first_bit bits
  first_of_clear bits i d small ne =
      let f = k.sched_find_first_bit bits in
      first_is (write_at i false bits) f (ground (arith, d, small))
        (ground (arith, ne, b.first_set bits d)) (λ j c. ground (arith, b.first_least bits j d c))
