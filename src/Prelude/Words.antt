-- ===== src/Prelude/Words.antt =====
-- Unsigned machine words: unsigned int and unsigned long have 32 bits on the ARM target, u64 has 64.
use Prim.Native.Nat.{ℕ, ◌+◌, ◌-◌, ◌*◌, ◌%◌, ◌<◌}
use mathlib.Core.Path.{◌≡◌}
use mathlib.Core.Bool.{Bool, ◌&&◌}
use native.Mathlib.Omega.{arith}
use cs356_project.Prelude.Tests.{ltb, leb}

abbrev pub u32 : ℕ → ℕ
u32 n = n % 4294967296

abbrev pub add32 : ℕ → ℕ → ℕ
add32 a b = (a + b) % 4294967296

-- `-` on ℕ stops at 0, so the modulus is added first; the operands are below it.
abbrev pub sub32 : ℕ → ℕ → ℕ
sub32 a b = (a + 4294967296 - b) % 4294967296

abbrev pub mul32 : ℕ → ℕ → ℕ
mul32 a b = a * b % 4294967296

-- A word that is a positive long.
abbrev pub positive32 : ℕ → Bool
positive32 a = ltb 0 a && ltb a 2147483648

-- time_before: the difference of the words is a negative long.
abbrev pub time_before : ℕ → ℕ → Bool
time_before a b = leb 2147483648 (sub32 a b)

abbrev pub add64 : ℕ → ℕ → ℕ
add64 a b = (a + b) % 18446744073709551616

abbrev pub sub64 : ℕ → ℕ → ℕ
sub64 a b = (a + 18446744073709551616 - b) % 18446744073709551616

pub add32-u32 : (a b : ℕ) → add32 (u32 a) b ≡ u32 (a + b)
add32-u32 a b = omega arith

pub sub32-u32 : (a b : ℕ) → b < 4294967296 → sub32 (u32 (a + b)) b ≡ u32 a
sub32-u32 a b h = omega arith
