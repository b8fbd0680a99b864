-- ===== src/Prelude.antt =====
-- The names that the modules of the scheduler share: the libraries', passed on, and those of the
-- children for Boolean tests, integers, machine words and queues of task numbers.
mod Tests
mod Int
mod Words
mod Entries
pub use Tests.*
unfoldable pub use Int.*
pub use Words.*
pub use Entries.*
pub use Prim.Native.Nat.{ℕ, zero, suc, ◌+◌, ◌-◌, ◌*◌, ◌/◌, ◌%◌, ◌^◌, ◌≤◌, ◌<◌}
pub use mathlib.Core.Path.{◌≡◌, refl, sym, ap, ◌∙◌, subst}
pub use mathlib.Core.Logic.{◌≢◌, ◌↔◌, ◌⊎◌, inl, inr}
pub use mathlib.Core.Bool.{Bool, true, false, ◌&&◌, ◌||◌, not}
pub use mathlib.Core.Option.{Option, none, some}
pub use mathlib.Core.List.{List, [], ◌∷◌, ◌++◌, map}
pub use native.Mathlib.Omega.{arith}
