-- ===== src/Prelude/Entries.antt =====
-- Queues of tasks, each task named by its number.
use Prim.Native.Nat.{ℕ, suc, ◌+◌}
use mathlib.Core.Path.{◌≡◌, refl}
use mathlib.Core.Bool.{Bool, true, false, ◌||◌}
use mathlib.Core.List.{List, [], ◌∷◌, ◌++◌}
use native.Mathlib.Omega.{arith}
use cs356_project.Prelude.Tests.{◌==◌, if◌then◌else◌}

module _ {ℓ} {A : Type ℓ} where
  abbrev pub length : List A → ℕ
  length [] = 0
  length (x ∷ xs) = suc (length xs)

  pub length-append : (xs ys : List A) → length (xs ++ ys) ≡ length xs + length ys
  length-append [] ys = omega arith
  length-append (x ∷ xs) ys = omega (arith, length-append xs ys)

abbrev pub elem : ℕ → List ℕ → Bool
elem x [] = false
elem x (y ∷ ys) = x == y || elem x ys

abbrev pub remove : ℕ → List ℕ → List ℕ
remove x [] = []
remove x (y ∷ ys) = let rest = remove x ys in if x == y then rest else y ∷ rest

-- No task stands twice in the queue.
abbrev pub Distinct : List ℕ → Type 0
Distinct [] = Unit {0}
Distinct (x ∷ xs) = (elem x xs ≡ false) × Distinct xs

pub elem-remove :
    (x y : ℕ) (q : List ℕ) → elem y (remove x q) ≡ (if x == y then false else elem y q)
elem-remove x y [] = ground arith
elem-remove x y (z ∷ q) = ground (arith, elem-remove x y q)

pub remove_absent : (x : ℕ) (q : List ℕ) → elem x q ≡ false → remove x q ≡ q
remove_absent x [] h = refl
remove_absent x (y ∷ q) h = ground (arith, remove_absent x q)

pub remove-Distinct : (x : ℕ) (q : List ℕ) → Distinct q → Distinct (remove x q)
remove-Distinct x [] d = tt
remove-Distinct x (y ∷ q) d = ground (arith, remove-Distinct x q d.1, elem-remove x y q)

pub elem-append : (x : ℕ) (q r : List ℕ) → elem x (q ++ r) ≡ (elem x q || elem x r)
elem-append x [] r = refl
elem-append x (y ∷ q) r = ground (arith, elem-append x q r)

pub append-Distinct : (x : ℕ) (q : List ℕ) → Distinct q → elem x q ≡ false → Distinct (q ++ x ∷ [])
append-Distinct x [] d h = (refl, tt)
append-Distinct x (y ∷ q) d h = ground (arith, append-Distinct x q d.1, elem-append y q (x ∷ []))

pub remove-append : (x : ℕ) (q r : List ℕ) → remove x (q ++ r) ≡ remove x q ++ remove x r
remove-append x [] r = refl
remove-append x (y ∷ q) r = ground (arith, remove-append x q r)

pub length-remove :
    (x : ℕ) (q : List ℕ) → Distinct q → elem x q ≡ true → length q ≡ suc (length (remove x q))
length-remove x [] d h = ground arith
length-remove x (y ∷ q) d h = ground (arith, length-remove x q d.1, remove_absent x q)
