-- ===== src/Wrr/RoundRobin/Turns.antt =====
-- The abstract line of turns that wrr.c implements, and its fairness.
use cs356_project.Prelude.{
  ℕ, zero, suc, ◌+◌, ◌-◌, ◌≡◌, ◌<◌, ap, sym, ◌∙◌, arith, List, [], ◌∷◌, ◌++◌, map, ◌==◌,
  if◌then◌else◌,
}
use mathlib.Core.List.{append_assoc, append-nil}

pub record Turn : Type 0 where
  pub task : ℕ
  pub slice : ℕ
  pub quantum : ℕ

abbrev pub renewed : Turn → Turn
renewed x = record x { slice = x.quantum }

unfoldable pub spend : List Turn → List Turn
spend [] = []
spend (x ∷ q) = if x.slice == 1 then q ++ renewed x ∷ [] else record x { slice = x.slice - 1 } ∷ q

abbrev pub spend_for : ℕ → List Turn → List Turn
spend_for zero q = q
spend_for (suc n) q = spend_for n (spend q)

-- The ticks that the tasks of a part of the line may run before their turns are over.
abbrev pub slices : List Turn → ℕ
slices [] = 0
slices (x ∷ q) = x.slice + slices q

abbrev pub AllReady : List Turn → Type 0
AllReady [] = Unit {0}
AllReady (x ∷ q) = (0 < x.slice) × AllReady q

spend_for-add : (m n : ℕ) (q : List Turn) → spend_for (m + n) q ≡ spend_for n (spend_for m q)
spend_for-add zero n q = let e : zero + n ≡ n = omega arith in rw e
spend_for-add (suc m) n q =
    let e : suc m + n ≡ suc (m + n) = omega arith in rw e (spend_for-add m n (spend q))

-- A turn lasts for its slice.
spend_for-turn :
    (n : ℕ) (x : Turn) (q : List Turn)
    → x.slice ≡ suc n
    → spend_for x.slice (x ∷ q) ≡ q ++ renewed x ∷ []
unfolding spend
spend_for-turn zero x q e = rw e (ground arith)
spend_for-turn (suc n) x q e =
    rw e (ground (arith, spend_for-turn n (record x { slice = suc n }) q))

-- Those in front have their turns, in order, and line up again behind the others.
pub spend_for-slices :
    (q r : List Turn) → AllReady q → spend_for (slices q) (q ++ r) ≡ r ++ map renewed q
spend_for-slices [] r h = sym (append-nil r)
spend_for-slices (x ∷ q) r h =
    spend_for-add x.slice (slices q) (x ∷ q ++ r)
    ∙ ap (spend_for (slices q))
        (spend_for-turn (x.slice - 1) x (q ++ r) (omega arith) ∙ append_assoc q r (renewed x ∷ []))
    ∙ spend_for-slices q (r ++ renewed x ∷ []) h.1
    ∙ append_assoc r (renewed x ∷ []) (map renewed q)
