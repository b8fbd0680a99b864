-- ===== src/Wrr/RoundRobin/Ticks.antt =====
-- Lines of turns whose next ticks each find slice left.
use cs356_project.Prelude.{
  ℕ, zero, suc, ◌-◌, ◌<◌, ◌≤◌, arith, List, [], ◌∷◌, ◌++◌, sym, subst, ◌==◌, Bool-cases, inl, inr,
}
use mathlib.Core.List.{append_assoc}
use cs356_project.Wrr.RoundRobin.Turns.{Turn, spend, slices, AllReady, renewed}

-- The next n ticks each find a front task with slice left.
abbrev pub HeadReady : List Turn → Type 0
HeadReady [] = Unit {0}
HeadReady (x ∷ q) = 0 < x.slice

abbrev pub FrontReady : ℕ → List Turn → Type 0
FrontReady zero q = Unit {0}
FrontReady (suc n) q = HeadReady q × FrontReady n (spend q)

pub front-ready : (n : ℕ) (q r : List Turn) → AllReady q → n ≤ slices q → FrontReady n (q ++ r)
unfolding spend
front-ready zero q r h m = tt
front-ready (suc n) [] r h m = absurd (omega arith)
front-ready (suc n) (x ∷ q) r h m = (
  h.0,
  elim (Bool-cases (x.slice == 1)) [
    | inl last ↦ rw last (
        subst (FrontReady n) (sym (append_assoc q r (renewed x ∷ [])))
          (front-ready n q (r ++ renewed x ∷ []) h.1 (ground arith)))
    | inr more ↦
        rw more
          (front-ready n (record x { slice = x.slice - 1 } ∷ q) r (ground arith) (ground arith))
  ],
)
