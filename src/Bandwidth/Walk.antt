-- ===== src/Bandwidth/Walk.antt =====
-- The walk through the groups below a group: core.c (walk_tg_tree_from, tg_nop). Visits read the
-- groups and do not change them.
use cs356_project.Prelude.{
  ℕ, zero, suc, not, ◌||◌, List, [], ◌∷◌, Option, some, none, ℤ, pos, eqb_ℤ, ◌==◌, if◌then◌else◌,
}
use cs356_project.Kernel.RealTime.{RtGroup}

-- Where the walk is: at the label `down` with a group, or in the loop over the children of a group,
-- of which the list is what is left.
pub data Place : Type 0 where
  down : ℕ → Place
  within : ℕ → List ℕ → Place

-- The children that follow one in the list.
abbrev pub rest_after : ℕ → List ℕ → List ℕ
rest_after c [] = []
rest_after c (d ∷ ds) = if c == d then ds else rest_after c ds

abbrev pub tg_nop : ℕ → ℤ
tg_nop _ = pos 0

module _ (group : ℕ → RtGroup) (from : ℕ) (enter leave : ℕ → ℤ) where
  unfoldable pub walk_step : ℕ → Place → Option ℤ
  walk_step zero p = none
  walk_step (suc fuel) (down g) =
      let rest = walk_step fuel (within g (group g).children) in
      if eqb_ℤ (enter g) (pos 0) then rest else some (enter g)
  walk_step (suc fuel) (within g (c ∷ cs)) = walk_step fuel (down c)
  walk_step (suc fuel) (within g []) =
      let above = λ (q : ℕ). walk_step fuel (within q (rest_after g (group q).children)) in
      if not (eqb_ℤ (leave g) (pos 0)) || g == from
      then some (leave g)
      else elim (group g).parent [ none ↦ some (leave g) | some q ↦ above q ]

  -- No result where the fuel is used up.
  unfoldable pub walk_tg_tree_from : ℕ → Option ℤ
  walk_tg_tree_from fuel = walk_step fuel (down from)
