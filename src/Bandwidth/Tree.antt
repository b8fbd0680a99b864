-- ===== src/Bandwidth/Tree.antt =====
-- The walk of core.c visits the groups of a tree in preorder, and ends.
use cs356_project.Prelude.{
  ℕ, suc, ◌≡◌, refl, sym, ap, ◌∙◌, arith, Bool, true, false, ◌||◌, List, [], ◌∷◌, Option, some, ℤ,
  pos, negsuc, eqb_ℤ, ◌==◌, if◌then◌else◌, Bool-cases, inl, inr, ==_refl,
}
use cs356_project.Kernel.RealTime.{RtGroup}
use cs356_project.Bandwidth.Walk.{down, within, rest_after, walk_step, walk_tg_tree_from, tg_nop}

-- Groups with the same parent: the first one, those below it, and those behind it.
pub data Forest : Type 0 where
  leaf : Forest
  grove : ℕ → Forest → Forest → Forest

abbrev pub roots : Forest → List ℕ
roots leaf = []
roots (grove g cs ts) = g ∷ roots ts

abbrev pub member : ℕ → Forest → Bool
member h leaf = false
member h (grove g cs ts) = g == h || (member h cs || member h ts)

-- The steps of the walk through a forest, and `n` more.
abbrev pub steps : Forest → ℕ → ℕ
steps leaf n = n
steps (grove g cs ts) n = suc (suc (steps cs (suc (steps ts n))))

-- The second where there is no error.
abbrev pub unless_error : ℤ → Option ℤ → Option ℤ
unless_error e r = if eqb_ℤ e (pos 0) then r else some e

abbrev pub or_else : ℤ → ℤ → ℤ
or_else e f = if eqb_ℤ e (pos 0) then f else e

ends : (f : ℤ) → unless_error f (some (pos 0)) ≡ some f
ends (pos n) = elim (Bool-cases (n == 0)) [
  | inl none_left ↦ let no_error : n ≡ 0 = ground (arith, none_left) in rw no_error refl
  | inr error ↦ ground (arith, error)
]
ends (negsuc n) = ground arith

pub first_clear : (e f : ℤ) → eqb_ℤ (or_else e f) (pos 0) ≡ true → eqb_ℤ e (pos 0) ≡ true
first_clear e f h = elim (Bool-cases (eqb_ℤ e (pos 0))) [
  | inl none_here ↦ none_here
  | inr error ↦ sym (ap (λ b. eqb_ℤ (if b then f else e) (pos 0)) error) ∙ h
]

pub second_clear : (e f : ℤ) → eqb_ℤ (or_else e f) (pos 0) ≡ true → eqb_ℤ f (pos 0) ≡ true
second_clear e f h = sym (ap (λ b. eqb_ℤ (if b then f else e) (pos 0)) (first_clear e f h)) ∙ h

module _ (group : ℕ → RtGroup) (from : ℕ) where
  -- The pointers of the groups are those of the forest, in which `from` does not occur.
  abbrev pub Fits : ℕ → Forest → Type 0
  Fits p leaf = Unit {0}
  Fits p (grove g cs ts) =
      ((group g).parent ≡ some p)
      × (rest_after g (group p).children ≡ roots ts)
      × ((g == from) ≡ false)
      × ((group g).children ≡ roots cs)
      × Fits g cs
      × Fits p ts

module _ (group : ℕ → RtGroup) (from : ℕ) (enter : ℕ → ℤ) where
  -- The first error of a forest, in preorder.
  abbrev pub first_error : Forest → ℤ
  first_error leaf = pos 0
  first_error (grove g cs ts) = or_else (enter g) (or_else (first_error cs) (first_error ts))

  climbs :
      (g p n : ℕ) (rest : List ℕ)
      → (group g).parent ≡ some p
      → rest_after g (group p).children ≡ rest
      → (g == from) ≡ false
      → walk_step group from enter tg_nop (suc n) (within g [])
        ≡ walk_step group from enter tg_nop n (within p rest)
  unfolding walk_step
  climbs g p n rest up next other = rw (other, up, next) refl

  descends :
      (g n : ℕ) (cs : List ℕ)
      → (group g).children ≡ cs
      → walk_step group from enter tg_nop (suc n) (down g)
        ≡ unless_error (enter g) (walk_step group from enter tg_nop n (within g cs))
  unfolding walk_step
  descends g n cs below = rw below refl

  enters :
      (g p : ℕ) (rest : List ℕ) (n : ℕ)
      → walk_step group from enter tg_nop (suc n) (within p (g ∷ rest))
        ≡ walk_step group from enter tg_nop n (down g)
  unfolding walk_step
  enters g p rest n = refl

  arrives : (n : ℕ) → walk_step group from enter tg_nop (suc n) (within from []) ≡ some (pos 0)
  unfolding walk_step
  arrives n = ground arith

  both : (e f : ℤ) → unless_error e (unless_error f (some (pos 0))) ≡ some (or_else e f)
  both e f = elim (Bool-cases (eqb_ℤ e (pos 0))) [ inl e' ↦ rw e' (ends f) | inr e' ↦ rw e' refl ]

  chained :
      (e f h : ℤ) (r q : Option ℤ)
      → r ≡ unless_error h q
      → unless_error e (unless_error f r) ≡ unless_error (or_else e (or_else f h)) q
  chained e f h r q same = ground (arith, same)

  walks :
      (f : Forest) (p n : ℕ)
      → Fits group from p f
      → walk_step group from enter tg_nop (steps f n) (within p (roots f))
        ≡ unless_error (first_error f) (walk_step group from enter tg_nop n (within p []))
  walks leaf p n h = refl
  walks (grove g cs ts) p n (up, next, other, below, in_g, in_p) =
      let m = steps ts n in
      enters g p (roots ts) (suc (steps cs (suc m)))
      ∙ descends g (steps cs (suc m)) (roots cs) below
      ∙ ap (unless_error (enter g)) (
          walks cs g (suc m) in_g
          ∙ ap (unless_error (first_error cs)) (climbs g p m (roots ts) up next other))
      ∙ chained (enter g) (first_error cs) (first_error ts) _ _ (walks ts p n in_p)

  -- The walk from a group through those below it gives the first error.
  pub walk_tg_tree_from_lem :
      (f : Forest) (n : ℕ)
      → (group from).children ≡ roots f
      → Fits group from from f
      → walk_tg_tree_from group from enter tg_nop (suc (steps f (suc n)))
        ≡ some (or_else (enter from) (first_error f))
  unfolding walk_tg_tree_from
  walk_tg_tree_from_lem f n below h =
      descends from (steps f (suc n)) (roots f) below
      ∙ ap (unless_error (enter from))
          (walks f from (suc n) h ∙ ap (unless_error (first_error f)) (arrives n))
      ∙ both (enter from) (first_error f)

  -- Where the forest has no error, no group has one.
  pub first_error-none :
      (f : Forest) (h : ℕ)
      → eqb_ℤ (first_error f) (pos 0) ≡ true
      → member h f ≡ true
      → eqb_ℤ (enter h) (pos 0) ≡ true
  first_error-none leaf h clear m = ground (arith, m)
  first_error-none (grove g cs ts) h clear m = elim (Bool-cases (g == h)) [
    | inl same ↦
        let at_h : g ≡ h = ground (arith, same) in
        ap (λ z. eqb_ℤ (enter z) (pos 0)) (sym at_h) ∙ first_clear (enter g) _ clear
    | inr other ↦
        let rest = second_clear (enter g) _ clear in
        elim (Bool-cases (member h cs)) [
          | inl in_g ↦
              first_error-none cs h (first_clear (first_error cs) (first_error ts) rest) in_g
          | inr beside ↦
              first_error-none ts h (second_clear (first_error cs) (first_error ts) rest)
                (ground (arith, m, other, beside))
        ]
  ]

  -- An error of the forest is one of its groups'.
  pub first_error-some :
      (f : Forest)
      → eqb_ℤ (first_error f) (pos 0) ≡ false
      → (h : ℕ) × (member h f ≡ true) × (eqb_ℤ (enter h) (pos 0) ≡ false)
  first_error-some leaf h = absurd (ground (arith, h))
  first_error-some (grove g cs ts) h = elim (Bool-cases (eqb_ℤ (enter g) (pos 0))) [
    | inr error ↦ (g, ground (arith, ==_refl g), error)
    | inl fine ↦
        let rest : eqb_ℤ (or_else (first_error cs) (first_error ts)) (pos 0) ≡ false =
          sym (
            ap
              (λ (b : Bool).
                eqb_ℤ (if b then or_else (first_error cs) (first_error ts) else enter g) (pos 0))
              fine)
          ∙ h in
        elim (Bool-cases (eqb_ℤ (first_error cs) (pos 0))) [
          | inr below ↦ let (d, m, e) = first_error-some cs below in (d, ground (arith, m), e)
          | inl clear ↦
              let beside : eqb_ℤ (first_error ts) (pos 0) ≡ false =
                sym (
                  ap (λ (b : Bool). eqb_ℤ (if b then first_error ts else first_error cs) (pos 0))
                    clear)
                ∙ rest in
              let (d, m, e) = first_error-some ts beside in (d, ground (arith, m), e)
        ]
  ]
