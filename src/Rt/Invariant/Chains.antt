-- ===== src/Rt/Invariant/Chains.antt =====
-- The ancestors of an entity, and taking them off their queues from the top down: rt.c
-- (dequeue_rt_stack).
use cs356_project.Prelude.{
  ℕ, ◌≡◌, refl, sym, subst, ap, ◌∙◌, arith, Bool, true, false, List, [], ◌∷◌, ◌++◌, elem,
  elem-append, Option, some, none, ◌==◌, if◌then◌else◌, Bool-cases, inl, inr,
}
use std.Path.{fun_ext}
use cs356_project.Kernel.Types.{State}
use cs356_project.Kernel.External.{Kernel, ListLaws}
use cs356_project.Rt.Entity.{reverse, dequeue_rt_entity_one, dequeue_each}
use cs356_project.Rt.Invariant.Bits.{BitLaws}
use cs356_project.Rt.Invariant.Moves.{dequeue_one-Moves}
use cs356_project.Rt.Invariant.Entities.{
  Tree, RtInv, Loose, Moves-Tree, moved_linked, moved_parent, moved_my_q, only_there,
  dequeue_one-RtInv,
}

abbrev first : List ℕ → Option ℕ
first [] = none
first (e ∷ es) = some e

-- Each entity's parent is the next of the list, and the last has none.
abbrev pub Upward : (ℕ → Option ℕ) → List ℕ → Type 0
Upward up [] = Unit {0}
Upward up (e ∷ es) = (up e ≡ first es) × Upward up es

-- Each entity's parent is the one before it.
abbrev pub Downward : (ℕ → Option ℕ) → Option ℕ → List ℕ → Type 0
Downward up o [] = Unit {0}
Downward up o (e ∷ es) = (up e ≡ o) × Downward up (some e) es

-- The parent of the first of a list that goes upward is the next of the list.
pub parent_off :
    (up : ℕ → Option ℕ) (e : ℕ) (es : List ℕ) (linked : ℕ → Bool)
    → Upward up (e ∷ es)
    → ((z : ℕ) → elem z es ≡ true → linked z ≡ false)
    → (d : ℕ) → up e ≡ some d
    → linked d ≡ false
parent_off up e [] linked h off d c = ground (arith, sym h.0 ∙ c)
parent_off up e (p ∷ es) linked h off d c =
    let at_d : p ≡ d = ground (arith, sym h.0 ∙ c) in off d (ground (arith, at_d))

append_assoc : (p q r : List ℕ) → (p ++ q) ++ r ≡ p ++ (q ++ r)
append_assoc [] q r = refl
append_assoc (x ∷ p) q r = ap (λ z. x ∷ z) (append_assoc p q r)

append_nil : (p : List ℕ) → p ++ [] ≡ p
append_nil [] = refl
append_nil (x ∷ p) = ap (λ z. x ∷ z) (append_nil p)

turned :
    (up : ℕ → Option ℕ) (es rest : List ℕ)
    → Upward up es
    → Downward up (first es) rest
    → Downward up none (reverse es ++ rest)
turned up [] rest h c = c
turned up (e ∷ es) rest h c =
    subst (Downward up none) (sym (append_assoc (reverse es) (e ∷ []) rest))
      (turned up es (e ∷ rest) h.1 (h.0, c))

pub reverse-Downward :
    (up : ℕ → Option ℕ) (es : List ℕ) → Upward up es → Downward up none (reverse es)
reverse-Downward up es h = subst (Downward up none) (append_nil (reverse es)) (turned up es [] h tt)

pub elem-reverse : (d : ℕ) (es : List ℕ) → elem d (reverse es) ≡ elem d es
elem-reverse d [] = refl
elem-reverse d (e ∷ es) = ground (arith, elem-append d (reverse es) (e ∷ []), elem-reverse d es)

abbrev pub parents : State → ℕ → Option ℕ
parents s d = (s.rt.entity d).parent

-- From `s` to `t`, the entities of a list were taken off their queues.
pub record Cleared (k : Kernel) (n : ℕ) (es : List ℕ) (s t : State) : Type 0 where
  pub tree : Tree t
  pub inv : RtInv k n t
  pub parent_kept : (d : ℕ) → parents t d ≡ parents s d
  pub my_q_kept : (d : ℕ) → (t.rt.entity d).my_q ≡ (s.rt.entity d).my_q
  pub linked_left :
      (d : ℕ) → (t.rt.entity d).linked ≡ (if elem d es then false else (s.rt.entity d).linked)
  pub tasks_kept : t.task ≡ s.task

Cleared-trans :
    (k : Kernel) (n e : ℕ) (es : List ℕ) {s t u : State}
    → Cleared k n (e ∷ []) s t
    → Cleared k n es t u
    → Cleared k n (e ∷ es) s u
Cleared-trans k n e es f g = record {
  tree = g.tree;
  inv = g.inv;
  parent_kept = λ d. g.parent_kept d ∙ f.parent_kept d;
  my_q_kept = λ d. g.my_q_kept d ∙ f.my_q_kept d;
  linked_left = λ d. ground (arith, g.linked_left d, f.linked_left d);
  tasks_kept = g.tasks_kept ∙ f.tasks_kept;
}

module _ (k : Kernel) (b : BitLaws k) (l : ListLaws k.lists) (n : ℕ) where
  dequeue_linked-Cleared :
      (e : ℕ) (s : State)
      → Tree s
      → RtInv k n s
      → Loose e s
      → Cleared k n (e ∷ []) s (if (s.rt.entity e).linked then dequeue_rt_entity_one k e s else s)
  dequeue_linked-Cleared e s tree v loose = elim (Bool-cases (s.rt.entity e).linked) [
    | inl on ↦
        let m = dequeue_one-Moves k l e s (only_there k b l n e s tree v) in
        rw on (record {
          tree = Moves-Tree m tree;
          inv = dequeue_one-RtInv k b l n e s tree v on loose;
          parent_kept = moved_parent m;
          my_q_kept = moved_my_q m;
          linked_left = λ d. ground (arith, moved_linked m d);
          tasks_kept = m.tasks_kept;
        })
    | inr off ↦ rw off (record {
      tree = tree;
      inv = v;
      parent_kept = λ d. refl;
      my_q_kept = λ d. refl;
      linked_left = λ d. elim (Bool-cases (e == d)) [
        | inl same ↦
            let at_d : e ≡ d = ground (arith, same) in
            subst
              (λ z.
                (s.rt.entity z).linked
                ≡ (if elem z (e ∷ []) then false else (s.rt.entity z).linked))
              at_d (ground (arith, off))
        | inr other ↦ ground (arith, other)
      ];
      tasks_kept = refl;
    })
  ]

  pub dequeue_each-Cleared :
      (es : List ℕ) (o : Option ℕ) (s : State)
      → Tree s
      → RtInv k n s
      → ((d : ℕ) → o ≡ some d → (s.rt.entity d).linked ≡ false)
      → Downward (parents s) o es
      → Cleared k n es s (dequeue_each k es s)
  unfolding dequeue_each
  dequeue_each-Cleared [] o s tree v off h = record {
    tree = tree;
    inv = v;
    parent_kept = λ d. refl;
    my_q_kept = λ d. refl;
    linked_left = λ d. refl;
    tasks_kept = refl;
  }
  dequeue_each-Cleared (e ∷ es) o s tree v off h =
      let t = if (s.rt.entity e).linked then dequeue_rt_entity_one k e s else s in
      let f = dequeue_linked-Cleared e s tree v (λ d c. off d (sym h.0 ∙ c)) in
      let down : Downward (parents t) (some e) es =
        subst (λ up. Downward up (some e) es) (sym (fun_ext f.parent_kept)) h.1 in
      Cleared-trans k n e es f (
        dequeue_each-Cleared es (some e) t f.tree f.inv (λ d c. ground (arith, c, f.linked_left d))
          down)
