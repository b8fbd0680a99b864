-- ===== src/Core/Policy/Keeps.antt =====
-- The steps between taking a task off its queue and putting it back (core.c).
use cs356_project.Prelude.{
  ℕ, ◌≡◌, ◌<◌, refl, arith, ◌∙◌, false, ◌==◌, List, [], ◌∷◌, ℤ, elem, Bool-cases, inl, inr,
}
use cs356_project.Kernel.Types.{Task, State, set_task}
use cs356_project.Kernel.External.{Kernel}
use cs356_project.Wrr.Invariant.{total}
use cs356_project.Wrr.Invariant.Keeps.{Only}
use cs356_project.Core.Prio.{set_load_weight}
use cs356_project.Core.Policy.Change.{write_policy, write_class, setscheduler}

-- A change of task `p` alone, which stays as runnable as it was.
pub record Edit (p : ℕ) (s t : State) : Type 0 where
  pub rq_kept : t.rq ≡ s.rq
  pub others_kept : (q : ℕ) → (q == p) ≡ false → t.task q ≡ s.task q
  pub on_rq_kept : (t.task p).on_rq ≡ (s.task p).on_rq
  pub word_kept : (s.task p).wrr.weight < 4294967296 → (t.task p).wrr.weight < 4294967296

pub Edit-trans : {p : ℕ} {s t u : State} → Edit p s t → Edit p t u → Edit p s u
Edit-trans f g = record {
  rq_kept = g.rq_kept ∙ f.rq_kept;
  others_kept = λ q h. g.others_kept q h ∙ f.others_kept q h;
  on_rq_kept = g.on_rq_kept ∙ f.on_rq_kept;
  word_kept = λ h. g.word_kept (f.word_kept h);
}

pub write-Edit :
    (p : ℕ) (t : Task) (s : State)
    → t.on_rq ≡ (s.task p).on_rq
    → ((s.task p).wrr.weight < 4294967296 → t.wrr.weight < 4294967296)
    → Edit p s (set_task p t s)
write-Edit p t s h w = record {
  rq_kept = refl;
  others_kept = λ q n. ground arith;
  on_rq_kept = ground arith;
  word_kept = λ b. ground (arith, w b);
}

total-edit :
    (p : ℕ) (m n : ℕ → Task)
    → ((q : ℕ) → (q == p) ≡ false → n q ≡ m q)
    → (q : List ℕ) → elem p q ≡ false
    → total n q ≡ total m q
total-edit p m n h [] a = refl
total-edit p m n h (x ∷ q) a = ground (arith, h x, total-edit p m n h q)

pub Edit-Only : {p : ℕ} {s t : State} → Edit p s t → Only p s t
Edit-Only {p} {s} {t} f = record {
  rq_kept = f.rq_kept;
  total_kept = total-edit p s.task t.task f.others_kept;
  words_kept = λ w r. elim (Bool-cases (r == p)) [
    | inl same ↦ ground (arith, f.word_kept (w p))
    | inr other ↦ rw (f.others_kept r other) (w r)
  ];
}

pub write_policy-Edit :
    (p policy prio : ℕ) (s : State) → prio < 4294967296 → Edit p s (write_policy p policy prio s)
unfolding write_policy
write_policy-Edit p policy prio s h = write-Edit p _ s (ground arith) (λ w. ground arith)

pub write_class-Edit : (p : ℕ) (prio : ℤ) (s : State) → Edit p s (write_class p prio s)
unfolding write_class
write_class-Edit p prio s = write-Edit p _ s refl (λ w. w)

pub set_load_weight-Edit : (p : ℕ) (s : State) → Edit p s (set_load_weight p s)
unfolding set_load_weight
set_load_weight-Edit p s = elim (Bool-cases ((s.task p).policy == 5)) [
  | inl idle ↦ rw idle (write-Edit p _ s refl (λ w. w))
  | inr other ↦ rw other (write-Edit p _ s refl (λ w. w))
]

pub setscheduler-Edit :
    (k : Kernel) (p policy prio : ℕ) (s : State)
    → prio < 4294967296
    → Edit p s (setscheduler k p policy prio s)
unfolding setscheduler
setscheduler-Edit k p policy prio s h =
    Edit-trans (write_policy-Edit p policy prio s h)
      (Edit-trans (write_class-Edit p _ _) (set_load_weight-Edit p _))
