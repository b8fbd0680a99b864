-- ===== src/Core/Ready/State.antt =====
-- WRR entities with a weight in range and slice left (wrr.c, struct sched_wrr_entity).
use cs356_project.Prelude.{
  ℕ, Bool, ◌≡◌, ◌≢◌, ◌<◌, ◌≤◌, arith, subst, sym, true, false, elem, ◌==◌, Bool-cases, inl, inr,
  if◌then◌else◌,
}
use cs356_project.Kernel.Types.{
  WrrEntity, Task, State, Outcome, bug, done, finished, set_task, write_at,
}
use cs356_project.Wrr.RoundRobin.View.{Still}

abbrev pub Weighs : WrrEntity → Type 0
Weighs e = (0 < e.weight) × (e.weight ≤ 99)

-- A weight that a user chose is in range.
abbrev pub Tame : WrrEntity → Type 0
Tame e = e.custom_weight ≢ 0 → Weighs e

abbrev pub Armed : WrrEntity → Type 0
Armed e = Weighs e × (0 < e.time_slice)

-- Every weight that a user chose is in range, and every queued task has a weight in range and slice
-- left.
pub record Ready (s : State) : Type 0 where
  pub tame : (p : ℕ) → Tame (s.task p).wrr
  pub armed : (p : ℕ) → elem p s.rq.wrr.active ≡ true → Armed (s.task p).wrr

pub Still-Ready : {s t : State} → Still s t → Ready s → Ready t
Still-Ready {s} {t} f v = record {
  tame = λ p. rw (f.entity_kept p) (v.tame p);
  armed = λ p. rw f.wrr_kept (rw (f.entity_kept p) (v.armed p));
}

-- What holds of a task after a write holds of the new one and of the old ones.
written :
    (P : Task → Type 0) (p : ℕ) (t : Task) (m : ℕ → Task) (q : ℕ)
    → (p ≡ q → P t)
    → P (m q)
    → P (write_at p t m q)
written P p t m q new old = elim (Bool-cases (p == q)) [
  | inl e ↦ rw e (new (ground (arith, e)))
  | inr e ↦ rw e old
]

-- A write of one task.
pub task-Ready :
    (p : ℕ) (t : Task) (s : State)
    → Tame t.wrr
    → (elem p s.rq.wrr.active ≡ true → Armed t.wrr)
    → Ready s
    → Ready (set_task p t s)
task-Ready p t s tame armed v = record {
  tame = λ q. written (λ x. Tame x.wrr) p t s.task q (λ _. tame) (v.tame q);
  armed = λ q h.
      written (λ x. Armed x.wrr) p t s.task q
        (λ e. armed (subst (λ r. elem r s.rq.wrr.active ≡ true) (sym e) h)) (v.armed q h);
}

-- A write that keeps the entity.
pub same-Ready :
    (p : ℕ) (t : Task) (s : State) → t.wrr ≡ (s.task p).wrr → Ready s → Ready (set_task p t s)
same-Ready p t s h v = task-Ready p t s (rw h (v.tame p)) (rw h (v.armed p)) v

-- Changes of the run queue that add no task to it.
pub fewer-Ready :
    {s t : State}
    → ((p : ℕ) → elem p t.rq.wrr.active ≡ true → elem p s.rq.wrr.active ≡ true)
    → ((p : ℕ) → (t.task p).wrr ≡ (s.task p).wrr)
    → Ready s
    → Ready t
fewer-Ready fewer kept v = record {
  tame = λ p. rw (kept p) (v.tame p);
  armed = λ p h. rw (kept p) (v.armed p (fewer p h));
}

pub own-Armed : (p : ℕ) (t : Task) (s : State) → Armed t.wrr → Armed ((set_task p t s).task p).wrr
own-Armed p t s a = ((ground (arith, a), ground (arith, a)), ground (arith, a))

pub if-Ready : (b : Bool) {s t : State} → Ready s → Ready t → Ready (if b then s else t)
if-Ready true v w = v
if-Ready false v w = w

pub if-result-Ready {ℓ} :
    {A : Type ℓ} (b : Bool) (r r' : State × A)
    → Ready r.0
    → Ready r'.0
    → Ready (if b then r else r').0
if-result-Ready true r r' v w = v
if-result-Ready false r r' v w = w

-- Of a call that may stop the kernel: where it does not, its result has the property.
abbrev pub Ends {ℓ} : {A : Type ℓ} → (A → Type 0) → Outcome A → Type 0
Ends P bug = Unit {0}
Ends P (done a) = P a

pub Ends-done {ℓ} :
    {A : Type ℓ} (P : A → Type 0) (o : Outcome A) (a : A) → Ends P o → o ≡ done a → P a
Ends-done P bug a h e = cc
Ends-done P (done b) a h e = subst P (finished e) h

pub if-Ends {ℓ} :
    {A : Type ℓ} (P : A → Type 0) (b : Bool) (o o' : Outcome A)
    → Ends P o
    → Ends P o'
    → Ends P (if b then o else o')
if-Ends P true o o' h h' = h
if-Ends P false o o' h h' = h'
