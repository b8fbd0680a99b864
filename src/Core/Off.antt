-- ===== src/Core/Off.antt =====
-- The moments between taking a task off WRR's queue and putting one back (core.c).
use cs356_project.Prelude.{
  ℕ, ◌≡◌, refl, arith, ◌∙◌, true, false, ◌&&◌, ◌==◌, elem, Bool-cases, inl, inr, ap,
}
use cs356_project.Kernel.Types.{State, set_task, Rq}
use cs356_project.Kernel.External.{Kernel, ClassLaws, ListLaws}
use cs356_project.Wrr.Invariant.{Inv}
use cs356_project.Wrr.Invariant.Operations.{Only-Inv}
use cs356_project.Wrr.Invariant.Steady.{Steady, Steady-Inv, write-Steady}
use cs356_project.Core.Classes.{dequeue_task, enqueue_task}
use cs356_project.Core.Frames.{Kept, dequeue_task-Kept, enqueue_task-Kept}
use cs356_project.Core.Sound.{
  Sound, queued, is_wrr, queued-kept, enqueue_task-Joined, dequeue_task-Left, enqueue_task-Inv,
  dequeue_task-Inv,
}
use cs356_project.Core.Policy.Keeps.{Edit, Edit-Only}

-- Task `p` is off WRR's queue, which else holds what it should.
pub record Off (p : ℕ) (s : State) : Type 0 where
  pub inv : Inv s
  pub absent : queued p s ≡ false
  pub others : (q : ℕ) → (q == p) ≡ false → queued q s ≡ ((s.task q).on_rq && is_wrr (s.task q))

module _ (k : Kernel) (l : ListLaws k.lists) (laws : ClassLaws k) where
  pub dequeue-Off :
      (p flags : ℕ) (s : State)
      → Sound s
      → (is_wrr (s.task p) ≡ true → (s.task p).on_rq ≡ true)
      → Off p (dequeue_task k p flags s)
  dequeue-Off p flags s v on =
      let f = dequeue_task-Left k l laws p flags s in
      let g = dequeue_task-Kept k laws p flags s in
      record {
        inv = dequeue_task-Inv k l laws p flags s (λ w. v.linked p ∙ ground (arith, on w)) v.inv;
        absent = f.left p ∙ ground (arith, v.linked p);
        others = λ q h. f.left q ∙ ground (arith, v.linked q, g.fields_kept q);
      }

  pub Quiet-Off : {p : ℕ} {s t : State} → Steady s t → Kept s t → Off p s → Off p t
  Quiet-Off {p} f g v = record {
    inv = Steady-Inv f v.inv;
    absent = queued-kept f p ∙ v.absent;
    others = λ q h. queued-kept f q ∙ v.others q h ∙ ground (arith, g.fields_kept q);
  }

  pub asleep-Off : (p : ℕ) (s : State) → Sound s → (s.task p).on_rq ≡ false → Off p s
  asleep-Off p s v off = record {
    inv = v.inv;
    absent = v.linked p ∙ ground arith;
    others = λ q h. v.linked q;
  }

  pub Edit-Off : {p : ℕ} {s t : State} → Edit p s t → Off p s → Off p t
  Edit-Off {p} f v = record {
    inv = Only-Inv (Edit-Only f) v.absent v.inv;
    absent = ap (λ (r : Rq). elem p r.wrr.active) f.rq_kept ∙ v.absent;
    others = λ q h.
        ap (λ (r : Rq). elem q r.wrr.active) f.rq_kept
        ∙ v.others q h
        ∙ ground (arith, f.others_kept q h);
  }

  pub enqueue-Sound :
      (p flags : ℕ) (s : State)
      → Off p s
      → (s.task p).on_rq ≡ true
      → Sound (enqueue_task k p flags s)
  enqueue-Sound p flags s v on =
      let f = enqueue_task-Joined k l laws p flags s in
      let g = enqueue_task-Kept k laws p flags s in
      record {
        inv = enqueue_task-Inv k l laws p flags s v.absent v.inv;
        linked = λ q. elim (Bool-cases (q == p)) [
          | inl same ↦ f.joined q ∙ ground (arith, v.absent, g.fields_kept q)
          | inr other ↦ f.joined q ∙ ground (arith, v.others q other, g.fields_kept q)
        ];
      }

  pub stay-Sound : (p : ℕ) (s : State) → Off p s → (s.task p).on_rq ≡ false → Sound s
  stay-Sound p s v off = record {
    inv = v.inv;
    linked = λ q. elim (Bool-cases (q == p)) [
      | inl same ↦ ground (arith, v.absent)
      | inr other ↦ v.others q other
    ];
  }

  -- A task that is put on the queue before it is marked as runnable.
  pub enqueue_marked-Sound :
      (p flags : ℕ) (s : State)
      → Off p s
      → Sound (
          set_task p
            (record ((enqueue_task k p flags s).task p) { on_rq = true })
            (enqueue_task k p flags s))
  enqueue_marked-Sound p flags s v =
      let t = enqueue_task k p flags s in
      let f = enqueue_task-Joined k l laws p flags s in
      let g = enqueue_task-Kept k laws p flags s in
      record {
        inv =
            Steady-Inv (write-Steady p (record (t.task p) { on_rq = true }) t refl)
              (enqueue_task-Inv k l laws p flags s v.absent v.inv);
        linked = λ q. elim (Bool-cases (q == p)) [
          | inl same ↦ f.joined q ∙ ground (arith, v.absent, g.fields_kept q)
          | inr other ↦ f.joined q ∙ ground (arith, v.others q other, g.fields_kept q)
        ];
      }

  -- A task that is off the queue is marked as not runnable.
  pub unmarked-Sound :
      (p : ℕ) (s : State) → Off p s → Sound (set_task p (record (s.task p) { on_rq = false }) s)
  unmarked-Sound p s v = record {
    inv = Steady-Inv (write-Steady p (record (s.task p) { on_rq = false }) s refl) v.inv;
    linked = λ q. elim (Bool-cases (q == p)) [
      | inl same ↦ ground (arith, v.absent)
      | inr other ↦ ground (arith, v.others q other)
    ];
  }
