-- ===== src/Wrr/Invariant/Keeps.antt =====
-- What the helpers of enqueue_wrr_entity in wrr.c leave alone.
use cs356_project.Prelude.{ℕ, ◌<◌, ◌≡◌, refl, arith, List, false, elem, ◌∙◌}
use cs356_project.Kernel.Types.{State}
use cs356_project.Kernel.External.{Kernel}
use cs356_project.Wrr.Weight.{task_group_path, update_weight, group_weight, reweigh}
use cs356_project.Wrr.Queue.{refill}
use cs356_project.Wrr.Invariant.{total, total-write_absent}

-- A step that works on task `p` alone, and leaves the run queue as it is.
pub record Only (p : ℕ) (s t : State) : Type 0 where
  pub rq_kept : t.rq ≡ s.rq
  pub total_kept : (q : List ℕ) → elem p q ≡ false → total t.task q ≡ total s.task q
  pub words_kept :
      ((r : ℕ) → (s.task r).wrr.weight < 4294967296) → (r : ℕ) → (t.task r).wrr.weight < 4294967296

pub Only-trans : {p : ℕ} {s t u : State} → Only p s t → Only p t u → Only p s u
Only-trans f g = record {
  rq_kept = g.rq_kept ∙ f.rq_kept;
  total_kept = λ q h. g.total_kept q h ∙ f.total_kept q h;
  words_kept = λ w. g.words_kept (f.words_kept w);
}

group_weight-word : (c w : ℕ) → w < 4294967296 → group_weight c w < 4294967296
unfolding group_weight
group_weight-word c w h = ground arith

pub reweigh-Only : (p c : ℕ) (s : State) → Only p s (reweigh p c s)
unfolding reweigh
reweigh-Only p c s = record {
  rq_kept = ground arith;
  total_kept = λ q h. ground (
    arith,
    total-write_absent p
        (record (s.task p) {
          wrr = record (s.task p).wrr { weight = group_weight c (s.task p).wrr.weight };
        })
        s.task q,
  );
  words_kept = λ w r. ground (arith, w p, w r, group_weight-word c (s.task p).wrr.weight);
}

module _ (k : Kernel) where
  task_group_path-Only : (g p : ℕ) (s : State) → Only p s (task_group_path k g s)
  unfolding task_group_path
  task_group_path-Only g p s = record {
    rq_kept = ground arith;
    total_kept = λ q h. ground arith;
    words_kept = λ w r. ground (arith, w r);
  }

  pub update_weight-Only : (p : ℕ) (s : State) → Only p s (update_weight k p s)
  unfolding update_weight
  update_weight-Only p s = Only-trans (task_group_path-Only _ p s) (reweigh-Only p _ _)

  pub refill-Only : (p : ℕ) (s : State) → Only p s (refill k p s)
  unfolding refill
  refill-Only p s = record {
    rq_kept = refl;
    total_kept = λ q h. total-write_absent p _ s.task q h;
    words_kept = λ w r. ground (arith, w p, w r);
  }
