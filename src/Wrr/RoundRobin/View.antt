-- ===== src/Wrr/RoundRobin/View.antt =====
-- The line of turns that a state of wrr.c stands for.
use cs356_project.Prelude.{ℕ, ◌≡◌, refl, arith, List, [], ◌∷◌, ◌++◌, ◌∙◌, false, elem, ap}
use cs356_project.Kernel.Types.{Task, State, set_task, write_at}
use cs356_project.Kernel.External.{Kernel}
use cs356_project.Wrr.Weight.{full_slice, task_group_path, wrr_throttled}
use cs356_project.Wrr.Queue.{update_curr_wrr}
use cs356_project.Wrr.Class.{debug_path}
use cs356_project.Wrr.RoundRobin.Turns.{Turn}

-- Steps that leave the run queue and every task's WRR entity alone.
pub record Still (s t : State) : Type 0 where
  pub wrr_kept : t.rq.wrr ≡ s.rq.wrr
  pub entity_kept : (p : ℕ) → (t.task p).wrr ≡ (s.task p).wrr

pub Still-trans : {s t u : State} → Still s t → Still t u → Still s u
Still-trans f g = record {
  wrr_kept = g.wrr_kept ∙ f.wrr_kept;
  entity_kept = λ p. g.entity_kept p ∙ f.entity_kept p;
}

pub write-Still : (p : ℕ) (t : Task) (s : State) → t.wrr ≡ (s.task p).wrr → Still s (set_task p t s)
write-Still p t s h = record { wrr_kept = refl; entity_kept = λ r. ground arith }

pub update_curr_wrr-Still : (s : State) → Still s (update_curr_wrr s)
unfolding update_curr_wrr
update_curr_wrr-Still s = record { wrr_kept = ground arith; entity_kept = λ r. ground arith }

module _ (k : Kernel) where
  pub debug_path-Still : (p : ℕ) (s : State) → Still s (debug_path k p s)
  unfolding debug_path task_group_path
  debug_path-Still p s = record { wrr_kept = ground arith; entity_kept = λ r. ground arith }

  pub wrr_throttled-Still : (s : State) → Still s (wrr_throttled k s).1
  unfolding wrr_throttled
  wrr_throttled-Still s = record { wrr_kept = refl; entity_kept = λ r. refl }

  abbrev pub turn : (ℕ → Task) → ℕ → Turn
  turn m p = record {
    task = p;
    slice = (m p).wrr.time_slice;
    quantum = full_slice k (m p).wrr.weight;
  }

  abbrev pub line : (ℕ → Task) → List ℕ → List Turn
  line m [] = []
  line m (p ∷ q) = turn m p ∷ line m q

  abbrev pub view : State → List Turn
  view s = line s.task s.rq.wrr.active

  pub line-append : (m : ℕ → Task) (q r : List ℕ) → line m (q ++ r) ≡ line m q ++ line m r
  line-append m [] r = refl
  line-append m (x ∷ q) r = ap (◌∷◌ (turn m x)) (line-append m q r)

  pub line-write :
      (p : ℕ) (t : Task) (m : ℕ → Task) (q : List ℕ)
      → elem p q ≡ false
      → line (write_at p t m) q ≡ line m q
  line-write p t m [] h = refl
  line-write p t m (x ∷ q) h = ground (arith, line-write p t m q)

  pub line-agree :
      (m n : ℕ → Task) → ((p : ℕ) → (n p).wrr ≡ (m p).wrr) → (q : List ℕ) → line n q ≡ line m q
  line-agree m n h [] = refl
  line-agree m n h (x ∷ q) = ground (arith, h x, line-agree m n h q)

  pub Still-view : {s t : State} → Still s t → view t ≡ view s
  Still-view {s} {t} f = rw f.wrr_kept (line-agree s.task t.task f.entity_kept s.rq.wrr.active)
