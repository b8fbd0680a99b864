-- ===== src/Wrr/Invariant/Steady.antt =====
-- Steps that leave WRR's run queue and every weight alone: clocks, statistics, slices, flags, and
-- all that the other classes do.
use cs356_project.Prelude.{ℕ, ◌≡◌, refl, arith, List, [], ◌∷◌, ◌∙◌}
use cs356_project.Kernel.Types.{Task, State, set_task}
use cs356_project.Kernel.External.{Kernel, Frame}
use cs356_project.Wrr.Queue.{update_curr_wrr, inc_nr_running, dec_nr_running}
use cs356_project.Wrr.Weight.{task_group_path, wrr_throttled}
use cs356_project.Wrr.Class.{debug_path}
use cs356_project.Wrr.Invariant.{Inv, total}

pub record Steady (s t : State) : Type 0 where
  pub wrr_kept : t.rq.wrr ≡ s.rq.wrr
  pub weight_kept : (p : ℕ) → (t.task p).wrr.weight ≡ (s.task p).wrr.weight

pub Steady-trans : {s t u : State} → Steady s t → Steady t u → Steady s u
Steady-trans f g = record {
  wrr_kept = g.wrr_kept ∙ f.wrr_kept;
  weight_kept = λ p. g.weight_kept p ∙ f.weight_kept p;
}

pub total-agree :
    (m n : ℕ → Task)
    → ((p : ℕ) → (n p).wrr.weight ≡ (m p).wrr.weight)
    → (q : List ℕ) → total n q ≡ total m q
total-agree m n h [] = refl
total-agree m n h (p ∷ q) = omega (arith, h p, total-agree m n h q)

pub Steady-Inv : {s t : State} → Steady s t → Inv s → Inv t
Steady-Inv {s} {t} f v = record {
  distinct = rw f.wrr_kept v.distinct;
  counted = rw f.wrr_kept v.counted;
  weighed =
      rw f.wrr_kept
        (omega (arith, v.weighed, total-agree s.task t.task f.weight_kept s.rq.wrr.active));
  weight_word = λ p. rw (f.weight_kept p) (v.weight_word p);
}

pub Frame-Steady : {s t : State} → Frame s t → Steady s t
Frame-Steady f = record { wrr_kept = f.wrr_kept; weight_kept = λ p. ground (arith, f.task_kept p) }

-- A write of a task that keeps its weight.
pub write-Steady :
    (p : ℕ) (t : Task) (s : State)
    → t.wrr.weight ≡ (s.task p).wrr.weight
    → Steady s (set_task p t s)
write-Steady p t s h = record { wrr_kept = refl; weight_kept = λ r. ground arith }

pub update_curr_wrr-Steady : (s : State) → Steady s (update_curr_wrr s)
unfolding update_curr_wrr
update_curr_wrr-Steady s = record { wrr_kept = ground arith; weight_kept = λ r. ground arith }

pub inc_nr_running-Steady : (s : State) → Steady s (inc_nr_running s)
unfolding inc_nr_running
inc_nr_running-Steady s = record { wrr_kept = refl; weight_kept = λ r. refl }

pub dec_nr_running-Steady : (s : State) → Steady s (dec_nr_running s)
unfolding dec_nr_running
dec_nr_running-Steady s = record { wrr_kept = refl; weight_kept = λ r. refl }

module _ (k : Kernel) where
  pub debug_path-Steady : (p : ℕ) (s : State) → Steady s (debug_path k p s)
  unfolding debug_path task_group_path
  debug_path-Steady p s = record { wrr_kept = ground arith; weight_kept = λ r. ground arith }

  pub wrr_throttled-Steady : (s : State) → Steady s (wrr_throttled k s).1
  unfolding wrr_throttled
  wrr_throttled-Steady s = record { wrr_kept = refl; weight_kept = λ r. refl }
