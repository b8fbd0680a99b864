-- ===== src/Wrr/Invariant.antt =====
-- What holds of WRR's run queue between two operations of wrr.c, and the steps of the queue code
-- that keep it.
pub mod Steady
pub mod Keeps
pub mod Operations
use cs356_project.Prelude.{
  ℕ, zero, suc, ◌+◌, ◌<◌, ◌≡◌, refl, arith, List, [], ◌∷◌, ◌++◌, Bool, true, false, length, elem,
  remove, remove_absent, Distinct, u32, ◌==◌, if◌then◌else◌, ==_refl,
}
use cs356_project.Kernel.Types.{Task, State, write_at}

-- The sum of the weights of the tasks in a queue.
abbrev pub total : (ℕ → Task) → List ℕ → ℕ
total m [] = 0
total m (p ∷ q) = (m p).wrr.weight + total m q

-- No task is queued twice, the two counters are those of the queue, and weights are 32-bit words.
pub record Inv (s : State) : Type 0 where
  pub distinct : Distinct s.rq.wrr.active
  pub counted : s.rq.wrr.wrr_nr_running ≡ u32 (length s.rq.wrr.active)
  pub weighed : s.rq.wrr.total_weight ≡ u32 (total s.task s.rq.wrr.active)
  pub weight_word : (p : ℕ) → (s.task p).wrr.weight < 4294967296

pub total-append : (m : ℕ → Task) (q r : List ℕ) → total m (q ++ r) ≡ total m q + total m r
total-append m [] r = omega arith
total-append m (x ∷ q) r = omega (arith, total-append m q r)

-- The weight of a task that is not queued does not matter.
pub total-write_absent :
    (p : ℕ) (t : Task) (m : ℕ → Task) (q : List ℕ)
    → elem p q ≡ false
    → total (write_at p t m) q ≡ total m q
total-write_absent p t m [] h = refl
total-write_absent p t m (x ∷ q) h = ground (arith, total-write_absent p t m q)

-- Nor do writes that leave the weight alone.
pub total-write_same :
    (p : ℕ) (t : Task) (m : ℕ → Task) (q : List ℕ)
    → t.wrr.weight ≡ (m p).wrr.weight
    → total (write_at p t m) q ≡ total m q
total-write_same p t m [] h = refl
total-write_same p t m (x ∷ q) h = ground (arith, total-write_same p t m q)

pub total-remove :
    (p : ℕ) (m : ℕ → Task) (q : List ℕ)
    → Distinct q
    → elem p q ≡ true
    → total m q ≡ (m p).wrr.weight + total m (remove p q)
total-remove p m [] d h = ground arith
total-remove p m (x ∷ q) d h = ground (arith, total-remove p m q d.1, remove_absent p q)
