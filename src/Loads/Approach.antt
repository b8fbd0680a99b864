-- ===== src/Loads/Approach.antt =====
-- How the load of the processor follows a load that stays the same: core.c (update_cpu_load).
use cs356_project.Prelude.{
  ℕ, zero, suc, ◌+◌, ◌-◌, ◌/◌, ◌^◌, ◌≤◌, ◌<◌, ◌≡◌, subst, sym, ap, arith, sub32, ltb, add32, mul32,
  if◌then◌else◌,
}
use cs356_project.Kernel.Types.{Load}
use cs356_project.Loads.Cpu.{new_cpu_load, new_cpu_loads, decay_load_missed, update_cpu_load}
use cs356_project.Loads.Bounds.{decay_load_missed-bound}

-- Between two loads: strictly nearer to the new one, and not past it.
unfoldable pub Nearer : ℕ → ℕ → ℕ → Type 0
Nearer old new target =
    (old < target → (old < new) × (new ≤ target))
    × (target < old → (target ≤ new) × (new < old))
    × (old ≡ target → new ≡ target)

-- A tick without missed ones brings each entry of cpu_load nearer to the load, for loads below
-- 2^25; an entry is never stuck below or above it.
pub new_cpu_load-Nearer :
    (idx load old : ℕ)
    → 1 ≤ idx
    → idx ≤ 4
    → load < 33554432
    → old < 33554432
    → Nearer old (new_cpu_load idx 0 load old) load
unfolding new_cpu_load decay_load_missed Nearer
new_cpu_load-Nearer zero load old h h' l o = omega arith
new_cpu_load-Nearer (suc zero) load old h h' l o = (ground arith, ground arith, ground arith)
new_cpu_load-Nearer (suc (suc zero)) load old h h' l o = (ground arith, ground arith, ground arith)
new_cpu_load-Nearer (suc (suc (suc zero))) load old h h' l o =
    (ground arith, ground arith, ground arith)
new_cpu_load-Nearer (suc (suc (suc (suc zero)))) load old h h' l o =
    (ground arith, ground arith, ground arith)
new_cpu_load-Nearer (suc (suc (suc (suc (suc n))))) load old h h' l o = omega arith

new_of :
    (idx load old m : ℕ)
    → idx ≤ 4
    → load ≤ m
    → old ≤ m
    → m < 33554432
    → add32 (mul32 old (2 ^ idx - 1)) (if ltb old load then add32 load (2 ^ idx - 1) else load)
        / 2 ^ idx
      ≤ m
new_of zero load old m h l o b = ground arith
new_of (suc zero) load old m h l o b = ground arith
new_of (suc (suc zero)) load old m h l o b = ground arith
new_of (suc (suc (suc zero))) load old m h l o b = ground arith
new_of (suc (suc (suc (suc zero)))) load old m h l o b = ground arith
new_of (suc (suc (suc (suc (suc n))))) load old m h l o b = omega arith

new_cpu_load-bound :
    (idx missed load old m : ℕ)
    → idx ≤ 4
    → load ≤ m
    → old ≤ m
    → m < 33554432
    → new_cpu_load idx missed load old ≤ m
unfolding new_cpu_load
new_cpu_load-bound idx missed load old m h l o b =
    let faded = decay_load_missed-bound old missed idx (omega arith) in
    new_of idx load (decay_load_missed old missed idx) m h l (omega arith) b

-- The next tick, with a load that stays.
unfoldable pub steady_tick : ℕ → Load → Load
steady_tick load x = update_cpu_load (add32 x.last_load_update_tick 1) load x

unfoldable pub steady_ticks : ℕ → ℕ → Load → Load
steady_ticks zero load x = x
steady_ticks (suc n) load x = steady_ticks n load (steady_tick load x)

-- A step nearer takes 1 off the distance.
Nearer-distance :
    (old new load n : ℕ)
    → Nearer old new load
    → load < 33554432
    → old < 33554432
    → old ≤ load + suc n
    → load ≤ old + suc n
    → (new < 33554432) × (new ≤ load + n) × (load ≤ new + n)
unfolding Nearer
Nearer-distance old new load n h l o above below = ground arith

last_tick-word :
    (load : ℕ) (x : Load)
    → x.last_load_update_tick < 4294967296
    → (steady_tick load x).last_load_update_tick < 4294967296
unfolding steady_tick update_cpu_load
last_tick-word load x h = ground arith

no_missed : (w : ℕ) → w < 4294967296 → sub32 (sub32 (add32 w 1) w) 1 ≡ 0
no_missed w h = omega arith

steady_loads :
    (load : ℕ) (x : Load)
    → x.last_load_update_tick < 4294967296
    → (steady_tick load x).cpu_load ≡ new_cpu_loads 0 load x.cpu_load
unfolding steady_tick update_cpu_load
steady_loads load x w =
    ground (arith, ap (λ m. new_cpu_loads m load x.cpu_load) (no_missed x.last_load_update_tick w))

entry_of_tick :
    (load : ℕ) (old : ℕ → ℕ) (i : ℕ)
    → i ≤ 4
    → load < 33554432
    → old i < 33554432
    → Nearer (old i) (new_cpu_loads 0 load old i) load
unfolding Nearer
entry_of_tick load old zero h l o = ground arith
entry_of_tick load old (suc i) h l o =
    ground (arith, new_cpu_load-Nearer (suc i) load (old (suc i)) (omega arith) h l o)

-- When the load stays the same, each of the five entries of cpu_load is equal to it after as many
-- ticks as it was away from it, for loads below 2^25.
pub steady_ticks-arrive :
    (n load : ℕ) (x : Load) (i : ℕ)
    → i ≤ 4
    → load < 33554432
    → x.cpu_load i < 33554432
    → x.last_load_update_tick < 4294967296
    → x.cpu_load i ≤ load + n
    → load ≤ x.cpu_load i + n
    → (steady_ticks n load x).cpu_load i ≡ load
unfolding steady_ticks
steady_ticks-arrive zero load x i h l o w above below = omega arith
steady_ticks-arrive (suc n) load x i h l o w above below =
    let old = x.cpu_load i in
    let new = (steady_tick load x).cpu_load i in
    let step =
      subst (λ c. Nearer old (c i) load) (sym (steady_loads load x w))
        (entry_of_tick load x.cpu_load i h l o) in
    let near = Nearer-distance old new load n step l o above below in
    steady_ticks-arrive n load (steady_tick load x) i h l near.0 (last_tick-word load x w) near.1
      near.2

-- A tick brings no entry of cpu_load above both the old entry and the load, however many ticks were
-- missed before it, for loads below 2^25.
pub update_cpu_load-bound :
    (jiffies load : ℕ) (x : Load) (i m : ℕ)
    → load ≤ m
    → x.cpu_load i ≤ m
    → m < 33554432
    → (update_cpu_load jiffies load x).cpu_load i ≤ m
unfolding update_cpu_load
update_cpu_load-bound jiffies load x i m l o h = ground (
  arith,
  new_cpu_load-bound i (sub32 (sub32 jiffies x.last_load_update_tick) 1) load (x.cpu_load i) m,
)
