-- ===== src/Loads/Cpu.antt =====
-- The load of the processor: core.c (degrade_zero_ticks, degrade_factor, decay_load_missed,
-- update_cpu_load, update_cpu_load_active, this_cpu_load). sched_avg_update is empty here.
use cs356_project.Prelude.{
  ℕ, zero, suc, ◌-◌, ◌/◌, ◌%◌, ◌^◌, List, [], ◌∷◌, add32, sub32, mul32, ltb, leb, ◌==◌,
  if◌then◌else◌,
}
use cs356_project.Kernel.Types.{Load, State}
use cs356_project.Kernel.External.{Kernel}
use cs356_project.Loads.Sample.{calc_load_account_active}

-- A read of a table of the source; reads outside of it are not meant, and give 0.
abbrev pub entry_of : List ℕ → ℕ → ℕ
entry_of [] i = 0
entry_of (x ∷ xs) zero = x
entry_of (x ∷ xs) (suc i) = entry_of xs i

-- Indexes of cpu_load are 0 to 4.
abbrev pub degrade_zero_ticks : ℕ → ℕ
degrade_zero_ticks idx = entry_of (0 ∷ 8 ∷ 32 ∷ 64 ∷ 128 ∷ []) idx

abbrev pub degrade_factor : ℕ → List ℕ
degrade_factor zero = 0 ∷ 0 ∷ 0 ∷ 0 ∷ 0 ∷ 0 ∷ 0 ∷ 0 ∷ []
degrade_factor (suc zero) = 64 ∷ 32 ∷ 8 ∷ 0 ∷ 0 ∷ 0 ∷ 0 ∷ 0 ∷ []
degrade_factor (suc (suc zero)) = 96 ∷ 72 ∷ 40 ∷ 12 ∷ 1 ∷ 0 ∷ 0 ∷ 0 ∷ []
degrade_factor (suc (suc (suc zero))) = 112 ∷ 98 ∷ 75 ∷ 43 ∷ 15 ∷ 1 ∷ 0 ∷ 0 ∷ []
degrade_factor (suc (suc (suc (suc _)))) = 120 ∷ 112 ∷ 98 ∷ 76 ∷ 45 ∷ 16 ∷ 2 ∷ 0 ∷ []

-- The loop over the bits of the missed ticks, with the rest of the row of factors.
unfoldable pub decay_loop : List ℕ → ℕ → ℕ → ℕ
decay_loop [] missed load = load
decay_loop (factor ∷ row) missed load =
    let load' = if missed % 2 == 1 then mul32 load factor / 128 else load in
    let rest = decay_loop row (missed / 2) load' in if missed == 0 then load else rest

unfoldable pub decay_load_missed : ℕ → ℕ → ℕ → ℕ
decay_load_missed load missed idx =
    if missed == 0
    then load
    else if leb (degrade_zero_ticks idx) missed
    then 0
    else if idx == 1
    then load / 2 ^ missed
    else decay_loop (degrade_factor idx) missed load

-- One index: the old load fades by the missed ticks, and the new one comes in, rounded up if it
-- is greater.
unfoldable pub new_cpu_load : ℕ → ℕ → ℕ → ℕ → ℕ
new_cpu_load idx missed this_load old =
    let scale = 2 ^ idx in
    let old_load = decay_load_missed old missed idx in
    let new_load = if ltb old_load this_load then add32 this_load (scale - 1) else this_load in
    add32 (mul32 old_load (scale - 1)) new_load / scale

abbrev pub new_cpu_loads : ℕ → ℕ → (ℕ → ℕ) → ℕ → ℕ
new_cpu_loads missed this_load old i =
    if i == 0 then this_load else if leb i 4 then new_cpu_load i missed this_load (old i) else old i

unfoldable pub update_cpu_load : ℕ → ℕ → Load → Load
update_cpu_load jiffies this_load x =
    let pending_updates = sub32 jiffies x.last_load_update_tick in
    let x' = record x { nr_load_updates = add32 x.nr_load_updates 1 } in
    if jiffies == x.last_load_update_tick then x' else record x' {
      last_load_update_tick = jiffies;
      cpu_load = new_cpu_loads (sub32 pending_updates 1) this_load x.cpu_load;
    }

module _ (k : Kernel) where
  unfoldable pub update_cpu_load_active : State → State
  update_cpu_load_active s =
      let now = k.jiffies s.readings in
      record s {
        load =
            calc_load_account_active k now s.rq
              (update_cpu_load now (k.load_weight s.rq.others) s.load);
      }
