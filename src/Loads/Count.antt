-- ===== src/Loads/Count.antt =====
-- What the counters of the global average add up to: core.c (calc_load_fold_active,
-- calc_load_enter_idle, calc_load_account_active, calc_global_load).
use cs356_project.Prelude.{
  ℕ, Bool-cases, not, true, false, ◌+◌, ◌%◌, ◌<◌, ◌≡◌, subst, sym, ap, arith, ◌==◌, if◌then◌else◌,
  add32, u32, time_before, ◌⊎◌, inl, inr,
}
use cs356_project.Kernel.Types.{Load, Rq, write_at}
use cs356_project.Kernel.External.{Kernel}
use cs356_project.Loads.Cpu.{update_cpu_load}
use cs356_project.Loads.Sample.{
  calc_load_fold_active, calc_load_write_idx, calc_load_read_idx, calc_load_enter_idle,
  calc_load_fold_idle, take_sample, calc_global_nohz, catch_up, calc_global_load,
  calc_load_account_active, calc_load_exit_idle,
}

-- The counted tasks, those of the pending idle deltas, and a delta that is on its way.
abbrev pub counted : ℕ → Load → ℕ
counted delta x = u32 (x.calc_load_tasks + x.calc_load_idle 0 + x.calc_load_idle 1 + delta)

pub record CountsWith (delta : ℕ) (x : Load) : Type 0 where
  pub active : x.calc_load_active < 4294967296
  pub all : counted delta x ≡ x.calc_load_active

-- All tasks that the processor reported active are counted once: in the sum or in a pending delta.
abbrev pub Counts : Load → Type 0
Counts x = CountsWith 0 x

at_index : (P : ℕ → Type 0) → P 0 → P 1 → (n : ℕ) → P (n % 2)
at_index P zero_holds one_holds n =
    let cases : (n % 2 ≡ 0) ⊎ (n % 2 ≡ 1) = ground arith in
    elim cases [ inl e ↦ subst P (sym e) zero_holds | inr e ↦ subst P (sym e) one_holds ]

sum_added :
    (tasks v : ℕ) (f : ℕ → ℕ) (n : ℕ)
    → u32 (
        tasks
        + write_at (n % 2) (add32 (f (n % 2)) v) f 0
        + write_at (n % 2) (add32 (f (n % 2)) v) f 1)
      ≡ u32 (tasks + f 0 + f 1 + v)
sum_added tasks v f =
    at_index
      (λ i.
        u32 (tasks + write_at i (add32 (f i) v) f 0 + write_at i (add32 (f i) v) f 1)
        ≡ u32 (tasks + f 0 + f 1 + v))
      (ground arith) (ground arith)

sum_moved :
    (tasks : ℕ) (f : ℕ → ℕ) (n : ℕ)
    → u32 (add32 tasks (f (n % 2)) + write_at (n % 2) 0 f 0 + write_at (n % 2) 0 f 1)
      ≡ u32 (tasks + f 0 + f 1)
sum_moved tasks f =
    at_index
      (λ i. u32 (add32 tasks (f i) + write_at i 0 f 0 + write_at i 0 f 1) ≡ u32 (tasks + f 0 + f 1))
      (ground arith) (ground arith)

fold-Counts :
    (r : Rq) (x : Load)
    → Counts x
    → CountsWith (calc_load_fold_active r x).0 (calc_load_fold_active r x).1
unfolding calc_load_fold_active
fold-Counts r x c =
    elim (Bool-cases (add32 r.nr_running r.nr_uninterruptible == x.calc_load_active)) [
      | inl e ↦ ground (arith, c.active, c.all)
      | inr e ↦ record {
        active = ground (arith, c.active, c.all);
        all = ground (arith, c.active, c.all);
      }
    ]

into_idle :
    (n delta : ℕ) (x : Load)
    → CountsWith delta x
    → Counts (
        if delta == 0 then x else record x {
          calc_load_idle =
              write_at (n % 2) (add32 (x.calc_load_idle (n % 2)) delta) x.calc_load_idle;
        })
into_idle n delta x c = elim (Bool-cases (delta == 0)) [
  | inl e ↦ record { active = ground (arith, c.active); all = ground (arith, c.all) }
  | inr e ↦ record {
    active = ground (arith, c.active);
    all = ground (arith, c.all, sum_added x.calc_load_tasks delta x.calc_load_idle n);
  }
]

-- Going idle keeps the count of active tasks.
pub calc_load_enter_idle-Counts :
    (jiffies : ℕ) (r : Rq) (x : Load) → Counts x → Counts (calc_load_enter_idle jiffies r x)
unfolding calc_load_enter_idle calc_load_write_idx
calc_load_enter_idle-Counts jiffies r x c =
    let (delta, x') = calc_load_fold_active r x in
    into_idle
      (if not (time_before jiffies x'.calc_load_update)
        then x'.calc_load_idx + 1
        else x'.calc_load_idx)
      delta x' (fold-Counts r x c)

module _ (k : Kernel) where
  -- A tick keeps the count of active tasks.
  pub calc_load_account_active-Counts :
      (jiffies : ℕ) (r : Rq) (x : Load) → Counts x → Counts (calc_load_account_active k jiffies r x)
  unfolding calc_load_account_active
  calc_load_account_active-Counts jiffies r x c =
      let folded = fold-Counts r x c in
      elim (Bool-cases (time_before jiffies x.next_sample)) [
        | inl e ↦ ground (c.active, c.all, arith)
        | inr e ↦ record {
          active = ground (arith, folded.active, folded.all);
          all = ground (arith, folded.active, folded.all);
        }
      ]

  -- A part of calc_global_load that leaves the counters.
  same_counters :
      (x y : Load)
      → Counts x
      → y.calc_load_active ≡ x.calc_load_active
      → y.calc_load_tasks ≡ x.calc_load_tasks
      → y.calc_load_idle ≡ x.calc_load_idle
      → Counts y
  same_counters x y c a t i = record {
    active = ground (arith, c.active);
    all = ground (arith, c.all, ap (λ f. f 0) i, ap (λ f. f 1) i);
  }

  take_sample-Counts : (x : Load) → Counts x → Counts (take_sample k x)
  unfolding take_sample calc_load_fold_idle calc_load_read_idx
  take_sample-Counts x c = elim (Bool-cases (x.calc_load_idle (x.calc_load_idx % 2) == 0)) [
    | inl e ↦ record { active = ground (arith, c.active); all = ground (arith, c.all) }
    | inr e ↦ record {
      active = ground (arith, c.active);
      all = ground (arith, c.all, sum_moved x.calc_load_tasks x.calc_load_idle x.calc_load_idx);
    }
  ]

  calc_global_nohz-Counts :
      (jiffies : ℕ) (x : Load) → Counts x → Counts (calc_global_nohz k jiffies x)
  unfolding calc_global_nohz catch_up
  calc_global_nohz-Counts jiffies x c =
      same_counters x (calc_global_nohz k jiffies x) c (ground arith) (ground arith) (ground arith)

  -- The sample of the global average keeps the count of active tasks.
  pub calc_global_load-Counts :
      (jiffies : ℕ) (x : Load) → Counts x → Counts (calc_global_load k jiffies x)
  unfolding calc_global_load
  calc_global_load-Counts jiffies x c =
      elim (time_before jiffies (add32 x.calc_load_update 10))
        as (λ b. Counts (if b then x else calc_global_nohz k jiffies (take_sample k x))) [
          | true ↦ c
          | false ↦ calc_global_nohz-Counts jiffies (take_sample k x) (take_sample-Counts x c)
        ]

module _ (k : Kernel) where
  -- What happens to the counters, at any reading of jiffies and with any run queue: a tick with its
  -- load, the sample of the timer, going idle and coming back.
  pub data LoadStep : Load → Load → Type 0 where
    ticks :
        (jiffies load : ℕ) (r : Rq) (x : Load)
        → LoadStep x (calc_load_account_active k jiffies r (update_cpu_load jiffies load x))
    samples : (jiffies : ℕ) (x : Load) → LoadStep x (calc_global_load k jiffies x)
    enters_idle : (jiffies : ℕ) (r : Rq) (x : Load) → LoadStep x (calc_load_enter_idle jiffies r x)
    exits_idle : (jiffies : ℕ) (x : Load) → LoadStep x (calc_load_exit_idle k jiffies x)

  pub data LoadSteps (x : Load) : Load → Type 0 where
    here : LoadSteps x x
    more : (y z : Load) → LoadSteps x y → LoadStep y z → LoadSteps x z

  update_cpu_load-Counts :
      (jiffies load : ℕ) (x : Load) → Counts x → Counts (update_cpu_load jiffies load x)
  unfolding update_cpu_load
  update_cpu_load-Counts jiffies load x c =
      same_counters k x (update_cpu_load jiffies load x) c (ground arith) (ground arith)
        (ground arith)

  exit_idle-Counts : (jiffies : ℕ) (x : Load) → Counts x → Counts (calc_load_exit_idle k jiffies x)
  unfolding calc_load_exit_idle
  exit_idle-Counts jiffies x c =
      same_counters k x (calc_load_exit_idle k jiffies x) c (ground arith) (ground arith)
        (ground arith)

  LoadStep-Counts : {x y : Load} → LoadStep x y → Counts x → Counts y
  LoadStep-Counts (ticks jiffies load r x) c =
      calc_load_account_active-Counts k jiffies r (update_cpu_load jiffies load x)
        (update_cpu_load-Counts jiffies load x c)
  LoadStep-Counts (samples jiffies x) c = calc_global_load-Counts k jiffies x c
  LoadStep-Counts (enters_idle jiffies r x) c = calc_load_enter_idle-Counts jiffies r x c
  LoadStep-Counts (exits_idle jiffies x) c = exit_idle-Counts jiffies x c

  -- In every state of the counters that ticks, samples and idle times lead to, the sum of the
  -- counted tasks and of the two pending deltas is the number of tasks that the processor last
  -- reported, as words, when this holds at the start.
  pub LoadSteps-Counts : {x y : Load} → LoadSteps x y → Counts x → Counts y
  LoadSteps-Counts here c = c
  LoadSteps-Counts (more y z steps step) c = LoadStep-Counts step (LoadSteps-Counts steps c)

  -- A tick that is due leaves exactly the active tasks of the run queue counted.
  pub due_tick-counted :
      (jiffies : ℕ) (r : Rq) (x : Load)
      → Counts x
      → time_before jiffies x.next_sample ≡ false
      → counted 0 (calc_load_account_active k jiffies r x) ≡ add32 r.nr_running r.nr_uninterruptible
  unfolding calc_load_account_active calc_load_fold_active
  due_tick-counted jiffies r x c due =
      ground (arith, (calc_load_account_active-Counts k jiffies r x c).all)
