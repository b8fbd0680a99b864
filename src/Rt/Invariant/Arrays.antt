-- ===== src/Rt/Invariant/Arrays.antt =====
-- One priority array with its counters, when an entity is put on a queue or taken off.
use cs356_project.Prelude.{
  ℕ, suc, ◌+◌, ◌<◌, ◌≡◌, refl, sym, ap, ◌∙◌, arith, Bool, true, false, not, List, [], ◌∷◌, elem,
  length, Distinct, add32, sub32, ◌==◌, if◌then◌else◌, ltb, Bool-cases, inl, inr,
}
use cs356_project.Kernel.RealTime.{RtRq}
use cs356_project.Kernel.Types.{write_at}
use cs356_project.Kernel.External.{Kernel}
use cs356_project.Rt.Entity.{no_tasks}
use cs356_project.Rt.Invariant.Bits.{
  sum_to, sum_to_write, sum_to_zero, sum_to_agree, BitLaws, first_is, first_of_set, first_of_clear,
}

-- The entities on all queues of an array.
unfoldable pub on_queues : (ℕ → List ℕ) → ℕ
on_queues queue = sum_to 100 (λ i. length (queue i))

-- A bit is set where a queue is not empty, the highest priority is that of the first set bit (100
-- if all queues are empty), no entity is queued twice at a priority, and entities are counted.
pub record ArrayInv (k : Kernel) (x : RtRq) : Type 0 where
  pub bits : (i : ℕ) → i < 100 → x.bitmap i ≡ not (no_tasks (x.queue i))
  pub delimiter : x.bitmap 100 ≡ true
  pub highest : x.highest_prio ≡ k.sched_find_first_bit x.bitmap
  pub distinct : (i : ℕ) → Distinct (x.queue i)
  pub counted : x.rt_nr_running ≡ on_queues x.queue

-- The array after an entity was put at the end or in front of a queue.
abbrev pub put : ℕ → List ℕ → RtRq → RtRq
put i q x = record x {
  bitmap = write_at i true x.bitmap;
  queue = write_at i q x.queue;
  rt_nr_running = add32 x.rt_nr_running 1;
  highest_prio = if ltb i x.highest_prio then i else x.highest_prio;
}

length_write :
    (i : ℕ) (q : List ℕ) (f : ℕ → List ℕ) (j : ℕ)
    → length (write_at i q f j) ≡ write_at i (length q) (λ j. length (f j)) j
length_write i q f j = ground arith

on_queues-write :
    (i : ℕ) (q : List ℕ) (f : ℕ → List ℕ)
    → i < 100
    → on_queues (write_at i q f) + length (f i) ≡ on_queues f + length q
unfolding on_queues
on_queues-write i q f h =
    let same =
      sum_to_agree 100 (λ j. length (write_at i q f j)) (write_at i (length q) (λ j. length (f j)))
        (length_write i q f) in
    omega (arith, same, sum_to_write 100 i (length q) (λ j. length (f j)) h)

write-Distinct :
    (i : ℕ) (q : List ℕ) (f : ℕ → List ℕ) (j : ℕ)
    → Distinct q
    → Distinct (f j)
    → Distinct (write_at i q f j)
write-Distinct i q f j new old = elim (Bool-cases (i == j)) [
  | inl same ↦ rw same new
  | inr other ↦ rw other old
]

empty_queue : (q : List ℕ) → length q ≡ 0 → no_tasks q ≡ true
empty_queue [] h = refl
empty_queue (x ∷ q) h = ground (arith, h)

pub filled_queue : (q : List ℕ) (n : ℕ) → length q ≡ suc n → no_tasks q ≡ false
filled_queue [] n h = ground (arith, h)
filled_queue (x ∷ q) n h = refl

empty_elem : (e : ℕ) (q : List ℕ) → no_tasks q ≡ true → elem e q ≡ false
empty_elem e [] h = refl
empty_elem e (x ∷ q) h = ground (arith, h)

on_queues-zero : (f : ℕ → List ℕ) (i : ℕ) → on_queues f ≡ 0 → i < 100 → no_tasks (f i) ≡ true
unfolding on_queues
on_queues-zero f i h c = empty_queue (f i) (sum_to_zero 100 i (λ j. length (f j)) h c)

module _ (k : Kernel) where
  -- The bits after an entity left a queue, of which `q` is the rest.
  abbrev pub bits_left : ℕ → List ℕ → (ℕ → Bool) → ℕ → Bool
  bits_left i q bits = if no_tasks q then write_at i false bits else bits

  -- The array then.
  abbrev pub taken : ℕ → List ℕ → RtRq → RtRq
  taken i q x =
      let n = sub32 x.rt_nr_running 1 in
      let left = bits_left i q x.bitmap in
      record x {
        bitmap = left;
        queue = write_at i q x.queue;
        rt_nr_running = n;
        highest_prio =
            if n == 0
            then 100
            else if i == x.highest_prio
            then k.sched_find_first_bit left
            else x.highest_prio;
      }

module _ (k : Kernel) (b : BitLaws k) where
  pub put-ArrayInv :
      (i : ℕ) (q : List ℕ) (x : RtRq)
      → i < 100
      → no_tasks q ≡ false
      → length q ≡ suc (length (x.queue i))
      → Distinct q
      → x.rt_nr_running + 1 < 4294967296
      → ArrayInv k x
      → ArrayInv k (put i q x)
  put-ArrayInv i q x h some_there longer d room v = record {
    bits = λ j c. ground (arith, v.bits j c, some_there);
    delimiter = ground (arith, v.delimiter);
    highest = rw (v.highest) (sym (first_of_set k b x.bitmap i v.delimiter));
    distinct = λ j. write-Distinct i q x.queue j d (v.distinct j);
    counted = ground (arith, v.counted, on_queues-write i q x.queue h);
  }

  bits_left-bits :
      (i : ℕ) (q : List ℕ) (x : RtRq) (j : ℕ)
      → length (x.queue i) ≡ suc (length q)
      → j < 100
      → ArrayInv k x
      → bits_left k i q x.bitmap j ≡ not (no_tasks (write_at i q x.queue j))
  bits_left-bits i q x j shorter c v =
      ground (arith, v.bits j c, filled_queue (x.queue i) (length q) shorter)

  taken-counted :
      (i : ℕ) (q : List ℕ) (x : RtRq)
      → i < 100
      → length (x.queue i) ≡ suc (length q)
      → x.rt_nr_running < 4294967296
      → ArrayInv k x
      → sub32 x.rt_nr_running 1 ≡ on_queues (write_at i q x.queue)
  taken-counted i q x h shorter word v = omega (arith, v.counted, on_queues-write i q x.queue h)

  first_left :
      (i : ℕ) (q : List ℕ) (x : RtRq)
      → i < 100
      → (i == x.highest_prio) ≡ false
      → ArrayInv k x
      → k.sched_find_first_bit (bits_left k i q x.bitmap) ≡ k.sched_find_first_bit x.bitmap
  first_left i q x h other v =
      let cleared =
        first_of_clear k b x.bitmap i v.delimiter h (ground (arith, other, v.highest)) in
      elim (Bool-cases (no_tasks q)) [ inl e ↦ rw e cleared | inr e ↦ rw e refl ]

  taken-highest :
      (i : ℕ) (q : List ℕ) (x : RtRq)
      → i < 100
      → length (x.queue i) ≡ suc (length q)
      → x.rt_nr_running < 4294967296
      → ArrayInv k x
      → (taken k i q x).highest_prio ≡ k.sched_find_first_bit (bits_left k i q x.bitmap)
  taken-highest i q x h shorter word v =
      let n = sub32 x.rt_nr_running 1 in
      let left = bits_left k i q x.bitmap in
      let counted = taken-counted i q x h shorter word v in
      let delimiter : left 100 ≡ true = ground (arith, v.delimiter) in
      elim (Bool-cases (n == 0)) [
        | inl last ↦
            let none_left : n ≡ 0 = ground (arith, last) in
            rw last (
              sym (
                first_is k b left 100 delimiter delimiter (λ j c.
                  bits_left-bits i q x j shorter c v
                  ∙ ap not (on_queues-zero (write_at i q x.queue) j (sym counted ∙ none_left) c))))
        | inr more ↦ rw more (elim (Bool-cases (i == x.highest_prio)) [
          | inl same ↦ rw same refl
          | inr other ↦ rw other (v.highest ∙ sym (first_left i q x h other v))
        ])
      ]

  pub taken-ArrayInv :
      (i : ℕ) (q : List ℕ) (x : RtRq)
      → i < 100
      → length (x.queue i) ≡ suc (length q)
      → Distinct q
      → x.rt_nr_running < 4294967296
      → ArrayInv k x
      → ArrayInv k (taken k i q x)
  taken-ArrayInv i q x h shorter d word v = record {
    bits = λ j c. bits_left-bits i q x j shorter c v;
    delimiter = ground (arith, v.delimiter);
    highest = taken-highest i q x h shorter word v;
    distinct = λ j. write-Distinct i q x.queue j d (v.distinct j);
    counted = taken-counted i q x h shorter word v;
  }

pub rt_nr_running-pos :
    (k : Kernel) (e i : ℕ) (x : RtRq)
    → i < 100
    → elem e (x.queue i) ≡ true
    → ArrayInv k x
    → 0 < x.rt_nr_running
rt_nr_running-pos k e i x h there v =
    let empty = λ (none_left : x.rt_nr_running ≡ 0).
      empty_elem e (x.queue i) (on_queues-zero x.queue i (sym v.counted ∙ none_left) h) in
    ground (arith, empty, there)
