-- ===== src/Tests/RtArrays.antt =====
-- The priority arrays of rt.c on the sample machine: task 7, of priority 10, is in a group that has
-- run queue 1 and entity 100; all queues are empty at first.
use cs356_project.Prelude.{
  ℕ, zero, suc, ◌+◌, ◌≡◌, ◌<◌, ◌≤◌, refl, arith, Bool, true, false, some, ◌==◌, if◌then◌else◌,
  Bool-cases, inl, inr,
}
use cs356_project.Kernel.Types.{State, done}
use cs356_project.Rt.Memory.{
  ancestors, rt_se_prio, rt_se_boosted, start_rt_bandwidth, rt_rq_throttled,
}
use cs356_project.Rt.Array.{inc_rt_tasks, inc_rt_group, inc_rt_prio}
use cs356_project.Rt.Entity.{
  enqueue_rt_entity, dequeue_rt_entity, enqueue_each, enqueue_rt_entity_one, dequeue_rt_stack,
  dequeue_each, link, pick_next_rt_entity,
}
use cs356_project.Rt.Invariant.Bits.{BitLaws}
use cs356_project.Rt.Invariant.Arrays.{ArrayInv, on_queues}
use cs356_project.Rt.Invariant.Entities.{Tree, RtInv}
use cs356_project.Rt.Invariant.Keeps.{Line, Moved, rt_entity-Moved}
use cs356_project.Rt.Invariant.Picks.{Highest, pick_next_rt_entity-Highest}
use cs356_project.Tests.Samples.{kernel, list_laws, bit_from, real_time}
use cs356_project.Tests.RealTime.{before}

bit_from-found : (n i : ℕ) (bits : ℕ → Bool) → bits (i + n) ≡ true → bits (bit_from n i bits) ≡ true
bit_from-found zero i bits h = ground (arith, h)
bit_from-found (suc n) i bits h = elim (Bool-cases (bits i)) [
  | inl here ↦ ground (arith, here)
  | inr not_here ↦ ground (arith, not_here, bit_from-found n (i + 1) bits)
]

bit_from-least : (n i j : ℕ) (bits : ℕ → Bool) → i ≤ j → j < bit_from n i bits → bits j ≡ false
bit_from-least zero i j bits h c = ground (arith, h, c)
bit_from-least (suc n) i j bits h c = elim (Bool-cases (bits i)) [
  | inl here ↦ ground (arith, here, h, c)
  | inr not_here ↦ elim (Bool-cases (i == j)) [
    | inl same ↦ ground (arith, same, not_here)
    | inr other ↦
        bit_from-least n (i + 1) j bits (ground (arith, h, other)) (ground (arith, not_here, c))
  ]
]

bit_laws : BitLaws kernel
bit_laws = record {
  first_set = λ bits d. bit_from-found 100 0 bits d;
  first_least = λ bits j d c. bit_from-least 100 0 j bits (omega arith) c;
}

abbrev idle : State
idle = record before {
  rt = record real_time {
    entity = λ e.
        if e == 7
        then record (real_time.entity e) { rt_rq = 1; parent = some 100 }
        else if e == 100
        then record (real_time.entity e) { my_q = some 1 }
        else real_time.entity e;
  };
}

idle-ArrayInv : (r : ℕ) → ArrayInv kernel (idle.rt.rt_rq r)
unfolding on_queues
idle-ArrayInv r = record {
  bits = λ i c. ground (arith, c);
  delimiter = refl;
  highest = refl;
  distinct = λ i. tt;
  counted = refl;
}

idle-RtInv : RtInv kernel 7 idle
idle-RtInv = record {
  arrays = idle-ArrayInv;
  room = λ r. omega arith;
  placed = λ e r i h. ground (arith, h);
  on_queue = λ e h. ground (arith, h);
}

idle-Tree : Tree idle
idle-Tree = record {
  owner = λ d e h. ground (arith, h);
  owned = λ d e h. ground (arith, h);
  proper = λ e h. ground (arith, h);
}

line : Line 2 7 idle
unfolding ancestors
line = record { upward = (refl, (refl, tt)); distinct = (refl, (refl, tt)) }

abbrev waiting : State
waiting = enqueue_rt_entity kernel 2 7 true idle

rt_entity-Moved_example :
    Moved kernel 5 7 true waiting × Moved kernel 5 7 false (dequeue_rt_entity kernel 2 7 idle)
unfolding ancestors
rt_entity-Moved_example =
    rt_entity-Moved kernel bit_laws list_laws 5 2 7 idle idle-Tree line idle-RtInv true refl
      (omega arith)

-- The group's entity is picked on the processor's run queue.
waiting-RtInv : RtInv kernel 5 waiting
unfolding ancestors
waiting-RtInv =
    (rt_entity-Moved kernel bit_laws list_laws 5 2 7 idle idle-Tree line idle-RtInv true refl
      (omega arith)).0.inv

pick_next_rt_entity-Highest_example :
    (e : ℕ) × (pick_next_rt_entity kernel 0 waiting ≡ done e) × Highest 0 e waiting
unfolding enqueue_rt_entity enqueue_each ancestors enqueue_rt_entity_one dequeue_rt_stack
    dequeue_each inc_rt_tasks inc_rt_group inc_rt_prio rt_se_prio link start_rt_bandwidth
    rt_se_boosted rt_rq_throttled
pick_next_rt_entity-Highest_example =
    pick_next_rt_entity-Highest kernel bit_laws list_laws 5 0 waiting waiting-RtInv refl
