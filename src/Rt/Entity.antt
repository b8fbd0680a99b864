-- ===== src/Rt/Entity.antt =====
-- Entities on their queues: rt.c (__enqueue_rt_entity, __dequeue_rt_entity, dequeue_rt_stack,
-- enqueue_rt_entity, dequeue_rt_entity, sched_rt_rq_enqueue, sched_rt_rq_dequeue,
-- requeue_rt_entity, pick_next_rt_entity). The `back` pointers are the list of ancestors read
-- backwards; the list of run queues that have tasks is read by statistics only and left out.
use cs356_project.Prelude.{
  ℕ, Bool, true, false, not, ◌||◌, List, [], ◌∷◌, ◌++◌, Option, some, none, pos, ltb_ℤ, leb, ◌==◌,
  if◌then◌else◌,
}
use cs356_project.Kernel.Types.{State, Outcome, bug, done, write_at}
use cs356_project.Kernel.RealTime.{RtRq}
use cs356_project.Kernel.External.{Kernel}
use cs356_project.Kernel.Constants.{max_rt_prio}
use cs356_project.Core.Classes.{resched_task}
use cs356_project.Rt.Memory.{
  set_rt, set_rt_rq, set_rt_entity, rt_rq_throttled, rt_se_prio, ancestors,
}
use cs356_project.Rt.Array.{inc_rt_tasks, dec_rt_tasks}

abbrev pub reverse : List ℕ → List ℕ
reverse [] = []
reverse (x ∷ q) = reverse q ++ x ∷ []

abbrev pub no_tasks : List ℕ → Bool
no_tasks [] = true
no_tasks (_ ∷ _) = false

module _ (k : Kernel) where
  -- Takes an entity's node out of the list that it is in, whichever that is.
  unfoldable pub unlink : ℕ → State → State
  unlink e s =
      let out = λ (x : RtRq). record x { queue = λ i. k.list_del_init e (x.queue i) } in
      set_rt_entity e (record (s.rt.entity e) { linked = false })
        (set_rt (record s.rt { rt_rq = λ r. out (s.rt.rt_rq r) }) s)

  -- Puts a node into the queue of a priority.
  unfoldable pub link : ℕ → ℕ → ℕ → Bool → State → State
  link r prio e head s =
      let x = s.rt.rt_rq r in
      let q = x.queue prio in
      set_rt_entity e (record (s.rt.entity e) { linked = true })
        (set_rt_rq r
          (record x {
            queue = write_at prio (if head then k.list_add e q else k.list_add_tail e q) x.queue;
          })
          s)

  abbrev pub set_bit : ℕ → Bool → ℕ → State → State
  set_bit r b prio s =
      set_rt_rq r (record (s.rt.rt_rq r) { bitmap = write_at prio b (s.rt.rt_rq r).bitmap }) s

  -- A group that is throttled or empty is not put on a queue.
  abbrev pub not_to_run : Option ℕ → State → Bool
  not_to_run none s = false
  not_to_run (some g) s = let x = s.rt.rt_rq g in rt_rq_throttled x || x.rt_nr_running == 0

  unfoldable pub enqueue_rt_entity_one : ℕ → Bool → State → State
  enqueue_rt_entity_one e head s =
      let r = (s.rt.entity e).rt_rq in
      let prio = rt_se_prio e s in
      let s1 = link r prio e head s in
      if not_to_run (s.rt.entity e).my_q s
      then s
      else inc_rt_tasks k e r (set_bit r true (rt_se_prio e s1) s1)

  unfoldable pub dequeue_rt_entity_one : ℕ → State → State
  dequeue_rt_entity_one e s =
      let r = (s.rt.entity e).rt_rq in
      let s1 = unlink e s in
      let prio = rt_se_prio e s1 in
      dec_rt_tasks k e r
        (if no_tasks ((s1.rt.rt_rq r).queue prio) then set_bit r false prio s1 else s1)

  -- From the top of the hierarchy down.
  unfoldable pub dequeue_each : List ℕ → State → State
  dequeue_each [] s = s
  dequeue_each (e ∷ es) s =
      dequeue_each es (if (s.rt.entity e).linked then dequeue_rt_entity_one e s else s)

  unfoldable pub enqueue_each : List ℕ → Bool → State → State
  enqueue_each [] head s = s
  enqueue_each (e ∷ es) head s = enqueue_each es head (enqueue_rt_entity_one e head s)

  -- The groups that still have tasks.
  abbrev pub has_tasks : Option ℕ → State → Bool
  has_tasks none s = false
  has_tasks (some g) s = not ((s.rt.rt_rq g).rt_nr_running == 0)

  unfoldable pub enqueue_groups : List ℕ → State → State
  enqueue_groups [] s = s
  enqueue_groups (e ∷ es) s =
      enqueue_groups es
        (if has_tasks (s.rt.entity e).my_q s then enqueue_rt_entity_one e false s else s)

  -- Moves a node that is in a list.
  unfoldable pub requeue_rt_entity : ℕ → ℕ → Bool → State → State
  requeue_rt_entity r e head s =
      if (s.rt.entity e).linked then link r (rt_se_prio e s) e head (unlink e s) else s

  unfoldable pub requeue_each : List ℕ → Bool → State → State
  requeue_each [] head s = s
  requeue_each (e ∷ es) head s =
      requeue_each es head (requeue_rt_entity (s.rt.entity e).rt_rq e head s)

  -- An empty queue behind a set bit would give a pointer to no entity.
  unfoldable pub pick_next_rt_entity : ℕ → State → Outcome ℕ
  pick_next_rt_entity r s =
      let x = s.rt.rt_rq r in
      let idx = k.sched_find_first_bit x.bitmap in
      if leb max_rt_prio idx
      then bug
      else elim (k.list_first_entry (x.queue idx)) [ none ↦ bug | some e ↦ done e ]

module _ (k : Kernel) (depth : ℕ) where
  unfoldable pub dequeue_rt_stack : ℕ → State → State
  dequeue_rt_stack e s = dequeue_each k (reverse (ancestors depth e s)) s

  unfoldable pub enqueue_rt_entity : ℕ → Bool → State → State
  enqueue_rt_entity e head s = enqueue_each k (ancestors depth e s) head (dequeue_rt_stack e s)

  unfoldable pub dequeue_rt_entity : ℕ → State → State
  dequeue_rt_entity e s = enqueue_groups k (ancestors depth e s) (dequeue_rt_stack e s)

  -- The entity of a run queue's group, if it is not the processor's own.
  abbrev pub entity_of_queue : ℕ → State → Option ℕ
  entity_of_queue r s = elim (s.rt.rt_rq r).tg [ none ↦ none | some g ↦ (s.rt.group g).rt_se ]

  abbrev pub enqueue_if_off : Option ℕ → State → State
  enqueue_if_off none s = s
  enqueue_if_off (some e) s = if not (s.rt.entity e).linked then enqueue_rt_entity e false s else s

  abbrev pub dequeue_if_on : Option ℕ → State → State
  dequeue_if_on none s = s
  dequeue_if_on (some e) s = if (s.rt.entity e).linked then dequeue_rt_entity e s else s

  unfoldable pub sched_rt_rq_enqueue : ℕ → State → State
  sched_rt_rq_enqueue r s =
      let s' = enqueue_if_off (entity_of_queue r s) s in
      if (s.rt.rt_rq r).rt_nr_running == 0
      then s
      else if ltb_ℤ (pos (s'.rt.rt_rq r).highest_prio) (s'.task s'.rq.curr).prio
      then resched_task s'.rq.curr s'
      else s'

  unfoldable pub sched_rt_rq_dequeue : ℕ → State → State
  sched_rt_rq_dequeue r s = dequeue_if_on (entity_of_queue r s) s
