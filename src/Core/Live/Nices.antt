-- ===== src/Core/Live/Nices.antt =====
-- set_user_nice of core.c keeps the invariant.
use cs356_project.Prelude.{
  ℕ, ◌≡◌, refl, arith, ◌∙◌, true, false, ◌&&◌, ◌||◌, ◌==◌, Bool-cases, inl, inr, ℤ, eqb_ℤ, pos,
  negsuc, ltb_ℤ,
}
use cs356_project.Kernel.Types.{State}
use cs356_project.Kernel.External.{Kernel, ClassLaws, ListLaws}
use cs356_project.Core.Prio.{task_nice, rt_policy, nice_to_prio, effective_prio}
use cs356_project.Core.Classes.{enqueue_task, dequeue_task}
use cs356_project.Core.Frames.{Kept, Kept-trans, enqueue_task-Kept, dequeue_task-Kept}
use cs356_project.Core.Sound.{Sound, Quiet-Sound}
use cs356_project.Core.Off.{Off, dequeue-Off, asleep-Off, Edit-Off, enqueue-Sound, stay-Sound}
use cs356_project.Core.Nice.{set_user_nice, renice, renice_queued, write_nice}
use cs356_project.Core.Policy.Keeps.{Edit, Edit-trans, write-Edit, set_load_weight-Edit}
use cs356_project.Core.Live.State.{Live, write-Live, resched_task-Steady, resched_task-Kept}
use cs356_project.Core.Live.Changes.{Alters, Alters-trans, Kept-Alters, Edit-Alters, Alters-Live}

effective_prio-Edit : (p : ℕ) (s : State) → Edit p s (effective_prio p s).1
unfolding effective_prio
effective_prio-Edit p s = write-Edit p _ s refl (λ w. w)

write_nice-Edit : (p : ℕ) (nice : ℤ) (s : State) → Edit p s (write_nice p nice s)
unfolding write_nice
write_nice-Edit p nice s =
    Edit-trans
      (write-Edit p (record (s.task p) { static_prio = nice_to_prio nice }) s refl (λ w. w))
      (Edit-trans (set_load_weight-Edit p _)
        (Edit-trans (effective_prio-Edit p _) (write-Edit p _ _ refl (λ w. w))))

module _ (k : Kernel) (l : ListLaws k.lists) (laws : ClassLaws k) where
  renice_queued-Sound :
      (p : ℕ) (old : ℤ) (s : State)
      → Off p s
      → (s.task p).on_rq ≡ true
      → Sound (renice_queued k p old s)
  unfolding renice_queued
  renice_queued-Sound p old s v on =
      let s' = enqueue_task k p 0 s in
      let w = enqueue-Sound k l laws p 0 s v on in
      elim (Bool-cases
        (ltb_ℤ (s'.task p).prio old || ltb_ℤ old (s'.task p).prio && s'.rq.curr == p)) [
          | inl kick ↦
              rw kick (
                Quiet-Sound (resched_task-Steady s'.rq.curr s') (resched_task-Kept s'.rq.curr s') w)
          | inr calm ↦ rw calm w
        ]

  renice_queued-Kept : (p : ℕ) (old : ℤ) (s : State) → Kept s (renice_queued k p old s)
  unfolding renice_queued
  renice_queued-Kept p old s =
      let s' = enqueue_task k p 0 s in
      let g = enqueue_task-Kept k laws p 0 s in
      elim (Bool-cases
        (ltb_ℤ (s'.task p).prio old || ltb_ℤ old (s'.task p).prio && s'.rq.curr == p)) [
          | inl kick ↦ rw kick (Kept-trans g (resched_task-Kept s'.rq.curr s'))
          | inr calm ↦ rw calm g
        ]

  renice-Sound : (p : ℕ) (nice : ℤ) (s : State) → Sound s → Sound (renice k p nice s)
  unfolding renice
  renice-Sound p nice s v = elim (Bool-cases (s.task p).on_rq) [
    | inl on ↦ rw on (
        let f = write_nice-Edit p nice (dequeue_task k p 0 s) in
        let g = dequeue_task-Kept k laws p 0 s in
        renice_queued-Sound p _ _ (Edit-Off k l laws f (dequeue-Off k l laws p 0 s v (λ _. on)))
          (f.on_rq_kept ∙ ground (arith, g.fields_kept p, on)))
    | inr off ↦ rw off (
        let f = write_nice-Edit p nice s in
        stay-Sound k l laws p _ (Edit-Off k l laws f (asleep-Off k l laws p s v off))
          (f.on_rq_kept ∙ off))
  ]

  renice-Alters : (p : ℕ) (nice : ℤ) (s : State) → Alters p s (renice k p nice s)
  unfolding renice
  renice-Alters p nice s = elim (Bool-cases (s.task p).on_rq) [
    | inl on ↦ rw on (
        Alters-trans (Kept-Alters (dequeue_task-Kept k laws p 0 s)) (
          Alters-trans (Edit-Alters (write_nice-Edit p nice _))
            (Kept-Alters (renice_queued-Kept p _ _))))
    | inr off ↦ rw off (Edit-Alters (write_nice-Edit p nice s))
  ]

  -- A new nice value for a task that is not the idle one, and is runnable if it runs, keeps the
  -- invariant.
  pub set_user_nice-Live :
      (p : ℕ) (nice : ℤ) (s : State)
      → (p == s.rq.idle) ≡ false
      → ((p == s.rq.curr) ≡ true → (s.task p).on_rq ≡ true)
      → Live s
      → Live (set_user_nice k p nice s)
  unfolding set_user_nice
  set_user_nice-Live p nice s i on v =
      elim (Bool-cases
        (eqb_ℤ (task_nice (s.task p)) nice || (ltb_ℤ nice (negsuc 19) || ltb_ℤ (pos 19) nice))) [
          | inl nothing ↦ rw nothing v
          | inr some_change ↦ rw some_change (elim (Bool-cases (rt_policy (s.task p).policy)) [
            | inl rt ↦ rw rt (
                write-Live p (record (s.task p) { static_prio = nice_to_prio nice }) s refl refl
                  refl v)
            | inr normal ↦
                rw normal (
                  Alters-Live p s _ (renice-Alters p nice s) i on v (renice-Sound p nice s v.sound))
          ])
        ]
