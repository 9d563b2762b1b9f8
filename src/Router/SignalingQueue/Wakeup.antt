-- ===== src/Router/SignalingQueue/Wakeup.antt =====
-- No thread sleeps while an item waits that nobody is about to take.
use isc_challenge_without_bo.Prelude.{
  ap, ◌&&◌, ◌+◌, ◌-◌, ◌≤◌, ◌<◌, ◌≡◌, refl, Bool, List, [], ◌∷◌, ◌++◌, length, length-append, arith,
  ◌==◌, Bool-cases, inl, inr,
}
use isc_challenge_without_bo.Router.SignalingQueue.{
  SignalingQueue, Action, pushes, pops, resumes, wakes, act, run, push, pop, pop_from, resume,
  wake_spuriously, ends_with, notify_one, empty_queue,
}

module _ {ℓ} {T : Type ℓ} where
  -- If a thread sleeps, each item that waits has a woken thread that will test again.
  pub record Attended (q : SignalingQueue T) : Type 0 where
    pub attended : 0 < q.sleepers → length q.m_queue ≤ q.woken

  pub Attended-empty_queue : Attended empty_queue
  Attended-empty_queue = record { attended = λ h. omega arith }

  notify_one-Attended :
      (q : SignalingQueue T)
      → (0 < q.sleepers → length q.m_queue ≤ q.woken + 1)
      → Attended (notify_one q)
  unfolding notify_one
  notify_one-Attended q h = record { attended = λ k. ground arith }

  pop_from-Attended :
      (xs : List T) (q : SignalingQueue T)
      → q.m_queue ≡ xs
      → (0 < q.sleepers → length xs ≤ q.woken + 1)
      → Attended (pop_from xs q).0
  unfolding pop_from
  pop_from-Attended [] q e h = record { attended = λ k. omega (arith, ap length e) }
  pop_from-Attended (x ∷ xs) q e h = record { attended = λ k. omega (arith, h k) }

  pub pop-Attended :
      (q : SignalingQueue T)
      → (0 < q.sleepers → length q.m_queue ≤ q.woken + 1)
      → Attended (pop q).0
  unfolding pop
  pop-Attended q h = pop_from-Attended q.m_queue q refl h

  pub resume-Attended : (q : SignalingQueue T) → Attended q → Attended (resume q).0
  unfolding resume
  resume-Attended q v = elim (Bool-cases (q.woken == 0)) [
    | inl e ↦ rw e v
    | inr e ↦
        rw e (pop-Attended (record q { woken = q.woken - 1 }) (λ k. ground (arith, v.attended k)))
  ]

  pub wake_spuriously-Attended : (q : SignalingQueue T) → Attended q → Attended (wake_spuriously q)
  unfolding wake_spuriously
  wake_spuriously-Attended q v = notify_one-Attended q λ k. omega (arith, v.attended k)

module _ {ℓ} {T : Type ℓ} (eq : T → T → Bool) where
  pub push-Attended :
      (item : T) (skip : Bool) (q : SignalingQueue T) → Attended q → Attended (push eq item skip q)
  unfolding push
  push-Attended item skip q v = elim (Bool-cases (skip && ends_with eq item q.m_queue)) [
    | inl e ↦ rw e v
    | inr e ↦ rw e (
        notify_one-Attended (record q { m_queue = q.m_queue ++ item ∷ [] })
          λ k. omega (arith, v.attended k, length-append q.m_queue (item ∷ [])))
  ]

  act-Attended : (a : Action T) (q : SignalingQueue T) → Attended q → Attended (act eq a q).0
  unfolding act
  act-Attended (pushes item skip) q v = push-Attended item skip q v
  act-Attended pops q v = pop-Attended q λ k. omega (arith, v.attended k)
  act-Attended resumes q v = resume-Attended q v
  act-Attended wakes q v = wake_spuriously-Attended q v

  -- No wakeup is lost: whatever the threads do, from a queue where, if a thread sleeps, there are
  -- as many woken threads as items, the same holds after it.
  pub run-Attended :
      (as' : List (Action T)) (q : SignalingQueue T) → Attended q → Attended (run eq as' q).0
  unfolding run
  run-Attended [] q v = v
  run-Attended (a ∷ as') q v = run-Attended as' (act eq a q).0 (act-Attended a q v)
