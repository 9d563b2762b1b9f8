-- ===== src/Router/SignalingQueue/Repeats.antt =====
-- What `skip_if_repeated` does.
use isc_challenge_without_bo.Prelude.{
  ◌≡◌, refl, Bool, true, false, ◌&&◌, List, [], ◌∷◌, ◌++◌, ◌==◌, Bool-cases, inl, inr, ◌-◌,
}
use isc_challenge_without_bo.Router.SignalingQueue.{
  SignalingQueue, Action, pushes, pops, resumes, wakes, act, run, push, pop, pop_from, resume,
  wake_spuriously, ends_with,
}
use isc_challenge_without_bo.Router.SignalingQueue.Order.{notify_one-keeps, wake_spuriously-keeps}

module _ {ℓ} {T : Type ℓ} (eq : T → T → Bool) where
  -- No item stands directly behind its equal.
  abbrev pub NoRepeats : List T → Type 0
  NoRepeats [] = Unit
  NoRepeats (x ∷ []) = Unit
  NoRepeats (x ∷ y ∷ xs) = (eq x y ≡ false) × NoRepeats (y ∷ xs)

  -- Every push of the schedule skips a repeated item.
  abbrev pub AlwaysSkips : List (Action T) → Type 0
  AlwaysSkips [] = Unit
  AlwaysSkips (pushes item skip ∷ as') = (skip ≡ true) × AlwaysSkips as'
  AlwaysSkips (pops ∷ as') = AlwaysSkips as'
  AlwaysSkips (resumes ∷ as') = AlwaysSkips as'
  AlwaysSkips (wakes ∷ as') = AlwaysSkips as'

  NoRepeats-append :
      (xs : List T) (item : T)
      → NoRepeats xs
      → ends_with eq item xs ≡ false
      → NoRepeats (xs ++ item ∷ [])
  NoRepeats-append [] item h e = tt
  NoRepeats-append (x ∷ []) item h e = (e, tt)
  NoRepeats-append (x ∷ y ∷ xs) item h e = (h.0, NoRepeats-append (y ∷ xs) item h.1 e)

  NoRepeats-tail : (x : T) (xs : List T) → NoRepeats (x ∷ xs) → NoRepeats xs
  NoRepeats-tail x [] h = tt
  NoRepeats-tail x (y ∷ xs) h = h.1

  ends_with-append :
      (xs : List T) (item : T) → eq item item ≡ true → ends_with eq item (xs ++ item ∷ []) ≡ true
  ends_with-append [] item h = h
  ends_with-append (x ∷ []) item h = h
  ends_with-append (x ∷ y ∷ xs) item h = ends_with-append (y ∷ xs) item h

  -- After a push of either kind of an item that equals itself, the last item of the queue equals
  -- it: a push that is skipped loses no event.
  pub push-ends_with :
      (item : T) (skip : Bool) (q : SignalingQueue T)
      → eq item item ≡ true
      → ends_with eq item (push eq item skip q).m_queue ≡ true
  unfolding push
  push-ends_with item skip q h = elim (Bool-cases (skip && ends_with eq item q.m_queue)) [
    | inl e ↦ rw e (both skip e)
    | inr e ↦
        rw (e, notify_one-keeps (record q { m_queue = q.m_queue ++ item ∷ [] }))
          (ends_with-append q.m_queue item h)
  ]
    where
      both :
          (b : Bool)
          → (b && ends_with eq item q.m_queue) ≡ true
          → ends_with eq item q.m_queue ≡ true
      both true k = k
      both false k = cc

  pub push-NoRepeats :
      (item : T) {skip : Bool} (q : SignalingQueue T)
      → skip ≡ true
      → NoRepeats q.m_queue
      → NoRepeats (push eq item skip q).m_queue
  unfolding push
  push-NoRepeats item q s v = rw s (elim (Bool-cases (ends_with eq item q.m_queue)) [
    | inl e ↦ rw e v
    | inr e ↦
        rw (e, notify_one-keeps (record q { m_queue = q.m_queue ++ item ∷ [] }))
          (NoRepeats-append q.m_queue item v e)
  ])

  pop_from-NoRepeats :
      (xs : List T) (q : SignalingQueue T)
      → q.m_queue ≡ xs
      → NoRepeats xs
      → NoRepeats (pop_from xs q).0.m_queue
  unfolding pop_from
  pop_from-NoRepeats [] q e v = rw e v
  pop_from-NoRepeats (x ∷ xs) q e v = NoRepeats-tail x xs v

  pub pop-NoRepeats : (q : SignalingQueue T) → NoRepeats q.m_queue → NoRepeats (pop q).0.m_queue
  unfolding pop
  pop-NoRepeats q v = pop_from-NoRepeats q.m_queue q refl v

  pub resume-NoRepeats :
      (q : SignalingQueue T) → NoRepeats q.m_queue → NoRepeats (resume q).0.m_queue
  unfolding resume
  resume-NoRepeats q v = elim (Bool-cases (q.woken == 0)) [
    | inl e ↦ rw e v
    | inr e ↦ rw e (pop-NoRepeats (record q { woken = q.woken - 1 }) v)
  ]

  -- If every push skips repeated items and no item of the queue is directly behind its equal, the
  -- same holds whatever the threads do.
  pub run-NoRepeats :
      (as' : List (Action T)) (q : SignalingQueue T)
      → AlwaysSkips as'
      → NoRepeats q.m_queue
      → NoRepeats (run eq as' q).0.m_queue
  unfolding run act
  run-NoRepeats [] q s v = v
  run-NoRepeats (pushes item skip ∷ as') q (s, ss) v =
      run-NoRepeats as' (push eq item skip q) ss (push-NoRepeats item q s v)
  run-NoRepeats (pops ∷ as') q s v = run-NoRepeats as' (pop q).0 s (pop-NoRepeats q v)
  run-NoRepeats (resumes ∷ as') q s v = run-NoRepeats as' (resume q).0 s (resume-NoRepeats q v)
  run-NoRepeats (wakes ∷ as') q s v =
      run-NoRepeats as' (wake_spuriously q) s (rw (wake_spuriously-keeps q) v)
