-- ===== src/Router/SignalingQueue/Order.antt =====
-- What goes in comes out, in order.
use isc_challenge_without_bo.Prelude.{
  ◌-◌, ◌≡◌, refl, sym, ap, ◌∙◌, Bool, false, List, [], ◌∷◌, ◌++◌, append-nil, append_assoc, arith,
}
use isc_challenge_without_bo.Router.SignalingQueue.{
  SignalingQueue, Action, pushes, pops, resumes, wakes, act, run, push, pop, pop_from, resume,
  wake_spuriously, notify_one,
}

module _ {ℓ} {T : Type ℓ} where
  pub notify_one-keeps : (q : SignalingQueue T) → (notify_one q).m_queue ≡ q.m_queue
  unfolding notify_one
  notify_one-keeps q = ground arith

  pop_from-splits :
      (xs : List T) (q : SignalingQueue T)
      → q.m_queue ≡ xs
      → (pop_from xs q).1 ++ (pop_from xs q).0.m_queue ≡ q.m_queue
  unfolding pop_from
  pop_from-splits [] q h = refl
  pop_from-splits (x ∷ xs) q h = sym h

  pub pop-splits : (q : SignalingQueue T) → (pop q).1 ++ (pop q).0.m_queue ≡ q.m_queue
  unfolding pop
  pop-splits q = pop_from-splits q.m_queue q refl

  pub pop-first :
      (x : T) (xs : List T) (q : SignalingQueue T)
      → q.m_queue ≡ x ∷ xs
      → pop q ≡ (record q { m_queue = xs }, x ∷ [])
  unfolding pop pop_from
  pop-first x xs q e = ap (λ ys. pop_from ys q) e

  pub resume-splits : (q : SignalingQueue T) → (resume q).1 ++ (resume q).0.m_queue ≡ q.m_queue
  unfolding resume
  resume-splits q = ground (arith, pop-splits (record q { woken = q.woken - 1 }))

  pub wake_spuriously-keeps : (q : SignalingQueue T) → (wake_spuriously q).m_queue ≡ q.m_queue
  unfolding wake_spuriously
  wake_spuriously-keeps q = notify_one-keeps q

  -- The items of the pushes, in the order of the schedule.
  pub pushed : List (Action T) → List T
  pushed [] = []
  pushed (pushes item skip ∷ as') = item ∷ pushed as'
  pushed (pops ∷ as') = pushed as'
  pushed (resumes ∷ as') = pushed as'
  pushed (wakes ∷ as') = pushed as'

  -- No push of the schedule skips a repeated item.
  abbrev pub NeverSkips : List (Action T) → Type 0
  NeverSkips [] = Unit
  NeverSkips (pushes item skip ∷ as') = (skip ≡ false) × NeverSkips as'
  NeverSkips (pops ∷ as') = NeverSkips as'
  NeverSkips (resumes ∷ as') = NeverSkips as'
  NeverSkips (wakes ∷ as') = NeverSkips as'

module _ {ℓ} {T : Type ℓ} (eq : T → T → Bool) where
  pub push-append :
      (item : T) {skip : Bool} (q : SignalingQueue T)
      → skip ≡ false
      → (push eq item skip q).m_queue ≡ q.m_queue ++ item ∷ []
  unfolding push
  push-append item q h = rw h (notify_one-keeps (record q { m_queue = q.m_queue ++ item ∷ [] }))

  -- One action that hands out `out`, and the rest of the schedule.
  deliver :
      (out rest left before after ps : List T)
      → out ++ after ≡ before
      → rest ++ left ≡ after ++ ps
      → (out ++ rest) ++ left ≡ before ++ ps
  deliver out rest left before after ps h k =
      append_assoc out rest left
      ∙ ap (◌++◌ out) k
      ∙ sym (append_assoc out after ps)
      ∙ ap (λ t. t ++ ps) h

  -- If no push skips repeated items, then whatever the threads do and in whatever order, what was
  -- handed out and what is left are together what was there and what was pushed, in that order: no
  -- item is lost, doubled or overtaken.
  pub run-pushed :
      (as' : List (Action T)) (q : SignalingQueue T)
      → NeverSkips as'
      → (run eq as' q).1 ++ (run eq as' q).0.m_queue ≡ q.m_queue ++ pushed as'
  unfolding run act pushed
  run-pushed [] q h = sym (append-nil q.m_queue)
  run-pushed (pushes item skip ∷ as') q (h, hs) =
      run-pushed as' (push eq item skip q) hs
      ∙ ap (λ t. t ++ pushed as') (push-append item q h)
      ∙ append_assoc q.m_queue (item ∷ []) (pushed as')
  run-pushed (pops ∷ as') q h =
      deliver (pop q).1 _ _ _ _ (pushed as') (pop-splits q) (run-pushed as' (pop q).0 h)
  run-pushed (resumes ∷ as') q h =
      deliver (resume q).1 _ _ _ _ (pushed as') (resume-splits q) (run-pushed as' (resume q).0 h)
  run-pushed (wakes ∷ as') q h =
      run-pushed as' (wake_spuriously q) h ∙ ap (λ t. t ++ pushed as') (wake_spuriously-keeps q)
