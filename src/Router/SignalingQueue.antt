-- ===== src/Router/SignalingQueue.antt =====
-- The class template `SignalingQueue` of router/include/signaling_queue.h, with the threads that
-- wait on its condition variable. A push and each pass of `pop` under the mutex are one action.
pub mod Order
pub mod Wakeup
pub mod Repeats
use isc_challenge_without_bo.Prelude.{
  ℕ, ◌+◌, ◌-◌, Bool, true, false, ◌&&◌, List, [], ◌∷◌, ◌++◌, Option, none, some, ◌==◌,
  if◌then◌else◌,
}

-- `sleepers` wait for a notification; `woken` have left the wait and not yet locked the mutex.
pub record SignalingQueue {ℓ} (T : Type ℓ) : Type ℓ where
  pub m_queue : List T
  pub sleepers : ℕ
  pub woken : ℕ

module _ {ℓ} {T : Type ℓ} where
  abbrev pub empty_queue : SignalingQueue T
  empty_queue = record { m_queue = []; sleepers = 0; woken = 0 }

  -- `m_queue.size() > 0 && m_queue.back() == item`
  abbrev pub ends_with : (T → T → Bool) → T → List T → Bool
  ends_with eq item [] = false
  ends_with eq item (x ∷ []) = eq x item
  ends_with eq item (x ∷ y ∷ xs) = ends_with eq item (y ∷ xs)

  pub notify_one : SignalingQueue T → SignalingQueue T
  notify_one q =
      if q.sleepers == 0 then q else record q { sleepers = q.sleepers - 1; woken = q.woken + 1 }

  unfoldable pub push : (T → T → Bool) → T → Bool → SignalingQueue T → SignalingQueue T
  unfolding notify_one
  push eq item skip_if_repeated q =
      if skip_if_repeated && ends_with eq item q.m_queue
      then q
      else notify_one (record q { m_queue = q.m_queue ++ item ∷ [] })

  -- `pop` with the mutex held: the caller goes to sleep, or takes the front.
  pub pop_from : List T → SignalingQueue T → SignalingQueue T × List T
  pop_from [] q = (record q { sleepers = q.sleepers + 1 }, [])
  pop_from (item ∷ rest) q = (record q { m_queue = rest }, item ∷ [])

  unfoldable pub pop : SignalingQueue T → SignalingQueue T × List T
  unfolding pop_from
  pop q = pop_from q.m_queue q

  -- A woken thread locks the mutex again and tests once more.
  unfoldable pub resume : SignalingQueue T → SignalingQueue T × List T
  unfolding pop
  resume q = if q.woken == 0 then (q, []) else pop (record q { woken = q.woken - 1 })

  -- A wait may end with no notification.
  pub wake_spuriously : SignalingQueue T → SignalingQueue T
  unfolding notify_one
  wake_spuriously q = notify_one q

-- What a thread may do next.
pub data Action {ℓ} (T : Type ℓ) : Type ℓ where
  pushes : T → Bool → Action T
  pops : Action T
  resumes : Action T
  wakes : Action T

module _ {ℓ} {T : Type ℓ} (eq : T → T → Bool) where
  -- The queue after an action, and what the action handed out.
  pub act : Action T → SignalingQueue T → SignalingQueue T × List T
  unfolding push pop resume wake_spuriously
  act (pushes item skip) q = (push eq item skip q, [])
  act pops q = pop q
  act resumes q = resume q
  act wakes q = (wake_spuriously q, [])

  -- A schedule: the queue at its end, and all that was handed out, in order.
  pub run : List (Action T) → SignalingQueue T → SignalingQueue T × List T
  run [] q = (q, [])
  run (a ∷ as') q = let (q', out) = act a q in let (q'', out') = run as' q' in (q'', out ++ out')
