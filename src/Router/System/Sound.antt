-- ===== src/Router/System/Sound.antt =====
-- What is meant to hold between the passes of the threads.
use isc_challenge_without_bo.Prelude.{◌≡◌, ◌==ℤ◌, All}
use mathlib.Core.Path.{subst}
use isc_challenge_without_bo.Router.SignalingQueue.Repeats.{NoRepeats}
use isc_challenge_without_bo.Router.SignalingQueue.Wakeup.{Attended}
use isc_challenge_without_bo.Router.Sessions.Reachable.{Reachable}
use isc_challenge_without_bo.Router.State.{State, Run, done}
use isc_challenge_without_bo.Router.System.{}
use isc_challenge_without_bo.Router.System.Testing.{Whole}

-- The session tables are in order; no socket waits right behind itself; every message that waits to
-- be sent has 32 bytes; at either queue, if a worker sleeps, as many others are awake as items wait.
pub record Sound {W : Type 0} (st : State W) : Type 0 where
  pub tables : Reachable st.sessions
  pub repeats : NoRepeats ◌==ℤ◌ st.ready_read_sockets_queue_.m_queue
  pub tasks : All Whole st.ready_write_sockets_queue_.m_queue
  pub readers : Attended st.ready_read_sockets_queue_
  pub writers : Attended st.ready_write_sockets_queue_

-- A run that ends, in a state that is sound.
pub record Finishes {W A : Type 0} (r : Run W A) : Type 0 where
  pub result : A
  pub after : State W
  pub returned : r ≡ done result after
  pub sound : Sound after

pub Finishes-done :
    {W A : Type 0} {r : Run W A} {a : A} {st' : State W} → Finishes r → r ≡ done a st' → Sound st'
Finishes-done {st'} f e = subst Sound same f.sound
  where
    same : f.after ≡ st'
    same = cc (f.returned)
