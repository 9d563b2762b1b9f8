-- ===== src/Examples/Locks.antt =====
-- Two workers, the first of which reads from the connection of node 6.
use isc_challenge_without_bo.Prelude.{
  false, contains, ℕ, ◌≡◌, refl, [], ◌∷◌, pos, ◌==ℤ◌, replicate, arith,
}
use isc_challenge_without_bo.Text.{Bytes}
use isc_challenge_without_bo.IntMap.{lookup, assign}
use isc_challenge_without_bo.Router.Sessions.{
  Sessions, no_sessions, accept_client, find_session_by_socket,
}
use isc_challenge_without_bo.Router.State.{State, done, and_then}
use isc_challenge_without_bo.Router.Workers.Loops.{Handled}
use isc_challenge_without_bo.Router.Locks.{idle, read_locks, begin_reads, advance}
use isc_challenge_without_bo.Router.Locks.Holders.{HeldBy}
use isc_challenge_without_bo.Router.Locks.Turns.{
  Config, Turned, starts, steps, advances, reads, elsewhere, Turned-alone, Turned-held,
}
use isc_challenge_without_bo.Router.Session.{new_session}
use isc_challenge_without_bo.Router.Locks.Sockets.{Elsewhere, accepts, Turned-sockets}
use isc_challenge_without_bo.Router.Locks.Alone.{alone}
use isc_challenge_without_bo.Router.Locks.Handlers.{begin_reads-Handled}
use isc_challenge_without_bo.Examples.{
  Net, example_os, example_Delivers, bringing, with_tables, two_nodes, two_nodes-Reachable,
}

abbrev buffer : Bytes
buffer = replicate 40 0

abbrev quiet : State Net
quiet = with_tables two_nodes (bringing [])

abbrev reading : Config Net
reading = record {
  state = quiet;
  held = 1 ∷ [];
  workers = (read_locks (pos 11) 1, buffer) ∷ (idle, buffer) ∷ [];
}

reading-Turned : Turned example_os (λ st. st.sessions ≡ two_nodes) (λ st st'. Unit) reading
unfolding find_session_by_socket lookup ◌==ℤ◌ advance
reading-Turned =
    steps
      (steps (starts quiet ((idle, buffer) ∷ (idle, buffer) ∷ []) refl (refl, (refl, tt)))
        (reads 0 (pos 11) refl refl))
      (advances 0 refl refl)

abbrev first : ℕ
first = 0

Turned-alone_example : first ≡ first
Turned-alone_example =
    Turned-alone reading-Turned 1 first first (read_locks (pos 11) 1, buffer)
      (read_locks (pos 11) 1, buffer) refl refl refl refl

Turned-held_example : HeldBy 1 reading.workers
Turned-held_example = Turned-held reading-Turned 1 refl

-- The first connection of the router.
abbrev one_connection : Sessions
one_connection = record {
  store = new_session (pos 10) ∷ [];
  sessions_by_socket_ = (pos 10, 0) ∷ [];
  sessions_by_id_ = [];
  accepted_clients_ = pos 10 ∷ [];
  locked = false;
}

abbrev accepted : State Net
accepted = with_tables one_connection (bringing [])

abbrev reading_first : Config Net
reading_first = record {
  state = accepted;
  held = 0 ∷ [];
  workers = (read_locks (pos 10) 0, buffer) ∷ (idle, buffer) ∷ [];
}

reading_first-Turned : Turned example_os (λ st. st.sessions ≡ no_sessions) Elsewhere reading_first
unfolding find_session_by_socket accept_client contains assign lookup ◌==ℤ◌ advance
reading_first-Turned =
    steps
      (steps
        (steps
          (starts (with_tables no_sessions (bringing [])) ((idle, buffer) ∷ (idle, buffer) ∷ [])
            refl (refl, (refl, tt)))
          (elsewhere accepted
            (accepts (pos 10) accepted refl (λ r h. absurd (omega (arith, h.0))))))
        (reads 0 (pos 10) refl refl))
      (advances 0 refl refl)

Turned-sockets_example : first ≡ first
Turned-sockets_example =
    Turned-sockets reading_first-Turned (pos 10) first first (read_locks (pos 10) 0, buffer)
      (read_locks (pos 10) 0, buffer) refl refl refl refl

-- The node has sent 32 bytes.
abbrev asked : State Net
asked = with_tables two_nodes (bringing (replicate 32 48))

begin_reads-Handled_example :
    (buffer' : Bytes) × (st' : State Net) × (and_then
        (begin_reads example_os (pos 11) buffer [] asked)
        (alone example_os 43)
      ≡ done (idle, buffer', []) st')
    × Handled example_os (pos 11) buffer asked buffer' st'
begin_reads-Handled_example =
    begin_reads-Handled example_Delivers buffer asked two_nodes-Reachable 40 (pos 11) (omega arith)
      (omega arith)
