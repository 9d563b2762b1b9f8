-- ===== src/Examples/Queues.antt =====
-- The theorems on the queue and on the event loop, applied.
use isc_challenge_without_bo.Prelude.{
  ◌≡◌, refl, Bool, true, false, [], ◌∷◌, ◌++◌, List, some, ℤ, pos, ◌==ℤ◌,
}
use isc_challenge_without_bo.IntMap.{lookup}
use isc_challenge_without_bo.Router.SignalingQueue.{
  Action, pushes, pops, resumes, wakes, run, empty_queue,
}
use isc_challenge_without_bo.Router.SignalingQueue.Order.{pushed, run-pushed}
use isc_challenge_without_bo.Router.SignalingQueue.Wakeup.{
  Attended, Attended-empty_queue, run-Attended,
}
use isc_challenge_without_bo.Router.SignalingQueue.Repeats.{}
use isc_challenge_without_bo.Router.Sessions.{find_session_by_socket}
use isc_challenge_without_bo.Router.TcpServer
use isc_challenge_without_bo.Router.TcpServer.{set_client_socket_nonblocking}
use isc_challenge_without_bo.Router.State.{State}
use isc_challenge_without_bo.Router.Listener.{listen_round}
use isc_challenge_without_bo.Router.Listener.Events.{Ends, AcceptsFresh, listen_round-Listened}
use isc_challenge_without_bo.Examples.{Net, example_os, two_nodes, two_nodes-Reachable, with_tables}

-- A thread goes to sleep, is woken by a push, and takes the item before another thread can.
abbrev schedule : Bool → List (Action ℤ)
schedule skip =
    pops
    ∷ pushes (pos 7) skip
    ∷ pushes (pos 7) skip
    ∷ pushes (pos 8) skip
    ∷ resumes
    ∷ wakes
    ∷ pops
    ∷ []

run-pushed_example :
    (run ◌==ℤ◌ (schedule false) empty_queue).1 ++ (run ◌==ℤ◌ (schedule false) empty_queue).0.m_queue
    ≡ pushed (schedule false)
run-pushed_example = run-pushed ◌==ℤ◌ (schedule false) empty_queue (refl, (refl, (refl, tt)))

run-Attended_example : Attended (run ◌==ℤ◌ (schedule true) empty_queue).0
run-Attended_example = run-Attended ◌==ℤ◌ (schedule true) empty_queue Attended-empty_queue

-- The server asks on socket 3, and the second node has sent something.
abbrev busy : State Net
busy =
    with_tables two_nodes
      (record { stream = λ s. []; ready = some (pos 3 ∷ pos 11 ∷ []); next = pos 12; sent = [] })

twelve_is_fresh : AcceptsFresh example_os (pos 3) busy
unfolding TcpServer.accept_client find_session_by_socket lookup ◌==ℤ◌
twelve_is_fresh new = refl

listen_round-Listened_example : Ends example_os (pos 3) busy (listen_round example_os (pos 3) busy)
listen_round-Listened_example =
    listen_round-Listened example_os (pos 3) busy two_nodes-Reachable twelve_is_fresh tt
      Attended-empty_queue
