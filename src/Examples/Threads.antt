-- ===== src/Examples/Threads.antt =====
-- A run of the router's threads: the loop accepts a connection on socket 12 and sees it bring the id of
-- node 6, and a reader reads it.
use isc_challenge_without_bo.Prelude.{
  ◌<◌, refl, false, [], ◌∷◌, some, ℤ, pos, ◌==ℤ◌, length, replicate, arith,
}
use isc_challenge_without_bo.Text.{Bytes}
use isc_challenge_without_bo.Text.Decimal.{set_width, decimal, digits}
use isc_challenge_without_bo.IntMap.{lookup, assign}
use isc_challenge_without_bo.Node.Message.{build_id_message}
use isc_challenge_without_bo.Router.SignalingQueue.{push}
use isc_challenge_without_bo.Router.Sessions
use isc_challenge_without_bo.Router.Sessions.{
  contains, get_accepted_sockets, find_session_by_socket, add_node,
}
use isc_challenge_without_bo.Router.TcpServer
use isc_challenge_without_bo.Router.TcpServer.{read_async}
use isc_challenge_without_bo.Router.State.{State, initial}
use isc_challenge_without_bo.Router.Listener.{listen_round, enter_client, push_ready, reset_fd_set}
use isc_challenge_without_bo.Router.System.{
  worker_thread_read_handler, worker_thread_write_handler, listens, elapses, Reached, starts, steps,
}
use isc_challenge_without_bo.Router.System.Sound.{Sound, Finishes}
use isc_challenge_without_bo.Router.System.Soundness.{
  Reached-Sound, worker_thread_read_handler-Finishes, worker_thread_write_handler-Finishes,
}
use isc_challenge_without_bo.Examples.{Net, example_os, example_Delivers, state_after}

abbrev id_of_six : Bytes
id_of_six = build_id_message (pos 6)

abbrev asking : Net
asking = record { stream = λ s. id_of_six; ready = some (pos 3 ∷ []); next = pos 12; sent = [] }

abbrev speaking : Net
speaking = record { stream = λ s. id_of_six; ready = some (pos 12 ∷ []); next = pos 13; sent = [] }

abbrev empty : State Net
empty = initial asking

abbrev accepted : State Net
accepted = record (state_after (listen_round example_os (pos 3) empty) empty) { world = speaking }

abbrev waiting : State Net
waiting = state_after (listen_round example_os (pos 3) accepted) accepted

accepted-Reached : Reached example_Delivers (pos 3) accepted
unfolding initial listen_round enter_client push_ready reset_fd_set Sessions.accept_client
    TcpServer.accept_client find_session_by_socket contains get_accepted_sockets lookup assign push
    ◌==ℤ◌
accepted-Reached = steps (steps (starts asking) (listens (λ new. refl) refl)) (elapses speaking)

waiting-Reached : Reached example_Delivers (pos 3) waiting
unfolding initial listen_round enter_client push_ready reset_fd_set Sessions.accept_client
    TcpServer.accept_client find_session_by_socket contains get_accepted_sockets lookup assign push
    ◌==ℤ◌
waiting-Reached = steps accepted-Reached (listens (λ new. refl) refl)

Reached-Sound_example : Sound waiting
Reached-Sound_example = Reached-Sound example_Delivers (pos 3) waiting-Reached

little_left : (s : ℤ) → length (waiting.world.stream s) < 10
unfolding initial listen_round enter_client push_ready reset_fd_set Sessions.accept_client
    TcpServer.accept_client contains get_accepted_sockets lookup assign push ◌==ℤ◌ build_id_message
    set_width decimal digits
little_left s = omega arith

worker_thread_read_handler-Finishes_example :
    Finishes (worker_thread_read_handler example_os false 10 (replicate 40 0) waiting)
worker_thread_read_handler-Finishes_example =
    worker_thread_read_handler-Finishes example_os Reached-Sound_example example_Delivers false 10
      (replicate 40 0) (omega arith) little_left

worker_thread_write_handler-Finishes_example :
    Finishes (worker_thread_write_handler example_os false waiting)
worker_thread_write_handler-Finishes_example =
    worker_thread_write_handler-Finishes example_os Reached-Sound_example false
