-- ===== src/Router/Start.antt =====
-- `Router::start` of router/src/router.cpp: the threads, the server and the loop of the event listener.
pub mod Staff
pub mod Listening
use isc_challenge_without_bo.Prelude.{
  ℕ, zero, suc, ◌+◌, ◌-◌, List, [], ◌∷◌, ◌++◌, ℤ, negsuc, ◌==ℤ◌, if◌then◌else◌,
}
use isc_challenge_without_bo.Winsock.{Os, socket_error}
use isc_challenge_without_bo.Router.TcpServer.{start_tcp_server}
use isc_challenge_without_bo.Router.State.{State, Run, Cmd, pure, ◌>>◌, initial}
use isc_challenge_without_bo.Router.Listener.{thread_roles, listen_round}

-- A thread, by the handler that it runs and its `thread_id`.
pub data Thread : Type 0 where
  reader writer : ℕ → Thread

-- `for (int i = first; i < first + count; ++i) threads.emplace_back(handler, i)`
abbrev pub launch : (ℕ → Thread) → ℕ → ℕ → List Thread
launch handler first zero = []
launch handler first (suc count) = handler first ∷ launch handler (suc first) count

unfoldable pub start_threads : ℕ → List Thread
start_threads thread_count =
    let (read_thread_count, write_thread_count) = thread_roles thread_count in
    launch reader 0 read_thread_count ++ launch writer read_thread_count write_thread_count

-- How `start` ends, or how far it is: it returned a code; a thread that can still be joined was
-- destroyed, which ends the program by `std::terminate`; its event loop has made some rounds.
pub data Started (W : Type 0) : Type 0 where
  returned : ℤ → W → Started W
  terminated : W → Started W
  listening : List Thread → Run W (Unit {0}) → Started W

-- The end of the scope of `threads`, on a return of `code`.
abbrev pub leave : {W : Type 0} → List Thread → ℤ → W → Started W
leave [] code w = returned code w
leave (thread ∷ threads) code w = terminated w

module _ (os : Os) where
  open os use {World}

  -- The first `rounds` rounds of the loop, which does not end.
  unfoldable pub start_event_listener : ℕ → ℤ → Cmd World (Unit {0})
  start_event_listener zero server_socket = pure tt
  start_event_listener (suc rounds) server_socket =
      listen_round os server_socket >> start_event_listener rounds server_socket

  unfoldable pub start : ℕ → ℤ → ℕ → World → Started World
  unfolding start_event_listener
  start thread_count port rounds w =
      let threads = start_threads thread_count in
      let (server_socket, w) = start_tcp_server os port w in
      if server_socket ==ℤ socket_error
      then leave threads (negsuc 0) w
      else listening threads (start_event_listener rounds server_socket (initial w))
