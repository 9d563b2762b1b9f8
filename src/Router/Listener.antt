-- ===== src/Router/Listener.antt =====
-- The event loop of router/src/router.cpp, with `reset_fd_set` of router/src/tcpserver.cpp, and the
-- division of the threads in `Router::start`.
pub mod Sets
pub mod Pushing
pub mod Events
pub mod Limit
use isc_challenge_without_bo.Prelude.{
  ℕ, ◌+◌, ◌-◌, ◌/◌, ◌%◌, Bool, true, false, List, [], ◌∷◌, Option, none, some, ℤ, ◌==ℤ◌, ◌==◌, lt_ℤ,
  if◌then◌else◌,
}
use isc_challenge_without_bo.Winsock.{Os, socket_error}
use isc_challenge_without_bo.Router.SignalingQueue.{SignalingQueue, push}
use isc_challenge_without_bo.Router.Sessions
use isc_challenge_without_bo.Router.Sessions.{contains, get_accepted_sockets}
use isc_challenge_without_bo.Router.TcpServer
use isc_challenge_without_bo.Router.State.{
  State, Run, Cmd, done, pure, ◌>>=◌, ◌>>◌, update, look, system,
}

-- The readers and writers among `thread_count` worker threads.
unfoldable pub thread_roles : ℕ → ℕ × ℕ
thread_roles thread_count =
    let read_thread_count = thread_count / 2 in
    let read_thread_count' =
      if thread_count % 2 == 1 then read_thread_count + 1 else read_thread_count in
    (read_thread_count', thread_count - read_thread_count')

-- The loop over `fd_array`.
unfoldable pub push_ready : ℤ → List ℤ → SignalingQueue ℤ → SignalingQueue ℤ
push_ready server_socket [] q = q
push_ready server_socket (socket ∷ ready) q =
    push_ready server_socket ready
      (if socket ==ℤ server_socket then q else push ◌==ℤ◌ socket true q)

module _ (os : Os) where
  open os use {World, fd_set, select}

  -- The loop of `reset_fd_set`: the set and `max_sd`.
  pub add_clients : List ℤ → List ℤ → ℤ → List ℤ × ℤ
  add_clients [] fd max_sd = (fd, max_sd)
  add_clients (sd ∷ clients) fd max_sd =
      add_clients clients (fd_set sd fd) (if lt_ℤ max_sd sd then sd else max_sd)

  unfoldable pub reset_fd_set : ℤ → List ℤ → List ℤ × ℤ
  unfolding add_clients
  reset_fd_set server_socket clients_socket =
      add_clients clients_socket (fd_set server_socket []) server_socket

  abbrev pub push_events : ℤ → List ℤ → Cmd World (Unit {0})
  push_events server_socket ready st = done tt (record st {
    ready_read_sockets_queue_ = push_ready server_socket ready st.ready_read_sockets_queue_;
  })

  unfoldable pub enter_client : ℤ → List ℤ → ℤ → Cmd World (Unit {0})
  enter_client server_socket ready new_client_socket =
      if new_client_socket ==ℤ socket_error
      then pure tt
      else (do update (Sessions.accept_client new_client_socket); push_events server_socket ready)

  abbrev pub handle_events : ℤ → Option (List ℤ) → Cmd World (Unit {0})
  handle_events server_socket none = pure tt
  handle_events server_socket (some ready) =
      if contains server_socket ready
      then (do
        new_client_socket ← system (TcpServer.accept_client os server_socket)
        enter_client server_socket ready new_client_socket)
      else push_events server_socket ready

  -- One round of the event loop; `none` from `select` is an error, after which the round ends.
  unfoldable pub listen_round : ℤ → Cmd World (Unit {0})
  listen_round server_socket = do
    clients ← look get_accepted_sockets
    let (readfds, max_sd) = reset_fd_set server_socket clients
    activity ← system (select readfds)
    handle_events server_socket activity
