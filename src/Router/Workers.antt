-- ===== src/Router/Workers.antt =====
-- The read and write workers of router/src/router.cpp. The mutex of a session keeps two workers from one
-- socket, so each handler is one sequence of commands.
pub mod Buffer
pub mod Taking
pub mod Messages
pub mod Handshakes
pub mod Blocks
pub mod Queueing
pub mod Rounds
pub mod Reads
pub mod Loops
pub mod Writes
pub mod Delivery
use isc_challenge_without_bo.Prelude.{
  ℕ, zero, suc, Bool, false, Option, none, some, ℤ, pos, negsuc, ◌==ℤ◌, if◌then◌else◌, ltb, length,
  take, set,
}
use isc_challenge_without_bo.Text.{Bytes}
use isc_challenge_without_bo.Winsock.{Os, socket_error}
use isc_challenge_without_bo.Router.Message.{
  id_message_size, data_message_size, extract_src_id, extract_dst_id,
}
use isc_challenge_without_bo.Router.SignalingQueue.{push}
use isc_challenge_without_bo.Router.Session.{no_id, get_id, get_socket}
use isc_challenge_without_bo.Router.Sessions.{
  find_session_by_socket, find_session_by_id, add_node, remove_session,
}
use isc_challenge_without_bo.Router.TcpServer.{read_async, send_to_client}
use isc_challenge_without_bo.Router.State.{
  Task, task_eq, State, Run, Cmd, done, fault, out_of_fuel, pure, ◌>>=◌, ◌>>◌, and_then, query,
  catching, update, look, system,
}

-- `bytes_read > 0`
abbrev pub is_positive : ℤ → Bool
is_positive (pos n) = ltb 0 n
is_positive (negsuc n) = false

module _ (os : Os) where
  open os use {World}

  -- `bytes_read` and the buffer after a call of `read_async`
  abbrev pub read_result : State World → Option (ℤ × Bytes × World) → Run World (ℤ × Bytes)
  read_result st none = fault out_of_fuel
  read_result st (some (n, buffer, w)) = done (n, buffer) (record st { world = w })

  abbrev pub read : ℤ → Bytes → ℕ → Cmd World (ℤ × Bytes)
  read socket buffer len st = read_result st (read_async os socket buffer len st.world)

  unfoldable pub forward : ℕ → Bytes → Cmd World (Unit {0})
  forward dst_session msg st = done tt (record st {
    ready_write_sockets_queue_ =
        push task_eq (get_socket st.sessions.store dst_session, msg) false
          st.ready_write_sockets_queue_;
  })

  abbrev pub route : ℤ → Bytes → Option ℕ → Cmd World (ℤ × Bytes)
  route bytes_read buffer none = pure (pos 0, buffer)
  route bytes_read buffer (some dst_session) = do
    forward dst_session (take data_message_size buffer)
    pure (bytes_read, buffer)

  -- The message of 32 bytes at the start of a terminated buffer.
  abbrev pub dispatch : ℤ → Bytes → Cmd World (ℤ × Bytes)
  dispatch bytes_read buffer = do
    dst_id ← catching (extract_dst_id buffer bytes_read)
    dst_session ← query (find_session_by_id dst_id)
    route bytes_read buffer dst_session

  -- The id message of 3 bytes at the start of a terminated buffer.
  abbrev pub register : ℤ → ℤ → Bytes → Cmd World (ℤ × Bytes)
  register ready_read_socket bytes_read buffer = do
    src_id ← catching (extract_src_id buffer bytes_read)
    update (add_node ready_read_socket src_id)
    pure (bytes_read, buffer)

  unfoldable pub process_message : ℤ → Bytes → Cmd World (ℤ × Bytes)
  process_message ready_read_socket recv_buffer = do
    (bytes_read, buffer) ← read ready_read_socket recv_buffer data_message_size
    if bytes_read ==ℤ pos data_message_size
        then dispatch bytes_read (set buffer data_message_size 0)
        else pure (bytes_read, buffer)

  unfoldable pub handle_handshake : ℤ → Bytes → Cmd World (ℤ × Bytes)
  handle_handshake ready_read_socket recv_buffer = do
    (bytes_read, buffer) ← read ready_read_socket recv_buffer id_message_size
    if bytes_read ==ℤ pos id_message_size
        then register ready_read_socket bytes_read (set buffer id_message_size 0)
        else pure (bytes_read, buffer)

  -- One round of the loop of `do_reads`: the session is looked at anew.
  unfoldable pub read_round : ℕ → ℤ → Bytes → Cmd World (ℤ × Bytes)
  unfolding process_message handle_handshake
  read_round src_session ready_read_socket recv_buffer = do
    session_id ← look (λ s. get_id s.store src_session)
    if session_id ==ℤ no_id
        then handle_handshake ready_read_socket recv_buffer
        else process_message ready_read_socket recv_buffer

  -- The loop of `do_reads`, on fuel.
  unfoldable pub read_rounds : ℕ → ℕ → ℤ → Bytes → Cmd World (ℤ × Bytes)
  read_rounds zero src_session ready_read_socket recv_buffer st = fault out_of_fuel
  read_rounds (suc fuel) src_session ready_read_socket recv_buffer st =
      and_then (read_round src_session ready_read_socket recv_buffer st) λ (bytes_read, buffer) st'.
        let rest = read_rounds fuel src_session ready_read_socket buffer st' in
        if is_positive bytes_read then rest else done (bytes_read, buffer) st'

  -- `do_reads` behind its second lookup; the buffer is the worker's own and stays with it.
  abbrev pub serve : ℕ → ℤ → Bytes → Option ℕ → Cmd World Bytes
  serve fuel ready_read_socket recv_buffer none = pure recv_buffer
  serve fuel ready_read_socket recv_buffer (some src_session) = do
    (bytes_read, buffer) ← read_rounds fuel src_session ready_read_socket recv_buffer
    if bytes_read ==ℤ socket_error
        then (do update (remove_session ready_read_socket); pure buffer)
        else pure buffer

  abbrev pub lock_and_serve : ℕ → ℤ → Bytes → Option ℕ → Cmd World Bytes
  lock_and_serve fuel ready_read_socket recv_buffer none = pure recv_buffer
  lock_and_serve fuel ready_read_socket recv_buffer (some _) = do
    src_session ← query (find_session_by_socket ready_read_socket)
    serve fuel ready_read_socket recv_buffer src_session

  unfoldable pub do_reads : ℕ → ℤ → Bytes → Cmd World Bytes
  unfolding read_rounds read_round
  do_reads fuel ready_read_socket recv_buffer = do
    src_session ← query (find_session_by_socket ready_read_socket)
    lock_and_serve fuel ready_read_socket recv_buffer src_session

  abbrev pub send_task : Task → Option ℕ → Cmd World (Unit {0})
  send_task task none = pure tt
  send_task (dst_socket, msg) (some dst_session) = do
    sent_byte ← system (send_to_client os dst_socket msg)
    if sent_byte ==ℤ pos (length msg)
        then pure tt
        else if sent_byte ==ℤ socket_error
        then (do
          socket ← look (λ s. get_socket s.store dst_session)
          update (remove_session socket))
        else pure tt

  unfoldable pub do_writes : Task → Cmd World (Unit {0})
  do_writes (dst_socket, msg) = do
    dst_session ← query (find_session_by_socket dst_socket)
    send_task (dst_socket, msg) dst_session
