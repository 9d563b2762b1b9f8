-- ===== src/Router/Locks/Keeping.antt =====
-- The handlers of router/src/router.cpp, as far as the session objects go.
use isc_challenge_without_bo.Prelude.{
  ℕ, Bool, true, false, Bool-cases, inl, inr, Option, none, some, Option-cases, ℤ, pos, ◌==ℤ◌,
  if◌then◌else◌, length, set,
}
use isc_challenge_without_bo.Text.{Bytes}
use isc_challenge_without_bo.Winsock.{Os, socket_error}
use isc_challenge_without_bo.Router.Message.{
  id_message_size, data_message_size, extract_src_id, extract_dst_id,
}
use isc_challenge_without_bo.Router.Session.{get_socket, get_id, no_id}
use isc_challenge_without_bo.Router.Sessions.{find_session_by_id, add_node, remove_session}
use isc_challenge_without_bo.Router.TcpServer.{read_async, send_to_client}
use isc_challenge_without_bo.Router.State.{Task, State, Cmd, pure, query, catching, update}
use isc_challenge_without_bo.Router.Workers.{
  read, route, dispatch, register, process_message, handle_handshake, read_round, forward,
  send_task,
}
use isc_challenge_without_bo.Router.Locks.Objects.{
  Kept, Grows-same, and_then-Kept, query-Kept, catching-Kept, changed-Kept, add_node-Grown,
  remove_session-Grown,
}

module _ (os : Os) where
  read-Kept :
      (socket : ℤ) (buffer : Bytes) (len : ℕ) (st : State os.World)
      → Kept st.sessions (read os socket buffer len st)
  read-Kept socket buffer len st = elim (Option-cases (read_async os socket buffer len st.world)) [
    | inl e ↦ rw e tt
    | inr (out, e) ↦ rw e (Grows-same st.sessions)
  ]

  route-Kept :
      (bytes_read : ℤ) (buffer : Bytes) (o : Option ℕ) (st : State os.World)
      → Kept st.sessions (route os bytes_read buffer o st)
  unfolding forward
  route-Kept bytes_read buffer none st = Grows-same st.sessions
  route-Kept bytes_read buffer (some r) st = Grows-same st.sessions

  dispatch-Kept :
      (bytes_read : ℤ) (buffer : Bytes) (st : State os.World)
      → Kept st.sessions (dispatch os bytes_read buffer st)
  dispatch-Kept bytes_read buffer st =
      and_then-Kept st.sessions (catching (extract_dst_id buffer bytes_read) st) _
        (catching-Kept st (extract_dst_id buffer bytes_read))
        (λ id st'.
          and_then-Kept st'.sessions (query (find_session_by_id id) st') _
            (query-Kept st' (find_session_by_id id st'.sessions)) (route-Kept bytes_read buffer))

  register-Kept :
      (socket bytes_read : ℤ) (buffer : Bytes) (st : State os.World)
      → Kept st.sessions (register os socket bytes_read buffer st)
  register-Kept socket bytes_read buffer st =
      and_then-Kept st.sessions (catching (extract_src_id buffer bytes_read) st) _
        (catching-Kept st (extract_src_id buffer bytes_read))
        (λ id st'.
          and_then-Kept st'.sessions (update (add_node socket id) st') _
            (changed-Kept st' (add_node socket id st'.sessions)
              (add_node-Grown socket id st'.sessions))
            (λ a st''. Grows-same st''.sessions))

  whole-Kept :
      (b : Bool) (r : Cmd os.World (ℤ × Bytes)) (out : ℤ × Bytes) (st : State os.World)
      → Kept st.sessions (r st)
      → Kept st.sessions ((if b then r else pure out) st)
  whole-Kept true r out st h = h
  whole-Kept false r out st h = Grows-same st.sessions

  process_message-Kept :
      (socket : ℤ) (buffer : Bytes) (st : State os.World)
      → Kept st.sessions (process_message os socket buffer st)
  unfolding process_message
  process_message-Kept socket buffer st =
      and_then-Kept st.sessions (read os socket buffer data_message_size st) _
        (read-Kept socket buffer data_message_size st)
        (λ out st'.
          whole-Kept (out.0 ==ℤ pos data_message_size) _ out st'
            (dispatch-Kept out.0 (set out.1 data_message_size 0) st'))

  handle_handshake-Kept :
      (socket : ℤ) (buffer : Bytes) (st : State os.World)
      → Kept st.sessions (handle_handshake os socket buffer st)
  unfolding handle_handshake
  handle_handshake-Kept socket buffer st =
      and_then-Kept st.sessions (read os socket buffer id_message_size st) _
        (read-Kept socket buffer id_message_size st)
        (λ out st'.
          whole-Kept (out.0 ==ℤ pos id_message_size) _ out st'
            (register-Kept socket out.0 (set out.1 id_message_size 0) st'))

  pub read_round-Kept :
      (session : ℕ) (socket : ℤ) (buffer : Bytes) (st : State os.World)
      → Kept st.sessions (read_round os session socket buffer st)
  unfolding read_round
  read_round-Kept session socket buffer st =
      elim (Bool-cases (get_id st.sessions.store session ==ℤ no_id)) [
        | inl e ↦ rw e (handle_handshake-Kept socket buffer st)
        | inr e ↦ rw e (process_message-Kept socket buffer st)
      ]

  pub remove-Kept :
      (socket : ℤ) (st : State os.World) → Kept st.sessions (update (remove_session socket) st)
  remove-Kept socket st =
      changed-Kept st (remove_session socket st.sessions) (remove_session-Grown socket st.sessions)

  sent-Kept :
      (b b' : Bool) (r : Cmd os.World (Unit {0})) (st : State os.World)
      → Kept st.sessions (r st)
      → Kept st.sessions ((if b then pure tt else if b' then r else pure tt) st)
  sent-Kept true b' r st h = Grows-same st.sessions
  sent-Kept false true r st h = h
  sent-Kept false false r st h = Grows-same st.sessions

  pub send_task-Kept :
      (task : Task) (o : Option ℕ) (st : State os.World) → Kept st.sessions (send_task os task o st)
  send_task-Kept task none st = Grows-same st.sessions
  send_task-Kept task (some r) st =
      let (sent_byte, w) = send_to_client os task.0 task.1 st.world in
      let st' : State os.World = record st { world = w } in
      sent-Kept (sent_byte ==ℤ pos (length task.1)) (sent_byte ==ℤ socket_error) _ st'
        (remove-Kept (get_socket st.sessions.store r) st')
