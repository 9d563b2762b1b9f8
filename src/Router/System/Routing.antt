-- ===== src/Router/System/Routing.antt =====
-- A message from the connection that brings it to the `send` that it is handed to.
use isc_challenge_without_bo.Prelude.{
  ◌<◌, ◌≡◌, refl, sym, ap, ◌∙◌, inl, inr, false, List, [], ◌∷◌, ◌++◌, some, ℕ, ℤ, pos, length,
}
use mathlib.Core.Path.{subst}
use isc_challenge_without_bo.Text.{Bytes}
use isc_challenge_without_bo.Winsock.{Os, Delivers}
use isc_challenge_without_bo.Node.Message.Layout.{layout}
use isc_challenge_without_bo.Router.Session.{get_socket}
use isc_challenge_without_bo.Router.Sessions.{find_session_by_id, find_session_by_socket}
use isc_challenge_without_bo.Router.Sessions.Reachable.{Reachable}
use isc_challenge_without_bo.Router.Sessions.Effects.{find_session_by_id-live}
use isc_challenge_without_bo.Router.SignalingQueue.{SignalingQueue}
use isc_challenge_without_bo.Router.SignalingQueue.Order.{pop-first}
use isc_challenge_without_bo.Router.State.{Task, State, done}
use isc_challenge_without_bo.Router.Workers.{process_message}
use isc_challenge_without_bo.Router.Workers.Delivery.{process_message-delivers}
use isc_challenge_without_bo.Router.Workers.Writes.{Written, do_writes-Written}
use isc_challenge_without_bo.Router.System.{test, write_taken, worker_thread_write_handler}

module _ (os : Os) (st : State os.World) where
  -- What a writer leaves: it has made one call of `send`, and the tasks behind the first one wait.
  pub record Handed (socket : ℤ) (msg : Bytes) (rest : List Task) (st' : State os.World)
      : Type 0 where
    pub world : st'.world ≡ (os.send socket msg st.world).1
    pub left : st'.ready_write_sockets_queue_.m_queue ≡ rest

  module _ (socket : ℤ) (msg : Bytes) (rest : List Task) (session : ℕ)
      (reached : Reachable st.sessions)
      (live : find_session_by_socket socket st.sessions ≡ some (some session)) where
    Written-Handed :
        (q : SignalingQueue Task) (st' : State os.World)
        → q.m_queue ≡ rest
        → Written os socket msg (record st { ready_write_sockets_queue_ = q }) st'
        → Handed socket msg rest st'
    Written-Handed q st' e w = elim w.effect [
      | inl absent ↦ absurd (cc (absent.missing, live))
      | inr (inl sent) ↦ record {
        world = ap (λ s. s.world) sent.same;
        left = ap (λ s. s.ready_write_sockets_queue_.m_queue) sent.same ∙ e;
      }
      | inr (inr broken) ↦ record {
        world = broken.world;
        left = ap (λ q. q.m_queue) broken.writes ∙ e;
      }
    ]

    -- On a state that the router can reach, a writer that finds tasks takes the first one and, if
    -- its socket has a session, hands the message to `send`, once and for that socket; the other
    -- tasks wait on.
    pub worker_thread_write_handler-sends :
        st.ready_write_sockets_queue_.m_queue ≡ (socket, msg) ∷ rest
        → (st' : State os.World) × (worker_thread_write_handler os false st ≡ done tt st')
          × Handed socket msg rest st'
    unfolding worker_thread_write_handler test
    worker_thread_write_handler-sends e =
        let q : SignalingQueue Task = record st.ready_write_sockets_queue_ { m_queue = rest } in
        let before : State os.World = record st { ready_write_sockets_queue_ = q } in
        let (st', returned, w) = do_writes-Written os socket msg before reached in
        (
          st',
          ap (λ t. write_taken os t st)
                (pop-first (socket, msg) rest st.ready_write_sockets_queue_ e)
              ∙ returned,
          Written-Handed q st' refl w,
        )

module _ {os : Os} (d : Delivers os) (socket : ℤ) (buffer : Bytes) (st : State os.World) where
  -- With `recv` and `send` as documented, on a state that the router can reach where no task
  -- waits: when `process_message` has read the 32 bytes of a message in the layout of the nodes,
  -- with its numbers in range, for a node that is registered, then the next pass of a writer
  -- returns and hands just these bytes to `send`, once, for the socket of that node.
  pub process_message-routes :
      (src mti dst session : ℕ) (trace pan rest buffer' : Bytes) (st' : State os.World)
      → src < 1000
      → mti < 10000
      → dst < 1000
      → length trace ≡ 6
      → length pan ≡ 16
      → Reachable st.sessions
      → 32 < length buffer
      → d.incoming st.world socket ≡ layout src mti trace pan dst ++ rest
      → find_session_by_id (pos dst) st.sessions ≡ some (some session)
      → st.ready_write_sockets_queue_.m_queue ≡ []
      → process_message os socket buffer st ≡ done (pos 32, buffer') st'
      → (st'' : State os.World) × (worker_thread_write_handler os false st' ≡ done tt st'')
        × Handed os st'
            (get_socket st.sessions.store session)
            (layout src mti trace pan dst)
            []
            st''
  process_message-routes src mti dst session trace pan rest buffer' st' hs hm hd lt lp reached room
        arrives known idle returned =
      let (queued, left, same) =
        process_message-delivers d socket buffer st src mti dst session trace pan rest buffer' st'
          hs hm hd lt lp reached room arrives known returned in
      let (named, live) = find_session_by_id-live reached (pos dst) session (λ e. cc (e)) known in
      worker_thread_write_handler-sends os st' (get_socket st.sessions.store session)
        (layout src mti trace pan dst) [] session (subst Reachable (sym same) reached)
        (ap (find_session_by_socket (get_socket st.sessions.store session)) same ∙ live)
        (queued
          ∙ ap
              (λ xs.
                xs ++ (get_socket st.sessions.store session, layout src mti trace pan dst) ∷ [])
              idle)
