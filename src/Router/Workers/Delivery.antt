-- ===== src/Router/Workers/Delivery.antt =====
-- From the node that writes a message to the queue of the session that it is for.
use isc_challenge_without_bo.Prelude.{
  ==ℤ_refl, ℕ, ◌<◌, ◌≡◌, refl, sym, ap, ◌∙◌, inl, inr, [], ◌∷◌, ◌++◌, some, ok, ℤ, pos, length,
  arith,
}
use isc_challenge_without_bo.Text.{Bytes}
use isc_challenge_without_bo.Text.Buffer.{prefix_of}
use isc_challenge_without_bo.Text.Decimal.{set_width}
use isc_challenge_without_bo.Text.Decimal.RoundTrip.{length-set_width}
use isc_challenge_without_bo.Winsock.{Os, Delivers}
use isc_challenge_without_bo.Node.Message.{build_id_message}
use isc_challenge_without_bo.Node.Message.Layout.{layout, length-layout}
use isc_challenge_without_bo.Router.Message.{extract_dst_id, extract_src_id}
use isc_challenge_without_bo.Router.Message.Wire.{
  extract_dst_id-layout, extract_src_id-build_id_message,
}
use isc_challenge_without_bo.Router.SignalingQueue.Order.{push-append}
use isc_challenge_without_bo.Router.Session.{get_id, get_socket, no_id}
use isc_challenge_without_bo.Router.Sessions.{
  add_node, find_session_by_id, find_session_by_socket, max_clients_count,
}
use isc_challenge_without_bo.Router.Sessions.Reachable.{Reachable, Reachable-Inv}
use isc_challenge_without_bo.Router.Sessions.Effects.{add_node-finds}
use isc_challenge_without_bo.Router.State.{task_eq, State, done}
use isc_challenge_without_bo.Router.Workers.{process_message, handle_handshake}
use isc_challenge_without_bo.Router.Workers.Messages.{Processed, process_message-Processed}
use isc_challenge_without_bo.Router.Workers.Handshakes.{Shaken, handle_handshake-Shaken}

module _ {os : Os} (d : Delivers os) (socket : ℤ) (buffer : Bytes) (st : State os.World) where
  open d use {incoming}

  -- A queue with one task more, and the rest of the connection.
  record Queued (session : ℕ) (msg rest : Bytes) (st' : State os.World) : Type 0 where
    queued :
        st'.ready_write_sockets_queue_.m_queue
        ≡ st.ready_write_sockets_queue_.m_queue ++ (get_socket st.sessions.store session, msg) ∷ []
    left : incoming st'.world socket ≡ rest

  Processed-Queued :
      (dst session : ℕ) (msg rest : Bytes) (out : ℤ × Bytes) (st' : State os.World)
      → Processed d socket buffer st out st'
      → out.0 ≡ pos 32
      → length msg ≡ 32
      → extract_dst_id (msg ++ 0 ∷ []) (pos 32) ≡ ok (pos dst)
      → incoming st.world socket ≡ msg ++ rest
      → find_session_by_id (pos dst) st.sessions ≡ some (some session)
      → Queued session msg rest st'
  Processed-Queued dst session msg rest out st' p full l addressed arrives known = elim p.effect [
    | inl sent ↦
        let (same, left) =
          prefix_of p.bytes (incoming st'.world socket) msg rest (sym p.takes.stream ∙ arrives)
            (sent.whole ∙ sym l) in
        let id : sent.id ≡ pos dst =
          cc (sent.addressed, addressed, ap (λ b. extract_dst_id (b ++ 0 ∷ []) (pos 32)) same) in
        let found : sent.session ≡ session =
          cc (sent.known, known, ap (λ j. find_session_by_id j st.sessions) id) in
        record {
          queued =
              ap (λ q. q.m_queue) sent.queued
              ∙ push-append task_eq _ st.ready_write_sockets_queue_ refl
              ∙ ap
                  (λ r.
                    st.ready_write_sockets_queue_.m_queue
                    ++ (get_socket st.sessions.store r, p.bytes) ∷ [])
                  found
              ∙ ap
                  (λ b.
                    st.ready_write_sockets_queue_.m_queue
                    ++ (get_socket st.sessions.store session, b) ∷ [])
                  same;
          left = left;
        }
    | inr (inl unknown) ↦ absurd (ground (arith, unknown.counted, full))
    | inr (inr dropped) ↦ absurd (ground (arith, dropped.counted, full))
  ]

  -- With `recv` and `send` as documented, on a state that the router can reach: a whole message in
  -- the layout of the nodes, with its numbers in range, for a node that is registered, once
  -- `process_message` has read its 32 bytes, is queued byte for byte for the socket of that node,
  -- and the rest of the connection is still to be read.
  pub process_message-delivers :
      (src mti dst session : ℕ) (trace pan rest buffer' : Bytes) (st' : State os.World)
      → src < 1000
      → mti < 10000
      → dst < 1000
      → length trace ≡ 6
      → length pan ≡ 16
      → Reachable st.sessions
      → 32 < length buffer
      → incoming st.world socket ≡ layout src mti trace pan dst ++ rest
      → find_session_by_id (pos dst) st.sessions ≡ some (some session)
      → process_message os socket buffer st ≡ done (pos 32, buffer') st'
      → (st'.ready_write_sockets_queue_.m_queue
          ≡ st.ready_write_sockets_queue_.m_queue
            ++ (get_socket st.sessions.store session, layout src mti trace pan dst) ∷ [])
        × (incoming st'.world socket ≡ rest)
        × (st'.sessions ≡ st.sessions)
  process_message-delivers src mti dst session trace pan rest buffer' st' hs hm hd lt lp reached
        room arrives known returned =
      let (out, st'', e, p) =
        process_message-Processed d socket buffer st (Reachable-Inv reached).1 room in
      let q =
        Processed-Queued dst session (layout src mti trace pan dst) rest out st'' p
          (cc (e, returned)) (length-layout src mti dst trace pan hs hm hd lt lp)
          (extract_dst_id-layout src mti dst trace pan [] hs hm hd lt lp) arrives known in
      let same : st'' ≡ st' = cc (e, returned) in
      (
        ap (λ s. s.ready_write_sockets_queue_.m_queue) (sym same) ∙ q.queued,
        ap (λ s. incoming s.world socket) (sym same) ∙ q.left,
        ap (λ s. s.sessions) (sym same) ∙ p.tables,
      )

  Shaken-registered :
      (id session : ℕ) (rest : Bytes) (out : ℤ × Bytes) (st' : State os.World)
      → Shaken d socket buffer st out st'
      → out.0 ≡ pos 3
      → id < max_clients_count
      → Reachable st.sessions
      → incoming st.world socket ≡ build_id_message (pos id) ++ rest
      → find_session_by_socket socket st.sessions ≡ some (some session)
      → (find_session_by_id (pos id) st'.sessions ≡ some (some session))
        × (incoming st'.world socket ≡ rest)
  unfolding build_id_message
  Shaken-registered id session rest out st' p full small reached arrives held = elim p.effect [
    | inl greeted ↦
        let (same, left) =
          prefix_of p.bytes (incoming st'.world socket) (set_width 3 (pos id)) rest
            (sym p.takes.stream ∙ arrives)
            (greeted.whole ∙ sym (length-set_width 3 id (omega arith) (omega arith))) in
        let named : greeted.id ≡ pos id = cc (
          greeted.named,
          extract_src_id-build_id_message id [] (omega arith),
          ap (λ b. extract_src_id (b ++ 0 ∷ []) (pos 3)) same,
        ) in
        let (t, added, has, ids, sockets) =
          add_node-finds reached socket (pos id) session held (ground arith) in
        let after : t ≡ st'.sessions =
          cc (added, greeted.added, ap (λ j. add_node socket j st.sessions) named) in
        (
          ap (λ s. find_session_by_id (pos id) s) (sym after)
              ∙ ids (pos id)
              ∙ rw (==ℤ_refl (pos id)),
          left,
        )
    | inr dropped ↦ absurd (ground (arith, dropped.dropped.counted, full))
  ]

  -- With `recv` and `send` as documented, on a state that the router can reach: the id message of
  -- a node with an id below 999, once `handle_handshake` has read its 3 bytes from a socket whose
  -- session has no id, registers that session under the id, and the rest of the connection is
  -- still to be read.
  pub handle_handshake-registers :
      (id session : ℕ) (rest buffer' : Bytes) (st' : State os.World)
      → id < max_clients_count
      → Reachable st.sessions
      → 3 < length buffer
      → incoming st.world socket ≡ build_id_message (pos id) ++ rest
      → find_session_by_socket socket st.sessions ≡ some (some session)
      → get_id st.sessions.store session ≡ no_id
      → handle_handshake os socket buffer st ≡ done (pos 3, buffer') st'
      → (find_session_by_id (pos id) st'.sessions ≡ some (some session))
        × (incoming st'.world socket ≡ rest)
  unfolding find_session_by_socket
  handle_handshake-registers id session rest buffer' st' small reached room arrives held anonymous
        returned =
      let free = (Reachable-Inv reached).1 in
      let (out, st'', e, p) =
        handle_handshake-Shaken d socket buffer st reached
          (λ i r here. ground (arith, free, held, anonymous)) room in
      let (found, left) =
        Shaken-registered id session rest out st'' p (cc (e, returned)) small reached arrives
          held in
      let same : st'' ≡ st' = cc (e, returned) in
      (
        ap (λ s. find_session_by_id (pos id) s.sessions) (sym same) ∙ found,
        ap (λ s. incoming s.world socket) (sym same) ∙ left,
      )
