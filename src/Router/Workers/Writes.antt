-- ===== src/Router/Workers/Writes.antt =====
-- What `do_writes` does.
use isc_challenge_without_bo.Prelude.{
  ◌≡◌, ◌≢◌, refl, ap, ◌∙◌, ◌⊎◌, inl, inr, false, Bool-cases, Option-cases, none, some, ℤ, pos,
  ◌==ℤ◌, ==ℤ_refl, ==ℤ_of_ne, eq_of_==ℤ, length, arith,
}
use isc_challenge_without_bo.Text.{Bytes}
use isc_challenge_without_bo.IntMap.{lookup}
use isc_challenge_without_bo.Winsock.{Os, socket_error}
use isc_challenge_without_bo.Router.Sessions.{Sessions, remove_session, find_session_by_socket}
use isc_challenge_without_bo.Router.Sessions.Reachable.{
  Reachable, Reachable-Inv, removes, perform, call,
}
use isc_challenge_without_bo.Router.Sessions.Effects.{remove_session-finds}
use isc_challenge_without_bo.Router.TcpServer.{send_to_client}
use isc_challenge_without_bo.Router.State.{State, Run, done}
use isc_challenge_without_bo.Router.Workers.{do_writes}

module _ (os : Os) (socket : ℤ) (msg : Bytes) (st : State os.World) where
  abbrev sending : ℤ × os.World
  sending = os.send socket msg st.world

  pub send_to_client-whole :
      sending.0 ≡ pos (length msg)
      → send_to_client os socket msg st.world ≡ (pos (length msg), sending.1)
  unfolding send_to_client
  send_to_client-whole e = rw (e, ==ℤ_refl (pos (length msg)))

  pub send_to_client-short :
      sending.0 ≢ pos (length msg)
      → send_to_client os socket msg st.world ≡ (socket_error, sending.1)
  unfolding send_to_client
  send_to_client-short ne = rw (==ℤ_of_ne sending.0 (pos (length msg)) ne)

  -- No session: nothing is sent. The whole message is sent: the tables stay. Anything less, which is
  -- taken for an error: the session is removed.
  pub record Absent (st' : State os.World) : Type 0 where
    pub missing : find_session_by_socket socket st.sessions ≡ some none
    pub same : st' ≡ st

  pub record Sent (st' : State os.World) : Type 0 where
    pub whole : sending.0 ≡ pos (length msg)
    pub same : st' ≡ record st { world = sending.1 }

  pub record Broken (st' : State os.World) : Type 0 where
    pub short : sending.0 ≢ pos (length msg)
    pub world : st'.world ≡ sending.1
    pub closed : find_session_by_socket socket st'.sessions ≡ some none
    pub reads : st'.ready_read_sockets_queue_ ≡ st.ready_read_sockets_queue_
    pub writes : st'.ready_write_sockets_queue_ ≡ st.ready_write_sockets_queue_

  pub record Written (st' : State os.World) : Type 0 where
    pub reached : Reachable st'.sessions
    pub effect : Absent st' ⊎ Sent st' ⊎ Broken st'

  abbrev pub Ends : Run os.World (Unit {0}) → Type 0
  Ends r = (st' : State os.World) × (r ≡ done tt st') × Written st'

  remove_session-Reachable :
      {t : Sessions}
      → Reachable st.sessions
      → remove_session socket st.sessions ≡ some t
      → Reachable t
  unfolding perform
  remove_session-Reachable reached e = call (removes socket) reached tt e

  find_session_by_socket-answers :
      st.sessions.locked ≡ false
      → find_session_by_socket socket st.sessions
        ≡ some (lookup socket st.sessions.sessions_by_socket_)
  unfolding find_session_by_socket
  find_session_by_socket-answers free = rw free

  -- On a state that the router can reach `do_writes` returns and leaves such a state. With no
  -- session for the socket nothing happens; else the message is handed to `send` once, and if
  -- `send` does not take the whole of it the session is removed.
  pub do_writes-Written : Reachable st.sessions → Ends (do_writes os (socket, msg) st)
  unfolding do_writes
  do_writes-Written reached =
      let (inv, free) = Reachable-Inv reached in
      let answered = find_session_by_socket-answers free in
      elim (Option-cases (lookup socket st.sessions.sessions_by_socket_)) [
        | inl missing ↦
            rw (answered, missing)
              (
                st,
                refl,
                record {
                  reached = reached;
                  effect = inl (record { missing = answered ∙ ap some missing; same = refl });
                },
              )
        | inr (session, held) ↦ elim (Bool-cases (sending.0 ==ℤ pos (length msg))) [
          | inl whole ↦
              let e = eq_of_==ℤ sending.0 (pos (length msg)) whole in
              rw (answered, held, send_to_client-whole e, ==ℤ_refl (pos (length msg)))
                (
                  record st { world = sending.1 },
                  refl,
                  record {
                    reached = reached;
                    effect = inr (inl (record { whole = e; same = refl }));
                  },
                )
          | inr short ↦
              let ne : sending.0 ≢ pos (length msg) =
                λ e. ground (arith, ==ℤ_refl (pos (length msg))) in
              let (t, removed, gone, finds) = remove_session-finds reached socket in
              let (valid, named) = inv.by_socket socket session held in
              rw
                (
                  answered,
                  held,
                  send_to_client-short ne,
                  ==ℤ_of_ne socket_error (pos (length msg)) (λ e. cc),
                  ==ℤ_refl socket_error,
                  named,
                  removed,
                )
                (
                  record st { world = sending.1; sessions = t },
                  refl,
                  record {
                    reached = remove_session-Reachable reached removed;
                    effect = inr (
                        inr (record {
                          short = ne;
                          world = refl;
                          closed = finds socket ∙ rw (==ℤ_refl socket);
                          reads = refl;
                          writes = refl;
                        }));
                  },
                )
        ]
      ]
