-- ===== src/Router/Listener/Events.antt =====
-- What a round of the event loop does.
use isc_challenge_without_bo.Prelude.{
  ℕ, ◌≡◌, ◌≢◌, refl, ◌∙◌, inl, inr, true, false, Bool-cases, Option-cases, List, Option, none, some,
  ℤ, ◌==ℤ◌, ==ℤ_refl, eq_of_==ℤ, length, arith,
}
use isc_challenge_without_bo.Winsock.{Os, socket_error}
use isc_challenge_without_bo.Router.SignalingQueue.{SignalingQueue}
use isc_challenge_without_bo.Router.SignalingQueue.Wakeup.{Attended}
use isc_challenge_without_bo.Router.SignalingQueue.Repeats.{NoRepeats}
use isc_challenge_without_bo.Router.Sessions
use isc_challenge_without_bo.Router.Sessions.{
  Sessions, contains, get_accepted_sockets, find_session_by_socket,
}
use isc_challenge_without_bo.Router.Sessions.Reachable.{
  Reachable, Reachable-Inv, accepts, perform, call,
}
use isc_challenge_without_bo.Router.Sessions.Effects.{accept_client-finds}
use isc_challenge_without_bo.Router.TcpServer
use isc_challenge_without_bo.Router.State.{State, Run, done}
use isc_challenge_without_bo.Router.Listener.{push_ready, listen_round, enter_client, reset_fd_set}
use isc_challenge_without_bo.Router.Listener.Pushing.{
  Pushed, push_ready-Attended, push_ready-NoRepeats, push_ready-Pushed,
}

module _ (os : Os) (server : ℤ) (st : State os.World) where
  -- What `select` returns in this round.
  abbrev pub selection : Option (List ℤ) × os.World
  selection = os.select (reset_fd_set os server (get_accepted_sockets st.sessions)).0 st.world

  abbrev pub accepting : ℤ × os.World
  accepting = TcpServer.accept_client os server selection.1

  -- An error of `select`. A connection that asks and that `accept` fails on: the sockets that are ready
  -- are passed over in this round. A connection that is accepted: its socket has a session. No
  -- connection that asks. In the last two every ready socket but the server's waits for a reader.
  pub data Heard (st' : State os.World) : Type 0 where
    idles : selection.0 ≡ none → st' ≡ record st { world = selection.1 } → Heard st'
    refuses :
        (ready : List ℤ)
        → selection.0 ≡ some ready
        → contains server ready ≡ true
        → accepting.0 ≡ socket_error
        → st' ≡ record st { world = accepting.1 }
        → Heard st'
    enters :
        (ready : List ℤ) (session : ℕ)
        → selection.0 ≡ some ready
        → contains server ready ≡ true
        → accepting.0 ≢ socket_error
        → find_session_by_socket accepting.0 st'.sessions ≡ some (some session)
        → st'.world ≡ accepting.1
        → Pushed server ready st'.ready_read_sockets_queue_
        → Heard st'
    pushes :
        (ready : List ℤ)
        → selection.0 ≡ some ready
        → contains server ready ≡ false
        → st'.sessions ≡ st.sessions
        → st'.world ≡ selection.1
        → Pushed server ready st'.ready_read_sockets_queue_
        → Heard st'

  -- The tables are in order, no task was queued, and no socket waits right behind itself.
  pub record Listened (st' : State os.World) : Type 0 where
    pub reached : Reachable st'.sessions
    pub writes : st'.ready_write_sockets_queue_ ≡ st.ready_write_sockets_queue_
    pub repeats : NoRepeats ◌==ℤ◌ st'.ready_read_sockets_queue_.m_queue
    pub attended : Attended st'.ready_read_sockets_queue_
    pub heard : Heard st'

  abbrev pub Ends : Run os.World (Unit {0}) → Type 0
  Ends r = (st' : State os.World) × (r ≡ done tt st') × Listened st'

  -- `accept` hands out no socket that is in use.
  abbrev pub AcceptsFresh : Type 0
  AcceptsFresh =
      accepting.0 ≢ socket_error → find_session_by_socket accepting.0 st.sessions ≡ some none

  module _ (reached : Reachable st.sessions) (fresh : AcceptsFresh)
      (v : NoRepeats ◌==ℤ◌ st.ready_read_sockets_queue_.m_queue)
      (a : Attended st.ready_read_sockets_queue_) where
    accept_client-Reachable :
        (k : ℤ) {t : Sessions}
        → find_session_by_socket k st.sessions ≡ some none
        → Sessions.accept_client k st.sessions ≡ some t
        → Reachable t
    unfolding perform find_session_by_socket
    accept_client-Reachable k h e =
        let free = (Reachable-Inv reached).1 in call (accepts k) reached (ground (arith, free)) e

    abbrev queued : List ℤ → SignalingQueue ℤ
    queued ready = push_ready server ready st.ready_read_sockets_queue_

    enter_client-Listened :
        (ready : List ℤ)
        → selection.0 ≡ some ready
        → contains server ready ≡ true
        → Ends (enter_client os server ready accepting.0 (record st { world = accepting.1 }))
    unfolding enter_client
    enter_client-Listened ready e asks = elim (Bool-cases (accepting.0 ==ℤ socket_error)) [
      | inl error ↦ rw error (
        record st { world = accepting.1 },
        refl,
        record {
          reached = reached;
          writes = refl;
          repeats = v;
          attended = a;
          heard = refuses ready e asks (eq_of_==ℤ accepting.0 socket_error error) refl;
        },
      )
      | inr fine ↦
          let new : accepting.0 ≢ socket_error = λ h. ground (arith, ==ℤ_refl socket_error) in
          let unused = fresh new in
          let (t, entered, anonymous, sockets, ids) =
            accept_client-finds reached accepting.0 unused in
          rw (fine, entered)
            (
              record st {
                world = accepting.1;
                sessions = t;
                ready_read_sockets_queue_ = queued ready;
              },
              refl,
              record {
                reached = accept_client-Reachable accepting.0 unused entered;
                writes = refl;
                repeats = push_ready-NoRepeats server ready st.ready_read_sockets_queue_ v;
                attended = push_ready-Attended server ready st.ready_read_sockets_queue_ a;
                heard =
                    enters ready (length st.sessions.store) e asks new
                      (sockets accepting.0 ∙ rw (==ℤ_refl accepting.0)) refl
                      (push_ready-Pushed server ready st.ready_read_sockets_queue_);
              },
            )
    ]

    -- If `accept` hands out no socket in use, a round of the event loop on a state that the router
    -- can reach returns and leaves such a state. Every socket but the server's that `select`
    -- reports then waits for a reader, unless `accept` fails on a connection that asks; an
    -- accepted socket has a session; no socket waits right behind itself, and no reader sleeps
    -- with an item unattended, if it was so before; and no message is queued.
    pub listen_round-Listened : Ends (listen_round os server st)
    unfolding listen_round
    listen_round-Listened = elim (Option-cases selection.0) [
      | inl failed ↦ rw failed (
        record st { world = selection.1 },
        refl,
        record {
          reached = reached;
          writes = refl;
          repeats = v;
          attended = a;
          heard = idles failed refl;
        },
      )
      | inr (ready, e) ↦ elim (Bool-cases (contains server ready)) [
        | inl asks ↦ rw (e, asks) (enter_client-Listened ready e asks)
        | inr quiet ↦
            rw (e, quiet)
              (
                record st { world = selection.1; ready_read_sockets_queue_ = queued ready },
                refl,
                record {
                  reached = reached;
                  writes = refl;
                  repeats = push_ready-NoRepeats server ready st.ready_read_sockets_queue_ v;
                  attended = push_ready-Attended server ready st.ready_read_sockets_queue_ a;
                  heard =
                      pushes ready e quiet refl refl
                        (push_ready-Pushed server ready st.ready_read_sockets_queue_);
                },
              )
      ]
    ]
