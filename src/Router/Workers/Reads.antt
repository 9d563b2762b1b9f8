-- ===== src/Router/Workers/Reads.antt =====
-- What `do_reads` does.
use isc_challenge_without_bo.Prelude.{
  ℕ, ◌<◌, ◌≡◌, refl, sym, ap, ◌∙◌, ◌⊎◌, inl, inr, false, Bool-cases, Option-cases, List, [], ◌++◌,
  none, some, ℤ, ◌==ℤ◌, ==ℤ_refl, length,
}
use isc_challenge_without_bo.Text.{Bytes}
use isc_challenge_without_bo.IntMap.{lookup}
use isc_challenge_without_bo.Winsock.{Os, Delivers, socket_error}
use isc_challenge_without_bo.Router.Sessions.{Sessions, remove_session, find_session_by_socket}
use isc_challenge_without_bo.Router.Sessions.Reachable.{
  Reachable, Reachable-Inv, removes, perform, call,
}
use isc_challenge_without_bo.Router.Sessions.Effects.{remove_session-finds}
use isc_challenge_without_bo.Router.State.{Task, State, Run, done}
use isc_challenge_without_bo.Router.Workers.{do_reads}
use isc_challenge_without_bo.Router.Workers.Blocks.{Blocks, finished}
use isc_challenge_without_bo.Router.Workers.Queueing.{push_all}
use isc_challenge_without_bo.Router.Workers.Rounds.{Rounds, read_rounds-Rounds}

module _ {os : Os} (d : Delivers os) (socket : ℤ) (buffer : Bytes) (st : State os.World) where
  open d use {incoming}

  -- What `do_reads` has done: it has taken bytes of the connection and queued tasks that lie in them; the
  -- tables are in order; its session is gone, or the sockets lead where they did.
  pub record Served (buffer' : Bytes) (st' : State os.World) : Type 0 where
    pub bytes : Bytes
    pub stream : incoming st.world socket ≡ bytes ++ incoming st'.world socket
    pub tasks : List Task
    pub queued : st'.ready_write_sockets_queue_ ≡ push_all tasks st.ready_write_sockets_queue_
    pub blocks : Blocks bytes tasks
    pub reached : Reachable st'.sessions
    pub sized : length buffer' ≡ length buffer
    pub reads : st'.ready_read_sockets_queue_ ≡ st.ready_read_sockets_queue_
    pub session :
        (find_session_by_socket socket st'.sessions ≡ some none)
        ⊎ (find_session_by_socket socket st'.sessions ≡ find_session_by_socket socket st.sessions)

  abbrev pub Ends : Run os.World Bytes → Type 0
  Ends r = (buffer' : Bytes) × (st' : State os.World) × (r ≡ done buffer' st') × Served buffer' st'

  remove_session-Reachable :
      {s t : Sessions} → Reachable s → remove_session socket s ≡ some t → Reachable t
  unfolding perform
  remove_session-Reachable reached e = call (removes socket) reached tt e

  find_session_by_socket-answers :
      (s : Sessions)
      → s.locked ≡ false
      → find_session_by_socket socket s ≡ some (lookup socket s.sessions_by_socket_)
  unfolding find_session_by_socket
  find_session_by_socket-answers s free = rw free

  module _ {session : ℕ} {out : ℤ × Bytes} {st' : State os.World}
      (r : Rounds d socket session st buffer out st') where
    served :
        {t : Sessions}
        → Reachable t
        → (find_session_by_socket socket t ≡ some none)
          ⊎ (find_session_by_socket socket t ≡ find_session_by_socket socket st.sessions)
        → Served out.1 (record st' { sessions = t })
    served reached found = record {
      bytes = r.bytes;
      stream = r.stream;
      tasks = r.tasks;
      queued = r.queued;
      blocks = r.blocks;
      reached = reached;
      sized = r.sized;
      reads = r.reads;
      session = found;
    }

  -- With `recv` and `send` as documented, on a state that the router can reach, and with a buffer
  -- of more than 32 bytes, `do_reads` returns if its fuel exceeds the number of bytes that the
  -- connection will bring: it waits for no mutex of its own and throws nothing. The messages that
  -- it queues are stretches of 32 bytes of what it has read, in order; the tables stay in order,
  -- and the socket leads where it did or its session is removed.
  pub do_reads-Served :
      (fuel : ℕ)
      → Reachable st.sessions
      → 32 < length buffer
      → length (incoming st.world socket) < fuel
      → Ends (do_reads os fuel socket buffer st)
  unfolding do_reads
  do_reads-Served fuel reached room enough =
      let free = (Reachable-Inv reached).1 in
      let answered = find_session_by_socket-answers st.sessions free in
      elim (Option-cases (lookup socket st.sessions.sessions_by_socket_)) [
        | inl missing ↦
            rw (answered, missing)
              (
                buffer,
                st,
                refl,
                record {
                  bytes = [];
                  stream = refl;
                  tasks = [];
                  queued = refl;
                  blocks = finished;
                  reached = reached;
                  sized = refl;
                  reads = refl;
                  session = inr refl;
                },
              )
        | inr (session, held) ↦
            let (out, st', e, r) =
              read_rounds-Rounds d socket session fuel st buffer reached held room enough in
            let (t, removed, gone, finds) = remove_session-finds r.reached socket in
            let same = find_session_by_socket-answers st'.sessions (Reachable-Inv r.reached).1 in
            rw (answered, held, answered, held, e)
              (elim (Bool-cases (out.0 ==ℤ socket_error)) [
                | inl broken ↦
                    rw (broken, removed)
                      (
                        out.1,
                        record st' { sessions = t },
                        refl,
                        served r (remove_session-Reachable r.reached removed)
                            (inl (finds socket ∙ rw (==ℤ_refl socket))),
                      )
                | inr fine ↦ rw fine (
                  out.1,
                  st',
                  refl,
                  served r r.reached (inr (same ∙ ap some r.held ∙ sym (answered ∙ ap some held))),
                )
              ])
      ]
