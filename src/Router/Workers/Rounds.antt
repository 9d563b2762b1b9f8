-- ===== src/Router/Workers/Rounds.antt =====
-- The loop of `do_reads`.
use isc_challenge_without_bo.Prelude.{
  ℕ, zero, suc, ◌<◌, ◌≡◌, refl, sym, ap, ◌∙◌, inl, inr, true, false, Bool-cases, List, [], ◌∷◌,
  ◌++◌, append_assoc, some, ℤ, ◌==ℤ◌, eq_of_==ℤ, length, length-append, arith,
}
use isc_challenge_without_bo.Text.{Bytes}
use isc_challenge_without_bo.IntMap.{lookup}
use isc_challenge_without_bo.Winsock.{Os, Delivers}
use isc_challenge_without_bo.Router.Session.{no_id, get_id, get_socket}
use isc_challenge_without_bo.Router.Sessions.{Sessions, add_node}
use isc_challenge_without_bo.Router.Sessions.Reachable.{Reachable, Reachable-Inv}
use isc_challenge_without_bo.Router.State.{Task, State}
use isc_challenge_without_bo.Router.Workers.{is_positive, read_round, read_rounds}
use isc_challenge_without_bo.Router.Workers.Blocks.{
  Blocks, Blocks-append, Blocks-nil, Blocks-singleton,
}
use isc_challenge_without_bo.Router.Workers.Queueing.{push_all, push_all-append}
use isc_challenge_without_bo.Router.Workers.Taking.{Ends}
use isc_challenge_without_bo.Router.Workers.Messages.{Processed, process_message-Processed}
use isc_challenge_without_bo.Router.Workers.Handshakes.{Shaken, handle_handshake-Shaken}
use mathlib.Core.Path.{subst}

add_node-keeps_sockets :
    (s t : Sessions) (k id : ℤ)
    → s.locked ≡ false
    → add_node k id s ≡ some t
    → t.sessions_by_socket_ ≡ s.sessions_by_socket_
unfolding add_node
add_node-keeps_sockets s t k id free e = ground arith

module _ {os : Os} (d : Delivers os) (socket : ℤ) (session : ℕ) where
  open d use {incoming}

  -- What a run of rounds has done: it has taken bytes of the connection and queued tasks that lie in them;
  -- the tables are in order and still hold the session.
  pub record Rounds (st : State os.World) (buffer : Bytes) (out : ℤ × Bytes) (st' : State os.World)
      : Type 0 where
    pub bytes : Bytes
    pub stream : incoming st.world socket ≡ bytes ++ incoming st'.world socket
    pub tasks : List Task
    pub queued : st'.ready_write_sockets_queue_ ≡ push_all tasks st.ready_write_sockets_queue_
    pub blocks : Blocks bytes tasks
    pub reached : Reachable st'.sessions
    pub held : lookup socket st'.sessions.sessions_by_socket_ ≡ some session
    pub sized : length out.1 ≡ length buffer
    pub reads : st'.ready_read_sockets_queue_ ≡ st.ready_read_sockets_queue_
    pub progress : is_positive out.0 ≡ true → 0 < length bytes

  module _ {st : State os.World} {buffer : Bytes} (reached : Reachable st.sessions)
      (held : lookup socket st.sessions.sessions_by_socket_ ≡ some session) where
    processed :
        {out : ℤ × Bytes} {st' : State os.World}
        → Processed d socket buffer st out st'
        → Rounds st buffer out st'
    processed {out} {st'} p = elim p.effect [
      | inl sent ↦
          rounds ((get_socket st.sessions.store sent.session, p.bytes) ∷ []) sent.queued
            (Blocks-singleton _ p.bytes sent.whole)
      | inr (inl unknown) ↦ rounds [] unknown.queued (Blocks-nil p.bytes)
      | inr (inr dropped) ↦ rounds [] dropped.queued (Blocks-nil p.bytes)
    ]
      where
        rounds :
            (tasks : List Task)
            → st'.ready_write_sockets_queue_ ≡ push_all tasks st.ready_write_sockets_queue_
            → Blocks p.bytes tasks
            → Rounds st buffer out st'
        rounds tasks queued blocks = record {
          bytes = p.bytes;
          stream = p.takes.stream;
          tasks = tasks;
          queued = queued;
          blocks = blocks;
          reached = subst Reachable (sym p.tables) reached;
          held = ap (λ s. lookup socket s.sessions_by_socket_) p.tables ∙ held;
          sized = p.takes.sized;
          reads = p.takes.reads;
          progress = p.takes.progress;
        }

    shaken :
        {out : ℤ × Bytes} {st' : State os.World}
        → Shaken d socket buffer st out st'
        → Rounds st buffer out st'
    shaken {out} {st'} p = elim p.effect [
      | inl greeted ↦ rounds greeted.queued (
          add_node-keeps_sockets st.sessions st'.sessions socket greeted.id
            (Reachable-Inv reached).1 greeted.added)
      | inr not_yet ↦ rounds not_yet.dropped.queued (ap (λ s. s.sessions_by_socket_) not_yet.tables)
    ]
      where
        rounds :
            st'.ready_write_sockets_queue_ ≡ st.ready_write_sockets_queue_
            → st'.sessions.sessions_by_socket_ ≡ st.sessions.sessions_by_socket_
            → Rounds st buffer out st'
        rounds unsent same = record {
          bytes = p.bytes;
          stream = p.takes.stream;
          tasks = [];
          queued = unsent;
          blocks = Blocks-nil p.bytes;
          reached = p.reached;
          held = ap (lookup socket) same ∙ held;
          sized = p.takes.sized;
          reads = p.takes.reads;
          progress = p.takes.progress;
        }

    read_round-Rounds :
        32 < length buffer
        → Ends d socket buffer st (Rounds st buffer) (read_round os session socket buffer st)
    unfolding read_round
    read_round-Rounds room = elim (Bool-cases (get_id st.sessions.store session ==ℤ no_id)) [
      | inl new ↦
          let anonymous = eq_of_==ℤ (get_id st.sessions.store session) no_id new in
          let (out, st', e, p) =
            handle_handshake-Shaken d socket buffer st reached
              (λ id r here. ground (arith, held, anonymous)) (omega arith) in
          rw new (out, st', e, shaken p)
      | inr old ↦
          let (out, st', e, p) =
            process_message-Processed d socket buffer st (Reachable-Inv reached).1 room in
          rw old (out, st', e, processed p)
    ]

  -- One run of rounds after another.
  Rounds-append :
      {st st' st'' : State os.World} {buffer : Bytes} {out out' : ℤ × Bytes}
      → Rounds st buffer out st'
      → Rounds st' out.1 out' st''
      → Rounds st buffer out' st''
  Rounds-append {st} {st''} a b = record {
    bytes = a.bytes ++ b.bytes;
    stream =
        a.stream
        ∙ ap (λ t. a.bytes ++ t) b.stream
        ∙ sym (append_assoc a.bytes b.bytes (incoming st''.world socket));
    tasks = a.tasks ++ b.tasks;
    queued =
        b.queued
        ∙ ap (push_all b.tasks) a.queued
        ∙ sym (push_all-append a.tasks b.tasks st.ready_write_sockets_queue_);
    blocks = Blocks-append b.bytes b.tasks a.blocks b.blocks;
    reached = b.reached;
    held = b.held;
    sized = b.sized ∙ a.sized;
    reads = b.reads ∙ a.reads;
    progress = λ p. omega (arith, b.progress p, length-append a.bytes b.bytes);
  }

  pub read_rounds-Rounds :
      (fuel : ℕ) (st : State os.World) (buffer : Bytes)
      → Reachable st.sessions
      → lookup socket st.sessions.sessions_by_socket_ ≡ some session
      → 32 < length buffer
      → length (incoming st.world socket) < fuel
      → Ends d socket buffer st (Rounds st buffer) (read_rounds os fuel session socket buffer st)
  unfolding read_rounds
  read_rounds-Rounds zero st buffer reached held room enough = absurd (omega arith)
  read_rounds-Rounds (suc fuel) st buffer reached held room enough =
      let (out, st', e, r) = read_round-Rounds {st = st} {buffer = buffer} reached held room in
      elim (Bool-cases (is_positive out.0)) [
        | inl more ↦
            let fewer : length (incoming st'.world socket) < fuel = omega (
              arith,
              ap length r.stream,
              length-append r.bytes (incoming st'.world socket),
              r.progress more,
            ) in
            let (out', st'', e', r') =
              read_rounds-Rounds fuel st' out.1 r.reached r.held (omega (arith, r.sized)) fewer in
            rw (e, more, e') (out', st'', refl, Rounds-append r r')
        | inr stop ↦ rw (e, stop) (out, st', refl, r)
      ]
