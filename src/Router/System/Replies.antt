-- ===== src/Router/System/Replies.antt =====
-- A message through the router to its node, and the answer of that node back.
use isc_challenge_without_bo.Prelude.{
  ◌%◌, ◌+◌, ◌<◌, ◌≡◌, refl, sym, ap, ◌∙◌, inl, inr, false, List, [], ◌∷◌, ◌++◌, some, ok, ℕ, ℤ, pos,
  ==ℤ_refl, length, arith,
}
use mathlib.Core.Path.{subst}
use isc_challenge_without_bo.Text.{Bytes}
use isc_challenge_without_bo.Winsock.{Os, Delivers}
use isc_challenge_without_bo.Node.Message
use isc_challenge_without_bo.Node.Message.Layout.{layout}
use isc_challenge_without_bo.Node.Message.Reply.{process_message-layout, build_first_message-layout}
use isc_challenge_without_bo.Router.Session.{get_socket}
use isc_challenge_without_bo.Router.Sessions.{find_session_by_id, find_session_by_socket}
use isc_challenge_without_bo.Router.Sessions.Reachable.{Reachable}
use isc_challenge_without_bo.Router.Sessions.Effects.{find_session_by_id-live}
use isc_challenge_without_bo.Router.SignalingQueue.Order.{pop-first}
use isc_challenge_without_bo.Router.State.{Task, State, done}
use isc_challenge_without_bo.Router.Workers.{process_message}
use isc_challenge_without_bo.Router.Workers.Delivery.{process_message-delivers}
use isc_challenge_without_bo.Router.Workers.Writes.{Written, do_writes-Written}
use isc_challenge_without_bo.Router.System.{test, write_taken, worker_thread_write_handler}

module _ (os : Os) (st : State os.World) (socket : ℤ) (msg : Bytes) (rest : List Task) (session : ℕ)
    (reached : Reachable st.sessions)
    (live : find_session_by_socket socket st.sessions ≡ some (some session))
    (whole : (os.send socket msg st.world).0 ≡ pos (length msg)) where
  -- The state behind a pass of a writer whose message is sent as a whole.
  abbrev pub after_send : State os.World
  after_send = record st {
    ready_write_sockets_queue_ = record st.ready_write_sockets_queue_ { m_queue = rest };
    world = (os.send socket msg st.world).1;
  }

  abbrev popped : State os.World
  popped = record st {
    ready_write_sockets_queue_ = record st.ready_write_sockets_queue_ { m_queue = rest };
  }

  Written-after_send : (st' : State os.World) → Written os socket msg popped st' → st' ≡ after_send
  Written-after_send st' w = elim w.effect [
    | inl absent ↦ absurd (cc (absent.missing, live))
    | inr (inl sent) ↦ sent.same
    | inr (inr broken) ↦ absurd (broken.short whole)
  ]

  pub worker_thread_write_handler-whole :
      st.ready_write_sockets_queue_.m_queue ≡ (socket, msg) ∷ rest
      → worker_thread_write_handler os false st ≡ done tt after_send
  unfolding worker_thread_write_handler test
  worker_thread_write_handler-whole e =
      let (st', returned, w) = do_writes-Written os socket msg popped reached in
      ap (λ t. write_taken os t st) (pop-first (socket, msg) rest st.ready_write_sockets_queue_ e)
      ∙ returned
      ∙ ap (done tt) (Written-after_send st' w)

Run-same : {W A : Type 0} {a b : A} {st st' : State W} → done a st ≡ done b st' → st ≡ st'
Run-same e = cc (e)

module _ {os : Os} (d : Delivers os) where
  -- The router takes a message from a connection, and a writer takes what is queued then; `send` takes
  -- what it is given as a whole.
  pub record Relay (socket : ℤ) (msg : Bytes) (st st' : State os.World) : Type 0 where
    pub buffer : Bytes
    pub buffer' : Bytes
    pub rest : Bytes
    pub between : State os.World
    pub room : 32 < length buffer
    pub arrives : d.incoming st.world socket ≡ msg ++ rest
    pub read : process_message os socket buffer st ≡ done (pos 32, buffer') between
    pub whole : (s : ℤ) → (os.send s msg between.world).0 ≡ pos (length msg)
    pub wrote : worker_thread_write_handler os false between ≡ done tt st'

  module _ (start : State os.World) where
    -- A node with an id of three digits at most, and its session.
    abbrev pub Registered : ℕ → ℕ → Type 0
    Registered x rx = (x < 1000) × (find_session_by_id (pos x) start.sessions ≡ some (some rx))

    -- Node `x`, of the session `rx`, writes to node `y`, of the session `ry`. The first message is the
    -- initiator's; each other is the answer to the one before, whenever it arrives.
    pub data Talk : (x rx y ry : ℕ) → Bytes → State os.World → Type 0 where
      opens :
          {x rx y ry : ℕ}
          → Registered x rx
          → Registered y ry
          → Talk x rx y ry (Message.build_first_message (pos x) (pos y)) start
      answers :
          {x rx y ry : ℕ} {msg : Bytes} {st st' : State os.World} (w : os.World) (reply : Bytes)
          → Talk x rx y ry msg st
          → Relay (get_socket start.sessions.store rx) msg (record st { world = w }) st'
          → Message.process_message (pos y) msg (pos 32) ≡ ok reply
          → Talk y ry x rx reply st'

    -- Between two messages: the tables are as at the start, no task waits, and the next message is in
    -- the layout.
    record Talking (x rx y ry : ℕ) (msg : Bytes) (st : State os.World) : Type 0 where
      mti : ℕ
      written : msg ≡ layout x mti Message.first_trace Message.first_pan y
      small : mti < 10000
      speaker : Registered x rx
      listener : Registered y ry
      tables : st.sessions ≡ start.sessions
      idle : st.ready_write_sockets_queue_.m_queue ≡ []

    module _ (reached : Reachable start.sessions) where
      Relay-sends :
          {x rx y ry : ℕ} {msg : Bytes} {st st' : State os.World} (w : os.World)
          → Talking x rx y ry msg st
          → (r : Relay (get_socket start.sessions.store rx) msg (record st { world = w }) st')
          → (st'.world ≡ (os.send (get_socket start.sessions.store ry) msg r.between.world).1)
            × (st'.sessions ≡ start.sessions)
            × (st'.ready_write_sockets_queue_.m_queue ≡ [])
      Relay-sends {x} {rx} {y} {ry} {msg} {st} {st'} w t r =
          let socket = get_socket start.sessions.store ry in
          let (queued, left, kept) =
            process_message-delivers d (get_socket start.sessions.store rx) r.buffer
              (record st { world = w }) x t.mti y ry Message.first_trace Message.first_pan r.rest
              r.buffer' r.between t.speaker.0 t.small t.listener.0 refl refl
              (subst Reachable (sym t.tables) reached) r.room
              (r.arrives ∙ ap (λ m. m ++ r.rest) t.written)
              (ap (find_session_by_id (pos y)) t.tables ∙ t.listener.1) r.read in
          let tables : r.between.sessions ≡ start.sessions = kept ∙ t.tables in
          let task : Task = (
            get_socket st.sessions.store ry,
            layout x t.mti Message.first_trace Message.first_pan y,
          ) in
          let task_same : task ≡ (socket, msg) = cc (t.tables, t.written) in
          let tasks : r.between.ready_write_sockets_queue_.m_queue ≡ (socket, msg) ∷ [] =
            queued ∙ ap (λ xs. xs ++ task ∷ []) t.idle ∙ ap (λ k. k ∷ []) task_same in
          let (named, live) =
            find_session_by_id-live reached (pos y) ry (λ e. cc (e)) t.listener.1 in
          let sent =
            worker_thread_write_handler-whole os r.between socket msg [] ry
              (subst Reachable (sym tables) reached)
              (ap (find_session_by_socket socket) tables ∙ live) (r.whole socket) tasks in
          let same = Run-same (sym sent ∙ r.wrote) in
          (
            ap (λ s. s.world) (sym same),
            ap (λ s. s.sessions) (sym same) ∙ tables,
            ap (λ s. s.ready_write_sockets_queue_.m_queue) (sym same),
          )

      Talking-answers :
          {x rx y ry : ℕ} {msg : Bytes} {st st' : State os.World} (w : os.World) (reply : Bytes)
          → Talking x rx y ry msg st
          → Relay (get_socket start.sessions.store rx) msg (record st { world = w }) st'
          → Message.process_message (pos y) msg (pos 32) ≡ ok reply
          → Talking y ry x rx reply st'
      Talking-answers {x} {rx} {y} {ry} {msg} w reply t r e =
          let (world, tables, idle) = Relay-sends w t r in
          let answered : ok reply
              ≡ ok (layout y ((t.mti + 10) % 10000) Message.first_trace Message.first_pan x) =
            sym e
            ∙ ap (λ m. Message.process_message (pos y) m (pos 32)) t.written
            ∙ process_message-layout (pos y) x t.mti y Message.first_trace Message.first_pan
                t.speaker.0 t.small t.listener.0 refl refl
            ∙ rw (==ℤ_refl (pos y)) refl in
          record {
            mti = (t.mti + 10) % 10000;
            written = cc (answered);
            small = omega arith;
            speaker = t.listener;
            listener = t.speaker;
            tables = tables;
            idle = idle;
          }

      module _ (idle : start.ready_write_sockets_queue_.m_queue ≡ []) where
        Talk-Talking :
            {x rx y ry : ℕ} {msg : Bytes} {st : State os.World}
            → Talk x rx y ry msg st
            → Talking x rx y ry msg st
        Talk-Talking (opens {x} {rx} {y} {ry} hx hy) = record {
          mti = 2200;
          written = build_first_message-layout x y;
          small = omega arith;
          speaker = hx;
          listener = hy;
          tables = refl;
          idle = idle;
        }
        Talk-Talking (answers w reply talk r e) = Talking-answers w reply (Talk-Talking talk) r e

        -- Two nodes talk through the router, from a state that the router can reach where no task waits
        -- and both are registered, with `recv` and `send` as documented: the first message is the
        -- initiator's, and each other is the answer of a node to the message before, which the router
        -- reads, whenever it arrives, and a writer hands on, to a `send` that takes the whole of it.
        -- Then each message is handed, as it was written, to the connection of the node that it is
        -- for, the tables are as at the start, and no task is left.
        pub Talk-sends :
            {x rx y ry : ℕ} {msg : Bytes} {st st' : State os.World}
            → Talk x rx y ry msg st
            → (w : os.World)
            → (r : Relay (get_socket start.sessions.store rx) msg (record st { world = w }) st')
            → (st'.world ≡ (os.send (get_socket start.sessions.store ry) msg r.between.world).1)
              × (st'.sessions ≡ start.sessions)
              × (st'.ready_write_sockets_queue_.m_queue ≡ [])
        Talk-sends talk w r = Relay-sends w (Talk-Talking talk) r
