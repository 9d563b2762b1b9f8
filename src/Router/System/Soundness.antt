-- ===== src/Router/System/Soundness.antt =====
-- What holds between the passes of the threads, and that no pass gets stuck.
use isc_challenge_without_bo.Prelude.{
  ◌∙◌, ℕ, ◌<◌, ◌≡◌, refl, sym, ap, Bool, inl, inr, List, [], ◌∷◌, ℤ, ◌==ℤ◌, length, All, All-append,
}
use mathlib.Core.Path.{subst}
use isc_challenge_without_bo.Text.{Bytes}
use isc_challenge_without_bo.Winsock.{Os, Delivers}
use isc_challenge_without_bo.Router.SignalingQueue.{SignalingQueue}
use isc_challenge_without_bo.Router.SignalingQueue.Order.{wake_spuriously-keeps}
use isc_challenge_without_bo.Router.SignalingQueue.Repeats.{NoRepeats}
use isc_challenge_without_bo.Router.SignalingQueue.Wakeup.{
  Attended, Attended-empty_queue, wake_spuriously-Attended,
}
use isc_challenge_without_bo.Router.Workers.Queueing.{push_all-queue, push_all-Attended}
use isc_challenge_without_bo.Router.Sessions.Reachable.{start}
use isc_challenge_without_bo.Router.State.{Task, State, initial}
use isc_challenge_without_bo.Router.Workers.Reads.{do_reads-Served}
use isc_challenge_without_bo.Router.Workers.Writes.{Written, do_writes-Written}
use isc_challenge_without_bo.Router.Listener.{listen_round}
use isc_challenge_without_bo.Router.Listener.Events.{AcceptsFresh, listen_round-Listened}
use isc_challenge_without_bo.Router.System.{
  test, read_taken, worker_thread_read_handler, write_taken, worker_thread_write_handler, Step,
  listens, reads, writes, wakes_reader, wakes_writer, elapses, Reached, starts, steps,
}
use isc_challenge_without_bo.Router.System.Sound.{Sound, Finishes, Finishes-done}
use isc_challenge_without_bo.Router.System.Testing.{
  Whole, Blocks-Whole, test-NoRepeats, test-Attended, test-Whole,
}

-- A writer leaves both queues as they are.
Written-queues :
    (os : Os) (socket : ℤ) (msg : Bytes) (st st' : State os.World)
    → Written os socket msg st st'
    → (st'.ready_read_sockets_queue_ ≡ st.ready_read_sockets_queue_)
      × (st'.ready_write_sockets_queue_ ≡ st.ready_write_sockets_queue_)
Written-queues os socket msg st st' w = elim w.effect [
  | inl absent ↦ (
    ap (λ s. s.ready_read_sockets_queue_) absent.same,
    ap (λ s. s.ready_write_sockets_queue_) absent.same,
  )
  | inr (inl sent) ↦ (
    ap (λ s. s.ready_read_sockets_queue_) sent.same,
    ap (λ s. s.ready_write_sockets_queue_) sent.same,
  )
  | inr (inr broken) ↦ (broken.reads, broken.writes)
]

module _ (os : Os) {st : State os.World} (v : Sound st) where
  -- A pass of the event loop on a sound state returns, if `accept` hands out no socket in use.
  pub listen_round-Finishes :
      (server : ℤ) → AcceptsFresh os server st → Finishes (listen_round os server st)
  listen_round-Finishes server fresh =
      let (st', e, l) = listen_round-Listened os server st v.tables fresh v.repeats v.readers in
      record {
        result = tt;
        after = st';
        returned = e;
        sound = record {
          tables = l.reached;
          repeats = l.repeats;
          tasks = subst (λ q. All Whole q.m_queue) (sym l.writes) v.tasks;
          readers = l.attended;
          writers = subst Attended (sym l.writes) v.writers;
        };
      }

  read_taken-Finishes :
      (d : Delivers os) (fuel : ℕ) (buffer : Bytes) (q : SignalingQueue ℤ) (out : List ℤ)
      → NoRepeats ◌==ℤ◌ q.m_queue
      → Attended q
      → 32 < length buffer
      → ((s : ℤ) → length (d.incoming st.world s) < fuel)
      → Finishes (read_taken os fuel buffer (q, out) st)
  read_taken-Finishes d fuel buffer q [] n a room enough = record {
    result = buffer;
    after = record st { ready_read_sockets_queue_ = q };
    returned = refl;
    sound = record {
      tables = v.tables;
      repeats = n;
      tasks = v.tasks;
      readers = a;
      writers = v.writers;
    };
  }
  read_taken-Finishes d fuel buffer q (socket ∷ _) n a room enough =
      let (buffer', st', e, s) =
        do_reads-Served d socket buffer (record st { ready_read_sockets_queue_ = q }) fuel v.tables
          room (enough socket) in
      record {
        result = buffer';
        after = st';
        returned = e;
        sound = record {
          tables = s.reached;
          repeats = subst (λ p. NoRepeats ◌==ℤ◌ p.m_queue) (sym s.reads) n;
          tasks =
              subst (All Whole)
                (sym (
                  ap (λ p. p.m_queue) s.queued
                  ∙ push_all-queue s.tasks st.ready_write_sockets_queue_))
                (All-append Whole st.ready_write_sockets_queue_.m_queue s.tasks v.tasks
                  (Blocks-Whole s.blocks));
          readers = subst Attended (sym s.reads) a;
          writers =
              subst Attended (sym s.queued)
                (push_all-Attended s.tasks st.ready_write_sockets_queue_ v.writers);
        };
      }

  -- A pass of a reader, woken or not, on a sound state returns and leaves a sound state, with
  -- `recv` and `send` as documented, fuel for what the connections will bring and a buffer of more
  -- than 32 bytes.
  pub worker_thread_read_handler-Finishes :
      (d : Delivers os) (woken : Bool) (fuel : ℕ) (buffer : Bytes)
      → 32 < length buffer
      → ((s : ℤ) → length (d.incoming st.world s) < fuel)
      → Finishes (worker_thread_read_handler os woken fuel buffer st)
  unfolding worker_thread_read_handler
  worker_thread_read_handler-Finishes d woken fuel buffer room enough =
      let q = st.ready_read_sockets_queue_ in
      read_taken-Finishes d fuel buffer (test woken q).0 (test woken q).1
        (test-NoRepeats woken q v.repeats) (test-Attended woken q v.readers) room enough

  write_taken-Finishes :
      (q : SignalingQueue Task) (out : List Task)
      → All Whole q.m_queue
      → Attended q
      → Finishes (write_taken os (q, out) st)
  write_taken-Finishes q [] n a = record {
    result = tt;
    after = record st { ready_write_sockets_queue_ = q };
    returned = refl;
    sound = record {
      tables = v.tables;
      repeats = v.repeats;
      tasks = n;
      readers = v.readers;
      writers = a;
    };
  }
  write_taken-Finishes q ((socket, msg) ∷ _) n a =
      let before : State os.World = record st { ready_write_sockets_queue_ = q } in
      let (st', e, w) = do_writes-Written os socket msg before v.tables in
      let (same_reads, same_writes) = Written-queues os socket msg before st' w in
      record {
        result = tt;
        after = st';
        returned = e;
        sound = record {
          tables = w.reached;
          repeats = subst (λ p. NoRepeats ◌==ℤ◌ p.m_queue) (sym same_reads) v.repeats;
          tasks = subst (λ p. All Whole p.m_queue) (sym same_writes) n;
          readers = subst Attended (sym same_reads) v.readers;
          writers = subst Attended (sym same_writes) a;
        };
      }

  -- A pass of a writer, woken or not, on a sound state returns and leaves a sound state.
  pub worker_thread_write_handler-Finishes :
      (woken : Bool) → Finishes (worker_thread_write_handler os woken st)
  unfolding worker_thread_write_handler
  worker_thread_write_handler-Finishes woken =
      let q = st.ready_write_sockets_queue_ in
      write_taken-Finishes (test woken q).0 (test woken q).1 (test-Whole woken q v.tasks)
        (test-Attended woken q v.writers)

module _ {os : Os} (d : Delivers os) (server : ℤ) where
  Step-Sound : {st st' : State os.World} → Sound st → Step d server st st' → Sound st'
  Step-Sound v (listens fresh e) = Finishes-done (listen_round-Finishes os v server fresh) e
  Step-Sound v (reads woken fuel buffer room enough e) =
      Finishes-done (worker_thread_read_handler-Finishes os v d woken fuel buffer room enough) e
  Step-Sound v (writes woken e) = Finishes-done (worker_thread_write_handler-Finishes os v woken) e
  Step-Sound {st} v wakes_reader = record {
    tables = v.tables;
    repeats =
        subst (NoRepeats ◌==ℤ◌) (sym (wake_spuriously-keeps st.ready_read_sockets_queue_))
          v.repeats;
    tasks = v.tasks;
    readers = wake_spuriously-Attended st.ready_read_sockets_queue_ v.readers;
    writers = v.writers;
  }
  Step-Sound {st} v wakes_writer = record {
    tables = v.tables;
    repeats = v.repeats;
    tasks = subst (All Whole) (sym (wake_spuriously-keeps st.ready_write_sockets_queue_)) v.tasks;
    readers = v.readers;
    writers = wake_spuriously-Attended st.ready_write_sockets_queue_ v.writers;
  }
  Step-Sound v (elapses w) = record {
    tables = v.tables;
    repeats = v.repeats;
    tasks = v.tasks;
    readers = v.readers;
    writers = v.writers;
  }

  -- In whatever order the threads run, with `recv` and `send` as documented, every state that the
  -- router reaches is sound: the session tables are in order, no socket waits for a reader right
  -- behind itself, every message that waits for a writer has 32 bytes, and at either queue, as
  -- long as a worker sleeps, there are as many woken workers as items.
  pub Reached-Sound : {st : State os.World} → Reached d server st → Sound st
  unfolding initial
  Reached-Sound (starts w) = record {
    tables = start;
    repeats = tt;
    tasks = tt;
    readers = Attended-empty_queue;
    writers = Attended-empty_queue;
  }
  Reached-Sound (steps r s) = Step-Sound (Reached-Sound r) s
