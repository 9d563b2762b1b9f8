-- ===== src/Router/System.antt =====
-- The threads of the router together: the loops of `worker_thread_read_handler`,
-- `worker_thread_write_handler` and `start_event_listener` of router/src/router.cpp, one pass at a time.
pub mod Testing
pub mod Sound
pub mod Soundness
pub mod Routing
pub mod Replies
use isc_challenge_without_bo.Prelude.{ℕ, ◌<◌, ◌≡◌, Bool, List, [], ◌∷◌, ℤ, if◌then◌else◌, length}
use isc_challenge_without_bo.Text.{Bytes}
use isc_challenge_without_bo.Winsock.{Os, Delivers}
use isc_challenge_without_bo.Router.SignalingQueue.{SignalingQueue, pop, resume, wake_spuriously}
use isc_challenge_without_bo.Router.State.{Task, State, Cmd, initial, done}
use isc_challenge_without_bo.Router.Workers.{do_reads, do_writes}
use isc_challenge_without_bo.Router.Listener.{listen_round}
use isc_challenge_without_bo.Router.Listener.Events.{AcceptsFresh}

-- A thread calls `pop`, or a woken thread goes on in it: the queue, and the item that it takes, or none
-- if it sleeps.
unfoldable pub test {ℓ} : {T : Type ℓ} → Bool → SignalingQueue T → SignalingQueue T × List T
test woken q = if woken then resume q else pop q

module _ (os : Os) where
  open os use {World}

  abbrev pub read_taken : ℕ → Bytes → SignalingQueue ℤ × List ℤ → Cmd World Bytes
  read_taken fuel recv_buffer (q, []) st =
      done recv_buffer (record st { ready_read_sockets_queue_ = q })
  read_taken fuel recv_buffer (q, ready_read_socket ∷ _) st =
      do_reads os fuel ready_read_socket recv_buffer (record st { ready_read_sockets_queue_ = q })

  unfoldable pub worker_thread_read_handler : Bool → ℕ → Bytes → Cmd World Bytes
  worker_thread_read_handler woken fuel recv_buffer st =
      read_taken fuel recv_buffer (test woken st.ready_read_sockets_queue_) st

  abbrev pub write_taken : SignalingQueue Task × List Task → Cmd World (Unit {0})
  write_taken (q, []) st = done tt (record st { ready_write_sockets_queue_ = q })
  write_taken (q, ready_write_task ∷ _) st =
      do_writes os ready_write_task (record st { ready_write_sockets_queue_ = q })

  unfoldable pub worker_thread_write_handler : Bool → Cmd World (Unit {0})
  worker_thread_write_handler woken st = write_taken (test woken st.ready_write_sockets_queue_) st

module _ {os : Os} (d : Delivers os) (server_socket : ℤ) where
  -- Passes of the threads' loops, in any order. `accept` hands out no socket in use; a reader has
  -- fuel for what the connections will bring, and a buffer of more than 32 bytes. The
  -- system may change its state at any time, and a wait may end with no notification.
  pub data Step (st : State os.World) : State os.World → Type 0 where
    listens :
        {st' : State os.World}
        → AcceptsFresh os server_socket st
        → listen_round os server_socket st ≡ done tt st'
        → Step st st'
    reads :
        {st' : State os.World} {recv_buffer' : Bytes} (woken : Bool) (fuel : ℕ)
        (recv_buffer : Bytes)
        → 32 < length recv_buffer
        → ((s : ℤ) → length (d.incoming st.world s) < fuel)
        → worker_thread_read_handler os woken fuel recv_buffer st ≡ done recv_buffer' st'
        → Step st st'
    writes :
        {st' : State os.World} (woken : Bool)
        → worker_thread_write_handler os woken st ≡ done tt st'
        → Step st st'
    wakes_reader :
        Step st
          (record st { ready_read_sockets_queue_ = wake_spuriously st.ready_read_sockets_queue_ })
    wakes_writer :
        Step st
          (record st { ready_write_sockets_queue_ = wake_spuriously st.ready_write_sockets_queue_ })
    elapses : (w : os.World) → Step st (record st { world = w })

  pub data Reached : State os.World → Type 0 where
    starts : (w : os.World) → Reached (initial w)
    steps : {st st' : State os.World} → Reached st → Step st st' → Reached st'
