-- ===== src/Router/Start/Listening.antt =====
-- How `Router::start` goes on: the two ends, and the rounds of its event loop.
use isc_challenge_without_bo.Prelude.{
  ℕ, zero, suc, ◌<◌, ◌≡◌, ◌≢◌, refl, Bool-cases, inl, inr, List, [], ◌∷◌, length, ℤ, negsuc, ◌==ℤ◌,
  ==ℤ_refl, eq_of_==ℤ, arith,
}
use isc_challenge_without_bo.Winsock.{Os, Delivers, socket_error}
use isc_challenge_without_bo.Router.TcpServer.{start_tcp_server}
use isc_challenge_without_bo.Router.State.{State, done, initial}
use isc_challenge_without_bo.Router.Listener.{listen_round}
use isc_challenge_without_bo.Router.Listener.Events.{AcceptsFresh}
use isc_challenge_without_bo.Router.System.{Reached, starts, steps, listens}
use isc_challenge_without_bo.Router.System.Soundness.{Reached-Sound, listen_round-Finishes}
use isc_challenge_without_bo.Router.Start.Staff.{length-start_threads}
use isc_challenge_without_bo.Router.Start.{
  Thread, Started, terminated, listening, leave, start_threads, start_event_listener, start,
}

leave-terminated :
    {W : Type 0} (threads : List Thread) (code : ℤ) (w : W)
    → 0 < length threads
    → leave threads code w ≡ terminated w
leave-terminated [] code w h = absurd (omega arith)
leave-terminated (thread ∷ threads) code w h = refl

-- So many rounds of the event loop, each from the state that the one before left.
pub data Loops (os : Os) (server : ℤ) : ℕ → State os.World → State os.World → Type 0 where
  stays : (st : State os.World) → Loops os server 0 st st
  loops :
      {rounds : ℕ} {st st' st'' : State os.World}
      → listen_round os server st ≡ done tt st'
      → Loops os server rounds st' st''
      → Loops os server (suc rounds) st st''

module _ {os : Os} (d : Delivers os) where
  -- In each of the next rounds, `accept` hands out no socket in use.
  abbrev pub AllFresh : ℕ → ℤ → State os.World → Type 0
  AllFresh zero server st = Unit
  AllFresh (suc rounds) server st =
      AcceptsFresh os server st
      × ((st' : State os.World)
          → listen_round os server st ≡ done tt st'
          → AllFresh rounds server st')

  start_event_listener-Reached :
      (rounds : ℕ) (server : ℤ) (st : State os.World)
      → Reached d server st
      → AllFresh rounds server st
      → (st' : State os.World) × (start_event_listener os rounds server st ≡ done tt st')
        × Loops os server rounds st st'
        × Reached d server st'
  unfolding start_event_listener
  start_event_listener-Reached zero server st reached fresh = (st, refl, stays st, reached)
  start_event_listener-Reached (suc rounds) server st reached fresh =
      let f = listen_round-Finishes os (Reached-Sound d server reached) server fresh.0 in
      let (st', e, loop, reached') =
        start_event_listener-Reached rounds server f.after
          (steps reached (listens fresh.0 f.returned)) (fresh.1 f.after f.returned) in
      (st', rw f.returned e, loops f.returned loop, reached')

  module _ (thread_count : ℕ) (port : ℤ) (rounds : ℕ) (w : os.World) where
    abbrev pub server : ℤ × os.World
    server = start_tcp_server os port w

    -- The server does not start, or it does and the loop has made its rounds.
    pub data Starts (s : Started os.World) : Type 0 where
      aborts : server.0 ≡ socket_error → s ≡ terminated server.1 → Starts s
      goes_on :
          (st' : State os.World)
          → server.0 ≢ socket_error
          → s ≡ listening (start_threads thread_count) (done tt st')
          → Loops os server.0 rounds (initial server.1) st'
          → Reached d server.0 st'
          → Starts s

    -- With `recv` and `send` as documented, one thread or more, and an `accept` that hands out no
    -- socket in use in the rounds: if the server does not start, then the return of -1 destroys
    -- threads that can still be joined, and the program is aborted; if it starts, then with all
    -- threads there, from no session and empty queues, the event loop makes as many rounds as are
    -- asked for, each of which returns and goes on from the state that the one before left, and ends
    -- in a state that the router reaches.
    pub start-Starts :
        0 < thread_count
        → AllFresh rounds server.0 (initial server.1)
        → Starts (start os thread_count port rounds w)
    unfolding start
    start-Starts more fresh =
        let terminates =
          leave-terminated (start_threads thread_count) (negsuc 0) server.1
            (omega (arith, more, length-start_threads thread_count)) in
        elim (Bool-cases (server.0 ==ℤ socket_error)) [
          | inl error ↦ rw (error, terminates) (aborts (eq_of_==ℤ server.0 socket_error error) refl)
          | inr fine ↦
              let (st', e, loop, reached) =
                start_event_listener-Reached rounds server.0 (initial server.1) (starts server.1)
                  fresh in
              rw (fine, e)
                (goes_on st' (λ h. ground (arith, ==ℤ_refl socket_error)) refl loop reached)
        ]
