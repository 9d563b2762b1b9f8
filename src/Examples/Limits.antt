-- ===== src/Examples/Limits.antt =====
-- A server with more sockets than a set has room for.
use isc_challenge_without_bo.Prelude.{
  ℕ, zero, suc, ◌<◌, ◌≡◌, refl, false, List, [], ◌∷◌, some, ℤ, pos, ◌==ℤ◌, ==ℤ_iff, contains, arith,
}
use isc_challenge_without_bo.IntMap.{lookup}
use isc_challenge_without_bo.Router.Sessions.{
  Sessions, get_accepted_sockets, find_session_by_socket,
}
use isc_challenge_without_bo.Router.Session.{Session, new_session}
use isc_challenge_without_bo.Router.Sessions.Lists.{Distinct}
use isc_challenge_without_bo.Router.TcpServer
use isc_challenge_without_bo.Router.State.{State, done}
use isc_challenge_without_bo.Router.Listener.{listen_round, reset_fd_set}
use isc_challenge_without_bo.Router.Listener.Limit.{reset_fd_set-take, listen_round-Unheard}
use isc_challenge_without_bo.Examples.{Net, example_os, example_Selects, with_tables}

-- `count` sockets, from `first` on.
abbrev sockets : ℕ → ℕ → List ℤ
sockets zero first = []
sockets (suc count) first = pos first ∷ sockets count (suc first)

eq_of_pos : (a b : ℕ) → pos a ≡ pos b → a ≡ b
eq_of_pos a b h = cc (h)

sockets-contains : (count first k : ℕ) → k < first → contains (pos k) (sockets count first) ≡ false
unfolding contains
sockets-contains zero first k h = refl
sockets-contains (suc count) first k h =
    ground
      (arith, sockets-contains count (suc first) k, ==ℤ_iff (pos first) (pos k), eq_of_pos first k)

sockets-Distinct : (count first : ℕ) → Distinct (sockets count first)
sockets-Distinct zero first = tt
sockets-Distinct (suc count) first =
    (sockets-contains count (suc first) first (omega arith), sockets-Distinct count (suc first))

abbrev connections : ℕ → ℕ → List Session
connections zero first = []
connections (suc count) first = new_session (pos first) ∷ connections count (suc first)

abbrev positions : ℕ → ℕ → ℕ → List (ℤ × ℕ)
positions zero first r = []
positions (suc count) first r = (pos first, r) ∷ positions count (suc first) (suc r)

-- The server's socket is 99; the 64 clients have 100 to 163, the last of which has data.
abbrev crowd : Sessions
crowd = record {
  store = connections 64 100;
  sessions_by_socket_ = positions 64 100 0;
  sessions_by_id_ = [];
  accepted_clients_ = sockets 64 100;
  locked = false;
}

abbrev crowded : State Net
crowded = with_tables crowd (record {
  stream = λ s. 1 ∷ [];
  ready = some (pos 100 ∷ pos 163 ∷ []);
  next = pos 200;
  sent = [];
})

reset_fd_set-take_example : (reset_fd_set example_os (pos 99) (sockets 64 100)).0 ≡ sockets 64 99
reset_fd_set-take_example =
    reset_fd_set-take example_Selects (pos 99) (sockets 64 100) (sockets-Distinct 65 99)

listen_round-Unheard_example :
    (st' : State Net) × (listen_round example_os (pos 99) crowded ≡ done tt st')
    × (contains (pos 163) st'.ready_read_sockets_queue_.m_queue ≡ contains (pos 163) [])
unfolding get_accepted_sockets find_session_by_socket contains ◌==ℤ◌ lookup TcpServer.accept_client
listen_round-Unheard_example =
    listen_round-Unheard example_Selects (pos 99) crowded (λ _. refl) (pos 163)
      (sockets-Distinct 65 99) refl
