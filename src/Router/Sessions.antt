-- ===== src/Router/Sessions.antt =====
-- The class `Sessions` of router/include/sessions.h and router/src/sessions.cpp: its static members
-- as a record, and a call as a function of it. `none` is a call that waits for ever, for a mutex that
-- its own thread holds.
pub mod Lists
pub mod Invariant
pub mod Calls
pub mod Reachable
pub mod Directory
pub mod Refinement
pub mod Effects
pub mod Defects
use isc_challenge_without_bo.Prelude.{
  ℕ, Bool, true, false, not, List, [], ◌∷◌, ◌++◌, Option, none, some, ℤ, ◌==ℤ◌, lt_pos,
  if◌then◌else◌, length,
}
unfoldable pub use isc_challenge_without_bo.Prelude.{contains}
use isc_challenge_without_bo.IntMap.{lookup, assign, erase}
use isc_challenge_without_bo.Router.Session.{Session, new_session, no_id, get_id, set_id}

-- `MAX_CLIENTS_COUNT`
abbrev pub max_clients_count : ℕ
max_clients_count = 999

pub record Sessions : Type 0 where
  pub store : List Session
  pub sessions_by_socket_ : List (ℤ × ℕ)
  pub sessions_by_id_ : List (ℤ × ℕ)
  pub accepted_clients_ : List ℤ
  -- whether the thread that calls holds `sessions_mutex_`
  pub locked : Bool

abbrev pub no_sessions : Sessions
no_sessions = record {
  store = [];
  sessions_by_socket_ = [];
  sessions_by_id_ = [];
  accepted_clients_ = [];
  locked = false;
}

-- `std::unique_lock` for the time of `body`
abbrev pub exclusively : (Sessions → Option Sessions) → Sessions → Option Sessions
exclusively body s = if s.locked then none else elim (body (record s { locked = true })) [
  | none ↦ none
  | some s' ↦ some (record s' { locked = false })
]

-- `std::shared_lock` for the time of `body`
abbrev pub shared {ℓ} : {A : Type ℓ} → (Sessions → A) → Sessions → Option A
shared body s = if s.locked then none else some (body s)

abbrev pub is_some {ℓ} : {A : Type ℓ} → Option A → Bool
is_some none = false
is_some (some _) = true

-- `v.erase(std::find(v.begin(), v.end(), x))`, if it is found
unfoldable pub erase_first : ℤ → List ℤ → List ℤ
erase_first k [] = []
erase_first k (x ∷ xs) = if x ==ℤ k then xs else x ∷ erase_first k xs

-- The body of `removeSession`. The `operator[]` of the source that enters a null session under an id
-- not yet there is followed by the erasure of that id.
unfoldable pub remove_entry : ℤ → Option ℕ → Sessions → Sessions
remove_entry socket none s = s
remove_entry socket (some session) s =
    let id = get_id s.store session in
    record s {
      sessions_by_socket_ = erase socket s.sessions_by_socket_;
      sessions_by_id_ = if id ==ℤ no_id then s.sessions_by_id_ else erase id s.sessions_by_id_;
    }

unfoldable pub remove_locked : ℤ → Sessions → Sessions
unfolding remove_entry
remove_locked socket s =
    let s' = remove_entry socket (lookup socket s.sessions_by_socket_) s in
    record s' { accepted_clients_ = erase_first socket s'.accepted_clients_ }

unfoldable pub remove_session : ℤ → Sessions → Option Sessions
unfolding remove_locked
remove_session socket = exclusively λ s. some (remove_locked socket s)

-- The body of `accept_client`, which calls `removeSession` with the mutex held.
unfoldable pub note_accepted : ℤ → Sessions → Sessions
note_accepted client_socket s =
    if contains client_socket s.accepted_clients_
    then s
    else record s { accepted_clients_ = s.accepted_clients_ ++ client_socket ∷ [] }

unfoldable pub enter_session : ℤ → Sessions → Sessions
enter_session client_socket s = record s {
  store = s.store ++ new_session client_socket ∷ [];
  sessions_by_socket_ = assign client_socket (length s.store) s.sessions_by_socket_;
}

unfoldable pub accept_locked : ℤ → Sessions → Option Sessions
unfolding note_accepted enter_session remove_session
accept_locked client_socket s =
    let s' = note_accepted client_socket s in
    let again = remove_session client_socket s' in
    let ready = if is_some (lookup client_socket s'.sessions_by_socket_) then again else some s' in
    elim ready [ none ↦ none | some s'' ↦ some (enter_session client_socket s'') ]

unfoldable pub accept_client : ℤ → Sessions → Option Sessions
unfolding accept_locked
accept_client client_socket = exclusively (accept_locked client_socket)

-- The body of `add_node`.
unfoldable pub add_entry : ℤ → Option ℕ → Sessions → Sessions
add_entry node_id none s = s
add_entry node_id (some session) s =
    if not (lt_pos node_id max_clients_count) then s else record s {
      store = set_id s.store session node_id;
      sessions_by_id_ = assign node_id session s.sessions_by_id_;
    }

unfoldable pub add_locked : ℤ → ℤ → Sessions → Sessions
unfolding add_entry
add_locked client_socket node_id s =
    add_entry node_id (lookup client_socket s.sessions_by_socket_) s

unfoldable pub add_node : ℤ → ℤ → Sessions → Option Sessions
unfolding add_locked
add_node client_socket node_id = exclusively λ s. some (add_locked client_socket node_id s)

unfoldable pub find_session_by_socket : ℤ → Sessions → Option (Option ℕ)
find_session_by_socket client_socket = shared λ s. lookup client_socket s.sessions_by_socket_

unfoldable pub find_session_by_id : ℤ → Sessions → Option (Option ℕ)
find_session_by_id node_id = shared λ s. lookup node_id s.sessions_by_id_

unfoldable pub get_accepted_sockets : Sessions → List ℤ
get_accepted_sockets s = s.accepted_clients_
