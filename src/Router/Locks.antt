-- ===== src/Router/Locks.antt =====
-- The mutexes of the sessions, router/include/session.h, in `do_reads` and `do_writes` of
-- router/src/router.cpp: the two handlers cut into the moves between which another thread may run.
pub mod Holders
pub mod Moves
pub mod Turns
pub mod Alone
pub mod Handlers
pub mod Objects
pub mod Opening
pub mod Keeping
pub mod Places
pub mod Sockets
use isc_challenge_without_bo.Prelude.{
  ℕ, zero, suc, Bool, true, false, List, [], ◌∷◌, Option, none, some, ℤ, ◌==ℤ◌, ◌==◌, if◌then◌else◌,
  length, set, get_elem?,
}
use isc_challenge_without_bo.Text.{Bytes}
use isc_challenge_without_bo.Winsock.{Os, socket_error}
use isc_challenge_without_bo.Router.Sessions.{find_session_by_socket, remove_session}
use isc_challenge_without_bo.Router.State.{
  Task, State, Cmd, Run, done, fault, out_of_fuel, pure, ◌>>=◌, ◌>>◌, query, update,
}
use isc_challenge_without_bo.Router.Workers.{read_round, is_positive, send_task}

-- Where a worker is: in neither handler; with a session, before its mutex; with the mutex of a session, before
-- the second lookup; in the loop, for the session of that lookup; behind the loop, with its last
-- result; with a task and a session, before its mutex; with the mutex.
pub data Job : Type 0 where
  idle : Job
  read_waits read_locks : ℤ → ℕ → Job
  read_serves : ℤ → ℕ → ℕ → Job
  read_ends : ℤ → ℕ → ℤ → Job
  write_waits write_locks : Task → ℕ → Job

-- The session whose mutex a worker holds.
abbrev pub mutex_of : Job → Option ℕ
mutex_of (read_locks socket mutex) = some mutex
mutex_of (read_serves socket mutex session) = some mutex
mutex_of (read_ends socket mutex bytes_read) = some mutex
mutex_of (write_locks task mutex) = some mutex
mutex_of _ = none

-- The mutexes that are held.
abbrev pub is_locked : ℕ → List ℕ → Bool
is_locked mutex [] = false
is_locked mutex (m ∷ held) = if m == mutex then true else is_locked mutex held

abbrev pub unlock : ℕ → List ℕ → List ℕ
unlock mutex [] = []
unlock mutex (m ∷ held) = if m == mutex then held else m ∷ unlock mutex held

-- What a move leaves: where the worker is, its buffer, and the mutexes that are held.
abbrev pub Turn : Type 0
Turn = Job × Bytes × List ℕ

module _ (os : Os) where
  open os use {World}

  -- A move from a first lookup, of a reader or a writer.
  abbrev pub found : (ℕ → Job) → Bytes → List ℕ → Option ℕ → Cmd World Turn
  found waits buffer held none = pure (idle, buffer, held)
  found waits buffer held (some session) = pure (waits session, buffer, held)

  abbrev pub begin_reads : ℤ → Bytes → List ℕ → Cmd World Turn
  begin_reads socket buffer held = do
    src_session ← query (find_session_by_socket socket)
    found (read_waits socket) buffer held src_session

  abbrev pub begin_writes : Task → Bytes → List ℕ → Cmd World Turn
  begin_writes (socket, msg) buffer held = do
    dst_session ← query (find_session_by_socket socket)
    found (write_waits (socket, msg)) buffer held dst_session

  abbrev pub second_lookup : ℤ → ℕ → Bytes → List ℕ → Option ℕ → Cmd World Turn
  second_lookup socket mutex buffer held none = pure (idle, buffer, unlock mutex held)
  second_lookup socket mutex buffer held (some session) =
      pure (read_serves socket mutex session, buffer, held)

  -- A worker that waits for a mutex which is held stays where it is.
  unfoldable pub advance : Job → Bytes → List ℕ → Cmd World Turn
  advance idle buffer held = pure (idle, buffer, held)
  advance (read_waits socket session) buffer held =
      if is_locked session held
      then pure (read_waits socket session, buffer, held)
      else pure (read_locks socket session, buffer, session ∷ held)
  advance (read_locks socket mutex) buffer held = do
    src_session ← query (find_session_by_socket socket)
    second_lookup socket mutex buffer held src_session
  advance (read_serves socket mutex session) buffer held = do
    (bytes_read, buffer') ← read_round os session socket buffer
    if is_positive bytes_read
        then pure (read_serves socket mutex session, buffer', held)
        else pure (read_ends socket mutex bytes_read, buffer', held)
  advance (read_ends socket mutex bytes_read) buffer held =
      if bytes_read ==ℤ socket_error
      then (do update (remove_session socket); pure (idle, buffer, unlock mutex held))
      else pure (idle, buffer, unlock mutex held)
  advance (write_waits task session) buffer held =
      if is_locked session held
      then pure (write_waits task session, buffer, held)
      else pure (write_locks task session, buffer, session ∷ held)
  advance (write_locks task mutex) buffer held = do
    send_task os task (some mutex)
    pure (idle, buffer, unlock mutex held)
