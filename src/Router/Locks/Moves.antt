-- ===== src/Router/Locks/Moves.antt =====
-- What a move does to the mutexes.
use isc_challenge_without_bo.Prelude.{
  ℕ, ◌≡◌, refl, false, Bool-cases, inl, inr, List, ◌∷◌, Option, none, some, ℤ, ◌==ℤ◌, if◌then◌else◌,
}
use isc_challenge_without_bo.Text.{Bytes}
use isc_challenge_without_bo.Winsock.{Os, socket_error}
use isc_challenge_without_bo.Router.Sessions.{find_session_by_socket, remove_session}
use isc_challenge_without_bo.Router.State.{
  Task, State, Cmd, Run, done, fault, pure, and_then, query, update,
}
use isc_challenge_without_bo.Router.Workers.{read_round, is_positive, send_task}
use isc_challenge_without_bo.Router.Locks.{
  Job, idle, read_waits, read_locks, read_serves, read_ends, write_waits, write_locks, mutex_of,
  is_locked, unlock, Turn, found, begin_reads, begin_writes, second_lookup, advance,
}

-- A move leaves the mutexes, takes a free one, or gives back its own.
pub data Moved (job : Job) (held : List ℕ) (job' : Job) (held' : List ℕ) : Type 0 where
  keeps : mutex_of job' ≡ mutex_of job → held' ≡ held → Moved job held job' held'
  takes :
      (m : ℕ)
      → is_locked m held ≡ false
      → mutex_of job ≡ none
      → mutex_of job' ≡ some m
      → held' ≡ m ∷ held
      → Moved job held job' held'
  gives_back :
      (m : ℕ)
      → mutex_of job ≡ some m
      → mutex_of job' ≡ none
      → held' ≡ unlock m held
      → Moved job held job' held'

module _ {W : Type 0} (job : Job) (held : List ℕ) where
  -- A run that moves so, if it returns.
  abbrev pub Moves : Run W Turn → Type 0
  Moves (done (job', buffer', held') st') = Moved job held job' held'
  Moves (fault f) = Unit

and_then-Moves :
    {W A : Type 0} (job : Job) (held : List ℕ) (r : Run W A) (next : A → Cmd W Turn)
    → ((a : A) (st : State W) → Moves job held (next a st))
    → Moves job held (and_then r next)
and_then-Moves job held (done a st) next h = h a st
and_then-Moves job held (fault f) next h = tt

module _ (os : Os) (buffer : Bytes) (held : List ℕ) where
  second_lookup-Moves :
      (socket : ℤ) (m : ℕ) (o : Option ℕ) (st : State os.World)
      → Moves (read_locks socket m) held (second_lookup os socket m buffer held o st)
  second_lookup-Moves socket m none st = gives_back m refl refl refl
  second_lookup-Moves socket m (some session) st = keeps refl refl

  waits-Moves :
      (job job' : Job) (m : ℕ) (st : State os.World)
      → mutex_of job ≡ none
      → mutex_of job' ≡ some m
      → Moves job held (
          (if is_locked m held then pure (job, buffer, held) else pure (job', buffer, m ∷ held)) st)
  waits-Moves job job' m st e e' = elim (Bool-cases (is_locked m held)) [
    | inl l ↦ rw l (keeps refl refl)
    | inr l ↦ rw l (takes m l e e' refl)
  ]

  -- Behind a round of the loop.
  after_round-Moves :
      (socket : ℤ) (m session : ℕ) (out : ℤ × Bytes) (st : State os.World)
      → Moves (read_serves socket m session) held (
          (if is_positive out.0
              then pure (read_serves socket m session, out.1, held)
              else pure (read_ends socket m out.0, out.1, held))
            st)
  after_round-Moves socket m session out st = elim (Bool-cases (is_positive out.0)) [
    | inl l ↦ rw l (keeps refl refl)
    | inr l ↦ rw l (keeps refl refl)
  ]

  read_ends-Moves :
      (socket : ℤ) (m : ℕ) (bytes_read : ℤ) (st : State os.World)
      → Moves
          (read_ends socket m bytes_read)
          held
          (advance os (read_ends socket m bytes_read) buffer held st)
  unfolding advance
  read_ends-Moves socket m bytes_read st = elim (Bool-cases (bytes_read ==ℤ socket_error)) [
    | inl l ↦ rw l (
        and_then-Moves (read_ends socket m bytes_read) held (update (remove_session socket) st) _
          (λ a st'. gives_back m refl refl refl))
    | inr l ↦ rw l (gives_back m refl refl refl)
  ]

  pub advance-Moves :
      (job : Job) (st : State os.World) → Moves job held (advance os job buffer held st)
  unfolding advance
  advance-Moves idle st = keeps refl refl
  advance-Moves (read_waits socket session) st =
      waits-Moves (read_waits socket session) (read_locks socket session) session st refl refl
  advance-Moves (read_locks socket m) st =
      and_then-Moves (read_locks socket m) held (query (find_session_by_socket socket) st) _
        (second_lookup-Moves socket m)
  advance-Moves (read_serves socket m session) st =
      and_then-Moves (read_serves socket m session) held (read_round os session socket buffer st) _
        (after_round-Moves socket m session)
  advance-Moves (read_ends socket m bytes_read) st = read_ends-Moves socket m bytes_read st
  advance-Moves (write_waits task session) st =
      waits-Moves (write_waits task session) (write_locks task session) session st refl refl
  advance-Moves (write_locks task m) st =
      and_then-Moves (write_locks task m) held (send_task os task (some m) st) _
        (λ a st'. gives_back m refl refl refl)

  found-Moves :
      (waits : ℕ → Job) (o : Option ℕ) (st : State os.World)
      → ((r : ℕ) → mutex_of (waits r) ≡ none)
      → Moves idle held (found os waits buffer held o st)
  found-Moves waits none st h = keeps refl refl
  found-Moves waits (some session) st h = keeps (h session) refl

  pub begin_reads-Moves :
      (socket : ℤ) (st : State os.World) → Moves idle held (begin_reads os socket buffer held st)
  begin_reads-Moves socket st =
      and_then-Moves idle held (query (find_session_by_socket socket) st) _
        (λ o st'. found-Moves (read_waits socket) o st' (λ r. refl))

  pub begin_writes-Moves :
      (task : Task) (st : State os.World) → Moves idle held (begin_writes os task buffer held st)
  begin_writes-Moves task st =
      and_then-Moves idle held (query (find_session_by_socket task.0) st) _
        (λ o st'. found-Moves (write_waits task) o st' (λ r. refl))
