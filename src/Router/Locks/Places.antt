-- ===== src/Router/Locks/Places.antt =====
-- The sockets of the workers of router/src/router.cpp, and what a move does to them.
use isc_challenge_without_bo.Prelude.{
  ℕ, Bool, true, false, ◌≡◌, refl, List, ◌∷◌, Option, none, some, ℤ, ◌==ℤ◌, if◌then◌else◌,
}
use isc_challenge_without_bo.Text.{Bytes}
use isc_challenge_without_bo.IntMap.{lookup}
use isc_challenge_without_bo.Winsock.{Os, socket_error}
use isc_challenge_without_bo.Router.Sessions.{Sessions, find_session_by_socket, remove_session}
use isc_challenge_without_bo.Router.State.{
  Task, State, Run, Cmd, done, fault, pure, and_then, answered, query, update,
}
use isc_challenge_without_bo.Router.Workers.{read_round, is_positive, send_task}
use isc_challenge_without_bo.Router.Locks.{
  Job, idle, read_waits, read_locks, read_serves, read_ends, write_waits, write_locks, is_locked,
  unlock, Turn, found, begin_reads, begin_writes, second_lookup, advance,
}
use isc_challenge_without_bo.Router.Locks.Turns.{}
use isc_challenge_without_bo.Router.Locks.Objects.{At, Grows, Grows-same, Kept, query-Kept}
use isc_challenge_without_bo.Router.Locks.Keeping.{read_round-Kept, remove-Kept, send_task-Kept}

-- The socket that a worker reads or writes, and the session that it found for it.
abbrev pub place : Job → Option (ℤ × ℕ)
place idle = none
place (read_waits socket mutex) = some (socket, mutex)
place (read_locks socket mutex) = some (socket, mutex)
place (read_serves socket mutex session) = some (socket, mutex)
place (read_ends socket mutex bytes_read) = some (socket, mutex)
place (write_waits task mutex) = some (task.0, mutex)
place (write_locks task mutex) = some (task.0, mutex)

-- That session is one of this socket.
abbrev pub Placed : Sessions → Option (ℤ × ℕ) → Type 0
Placed s none = Unit
Placed s (some (k, r)) = At s k r

abbrev pub Leading : Sessions → Type 0
Leading s = (k : ℤ) (r : ℕ) → lookup k s.sessions_by_socket_ ≡ some r → At s k r

-- A move keeps the session objects, and the worker stays with a session of its socket.
abbrev pub Stays : {W : Type 0} → Sessions → Job → Run W Turn → Type 0
Stays s job (done (job', buffer, held) st) =
    Grows s st.sessions × (Leading s → Placed s (place job) → Placed st.sessions (place job'))
Stays s job (fault f) = Unit

pub Placed-kept :
    (s t : Sessions) (o : Option (ℤ × ℕ))
    → ((k : ℤ) (r : ℕ) → At s k r → At t k r)
    → Placed s o
    → Placed t o
Placed-kept s t none keeps h = tt
Placed-kept s t (some (k, r)) keeps h = keeps k r h

and_then-Stays :
    {W A : Type 0} (job : Job) (s : Sessions) (r : Run W A) (next : A → Cmd W Turn)
    → Kept s r
    → ((a : A) (st : State W) → Grows s st.sessions → Stays s job (next a st))
    → Stays s job (and_then r next)
and_then-Stays job s (done a st) next g h = h a st g
and_then-Stays job s (fault f) next g h = tt

if-Stays :
    {W : Type 0} (s : Sessions) (job : Job) (b : Bool) (r r' : Cmd W Turn) (st : State W)
    → Stays s job (r st)
    → Stays s job (r' st)
    → Stays s job ((if b then r else r') st)
if-Stays s job true r r' st h h' = h
if-Stays s job false r r' st h h' = h'

module _ (os : Os) (buffer : Bytes) (held : List ℕ) where
  -- A move to a job with the same session, or to none.
  pure-Stays :
      (job job' : Job) (held' : List ℕ) (buffer' : Bytes) (s : Sessions) (st : State os.World)
      → Grows s st.sessions
      → place job' ≡ place job
      → Stays s job (done (job', buffer', held') st)
  pure-Stays job job' held' buffer' s st g e =
      (g, λ l h. Placed-kept s st.sessions (place job') g.keeps (rw e h))

  idle-Stays :
      (job : Job) (held' : List ℕ) (s : Sessions) (st : State os.World)
      → Grows s st.sessions
      → Stays s job (done (idle, buffer, held') st)
  idle-Stays job held' s st g = (g, λ l h. tt)

  second_lookup-Stays :
      (socket : ℤ) (m : ℕ) (s : Sessions) (o : Option ℕ) (st : State os.World)
      → Grows s st.sessions
      → Stays s (read_locks socket m) (second_lookup os socket m buffer held o st)
  second_lookup-Stays socket m s none st g = idle-Stays (read_locks socket m) (unlock m held) s st g
  second_lookup-Stays socket m s (some session) st g =
      pure-Stays (read_locks socket m) (read_serves socket m session) held buffer s st g refl

  waits-Stays :
      (job job' : Job) (m : ℕ) (st : State os.World)
      → place job' ≡ place job
      → Stays st.sessions job (
          (if is_locked m held then pure (job, buffer, held) else pure (job', buffer, m ∷ held)) st)
  waits-Stays job job' m st e =
      let same = Grows-same st.sessions in
      if-Stays st.sessions job (is_locked m held) _ _ st
        (pure-Stays job job held buffer st.sessions st same refl)
        (pure-Stays job job' (m ∷ held) buffer st.sessions st same e)

  pub advance-Stays :
      (job : Job) (st : State os.World) → Stays st.sessions job (advance os job buffer held st)
  unfolding advance
  advance-Stays idle st = idle-Stays idle held st.sessions st (Grows-same st.sessions)
  advance-Stays (read_waits socket session) st =
      waits-Stays (read_waits socket session) (read_locks socket session) session st refl
  advance-Stays (read_locks socket m) st =
      and_then-Stays (read_locks socket m) st.sessions (query (find_session_by_socket socket) st) _
        (query-Kept st (find_session_by_socket socket st.sessions))
        (second_lookup-Stays socket m st.sessions)
  advance-Stays (read_serves socket m session) st =
      let job = read_serves socket m session in
      and_then-Stays job st.sessions (read_round os session socket buffer st) _
        (read_round-Kept os session socket buffer st)
        (λ out st' g.
          if-Stays st.sessions job (is_positive out.0) _ _ st'
            (pure-Stays job job held out.1 st.sessions st' g refl)
            (pure-Stays job (read_ends socket m out.0) held out.1 st.sessions st' g refl))
  advance-Stays (read_ends socket m bytes_read) st =
      let job = read_ends socket m bytes_read in
      if-Stays st.sessions job (bytes_read ==ℤ socket_error) _ _ st
        (and_then-Stays job st.sessions (update (remove_session socket) st) _
          (remove-Kept os socket st) (λ a st' g. idle-Stays job (unlock m held) st.sessions st' g))
        (idle-Stays job (unlock m held) st.sessions st (Grows-same st.sessions))
  advance-Stays (write_waits task session) st =
      waits-Stays (write_waits task session) (write_locks task session) session st refl
  advance-Stays (write_locks task m) st =
      and_then-Stays (write_locks task m) st.sessions (send_task os task (some m) st) _
        (send_task-Kept os task (some m) st)
        (λ a st' g. idle-Stays (write_locks task m) (unlock m held) st.sessions st' g)

  found-Stays :
      (waits : ℕ → Job) (socket : ℤ) (o : Option ℕ) (st : State os.World)
      → ((r : ℕ) → place (waits r) ≡ some (socket, r))
      → lookup socket st.sessions.sessions_by_socket_ ≡ o
      → Stays st.sessions idle (found os waits buffer held o st)
  found-Stays waits socket none st h e =
      idle-Stays idle held st.sessions st (Grows-same st.sessions)
  found-Stays waits socket (some r) st h e =
      (Grows-same st.sessions, λ l u. rw (h r) (l socket r e))

  asked-Stays :
      (waits : ℕ → Job) (socket : ℤ) (o : Option ℕ) (b : Bool) (st : State os.World)
      → ((r : ℕ) → place (waits r) ≡ some (socket, r))
      → lookup socket st.sessions.sessions_by_socket_ ≡ o
      → Stays st.sessions idle
          (and_then (answered st (if b then none else some o)) (found os waits buffer held))
  asked-Stays waits socket o true st h e = tt
  asked-Stays waits socket o false st h e = found-Stays waits socket o st h e

  pub begin_reads-Stays :
      (socket : ℤ) (st : State os.World)
      → Stays st.sessions idle (begin_reads os socket buffer held st)
  unfolding find_session_by_socket
  begin_reads-Stays socket st =
      asked-Stays (read_waits socket) socket (lookup socket st.sessions.sessions_by_socket_)
        st.sessions.locked st (λ r. refl) refl

  pub begin_writes-Stays :
      (task : Task) (st : State os.World)
      → Stays st.sessions idle (begin_writes os task buffer held st)
  unfolding find_session_by_socket
  begin_writes-Stays task st =
      asked-Stays (write_waits task) task.0 (lookup task.0 st.sessions.sessions_by_socket_)
        st.sessions.locked st (λ r. refl) refl
