-- ===== src/Router/Locks/Sockets.antt =====
-- The mutexes of the sessions, router/include/session.h, as the sockets see them.
use isc_challenge_without_bo.Prelude.{
  ℕ, zero, suc, sym, ◌≡◌, refl, List, [], ◌∷◌, Option, none, some, ℤ, set, get_elem?, All, arith,
}
use mathlib.Core.Path.{subst}
use isc_challenge_without_bo.Text.{Bytes}
use isc_challenge_without_bo.IntMap.{lookup}
use isc_challenge_without_bo.Winsock.{Os}
use isc_challenge_without_bo.Router.Sessions.{Sessions, no_sessions, accept_client}
use isc_challenge_without_bo.Router.State.{State, Run, done}
use isc_challenge_without_bo.Router.Locks.{
  Job, idle, read_locks, read_serves, read_ends, write_locks, mutex_of, Turn,
}
use isc_challenge_without_bo.Router.Locks.Turns.{
  Config, after, Step, advances, reads, writes, elsewhere, Turned, starts, steps, Turned-alone,
}
use isc_challenge_without_bo.Router.Locks.Objects.{At}
use isc_challenge_without_bo.Router.Locks.Opening.{Sole, accept_client-Opened}
use isc_challenge_without_bo.Router.Locks.Places.{
  place, Placed, Leading, Stays, Placed-kept, advance-Stays, begin_reads-Stays, begin_writes-Stays,
}

-- What the rest of the router does: the event loop accepts a connection, whose socket no session
-- object is for, since the router closes no socket; or nothing is done to the sessions. The queues
-- and the system change to anything.
pub data Elsewhere {W : Type 0} (st : State W) : State W → Type 0 where
  accepts :
      (client : ℤ) (st' : State W)
      → accept_client client st.sessions ≡ some st'.sessions
      → ((r : ℕ) → At st.sessions client r → ⊥)
      → Elsewhere st st'
  others : (st' : State W) → st'.sessions ≡ st.sessions → Elsewhere st st'

-- Each worker has a session of its socket, the table leads to such sessions, and each socket has one
-- session object at most.
pub record Standing {W : Type 0} (c : Config W) : Type 0 where
  pub leading : Leading c.state.sessions
  pub sole : (k : ℤ) → Sole c.state.sessions k
  pub placed : All (λ w. Placed c.state.sessions (place w.0)) c.workers

idle-Placed :
    (s : Sessions) (workers : List (Job × Bytes))
    → All (λ w. w.0 ≡ idle) workers
    → All (λ w. Placed s (place w.0)) workers
idle-Placed s [] a = tt
idle-Placed s (w ∷ workers) (e, a) = (rw e tt, idle-Placed s workers a)

All-Placed-kept :
    (s t : Sessions) (workers : List (Job × Bytes))
    → ((k : ℤ) (r : ℕ) → At s k r → At t k r)
    → All (λ w. Placed s (place w.0)) workers
    → All (λ w. Placed t (place w.0)) workers
All-Placed-kept s t [] keeps a = tt
All-Placed-kept s t (w ∷ workers) keeps (p, a) =
    (Placed-kept s t (place w.0) keeps p, All-Placed-kept s t workers keeps a)

Placed-set :
    (s : Sessions) (workers : List (Job × Bytes)) (i : ℕ) (w : Job × Bytes)
    → All (λ v. Placed s (place v.0)) workers
    → Placed s (place w.0)
    → All (λ v. Placed s (place v.0)) (set workers i w)
Placed-set s [] i w a p = tt
Placed-set s (v ∷ workers) zero w (q, a) p = (p, a)
Placed-set s (v ∷ workers) (suc i) w (q, a) p = (q, Placed-set s workers i w a p)

Placed-get :
    (s : Sessions) (workers : List (Job × Bytes)) (i : ℕ) (w : Job × Bytes)
    → All (λ v. Placed s (place v.0)) workers
    → get_elem? workers i ≡ some w
    → Placed s (place w.0)
Placed-get s [] i w a e = absurd (cc (e))
Placed-get s (v ∷ workers) zero w (q, a) e =
    let same : v ≡ w = cc (e) in subst (λ v. Placed s (place v.0)) same q
Placed-get s (v ∷ workers) (suc i) w (q, a) e = Placed-get s workers i w a e

after-Standing :
    {W : Type 0} (c : Config W) (i : ℕ) (job : Job) (buffer : Bytes) (turn : Turn) (st : State W)
    (r : Run W Turn)
    → Standing c
    → get_elem? c.workers i ≡ some (job, buffer)
    → Stays c.state.sessions job r
    → r ≡ done turn st
    → Standing (after c i turn st)
after-Standing c i job buffer turn st r h here stays e =
    let (g, p) = subst (Stays c.state.sessions job) e stays in
    let own = Placed-get c.state.sessions c.workers i (job, buffer) h.placed here in
    record {
      leading = g.leads h.leading;
      sole = λ k r r' a a'. h.sole k r r' (g.back k r a) (g.back k r' a');
      placed =
          Placed-set st.sessions c.workers i (turn.0, turn.1)
            (All-Placed-kept c.state.sessions st.sessions c.workers g.keeps h.placed)
            (p h.leading own);
    }

Elsewhere-Standing :
    {W : Type 0} {c : Config W} {st : State W}
    → Standing c
    → Elsewhere c.state st
    → Standing (record c { state = st })
Elsewhere-Standing {W} {c} h (accepts client st e fresh) =
    let opened =
      accept_client-Opened client c.state.sessions st.sessions e h.leading h.sole fresh in
    record {
      leading = opened.leads;
      sole = opened.sole;
      placed = All-Placed-kept c.state.sessions st.sessions c.workers opened.keeps h.placed;
    }
Elsewhere-Standing {W} {c} h (others st e) = record {
  leading = subst Leading (sym e) h.leading;
  sole = subst (λ s. (k : ℤ) → Sole s k) (sym e) h.sole;
  placed = subst (λ s. All (λ w. Placed s (place w.0)) c.workers) (sym e) h.placed;
}

no_sessions-Leading : Leading no_sessions
unfolding lookup
no_sessions-Leading k r e = absurd (cc (e))

no_sessions-Sole : (k : ℤ) → Sole no_sessions k
no_sessions-Sole k r r' h h' = absurd (omega (arith, h.0))

module _ {os : Os} where
  Step-Standing : {c c' : Config os.World} → Standing c → Step os Elsewhere c c' → Standing c'
  Step-Standing {c} h (advances i {job} {buffer} {turn} {st} here e) =
      after-Standing c i job buffer turn st _ h here (advance-Stays os buffer c.held job c.state) e
  Step-Standing {c} h (reads i socket {buffer} {turn} {st} here e) =
      after-Standing c i idle buffer turn st _ h here
        (begin_reads-Stays os buffer c.held socket c.state) e
  Step-Standing {c} h (writes i task {buffer} {turn} {st} here e) =
      after-Standing c i idle buffer turn st _ h here
        (begin_writes-Stays os buffer c.held task c.state) e
  Step-Standing h (elsewhere st change) = Elsewhere-Standing h change

  Turned-Standing :
      {c : Config os.World} → Turned os (λ st. st.sessions ≡ no_sessions) Elsewhere c → Standing c
  Turned-Standing (starts st workers none_yet a) = record {
    leading = subst Leading (sym none_yet) no_sessions-Leading;
    sole = subst (λ s. (k : ℤ) → Sole s k) (sym none_yet) no_sessions-Sole;
    placed = idle-Placed st.sessions workers a;
  }
  Turned-Standing (steps t s) = Step-Standing (Turned-Standing t) s

-- The socket that a worker reads or writes behind a mutex.
abbrev pub serves : Job → Option ℤ
serves (read_locks socket mutex) = some socket
serves (read_serves socket mutex session) = some socket
serves (read_ends socket mutex bytes_read) = some socket
serves (write_locks task mutex) = some (task.0)
serves _ = none

serves-mutex_of :
    (s : Sessions) (k : ℤ) (job : Job)
    → serves job ≡ some k
    → Placed s (place job)
    → (r : ℕ) × (mutex_of job ≡ some r) × At s k r
serves-mutex_of s k (read_locks socket mutex) e p =
    let same : socket ≡ k = cc (e) in (mutex, refl, subst (λ j. At s j mutex) same p)
serves-mutex_of s k (read_serves socket mutex session) e p =
    let same : socket ≡ k = cc (e) in (mutex, refl, subst (λ j. At s j mutex) same p)
serves-mutex_of s k (read_ends socket mutex bytes_read) e p =
    let same : socket ≡ k = cc (e) in (mutex, refl, subst (λ j. At s j mutex) same p)
serves-mutex_of s k (write_locks task mutex) e p =
    let same : task.0 ≡ k = cc (e) in (mutex, refl, subst (λ j. At s j mutex) same p)
serves-mutex_of s k _ e p = absurd (cc (e))

-- From a start with no session, however the workers take turns, and whatever connections are accepted
-- between their moves on sockets that no session object is for, no two workers receive from or send
-- to one socket at a time behind the mutexes of its session objects.
pub Turned-sockets :
    {os : Os} {c : Config os.World}
    → Turned os (λ st. st.sessions ≡ no_sessions) Elsewhere c
    → (socket : ℤ) → (i k : ℕ) (w v : Job × Bytes) → get_elem? c.workers i ≡ some w
    → get_elem? c.workers k ≡ some v
    → serves w.0 ≡ some socket
    → serves v.0 ≡ some socket
    → i ≡ k
Turned-sockets {os} {c} t socket i k w v here there e e' =
    let s = c.state.sessions in
    let placed = (Turned-Standing t).placed in
    let (r, m, a) = serves-mutex_of s socket w.0 e (Placed-get s c.workers i w placed here) in
    let (r', m', a') = serves-mutex_of s socket v.0 e' (Placed-get s c.workers k v placed there) in
    Turned-alone t r i k w v here there m (rw ((Turned-Standing t).sole socket r r' a a') m')
