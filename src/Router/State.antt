-- ===== src/Router/State.antt =====
-- The state that the threads of the router share, router/include/router.h, and commands on it. A command
-- runs from one state to the next. Log lines are left out.
use isc_challenge_without_bo.Prelude.{
  Bool, true, false, ◌&&◌, [], ◌∷◌, Option, none, some, Exception, Result, ok, throw, ℤ, ◌==ℤ◌,
  ◌==◌,
}
use isc_challenge_without_bo.Text.{Bytes}
use isc_challenge_without_bo.Router.SignalingQueue.{SignalingQueue, empty_queue}
use isc_challenge_without_bo.Router.Sessions.{Sessions, no_sessions}

-- A write task: a socket and a message.
abbrev pub Task : Type 0
Task = ℤ × Bytes

pub bytes_eq : Bytes → Bytes → Bool
bytes_eq [] [] = true
bytes_eq (a ∷ as') (b ∷ bs) = a == b && bytes_eq as' bs
bytes_eq _ _ = false

pub task_eq : Task → Task → Bool
unfolding bytes_eq
task_eq (s, m) (t, n) = s ==ℤ t && bytes_eq m n

pub record State (W : Type 0) : Type 0 where
  pub sessions : Sessions
  pub ready_read_sockets_queue_ : SignalingQueue ℤ
  pub ready_write_sockets_queue_ : SignalingQueue Task
  pub world : W

unfoldable pub initial : {W : Type 0} → W → State W
initial w = record {
  sessions = no_sessions;
  ready_read_sockets_queue_ = empty_queue;
  ready_write_sockets_queue_ = empty_queue;
  world = w;
}

-- A thread that waits for a mutex of its own, an exception that nothing catches, a loop that did
-- not end within its fuel.
pub data Fault : Type 0 where
  waits_forever : Fault
  uncaught : Exception → Fault
  out_of_fuel : Fault

pub data Run (W A : Type 0) : Type 0 where
  done : A → State W → Run W A
  fault : Fault → Run W A

abbrev pub Cmd : Type 0 → Type 0 → Type 0
Cmd W A = State W → Run W A

abbrev pub pure : {W A : Type 0} → A → Cmd W A
pure = done

module _ {W A B : Type 0} where
  abbrev pub and_then : Run W A → (A → Cmd W B) → Run W B
  and_then (done a st) k = k a st
  and_then (fault f) k = fault f

  infixl 5 ◌>>=◌ ◌>>◌
  abbrev pub ◌>>=◌ : Cmd W A → (A → Cmd W B) → Cmd W B
  m >>= k = λ st. and_then (m st) k

  abbrev pub ◌>>◌ : Cmd W A → Cmd W B → Cmd W B
  m >> n = m >>= λ _. n

module _ {W A : Type 0} where
  -- A lookup in `Sessions`.
  abbrev pub answered : State W → Option A → Run W A
  answered st none = fault waits_forever
  answered st (some a) = done a st

  abbrev pub query : (Sessions → Option A) → Cmd W A
  query find st = answered st (find st.sessions)

  -- A call that may throw.
  abbrev pub catching : Result A → Cmd W A
  catching (ok a) st = done a st
  catching (throw e) st = fault (uncaught e)

module _ {W : Type 0} where
  abbrev pub changed : State W → Option Sessions → Run W (Unit {0})
  changed st none = fault waits_forever
  changed st (some s) = done tt (record st { sessions = s })

  -- A call that changes `Sessions`.
  abbrev pub update : (Sessions → Option Sessions) → Cmd W (Unit {0})
  update call st = changed st (call st.sessions)

module _ {W A : Type 0} where
  -- A field of a session, which is read with no lock.
  abbrev pub look : (Sessions → A) → Cmd W A
  look f st = done (f st.sessions) st

  -- A call of the system.
  abbrev pub system : (W → A × W) → Cmd W A
  system call st = let (a, w) = call st.world in done a (record st { world = w })
