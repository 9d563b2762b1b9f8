-- ===== src/Router/Locks/Objects.antt =====
-- The session objects under `add_node` and `removeSession`, router/src/sessions.cpp, and what a command of
-- router/src/router.cpp that calls only these does to them.
use isc_challenge_without_bo.Prelude.{
  ℕ, ◌<◌, ◌≡◌, sym, ◌∙◌, Bool, true, false, Bool-cases, inl, inr, Option, none, some, Result, ok,
  throw, ℤ, if◌then◌else◌, length, lt_pos, arith,
}
use isc_challenge_without_bo.IntMap.{lookup, lookup-erase}
use isc_challenge_without_bo.Router.Session.{get_socket, set_id, get_socket-set_id, length-set_id}
use isc_challenge_without_bo.Router.Sessions.{
  Sessions, exclusively, add_node, add_entry, add_locked, remove_session, remove_entry,
  remove_locked,
}
use isc_challenge_without_bo.Router.State.{
  State, Run, Cmd, done, fault, and_then, answered, catching, changed,
}

-- The object is there and has this socket.
abbrev pub At : Sessions → ℤ → ℕ → Type 0
At s k r = (r < length s.store) × (get_socket s.store r ≡ k)

-- The objects and their sockets are as before, and the table of sockets leads to objects of their sockets if
-- it did.
pub record Grows (s s' : Sessions) : Type 0 where
  pub keeps : (k : ℤ) (r : ℕ) → At s k r → At s' k r
  pub leads :
      ((k : ℤ) (r : ℕ) → lookup k s.sessions_by_socket_ ≡ some r → At s k r)
      → (k : ℤ) (r : ℕ) → lookup k s'.sessions_by_socket_ ≡ some r
      → At s' k r
  pub back : (k : ℤ) (r : ℕ) → At s' k r → At s k r

pub Grows-same : (s : Sessions) → Grows s s
Grows-same s = record { keeps = λ k r h. h; leads = λ h. h; back = λ k r h. h }

Grows-trans : {s t u : Sessions} → Grows s t → Grows t u → Grows s u
Grows-trans g h = record {
  keeps = λ k r a. h.keeps k r (g.keeps k r a);
  leads = λ a. h.leads (g.leads a);
  back = λ k r a. g.back k r (h.back k r a);
}

set_id-At :
    (s : Sessions) (q : ℕ) (id k : ℤ) (r : ℕ)
    → At s k r
    → (r < length (set_id s.store q id)) × (get_socket (set_id s.store q id) r ≡ k)
set_id-At s q id k r h =
    (omega (arith, h.0, length-set_id s.store q id), get_socket-set_id s.store q r id ∙ h.1)

set_id-back :
    (s : Sessions) (q : ℕ) (id k : ℤ) (r : ℕ)
    → (r < length (set_id s.store q id)) × (get_socket (set_id s.store q id) r ≡ k)
    → At s k r
set_id-back s q id k r h =
    (omega (arith, h.0, length-set_id s.store q id), sym (get_socket-set_id s.store q r id) ∙ h.1)

add_entry-Grows : (id : ℤ) (o : Option ℕ) (s : Sessions) → Grows s (add_entry id o s)
unfolding add_entry
add_entry-Grows id none s = Grows-same s
add_entry-Grows id (some q) s = elim (Bool-cases (lt_pos id 999)) [
  | inl small ↦ rw small (record {
    keeps = λ k r h. set_id-At s q id k r h;
    leads = λ h k r e. set_id-At s q id k r (h k r e);
    back = λ k r h. set_id-back s q id k r h;
  })
  | inr large ↦ rw large (Grows-same s)
]

remove_entry-Grows : (k : ℤ) (o : Option ℕ) (s : Sessions) → Grows s (remove_entry k o s)
unfolding remove_entry
remove_entry-Grows k none s = Grows-same s
remove_entry-Grows k (some q) s = record {
  keeps = λ j r h. h;
  leads = λ h j r e. h j r (ground (arith, lookup-erase k j s.sessions_by_socket_));
  back = λ j r h. h;
}

-- A run that returns has kept the objects.
abbrev pub Kept : {W A : Type 0} → Sessions → Run W A → Type 0
Kept s (done a st) = Grows s st.sessions
Kept s (fault f) = Unit

-- A call that returns has.
abbrev pub Grown : Sessions → Option Sessions → Type 0
Grown s none = Unit
Grown s (some t) = Grows s t

Kept-after : {W A : Type 0} {s t : Sessions} (r : Run W A) → Grows s t → Kept t r → Kept s r
Kept-after (done a st) g h = Grows-trans g h
Kept-after (fault f) g h = tt

module _ {W : Type 0} where
  pub and_then-Kept :
      {A B : Type 0} (s : Sessions) (r : Run W A) (next : A → Cmd W B)
      → Kept s r
      → ((a : A) (st : State W) → Kept st.sessions (next a st))
      → Kept s (and_then r next)
  and_then-Kept s (done a st) next g h = Kept-after (next a st) g (h a st)
  and_then-Kept s (fault f) next g h = tt

  pub query-Kept : {A : Type 0} (st : State W) (o : Option A) → Kept st.sessions (answered st o)
  query-Kept st none = tt
  query-Kept st (some a) = Grows-same st.sessions

  pub catching-Kept : {A : Type 0} (st : State W) (r : Result A) → Kept st.sessions (catching r st)
  catching-Kept st (ok a) = Grows-same st.sessions
  catching-Kept st (throw e) = tt

  pub changed-Kept :
      (st : State W) (o : Option Sessions) → Grown st.sessions o → Kept st.sessions (changed st o)
  changed-Kept st none g = tt
  changed-Kept st (some t) g = g

-- The field of the lock does not count.
relocked-Grows : (s : Sessions) (b : Bool) → Grows s (record s { locked = b })
relocked-Grows s b = record { keeps = λ k r h. h; leads = λ h. h; back = λ k r h. h }

Grown-then :
    {s t : Sessions} (o : Option Sessions) (f : Sessions → Sessions)
    → Grows s t
    → Grown t o
    → ((u : Sessions) → Grows u (f u))
    → Grown s (elim o [ none ↦ none | some u ↦ some (f u) ])
Grown-then none f g h k = tt
Grown-then (some u) f g h k = Grows-trans g (Grows-trans h (k u))

if-Grown :
    (b : Bool) (s : Sessions) (o o' : Option Sessions)
    → Grown s o
    → Grown s o'
    → Grown s (if b then o else o')
if-Grown true s o o' g g' = g
if-Grown false s o o' g g' = g'

exclusively-Grown :
    (body : Sessions → Option Sessions) (s : Sessions)
    → ((t : Sessions) → Grown t (body t))
    → Grown s (exclusively body s)
exclusively-Grown body s h = if-Grown s.locked s none _ tt (
    Grown-then (body (record s { locked = true })) (λ t. record t { locked = false })
      (relocked-Grows s true) (h (record s { locked = true })) (λ t. relocked-Grows t false))

pub add_node-Grown : (k id : ℤ) (s : Sessions) → Grown s (add_node k id s)
unfolding add_node add_locked
add_node-Grown k id s =
    exclusively-Grown (λ t. some (add_locked k id t)) s
      (λ t. add_entry-Grows id (lookup k t.sessions_by_socket_) t)

pub remove_session-Grown : (k : ℤ) (s : Sessions) → Grown s (remove_session k s)
unfolding remove_session remove_locked
remove_session-Grown k s =
    exclusively-Grown (λ t. some (remove_locked k t)) s
      (λ t.
        let g = remove_entry-Grows k (lookup k t.sessions_by_socket_) t in
        record { keeps = g.keeps; leads = g.leads; back = g.back })
