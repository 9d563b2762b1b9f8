-- ===== src/Examples.antt =====
-- A small operating system and a small history, on which the theorems are applied.
mod Nodes
mod Queues
mod Tables
mod Handlers
mod Threads
mod Limits
mod Locks
mod Talks
mod Programs
mod Logs
mod Streams
use mathlib.Core.Path.{subst}
use mathlib.Core.Option.{map}
use isc_challenge_without_bo.Prelude.{
  contains, ltb, ==ℤ_iff, ℕ, ◌≤◌, ◌≡◌, refl, sym, ap, ◌∙◌, false, List, [], ◌∷◌, ◌++◌, Option, none,
  some, ℤ, pos, ◌==ℤ◌, ==ℤ_refl, if◌then◌else◌, length, take, drop, replicate, length-take-le,
  arith,
}
use isc_challenge_without_bo.Text.{Bytes}
use isc_challenge_without_bo.Text.Buffer.{take-append-drop}
use isc_challenge_without_bo.IntMap.{lookup, assign}
use isc_challenge_without_bo.Winsock.{
  Os, Selects, fd_setsize, Delivers, Recv, received, failed, would_block,
}
use isc_challenge_without_bo.Router.Session.{no_id, get_id, set_id}
use isc_challenge_without_bo.Router.Sessions.{Sessions, accept_client, add_node}
use isc_challenge_without_bo.Router.Sessions.Reachable.{
  Reachable, start, call, accepts, adds, perform,
}
use isc_challenge_without_bo.Router.SignalingQueue.{empty_queue}
use isc_challenge_without_bo.Router.State.{State, Run, done, fault}

-- What each socket will bring, what `select` reports, the socket of the next connection,
-- and what was sent to which socket, the last first.
pub record Net : Type 0 where
  pub stream : ℤ → Bytes
  pub ready : Option (List ℤ)
  pub next : ℤ
  pub sent : List (ℤ × Bytes)

abbrev pub without : Net → ℤ → Bytes → Net
without w s rest = record w { stream = λ t. if s ==ℤ t then rest else w.stream t }

abbrev pub receive : Bytes → ℤ → ℕ → Net → Recv × Net
receive [] s n w = (failed would_block, w)
receive (b ∷ bs) s n w = (received (take n (b ∷ bs)), without w s (drop n (b ∷ bs)))

-- The sockets that are in a set.
abbrev pub members : List ℤ → List ℤ → List ℤ
members set [] = []
members set (s ∷ ready) = let rest = members set ready in if contains s set then s ∷ rest else rest

abbrev pub example_os : Os
example_os = record {
  World = Net;
  startup = λ w. (pos 0, w);
  socket = λ w. (pos 3, w);
  bind = λ s ip port w. (pos 0, w);
  listen = λ s w. w;
  connect = λ s ip port w. (pos 0, w);
  accept = λ s w. (w.next, w);
  ioctlsocket = λ s w. (pos 0, w);
  closesocket = λ s w. w;
  cleanup = λ w. w;
  recv = λ s n w. receive (w.stream s) s n w;
  send = λ s bs w. (pos (length bs), record w { sent = (s, bs) ∷ w.sent });
  fd_set = λ s set.
      if contains s set then set else if ltb (length set) fd_setsize then set ++ s ∷ [] else set;
  select = λ set w. (map (members set) w.ready, w);
}

pub receive_received :
    (xs : Bytes) (s : ℤ) (n : ℕ) (w w' : Net) (bs : Bytes)
    → w.stream s ≡ xs
    → receive xs s n w ≡ (received bs, w')
    → (length bs ≤ n) × (w.stream s ≡ bs ++ w'.stream s)
receive_received [] s n w w' bs h e = cc (e)
receive_received (b ∷ xs) s n w w' bs h e =
    let same : take n (b ∷ xs) ≡ bs = cc (e) in
    let next : without w s (drop n (b ∷ xs)) ≡ w' = cc (e) in
    let left : drop n (b ∷ xs) ≡ w'.stream s =
      sym (rw (==ℤ_refl s) refl) ∙ ap (λ v. v.stream s) next in
    (
      omega (arith, length-take-le n (b ∷ xs), ap length same),
      h
          ∙ sym (take-append-drop n (b ∷ xs))
          ∙ ap (λ t. t ++ drop n (b ∷ xs)) same
          ∙ ap (◌++◌ bs) left,
    )

pub receive_failed :
    (xs : Bytes) (s : ℤ) (n : ℕ) (w w' : Net) (code : ℕ)
    → receive xs s n w ≡ (failed code, w')
    → w'.stream s ≡ w.stream s
receive_failed [] s n w w' code e = ap (λ v. v.stream s) (sym (ap (λ p. p.1) e))
receive_failed (b ∷ xs) s n w w' code e = absurd (cc (e))

members-contains :
    (set ready : List ℤ) (k : ℤ) → contains k set ≡ false → contains k (members set ready) ≡ false
unfolding contains
members-contains set [] k h = refl
members-contains set (s ∷ ready) k h = ground (arith, members-contains set ready k h, ==ℤ_iff s k)

pub selected-contains :
    (set : List ℤ) (reported : Option (List ℤ)) (ready : List ℤ) (k : ℤ)
    → map (members set) reported ≡ some ready
    → contains k set ≡ false
    → contains k ready ≡ false
selected-contains set none ready k e h = absurd (cc (e))
selected-contains set (some reported) ready k e h =
    subst (λ t. contains k t ≡ false) (cc (e)) (members-contains set reported k h)

abbrev pub example_Selects : Selects example_os
example_Selects = record {
  fd_set_appends = λ k set. refl;
  select_keeps = λ set ready w e k h. selected-contains set w.ready ready k e h;
}

abbrev pub example_Delivers : Delivers example_os
example_Delivers = record {
  incoming = λ w s. w.stream s;
  recv_received = λ s n w w' bs e. receive_received (w.stream s) s n w w' bs refl e;
  recv_failed = λ s n w w' code e. receive_failed (w.stream s) s n w w' code e;
  send_keeps = λ s bs w. refl;
}

-- Node 5 connects on socket 10, then node 6 on socket 11.
abbrev pub after_accept : Sessions
after_accept = record {
  store = record { socket_ = pos 10; id_ = no_id } ∷ [];
  sessions_by_socket_ = (pos 10, 0) ∷ [];
  sessions_by_id_ = [];
  accepted_clients_ = pos 10 ∷ [];
  locked = false;
}

abbrev pub one_node : Sessions
one_node = record {
  store = record { socket_ = pos 10; id_ = pos 5 } ∷ [];
  sessions_by_socket_ = (pos 10, 0) ∷ [];
  sessions_by_id_ = (pos 5, 0) ∷ [];
  accepted_clients_ = pos 10 ∷ [];
  locked = false;
}

abbrev pub one_and_new : Sessions
one_and_new = record {
  store = record { socket_ = pos 10; id_ = pos 5 } ∷ record { socket_ = pos 11; id_ = no_id } ∷ [];
  sessions_by_socket_ = (pos 10, 0) ∷ (pos 11, 1) ∷ [];
  sessions_by_id_ = (pos 5, 0) ∷ [];
  accepted_clients_ = pos 10 ∷ pos 11 ∷ [];
  locked = false;
}

abbrev pub two_nodes : Sessions
two_nodes = record {
  store = record { socket_ = pos 10; id_ = pos 5 } ∷ record { socket_ = pos 11; id_ = pos 6 } ∷ [];
  sessions_by_socket_ = (pos 10, 0) ∷ (pos 11, 1) ∷ [];
  sessions_by_id_ = (pos 5, 0) ∷ (pos 6, 1) ∷ [];
  accepted_clients_ = pos 10 ∷ pos 11 ∷ [];
  locked = false;
}

abbrev pub shared_id : Sessions
shared_id = record {
  store = record { socket_ = pos 10; id_ = pos 5 } ∷ record { socket_ = pos 11; id_ = pos 5 } ∷ [];
  sessions_by_socket_ = (pos 10, 0) ∷ (pos 11, 1) ∷ [];
  sessions_by_id_ = (pos 5, 1) ∷ [];
  accepted_clients_ = pos 10 ∷ pos 11 ∷ [];
  locked = false;
}

anonymous :
    (s : Sessions) (r q : ℕ) → get_id s.store q ≡ no_id → some q ≡ some r → get_id s.store r ≡ no_id
anonymous s r q h e = ap (get_id s.store) (cc (e)) ∙ h

pub after_accept-Reachable : Reachable after_accept
unfolding perform accept_client lookup contains assign
after_accept-Reachable = call (accepts (pos 10)) start refl refl

pub one_node-Reachable : Reachable one_node
unfolding perform add_node get_id lookup ◌==ℤ◌ set_id assign
one_node-Reachable =
    call (adds (pos 10) (pos 5)) after_accept-Reachable (λ r. anonymous after_accept r 0 refl) refl

pub one_and_new-Reachable : Reachable one_and_new
unfolding perform accept_client lookup contains assign ◌==ℤ◌
one_and_new-Reachable = call (accepts (pos 11)) one_node-Reachable refl refl

-- The second node with an id of its own, or with that of the first.
pub two_nodes-Reachable : Reachable two_nodes
unfolding perform add_node get_id lookup ◌==ℤ◌ set_id assign
two_nodes-Reachable =
    call (adds (pos 11) (pos 6)) one_and_new-Reachable (λ r. anonymous one_and_new r 1 refl) refl

pub shared_id-Reachable : Reachable shared_id
unfolding perform add_node get_id lookup ◌==ℤ◌ set_id assign
shared_id-Reachable =
    call (adds (pos 11) (pos 5)) one_and_new-Reachable (λ r. anonymous one_and_new r 1 refl) refl

abbrev pub with_tables : Sessions → Net → State Net
with_tables s w = record {
  sessions = s;
  ready_read_sockets_queue_ = empty_queue;
  ready_write_sockets_queue_ = empty_queue;
  world = w;
}

-- A connection that brings `bs`, whichever it is.
abbrev pub bringing : Bytes → Net
bringing bs = record { stream = λ s. bs; ready = none; next = pos 12; sent = [] }

abbrev pub state_after : {W A : Type 0} → Run W A → State W → State W
state_after (done a st) otherwise = st
state_after (fault f) otherwise = otherwise

abbrev pub result_of : {W A : Type 0} → Run W A → A → A
result_of (done a st) otherwise = a
result_of (fault f) otherwise = otherwise
