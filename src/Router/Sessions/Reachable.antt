-- ===== src/Router/Sessions/Reachable.antt =====
-- Histories of calls. A socket is accepted while it has no session, and a session is given an id
-- while it has none: so the router calls them.
use isc_challenge_without_bo.Prelude.{
  ℕ, ◌≡◌, ◌≢◌, refl, sym, false, Bool-cases, inl, inr, Option, none, some, Option-cases, ℤ, ◌==ℤ◌,
  eq_of_==ℤ, ==ℤ_of_ne, if◌then◌else◌, lt_pos,
}
use mathlib.Core.Path.{subst}
use isc_challenge_without_bo.IntMap.{lookup, lookup-erase}
use isc_challenge_without_bo.Router.Session.{no_id, get_id}
use isc_challenge_without_bo.Router.Sessions.{
  Sessions, no_sessions, contains, max_clients_count, accept_client, remove_session, add_node,
}
use isc_challenge_without_bo.Router.Sessions.Invariant.{
  Inv, entered, entered-Inv, added, added-Inv, removed, removed-Inv,
}
use isc_challenge_without_bo.Router.Sessions.Calls.{
  ids_without, accept_client-fresh, remove_session-missing, remove_session-known, add_node-missing,
  add_node-refused, add_node-known,
}

pub data Call : Type 0 where
  accepts : ℤ → Call
  adds : ℤ → ℤ → Call
  removes : ℤ → Call

unfoldable pub perform : Call → Sessions → Option Sessions
perform (accepts k) s = accept_client k s
perform (adds k id) s = add_node k id s
perform (removes k) s = remove_session k s

abbrev pub Allowed : Sessions → Call → Type 0
Allowed s (accepts k) = lookup k s.sessions_by_socket_ ≡ none
Allowed s (adds k id) = (r : ℕ) → lookup k s.sessions_by_socket_ ≡ some r → get_id s.store r ≡ no_id
Allowed s (removes k) = Unit

-- A call that returns, to tables that are in order with the mutex free.
pub record Returns (o : Option Sessions) : Type 0 where
  pub after : Sessions
  pub returned : o ≡ some after
  pub inv : Inv after
  pub free : after.locked ≡ false

pub lookup-ids_without :
    (s : Sessions) (r : ℕ) (i : ℤ)
    → i ≢ no_id
    → lookup i (ids_without s r)
      ≡ (if get_id s.store r ==ℤ i then none else lookup i s.sessions_by_id_)
unfolding ids_without
lookup-ids_without s r i ne = elim (Bool-cases (get_id s.store r ==ℤ no_id)) [
  | inl e ↦
      let anonymous = eq_of_==ℤ (get_id s.store r) no_id e in
      rw (e, anonymous, ==ℤ_of_ne no_id i (λ h. ne (sym h)))
  | inr e ↦ rw e (lookup-erase (get_id s.store r) i s.sessions_by_id_)
]

Inv-unlocked : {s : Sessions} → Inv s → Inv (record s { locked = false })
Inv-unlocked inv = record {
  by_socket = inv.by_socket;
  by_id = inv.by_id;
  accepted = inv.accepted;
  distinct = inv.distinct;
}

module _ {s : Sessions} (inv : Inv s) (free : s.locked ≡ false) where
  idle : {o : Option Sessions} → o ≡ some (record s { locked = false }) → Returns o
  idle e = record {
    after = record s { locked = false };
    returned = e;
    inv = Inv-unlocked inv;
    free = refl;
  }

  perform_adds : (k id : ℤ) → Allowed s (adds k id) → Returns (add_node k id s)
  perform_adds k id allowed = elim (Option-cases (lookup k s.sessions_by_socket_)) [
    | inl missing ↦ idle (add_node-missing inv free k id missing)
    | inr (r, here) ↦ elim (Bool-cases (lt_pos id max_clients_count)) [
      | inl small ↦ record {
        after = added inv k false id r;
        returned = add_node-known inv free k id r here small;
        inv = added-Inv inv k false id r here (allowed r here);
        free = refl;
      }
      | inr large ↦ idle (add_node-refused inv free k id r here large)
    ]
  ]

  perform_removes : (k : ℤ) → Returns (remove_session k s)
  perform_removes k = elim (Option-cases (lookup k s.sessions_by_socket_)) [
    | inl missing ↦ idle (remove_session-missing inv free k missing)
    | inr (r, here) ↦ record {
      after = removed inv k false (ids_without s r);
      returned = remove_session-known inv free k r here;
      inv = removed-Inv inv k false r here (ids_without s r) (lookup-ids_without s r);
      free = refl;
    }
  ]

  -- On tables that are in order, with the mutex free, a call that is made as the router makes it
  -- returns, and leaves the mutex free and the tables in order: a socket is accepted while it has
  -- no session, a session is given an id while it has none, and any socket is removed.
  pub perform-Returns : (c : Call) → Allowed s c → Returns (perform c s)
  unfolding perform
  perform-Returns (accepts k) fresh = record {
    after = entered inv k false;
    returned = accept_client-fresh inv free k fresh;
    inv = entered-Inv inv k false fresh;
    free = refl;
  }
  perform-Returns (adds k id) allowed = perform_adds k id allowed
  perform-Returns (removes k) allowed = perform_removes k

pub data Reachable : Sessions → Type 0 where
  start : Reachable no_sessions
  call :
      {s t : Sessions} (c : Call) → Reachable s → Allowed s c → perform c s ≡ some t → Reachable t

pub no_sessions-Inv : Inv no_sessions
unfolding lookup contains
no_sessions-Inv = record {
  by_socket = λ k r h. cc;
  by_id = λ i r ne h. cc;
  accepted = λ k. refl;
  distinct = tt;
}

returned-Inv :
    {o : Option Sessions} {t : Sessions} → Returns o → o ≡ some t → Inv t × (t.locked ≡ false)
returned-Inv {t} v e = subst (λ u. Inv u × (u.locked ≡ false)) same (v.inv, v.free)
  where
    same : v.after ≡ t
    same = cc (v.returned)

-- Every history of calls that are made as the router makes them leaves the tables in order and the
-- mutex free.
pub Reachable-Inv : {s : Sessions} → Reachable s → Inv s × (s.locked ≡ false)
Reachable-Inv start = (no_sessions-Inv, refl)
Reachable-Inv (call c r allowed e) =
    let (inv, free) = Reachable-Inv r in returned-Inv (perform-Returns inv free c allowed) e
