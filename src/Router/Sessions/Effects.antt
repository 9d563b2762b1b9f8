-- ===== src/Router/Sessions/Effects.antt =====
-- What the calls of `Sessions` do to what the lookups find.
use isc_challenge_without_bo.Prelude.{
  ℕ, ◌≡◌, ◌≢◌, ◌∙◌, refl, ap, Bool, Bool-cases, true, false, ◌&&◌, not, inl, inr, none, some,
  Option-cases, ℤ, ◌==ℤ◌, ==ℤ_refl, eq_of_==ℤ, if◌then◌else◌, lt_pos, length, arith,
}
use isc_challenge_without_bo.IntMap.{lookup, lookup-erase, lookup-assign}
use isc_challenge_without_bo.Router.Session.{
  no_id, new_session, get_id, get_socket, get_id-append_last, get_id-set_id,
}
use isc_challenge_without_bo.Router.Sessions.{
  Sessions, contains, max_clients_count, accept_client, remove_session, add_node,
  find_session_by_socket, find_session_by_id, is_some, get_accepted_sockets,
}
use isc_challenge_without_bo.Router.Sessions.Lists.{contains-erase_first}
use isc_challenge_without_bo.Router.Sessions.Invariant.{Inv, entered, added, removed}
use isc_challenge_without_bo.Router.Sessions.Calls.{
  ids_without, accept_client-fresh, accept_client-known, remove_session-missing,
  remove_session-known, add_node-known,
}
use isc_challenge_without_bo.Router.Sessions.Reachable.{
  Reachable, Reachable-Inv, lookup-ids_without,
}

lookup-ids_without_all :
    (s : Sessions) (r : ℕ) (i : ℤ)
    → lookup i (ids_without s r)
      ≡ (if (get_id s.store r ==ℤ i) && not (i ==ℤ no_id) then none else lookup i s.sessions_by_id_)
unfolding ids_without
lookup-ids_without_all s r i = elim (Bool-cases (i ==ℤ no_id)) [
  | inl e ↦
      let same = eq_of_==ℤ i no_id e in
      rw same
        (ground (arith, lookup-erase (get_id s.store r) no_id s.sessions_by_id_, ==ℤ_refl no_id))
  | inr e ↦
      let ne : i ≢ no_id = λ h. ground (arith, ==ℤ_refl no_id) in
      rw e (lookup-ids_without s r i ne ∙ unless (get_id s.store r ==ℤ i))
]
  where
    unless :
        (b : Bool)
        → (if b then none else lookup i s.sessions_by_id_)
          ≡ (if b && true then none else lookup i s.sessions_by_id_)
    unless true = refl
    unless false = refl

module _ {s : Sessions} (reached : Reachable s) where
  abbrev inv : Inv s
  inv = (Reachable-Inv reached).0

  abbrev free : s.locked ≡ false
  free = (Reachable-Inv reached).1

  -- After any history of calls, a lookup by an id other than -1 that finds a session finds one of
  -- that id, which the lookup by its socket still finds.
  pub find_session_by_id-live :
      (id : ℤ) (r : ℕ)
      → id ≢ no_id
      → find_session_by_id id s ≡ some (some r)
      → (get_id s.store r ≡ id) × (find_session_by_socket (get_socket s.store r) s ≡ some (some r))
  unfolding find_session_by_id find_session_by_socket
  find_session_by_id-live id r ne h =
      let here : lookup id s.sessions_by_id_ ≡ some r = ground (arith, free) in
      let (valid, same, live) = inv.by_id id r ne here in (same, rw (free, live))

  -- After any history of calls, a socket with no session that is accepted has a new session with
  -- no id; no other lookup changes.
  pub accept_client-finds :
      (k : ℤ)
      → find_session_by_socket k s ≡ some none
      → (t : Sessions) × (accept_client k s ≡ some t)
        × (get_id t.store (length s.store) ≡ no_id)
        × ((j : ℤ)
            → find_session_by_socket j t
              ≡ (if k ==ℤ j then some (some (length s.store)) else find_session_by_socket j s))
        × ((i : ℤ) → find_session_by_id i t ≡ find_session_by_id i s)
  unfolding find_session_by_id find_session_by_socket
  accept_client-finds k h =
      let fresh : lookup k s.sessions_by_socket_ ≡ none = ground (arith, free) in
      (
        entered inv k false,
        accept_client-fresh inv free k fresh,
        get_id-append_last s.store (new_session k),
        λ j. ground (arith, free, lookup-assign k j (length s.store) s.sessions_by_socket_),
        λ i. ground (arith, free),
      )

  -- After any history of calls, to accept a socket that still has a session never returns:
  -- `removeSession` waits for the mutex that `accept_client` holds.
  pub accept_client-deadlock :
      (k : ℤ) (r : ℕ) → find_session_by_socket k s ≡ some (some r) → accept_client k s ≡ none
  unfolding find_session_by_socket
  accept_client-deadlock k r h = accept_client-known inv free k r (ground (arith, free))

  -- After any history of calls, an id below 999 that is given to a session of a socket leads to
  -- that session, which then has it; no other id and no socket leads elsewhere than before.
  pub add_node-finds :
      (k id : ℤ) (r : ℕ)
      → find_session_by_socket k s ≡ some (some r)
      → lt_pos id max_clients_count ≡ true
      → (t : Sessions) × (add_node k id s ≡ some t)
        × (get_id t.store r ≡ id)
        × ((i : ℤ)
            → find_session_by_id i t ≡ (if id ==ℤ i then some (some r) else find_session_by_id i s))
        × ((j : ℤ) → find_session_by_socket j t ≡ find_session_by_socket j s)
  unfolding find_session_by_id find_session_by_socket
  add_node-finds k id r h small =
      let here : lookup k s.sessions_by_socket_ ≡ some r = ground (arith, free) in
      let (valid, named) = inv.by_socket k r here in
      (
        added inv k false id r,
        add_node-known inv free k id r here small,
        ground (arith, get_id-set_id s.store r r id),
        λ i. ground (arith, free, lookup-assign id i r s.sessions_by_id_),
        λ j. ground (arith, free),
      )

  -- After any history of calls, a removed socket is found no more and is not among the accepted
  -- ones; every other socket is found as before.
  pub remove_session-finds :
      (k : ℤ)
      → (t : Sessions) × (remove_session k s ≡ some t)
        × (contains k (get_accepted_sockets t) ≡ false)
        × ((j : ℤ)
            → find_session_by_socket j t
              ≡ (if k ==ℤ j then some none else find_session_by_socket j s))
  unfolding find_session_by_socket get_accepted_sockets
  remove_session-finds k = elim (Option-cases (lookup k s.sessions_by_socket_)) [
    | inl missing ↦ (
      record s { locked = false },
      remove_session-missing inv free k missing,
      inv.accepted k ∙ ap is_some missing,
      λ j. ground (arith, free, eq_of_==ℤ k j),
    )
    | inr (r, here) ↦ (
      removed inv k false (ids_without s r),
      remove_session-known inv free k r here,
      ground (arith, contains-erase_first k k s.accepted_clients_ inv.distinct, ==ℤ_refl k),
      λ j. ground (arith, free, lookup-erase k j s.sessions_by_socket_),
    )
  ]

  -- After any history of calls, the removal of a socket with a session makes the id of the session
  -- unknown, unless it is -1, and leaves the lookups by all other ids as they were.
  pub remove_session-forgets :
      (k : ℤ) (r : ℕ)
      → find_session_by_socket k s ≡ some (some r)
      → (t : Sessions) × (remove_session k s ≡ some t)
        × ((i : ℤ)
            → find_session_by_id i t ≡ (
                if (get_id s.store r ==ℤ i) && not (i ==ℤ no_id)
                then some none
                else find_session_by_id i s))
  unfolding find_session_by_socket find_session_by_id ids_without
  remove_session-forgets k r h =
      let here : lookup k s.sessions_by_socket_ ≡ some r = ground (arith, free) in
      (
        removed inv k false (ids_without s r),
        remove_session-known inv free k r here,
        λ i. simp free (
            ap some (lookup-ids_without_all s r i)
            ∙ found ((get_id s.store r ==ℤ i) && not (i ==ℤ no_id)) i),
      )
    where
      found :
          (b : Bool) (i : ℤ)
          → some (if b then none else lookup i s.sessions_by_id_)
            ≡ (if b then some none else some (lookup i s.sessions_by_id_))
      found true i = refl
      found false i = refl
