-- ===== src/Router/Sessions/Defects.antt =====
-- Two histories after which the two tables of `Sessions` disagree.
use isc_challenge_without_bo.Prelude.{
  ℕ, ◌≡◌, ◌≢◌, refl, false, none, some, ℤ, ==ℤ_iff, ==ℤ_refl, eq_of_==ℤ, arith,
}
use isc_challenge_without_bo.IntMap.{lookup, lookup-erase, lookup-assign}
use isc_challenge_without_bo.Router.Session.{no_id, get_id, get_id-set_id}
use isc_challenge_without_bo.Router.Sessions.{
  Sessions, remove_session, add_node, find_session_by_socket, find_session_by_id,
}
use isc_challenge_without_bo.Router.Sessions.Invariant.{Inv, added, added-Inv, removed}
use isc_challenge_without_bo.Router.Sessions.Calls.{
  ids_without, remove_session-known, add_node-known,
}
use isc_challenge_without_bo.Router.Sessions.Reachable.{
  Reachable, Reachable-Inv, lookup-ids_without,
}

module _ {s : Sessions} (reached : Reachable s) where
  abbrev inv : Inv s
  inv = (Reachable-Inv reached).0

  abbrev free : s.locked ≡ false
  free = (Reachable-Inv reached).1

  -- After any history of calls, where two sockets have sessions of one id other than -1, the
  -- removal of one makes the id unknown, although the session of the other is there and has the
  -- id.
  pub remove_session-shared_id :
      (old new i : ℤ) (r q : ℕ)
      → old ≢ new
      → i ≢ no_id
      → find_session_by_socket old s ≡ some (some r)
      → find_session_by_socket new s ≡ some (some q)
      → get_id s.store r ≡ i
      → get_id s.store q ≡ i
      → (t : Sessions) × (remove_session old s ≡ some t)
        × (find_session_by_socket new t ≡ some (some q))
        × (get_id t.store q ≡ i)
        × (find_session_by_id i t ≡ some none)
  unfolding find_session_by_socket find_session_by_id
  remove_session-shared_id old new i r q ne named h k hr hq =
      let here : lookup old s.sessions_by_socket_ ≡ some r = ground (arith, free) in
      (
        removed inv old false (ids_without s r),
        remove_session-known inv free old r here,
        ground (arith, free, lookup-erase old new s.sessions_by_socket_, eq_of_==ℤ old new),
        hq,
        ground (arith, lookup-ids_without s r i named, ==ℤ_iff (get_id s.store r) i),
      )

  -- After any history of calls, a session with no id that is given the id -1, which stands for an
  -- id message that is no number, stays in the table of ids when its socket is removed: the lookup
  -- by -1 finds a session whose socket is gone.
  pub remove_session-minus_one :
      (k : ℤ) (r : ℕ)
      → find_session_by_socket k s ≡ some (some r)
      → get_id s.store r ≡ no_id
      → (t u : Sessions) × (add_node k no_id s ≡ some t)
        × (remove_session k t ≡ some u)
        × (find_session_by_id no_id u ≡ some (some r))
        × (find_session_by_socket k u ≡ some none)
  unfolding find_session_by_socket find_session_by_id ids_without
  remove_session-minus_one k r h anonymous =
      let here : lookup k s.sessions_by_socket_ ≡ some r = ground (arith, free) in
      let (valid, named) = inv.by_socket k r here in
      let inv' = added-Inv inv k false no_id r here anonymous in
      let same = get_id-set_id s.store r r no_id valid in
      (
        added inv k false no_id r,
        removed inv' k false (ids_without (added inv k false no_id r) r),
        add_node-known inv free k no_id r here refl,
        remove_session-known inv' refl k r here,
        ground (arith, same, ==ℤ_refl no_id, lookup-assign no_id no_id r s.sessions_by_id_),
        ground (arith, lookup-erase k k s.sessions_by_socket_, ==ℤ_refl k),
      )
