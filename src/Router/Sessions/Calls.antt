-- ===== src/Router/Sessions/Calls.antt =====
-- What each call of `Sessions` returns, under the invariant and with the mutex free.
use isc_challenge_without_bo.Prelude.{
  ℕ, ◌≡◌, refl, ◌∙◌, ap, true, false, List, [], ◌∷◌, none, some, ℤ, ◌==ℤ◌, if◌then◌else◌, lt_pos,
  arith,
}
use isc_challenge_without_bo.IntMap.{lookup, erase}
use isc_challenge_without_bo.Router.Session.{no_id, get_id}
use isc_challenge_without_bo.Router.Sessions.{
  Sessions, is_some, contains, erase_first, max_clients_count, accept_client, remove_session,
  add_node,
}
use isc_challenge_without_bo.Router.Sessions.Invariant.{Inv, entered, added, removed}

erase_first-missing : (k : ℤ) (xs : List ℤ) → contains k xs ≡ false → erase_first k xs ≡ xs
unfolding contains erase_first
erase_first-missing k [] h = refl
erase_first-missing k (x ∷ xs) h = ground (arith, erase_first-missing k xs)

-- `sessions_by_id_` after the removal of the session `r`.
unfoldable pub ids_without : Sessions → ℕ → List (ℤ × ℕ)
ids_without s r =
    let id = get_id s.store r in
    if id ==ℤ no_id then s.sessions_by_id_ else erase id s.sessions_by_id_

module _ {s : Sessions} (inv : Inv s) (free : s.locked ≡ false) (k : ℤ) where
  pub accept_client-fresh :
      lookup k s.sessions_by_socket_ ≡ none → accept_client k s ≡ some (entered inv k false)
  unfolding accept_client
  accept_client-fresh fresh =
      let unseen : contains k s.accepted_clients_ ≡ false = inv.accepted k ∙ ap is_some fresh in
      rw (free, unseen, fresh)

  pub accept_client-known :
      (r : ℕ) → lookup k s.sessions_by_socket_ ≡ some r → accept_client k s ≡ none
  unfolding accept_client
  accept_client-known r here =
      let seen : contains k s.accepted_clients_ ≡ true = inv.accepted k ∙ ap is_some here in
      rw (free, seen, here)

  pub remove_session-missing :
      lookup k s.sessions_by_socket_ ≡ none
      → remove_session k s ≡ some (record s { locked = false })
  unfolding remove_session
  remove_session-missing missing =
      let unseen : contains k s.accepted_clients_ ≡ false = inv.accepted k ∙ ap is_some missing in
      rw (free, missing, erase_first-missing k s.accepted_clients_ unseen)

  pub remove_session-known :
      (r : ℕ)
      → lookup k s.sessions_by_socket_ ≡ some r
      → remove_session k s ≡ some (removed inv k false (ids_without s r))
  unfolding remove_session ids_without
  remove_session-known r here = rw (free, here)

  pub add_node-missing :
      (id : ℤ)
      → lookup k s.sessions_by_socket_ ≡ none
      → add_node k id s ≡ some (record s { locked = false })
  unfolding add_node
  add_node-missing id missing = rw (free, missing)

  pub add_node-refused :
      (id : ℤ) (r : ℕ)
      → lookup k s.sessions_by_socket_ ≡ some r
      → lt_pos id max_clients_count ≡ false
      → add_node k id s ≡ some (record s { locked = false })
  unfolding add_node
  add_node-refused id r here large = rw (free, here, large)

  pub add_node-known :
      (id : ℤ) (r : ℕ)
      → lookup k s.sessions_by_socket_ ≡ some r
      → lt_pos id max_clients_count ≡ true
      → add_node k id s ≡ some (added inv k false id r)
  unfolding add_node
  add_node-known id r here small = rw (free, here, small)
