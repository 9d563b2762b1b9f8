-- ===== src/Router/Sessions/Refinement.antt =====
-- The tables of `Sessions` implement the directory.
use isc_challenge_without_bo.Prelude.{
  ℕ, ◌≡◌, ◌≢◌, refl, sym, ap, ◌∙◌, true, false, Bool-cases, inl, inr, List, [], ◌∷◌, ◌++◌, Option,
  none, some, Option-cases, ℤ, ◌==ℤ◌, ==ℤ_refl, ==ℤ_iff, ==ℤ_of_ne, if◌then◌else◌, lt_pos, length,
  arith,
}
use mathlib.Core.Option.{map}
use isc_challenge_without_bo.IntMap.{lookup, lookup-assign, lookup-erase}
use isc_challenge_without_bo.Router.Session.{
  new_session, no_id, get_id, get_socket, set_id, get_id-append, get_socket-append,
  get_id-append_last, get_id-set_id, get_socket-set_id,
}
use isc_challenge_without_bo.Router.Sessions.{
  Sessions, max_clients_count, find_session_by_socket, find_session_by_id,
}
use isc_challenge_without_bo.Router.Sessions.Invariant.{Inv, entered, added, removed}
use isc_challenge_without_bo.Router.Sessions.Calls.{
  ids_without, accept_client-fresh, remove_session-missing, remove_session-known, add_node-missing,
  add_node-refused, add_node-known,
}
use isc_challenge_without_bo.Router.Sessions.Reachable.{
  Call, accepts, adds, removes, perform, Allowed, Reachable, start, call, Reachable-Inv,
  lookup-ids_without,
}
use isc_challenge_without_bo.Router.Sessions.Directory.{Directory, redirect, describe, replay}

-- The directory that the tables stand for.
unfoldable pub view : Sessions → Directory
view s = record {
  node_of = λ k. map (get_id s.store) (lookup k s.sessions_by_socket_);
  connection_of =
      λ i. if i ==ℤ no_id then none else map (get_socket s.store) (lookup i s.sessions_by_id_);
}

directory-ext :
    (a b : Directory)
    → ((k : ℤ) → a.node_of k ≡ b.node_of k)
    → ((i : ℤ) → a.connection_of i ≡ b.connection_of i)
    → a ≡ b
directory-ext a b p q = λ i. record { node_of = λ k. p k i; connection_of = λ j. q j i }

module _ {s : Sessions} (inv : Inv s) (free : s.locked ≡ false) (k : ℤ) where
  open s use {store, sessions_by_socket_, sessions_by_id_}

  -- A new object changes nothing that the tables lead to.
  entered-node_of :
      (j : ℤ)
      → map (get_id (store ++ new_session k ∷ [])) (lookup j sessions_by_socket_)
        ≡ map (get_id store) (lookup j sessions_by_socket_)
  entered-node_of j = elim (Option-cases (lookup j sessions_by_socket_)) [
    | inl e ↦ rw e refl
    | inr (r, e) ↦ rw e (ap some (get_id-append store (new_session k) r (inv.by_socket j r e).0))
  ]

  entered-connection_of :
      (i : ℤ)
      → i ≢ no_id
      → map (get_socket (store ++ new_session k ∷ [])) (lookup i sessions_by_id_)
        ≡ map (get_socket store) (lookup i sessions_by_id_)
  entered-connection_of i ne = elim (Option-cases (lookup i sessions_by_id_)) [
    | inl e ↦ rw e refl
    | inr (r, e) ↦ rw e (ap some (get_socket-append store (new_session k) r (inv.by_id i r ne e).0))
  ]

  ne_of : (i : ℤ) → (i ==ℤ no_id) ≡ false → i ≢ no_id
  ne_of i e h = ground (arith, ==ℤ_refl no_id)

  -- Two tables that agree at every id but -1.
  but_for_no_id :
      (a b : ℤ → Option ℤ)
      → ((i : ℤ) → i ≢ no_id → a i ≡ b i)
      → (i : ℤ) → (if i ==ℤ no_id then none else a i) ≡ (if i ==ℤ no_id then none else b i)
  but_for_no_id a b h i = elim (Bool-cases (i ==ℤ no_id)) [
    | inl e ↦ rw e refl
    | inr e ↦ rw e (h i (ne_of i e))
  ]

  view-entered : view (entered inv k false) ≡ describe (accepts k) (view s)
  unfolding view
  view-entered =
      directory-ext _ _
        (λ j. ground (
          arith,
          lookup-assign k j (length store) sessions_by_socket_,
          get_id-append_last store (new_session k),
          entered-node_of j,
        ))
        (but_for_no_id _ _ entered-connection_of)

  module _ (r : ℕ) (here : lookup k sessions_by_socket_ ≡ some r) (id : ℤ) where
    added-node_of :
        (j : ℤ)
        → map (get_id (set_id store r id)) (lookup j sessions_by_socket_)
          ≡ (if k ==ℤ j then some id else map (get_id store) (lookup j sessions_by_socket_))
    added-node_of j = elim (Option-cases (lookup j sessions_by_socket_)) [
      | inl e ↦ ground (arith, ==ℤ_iff k j)
      | inr (q, e) ↦ ground (
        arith,
        inv.by_socket k r here,
        inv.by_socket j q e,
        get_id-set_id store r q id,
        ==ℤ_iff k j,
      )
    ]

    added-connection_of :
        (i : ℤ)
        → map (get_socket (set_id store r id)) (lookup i sessions_by_id_)
          ≡ map (get_socket store) (lookup i sessions_by_id_)
    added-connection_of i = elim (Option-cases (lookup i sessions_by_id_)) [
      | inl e ↦ rw e refl
      | inr (q, e) ↦ rw e (ap some (get_socket-set_id store r q id))
    ]

    view-added :
        lt_pos id max_clients_count ≡ true
        → view (added inv k false id r) ≡ describe (adds k id) (view s)
    unfolding view
    view-added small =
        rw (here, small)
          (directory-ext _ _ added-node_of λ i. ground (
            arith,
            lookup-assign id i r sessions_by_id_,
            added-connection_of i,
            get_socket-set_id store r r id,
            inv.by_socket k r here,
            ==ℤ_iff id i,
            ==ℤ_iff i no_id,
            ==ℤ_iff id no_id,
          ))

  module _ (r : ℕ) (here : lookup k sessions_by_socket_ ≡ some r) where
    removed-connection_of :
        (i : ℤ)
        → (if i ==ℤ no_id then none else map (get_socket store) (lookup i (ids_without s r)))
          ≡ redirect (get_id store r) none (view s).connection_of i
    unfolding view
    removed-connection_of i = elim (Bool-cases (i ==ℤ no_id)) [
      | inl e ↦ rw e (ground (arith, ==ℤ_iff i no_id))
      | inr e ↦ ground (
        arith,
        lookup-ids_without s r i (ne_of i e),
        ==ℤ_iff (get_id store r) i,
        ==ℤ_iff (get_id store r) no_id,
        ==ℤ_iff i no_id,
      )
    ]

    view-removed : view (removed inv k false (ids_without s r)) ≡ describe (removes k) (view s)
    unfolding view
    view-removed = rw here (
        directory-ext _ _ (λ j. ground (arith, lookup-erase k j sessions_by_socket_))
          removed-connection_of)

-- A call that returns, and the directory after it.
pub record Describes (c : Call) (s : Sessions) : Type 0 where
  pub after : Sessions
  pub returned : perform c s ≡ some after
  pub described : view after ≡ describe c (view s)

module _ {s : Sessions} (inv : Inv s) (free : s.locked ≡ false) where
  open s use {sessions_by_socket_}

  adds-Describes : (k id : ℤ) → Describes (adds k id) s
  unfolding perform view
  adds-Describes k id = elim (Option-cases (lookup k sessions_by_socket_)) [
    | inl missing ↦ record {
      after = record s { locked = false };
      returned = add_node-missing inv free k id missing;
      described = rw missing refl;
    }
    | inr (r, here) ↦ elim (Bool-cases (lt_pos id max_clients_count)) [
      | inl small ↦ record {
        after = added inv k false id r;
        returned = add_node-known inv free k id r here small;
        described = view-added inv free k r here id small;
      }
      | inr large ↦ record {
        after = record s { locked = false };
        returned = add_node-refused inv free k id r here large;
        described = rw (here, large) refl;
      }
    ]
  ]

  removes-Describes : (k : ℤ) → Describes (removes k) s
  unfolding perform view
  removes-Describes k = elim (Option-cases (lookup k sessions_by_socket_)) [
    | inl missing ↦ record {
      after = record s { locked = false };
      returned = remove_session-missing inv free k missing;
      described = rw missing refl;
    }
    | inr (r, here) ↦ record {
      after = removed inv k false (ids_without s r);
      returned = remove_session-known inv free k r here;
      described = view-removed inv free k r here;
    }
  ]

  -- On tables that are in order, with the mutex free, each call that is made as the router makes it returns,
  -- and changes the directory that the tables stand for just as it is described.
  pub perform-Describes : (c : Call) → Allowed s c → Describes c s
  unfolding perform
  perform-Describes (accepts k) fresh = record {
    after = entered inv k false;
    returned = accept_client-fresh inv free k fresh;
    described = view-entered inv free k;
  }
  perform-Describes (adds k id) allowed = adds-Describes k id
  perform-Describes (removes k) allowed = removes-Describes k

-- The calls of a history, the last of them first.
pub calls_of : {s : Sessions} → Reachable s → List Call
calls_of start = []
calls_of (call c reached allowed e) = c ∷ calls_of reached

pub Reachable-view : {s : Sessions} (reached : Reachable s) → view s ≡ replay (calls_of reached)
unfolding view calls_of lookup
Reachable-view start = directory-ext _ _ (λ k. refl) (λ i. ground arith)
Reachable-view (call {s} {t} c reached allowed e) =
    let (inv, free) = Reachable-Inv reached in
    let d = perform-Describes inv free c allowed in
    let same : d.after ≡ t = cc (d.returned, e) in
    ap view (sym same) ∙ d.described ∙ ap (describe c) (Reachable-view reached)

module _ {s : Sessions} (reached : Reachable s) where
  abbrev pub directory : Directory
  directory = replay (calls_of reached)

  -- After any history of calls, the lookup by a socket finds a session of the node that the directory has
  -- for the connection, the lookup by an id other than -1 one of the connection that the
  -- directory has for the node, and each finds none if the directory has none: the answers
  -- depend on the history alone.
  pub lookups-replay :
      (k i : ℤ)
      → i ≢ no_id
      → (map (map (get_id s.store)) (find_session_by_socket k s) ≡ some (directory.node_of k))
        × (map (map (get_socket s.store)) (find_session_by_id i s)
            ≡ some (directory.connection_of i))
  unfolding find_session_by_socket find_session_by_id view
  lookups-replay k i ne =
      let free = (Reachable-Inv reached).1 in
      let described = Reachable-view reached in
      let id = ==ℤ_of_ne i no_id ne in
      (
        rw free (ap (λ a. some (a.node_of k)) described),
        rw free (ap some (rw id refl ∙ ap (λ a. a.connection_of i) described)),
      )
