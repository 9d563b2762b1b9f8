-- ===== src/Router/Sessions/Invariant.antt =====
-- What holds of the session tables between two calls.
use isc_challenge_without_bo.Prelude.{
  ℕ, ◌<◌, ◌≡◌, ◌≢◌, Bool, List, [], ◌∷◌, ◌++◌, none, some, ℤ, ◌==ℤ◌, eq_of_==ℤ, ==ℤ_iff,
  if◌then◌else◌, length, length-append, arith,
}
use isc_challenge_without_bo.IntMap.{lookup, assign, erase, lookup-assign, lookup-erase}
use isc_challenge_without_bo.Router.Session.{
  new_session, no_id, get_id, get_socket, set_id, get_id-set_id, get_socket-set_id, length-set_id,
  get_id-append, get_socket-append, get_socket-append_last,
}
use isc_challenge_without_bo.Router.Sessions.{Sessions, is_some, contains, erase_first}
use isc_challenge_without_bo.Router.Sessions.Lists.{
  Distinct, contains-append, Distinct-append, contains-erase_first, Distinct-erase_first,
}

-- Each socket leads to the session of that socket; each id but -1 leads to a session of that id which
-- its own socket still leads to; the accepted sockets are those of the sessions, each once.
pub record Inv (s : Sessions) : Type 0 where
  pub by_socket :
      (k : ℤ) (r : ℕ)
      → lookup k s.sessions_by_socket_ ≡ some r
      → (r < length s.store) × (get_socket s.store r ≡ k)
  pub by_id :
      (i : ℤ) (r : ℕ)
      → i ≢ no_id
      → lookup i s.sessions_by_id_ ≡ some r
      → (r < length s.store)
        × (get_id s.store r ≡ i)
        × (lookup (get_socket s.store r) s.sessions_by_socket_ ≡ some r)
  pub accepted : (k : ℤ) → contains k s.accepted_clients_ ≡ is_some (lookup k s.sessions_by_socket_)
  pub distinct : Distinct s.accepted_clients_

module _ {s : Sessions} (inv : Inv s) (k : ℤ) (b : Bool) where
  open s use {store, sessions_by_socket_, sessions_by_id_, accepted_clients_}

  abbrev pub entered : Sessions
  entered = record {
    store = store ++ new_session k ∷ [];
    sessions_by_socket_ = assign k (length store) sessions_by_socket_;
    sessions_by_id_ = sessions_by_id_;
    accepted_clients_ = accepted_clients_ ++ k ∷ [];
    locked = b;
  }

  module _ (fresh : lookup k sessions_by_socket_ ≡ none) where
    pub entered-Inv : Inv entered
    entered-Inv = record {
      by_socket = λ j r h. ground (
        arith,
        lookup-assign k j (length store) sessions_by_socket_,
        eq_of_==ℤ k j,
        inv.by_socket j r,
        get_socket-append store (new_session k) r,
        get_socket-append_last store (new_session k),
        length-append store (new_session k ∷ []),
      );
      by_id = λ i r ne h.
          let (valid, known, live) = inv.by_id i r ne h in
          let same = get_socket-append store (new_session k) r valid in
          ground (
            arith,
            length-append store (new_session k ∷ []),
            get_id-append store (new_session k) r,
            same,
            lookup-assign k (get_socket store r) (length store) sessions_by_socket_,
            eq_of_==ℤ k (get_socket store r),
          );
      accepted = λ j. ground (
        arith,
        inv.accepted j,
        contains-append j k accepted_clients_,
        lookup-assign k j (length store) sessions_by_socket_,
      );
      distinct = Distinct-append k accepted_clients_ (ground (arith, inv.accepted k)) inv.distinct;
    }

  abbrev pub added : ℤ → ℕ → Sessions
  added id r = record {
    store = set_id store r id;
    sessions_by_socket_ = sessions_by_socket_;
    sessions_by_id_ = assign id r sessions_by_id_;
    accepted_clients_ = accepted_clients_;
    locked = b;
  }

  module _ (id : ℤ) (r : ℕ) (here : lookup k sessions_by_socket_ ≡ some r)
      (anonymous : get_id store r ≡ no_id) where
    added-by_id :
        (i : ℤ) (q : ℕ)
        → i ≢ no_id
        → lookup i (assign id r sessions_by_id_) ≡ some q
        → (q < length (set_id store r id))
          × (get_id (set_id store r id) q ≡ i)
          × (lookup (get_socket (set_id store r id) q) sessions_by_socket_ ≡ some q)
    added-by_id i q ne h =
        let (valid, named) = inv.by_socket k r here in
        ground (
          arith,
          lookup-assign id i r sessions_by_id_,
          eq_of_==ℤ id i,
          inv.by_id i q ne,
          length-set_id store r id,
          get_id-set_id store r q id,
          get_socket-set_id store r q id,
        )

    pub added-Inv : Inv (added id r)
    added-Inv = record {
      by_socket = λ j q h.
          ground
            (arith, inv.by_socket j q, length-set_id store r id, get_socket-set_id store r q id);
      by_id = added-by_id;
      accepted = inv.accepted;
      distinct = inv.distinct;
    }

  abbrev pub removed : List (ℤ × ℕ) → Sessions
  removed ids = record {
    store = store;
    sessions_by_socket_ = erase k sessions_by_socket_;
    sessions_by_id_ = ids;
    accepted_clients_ = erase_first k accepted_clients_;
    locked = b;
  }

  module _ (r : ℕ) (here : lookup k sessions_by_socket_ ≡ some r) (ids : List (ℤ × ℕ))
      (gone : (i : ℤ)
        → i ≢ no_id
        → lookup i ids ≡ (if get_id store r ==ℤ i then none else lookup i sessions_by_id_)) where
    removed-by_id :
        (i : ℤ) (q : ℕ)
        → i ≢ no_id
        → lookup i ids ≡ some q
        → (q < length store)
          × (get_id store q ≡ i)
          × (lookup (get_socket store q) (erase k sessions_by_socket_) ≡ some q)
    removed-by_id i q ne h = ground (
      arith,
      gone i ne,
      inv.by_id i q ne,
      lookup-erase k (get_socket store q) sessions_by_socket_,
      eq_of_==ℤ k (get_socket store q),
      ==ℤ_iff (get_id store r) i,
    )

    pub removed-Inv : Inv (removed ids)
    removed-Inv = record {
      by_socket = λ j q h. ground (arith, inv.by_socket j q, lookup-erase k j sessions_by_socket_);
      by_id = removed-by_id;
      accepted = λ j. ground (
        arith,
        inv.accepted j,
        contains-erase_first j k accepted_clients_ inv.distinct,
        lookup-erase k j sessions_by_socket_,
      );
      distinct = Distinct-erase_first k accepted_clients_ inv.distinct;
    }
