-- ===== src/Router/Locks/Opening.antt =====
-- What `Sessions::accept_client`, router/src/sessions.cpp, does to the session objects.
use isc_challenge_without_bo.Prelude.{
  ℕ, suc, ◌⊎◌, ◌==◌, ◌==ℤ◌, contains, length-append, eq_of_==ℤ, ◌<◌, ◌≡◌, refl, ap, sym, ◌∙◌, Bool,
  true, false, Bool-cases, inl, inr, [], ◌∷◌, ◌++◌, Option, none, some, Option-cases, ℤ,
  if◌then◌else◌, length, arith,
}
use mathlib.Core.Path.{subst}
use isc_challenge_without_bo.IntMap.{lookup, assign, lookup-assign}
use isc_challenge_without_bo.Router.Session.{
  get_socket, new_session, get_socket-append, get_socket-append_last,
}
use isc_challenge_without_bo.Router.Sessions.{
  Sessions, is_some, note_accepted, enter_session, accept_locked, accept_client,
}
use isc_challenge_without_bo.Router.Locks.Objects.{At}

-- One session object at most is for this socket.
abbrev pub Sole : Sessions → ℤ → Type 0
Sole s k = (r r' : ℕ) → At s k r → At s k r' → r ≡ r'

-- A call that returns has entered a new object for the socket.
abbrev pub Opens : Sessions → ℤ → Option Sessions → Type 0
Opens s k none = Unit
Opens s k (some t) =
    (t.store ≡ s.store ++ new_session k ∷ [])
    × (t.sessions_by_socket_ ≡ assign k (length s.store) s.sessions_by_socket_)

note_accepted-store :
    (k : ℤ) (s : Sessions)
    → ((note_accepted k s).store ≡ s.store)
      × ((note_accepted k s).sessions_by_socket_ ≡ s.sessions_by_socket_)
unfolding note_accepted
note_accepted-store k s = elim (Bool-cases (contains k s.accepted_clients_)) [
  | inl e ↦ rw e (refl, refl)
  | inr e ↦ rw e (refl, refl)
]

entered-Opens :
    (k : ℤ) (s n : Sessions) (b : Bool) (o : Option Sessions)
    → b ≡ false
    → n.store ≡ s.store
    → n.sessions_by_socket_ ≡ s.sessions_by_socket_
    → Opens s k (elim (if b then o else some n) [ none ↦ none | some t ↦ some (enter_session k t) ])
unfolding enter_session
entered-Opens k s n true o absent store table = absurd (cc (absent))
entered-Opens k s n false o absent store table = (
  ap (λ x. x ++ new_session k ∷ []) store,
  ap (λ x. assign k (length x) n.sessions_by_socket_) store ∙ ap (assign k (length s.store)) table,
)

accept_locked-Opens :
    (k : ℤ) (s : Sessions) → lookup k s.sessions_by_socket_ ≡ none → Opens s k (accept_locked k s)
unfolding accept_locked
accept_locked-Opens k s absent =
    let (store, table) = note_accepted-store k s in
    let noted = note_accepted k s in
    entered-Opens k s noted (is_some (lookup k noted.sessions_by_socket_)) _
      (ap (λ m. is_some (lookup k m)) table ∙ ap is_some absent) store table

unlocked-Opens :
    (k : ℤ) (s : Sessions) (b : Bool) (o : Option Sessions)
    → Opens s k o
    → Opens s k
        (if b then none else elim o [ none ↦ none | some t ↦ some (record t { locked = false }) ])
unlocked-Opens k s true o h = tt
unlocked-Opens k s false none h = tt
unlocked-Opens k s false (some t) h = h

accept_client-Opens :
    (k : ℤ) (s : Sessions) → lookup k s.sessions_by_socket_ ≡ none → Opens s k (accept_client k s)
unfolding accept_client
accept_client-Opens k s absent =
    unlocked-Opens k s s.locked (accept_locked k (record s { locked = true }))
      (accept_locked-Opens k (record s { locked = true }) absent)

-- The old objects are there, the table leads to objects of their sockets, and each socket has one at
-- most.
pub record Opened (s : Sessions) (k : ℤ) (t : Sessions) : Type 0 where
  pub keeps : (j : ℤ) (r : ℕ) → At s j r → At t j r
  pub leads : (j : ℤ) (r : ℕ) → lookup j t.sessions_by_socket_ ≡ some r → At t j r
  pub sole : (j : ℤ) → Sole t j

module _ (s : Sessions) (k : ℤ) (t : Sessions)
    (store : t.store ≡ s.store ++ new_session k ∷ []) where
  grown : length t.store ≡ suc (length s.store)
  grown = omega (arith, ap length store, length-append s.store (new_session k ∷ []))

  old-At : (j : ℤ) (r : ℕ) → At s j r → At t j r
  old-At j r h = (
    omega (arith, h.0, grown),
    ap (λ x. get_socket x r) store ∙ (get_socket-append s.store (new_session k) r h.0 ∙ h.1),
  )

  new-At : At t k (length s.store)
  new-At = (
    omega (arith, grown),
    ap (λ x. get_socket x (length s.store)) store ∙ get_socket-append_last s.store (new_session k),
  )

  -- An object is an old one or the new one.
  At-old : (j : ℤ) (r : ℕ) → At t j r → At s j r ⊎ ((r ≡ length s.store) × (j ≡ k))
  At-old j r h = elim (Bool-cases (r == length s.store)) [
    | inl new ↦
        let last : r ≡ length s.store = ground (arith, new) in
        inr (last, sym h.1 ∙ (ap (get_socket t.store) last ∙ new-At.1))
    | inr other ↦
        let old : r < length s.store = ground (arith, other, h.0, grown) in
        inl (
          old,
          sym (ap (λ x. get_socket x r) store ∙ get_socket-append s.store (new_session k) r old)
              ∙ h.1,
        )
  ]

  opened-Sole : ((r : ℕ) → At s k r → ⊥) → ((j : ℤ) → Sole s j) → (j : ℤ) → Sole t j
  opened-Sole fresh sole j r r' h h' = elim (At-old j r h) [
    | inl a ↦ elim (At-old j r' h') [
      | inl a' ↦ sole j r r' a a'
      | inr b ↦ absurd (fresh r (subst (λ i. At s i r) b.1 a))
    ]
    | inr b ↦ elim (At-old j r' h') [
      | inl a' ↦ absurd (fresh r' (subst (λ i. At s i r') b.1 a'))
      | inr b' ↦ b.0 ∙ sym b'.0
    ]
  ]

  opened-leads :
      t.sessions_by_socket_ ≡ assign k (length s.store) s.sessions_by_socket_
      → ((j : ℤ) (r : ℕ) → lookup j s.sessions_by_socket_ ≡ some r → At s j r)
      → (j : ℤ) (r : ℕ) → lookup j t.sessions_by_socket_ ≡ some r
      → At t j r
  opened-leads table leads j r e =
      let there =
        sym (ap (lookup j) table ∙ lookup-assign k j (length s.store) s.sessions_by_socket_) ∙ e in
      elim (Bool-cases (k ==ℤ j)) [
        | inl same ↦
            let last : length s.store ≡ r = ground (arith, same, there) in
            let equal : k ≡ j = eq_of_==ℤ k j same in
            subst (λ i. At t i r) equal (subst (At t k) last new-At)
        | inr other ↦ old-At j r (leads j r (ground (arith, other, there)))
      ]

-- A call for a socket that no session object is for.
pub accept_client-Opened :
    (k : ℤ) (s t : Sessions)
    → accept_client k s ≡ some t
    → ((j : ℤ) (r : ℕ) → lookup j s.sessions_by_socket_ ≡ some r → At s j r)
    → ((j : ℤ) → Sole s j)
    → ((r : ℕ) → At s k r → ⊥)
    → Opened s k t
accept_client-Opened k s t e leads sole fresh =
    let absent : lookup k s.sessions_by_socket_ ≡ none =
      elim (Option-cases (lookup k s.sessions_by_socket_)) [
        | inl e ↦ e
        | inr (r, e) ↦ absurd (fresh r (leads k r e))
      ] in
    let (store, table) = subst (Opens s k) e (accept_client-Opens k s absent) in
    record {
      keeps = old-At s k t store;
      leads = opened-leads s k t store table leads;
      sole = opened-Sole s k t store fresh sole;
    }
