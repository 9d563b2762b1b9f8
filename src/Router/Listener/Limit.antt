-- ===== src/Router/Listener/Limit.antt =====
-- Which of the accepted sockets the event loop listens to: a set of Windows has room for `FD_SETSIZE`
-- sockets, the server's among them.
use isc_challenge_without_bo.Prelude.{
  ℕ, zero, suc, ◌≤◌, ◌≡◌, refl, sym, ap, ◌∙◌, true, false, Bool-cases, inl, inr, List, [], ◌∷◌,
  ◌++◌, append_assoc, append-nil, none, some, Option-cases, ℤ, ◌==ℤ◌, ==ℤ_iff, if◌then◌else◌, lt_ℤ,
  contains, ltb, length, length-append, take, take-append, arith,
}
use isc_challenge_without_bo.Winsock.{Os, Selects, fd_setsize, socket_error}
use isc_challenge_without_bo.IntMap.{lookup}
use isc_challenge_without_bo.Router.Sessions
use isc_challenge_without_bo.Router.Sessions.{
  Sessions, get_accepted_sockets, find_session_by_socket,
}
use isc_challenge_without_bo.Router.Sessions.Lists.{Distinct}
use isc_challenge_without_bo.Router.State.{State, Run, done}
use isc_challenge_without_bo.Router.Listener.{
  add_clients, reset_fd_set, push_ready, push_events, listen_round, enter_client,
}
use isc_challenge_without_bo.Router.Listener.Pushing.{push_ready-others}
use isc_challenge_without_bo.Router.Listener.Events.{selection, accepting, AcceptsFresh}

take-all : (n : ℕ) (xs : List ℤ) → length xs ≤ n → take n xs ≡ xs
take-all zero [] h = refl
take-all zero (x ∷ xs) h = absurd (omega arith)
take-all (suc n) [] h = refl
take-all (suc n) (x ∷ xs) h = ap (◌∷◌ x) (take-all n xs (omega arith))

contains-none : (y : ℤ) → contains y [] ≡ false
unfolding contains
contains-none y = refl

contains-middle : (y : ℤ) (xs ys : List ℤ) → contains y (xs ++ y ∷ ys) ≡ true
unfolding contains
contains-middle y [] ys = ground (arith, ==ℤ_iff y y)
contains-middle y (x ∷ xs) ys = ground (arith, contains-middle y xs ys)

-- The parts of a list without repeats.
Distinct-next :
    (xs : List ℤ) (y : ℤ) (ys : List ℤ) → Distinct (xs ++ y ∷ ys) → contains y xs ≡ false
unfolding contains
Distinct-next [] y ys h = refl
Distinct-next (x ∷ xs) y ys h =
    ground (arith, Distinct-next xs y ys h.1, contains-middle y xs ys, ==ℤ_iff x y, h.0)

-- The call returns for a socket that is not in use.
accept_client-unused :
    (k : ℤ) (s : Sessions)
    → find_session_by_socket k s ≡ some none
    → (t : Sessions) × (Sessions.accept_client k s ≡ some t)
unfolding find_session_by_socket Sessions.accept_client
accept_client-unused k s h =
    let fresh : lookup k s.sessions_by_socket_ ≡ none = ground arith in
    elim (Bool-cases s.locked) [
      | inl e ↦ absurd (ground arith)
      | inr e ↦ elim (Bool-cases (contains k s.accepted_clients_)) [
        | inl c ↦ rw (e, c, fresh) (_, refl)
        | inr c ↦ rw (e, c, fresh) (_, refl)
      ]
    ]

module _ {os : Os} (d : Selects os) where
  open d use {fd_set_appends, select_keeps}

  fd_set-full : (k : ℤ) (fd : List ℤ) → fd_setsize ≤ length fd → os.fd_set k fd ≡ fd
  fd_set-full k fd h = fd_set_appends k fd ∙ ground arith

  -- One more socket, while there is room.
  fd_set-room :
      (k : ℤ) (fd : List ℤ)
      → contains k fd ≡ false
      → ltb (length fd) fd_setsize ≡ true
      → os.fd_set k fd ≡ fd ++ k ∷ []
  fd_set-room k fd h e = fd_set_appends k fd ∙ ground arith

  abbrev greater : ℤ → ℤ → ℤ
  greater max_sd sd = if lt_ℤ max_sd sd then sd else max_sd

  add_clients-full :
      (clients fd : List ℤ) (max_sd : ℤ)
      → fd_setsize ≤ length fd
      → (add_clients os clients fd max_sd).0 ≡ fd
  unfolding add_clients
  add_clients-full [] fd max_sd h = refl
  add_clients-full (sd ∷ clients) fd max_sd h =
      ap (λ s. (add_clients os clients s (greater max_sd sd)).0) (fd_set-full sd fd h)
      ∙ add_clients-full clients fd (greater max_sd sd) h

  add_clients-take :
      (clients fd : List ℤ) (max_sd : ℤ)
      → length fd ≤ fd_setsize
      → Distinct (fd ++ clients)
      → (add_clients os clients fd max_sd).0 ≡ take fd_setsize (fd ++ clients)
  unfolding add_clients
  add_clients-take [] fd max_sd h v =
      sym (ap (take fd_setsize) (append-nil fd) ∙ take-all fd_setsize fd h)
  add_clients-take (sd ∷ clients) fd max_sd h v = elim (Bool-cases (ltb (length fd) fd_setsize)) [
    | inl e ↦
        let same = append_assoc fd (sd ∷ []) clients in
        ap (λ s. (add_clients os clients s (greater max_sd sd)).0)
          (fd_set-room sd fd (Distinct-next fd sd clients v) e)
        ∙ add_clients-take clients (fd ++ sd ∷ []) (greater max_sd sd)
            (ground (arith, length-append fd (sd ∷ []))) (rw same v)
        ∙ ap (take fd_setsize) same
    | inr e ↦
        let full : length fd ≡ fd_setsize = ground arith in
        add_clients-full (sd ∷ clients) fd max_sd (ground arith)
        ∙ sym (take-append fd (sd ∷ clients) fd_setsize full)
  ]

  module _ (server : ℤ) where
    -- With `FD_SET` as documented, if no accepted socket stands twice or is the server's, then
    -- `reset_fd_set` leaves in the set the server's socket and the first 63 accepted sockets, and
    -- no other.
    pub reset_fd_set-take :
        (clients : List ℤ)
        → Distinct (server ∷ clients)
        → (reset_fd_set os server clients).0 ≡ take fd_setsize (server ∷ clients)
    unfolding reset_fd_set
    reset_fd_set-take clients v =
        ap (λ s. (add_clients os clients s server).0)
          (fd_set-room server [] (contains-none server) refl)
        ∙ add_clients-take clients (server ∷ []) server (omega arith) v

    module _ (st : State os.World) (fresh : AcceptsFresh os server st) (j : ℤ) where
      abbrev Unheard : Run os.World (Unit {0}) → Type 0
      Unheard r =
          (st' : State os.World) × (r ≡ done tt st')
          × (contains j st'.ready_read_sockets_queue_.m_queue
              ≡ contains j st.ready_read_sockets_queue_.m_queue)

      push_events-Unheard :
          (ready : List ℤ) (sessions : Sessions) (w : os.World)
          → contains j ready ≡ false
          → Unheard (push_events os server ready (record st { sessions = sessions; world = w }))
      push_events-Unheard ready sessions w h = (
        record st {
          sessions = sessions;
          world = w;
          ready_read_sockets_queue_ = push_ready server ready st.ready_read_sockets_queue_;
        },
        refl,
        push_ready-others server j ready st.ready_read_sockets_queue_ h,
      )

      enter_client-Unheard :
          (ready : List ℤ)
          → contains j ready ≡ false
          → Unheard (
              enter_client os server ready
                (accepting os server st).0
                (record st { world = (accepting os server st).1 }))
      unfolding enter_client
      enter_client-Unheard ready h =
          let k = (accepting os server st).0 in
          let w = (accepting os server st).1 in
          elim (Bool-cases (k ==ℤ socket_error)) [
            | inl error ↦ rw error (record st { world = w }, refl, refl)
            | inr fine ↦
                let (t, e) =
                  accept_client-unused k st.sessions
                    (fresh (λ h. ground (arith, ==ℤ_iff k socket_error))) in
                rw (fine, e) (push_events-Unheard ready t w h)
          ]

      -- With `FD_SET` and `select` as documented, if no accepted socket stands twice or is the
      -- server's, and `accept` hands out no socket in use, a round of the event loop returns, and
      -- a socket that is not among the server's and the first 63 accepted ones waits for a reader
      -- after it just if it did before, whatever `select` reports: a client there is never heard.
      pub listen_round-Unheard :
          Distinct (server ∷ get_accepted_sockets st.sessions)
          → contains j (take fd_setsize (server ∷ get_accepted_sockets st.sessions)) ≡ false
          → Unheard (listen_round os server st)
      unfolding listen_round
      listen_round-Unheard v out = elim (Option-cases (selection os server st).0) [
        | inl failed ↦ rw failed (record st { world = (selection os server st).1 }, refl, refl)
        | inr (ready, e) ↦
            let h : contains j ready ≡ false =
              select_keeps (reset_fd_set os server (get_accepted_sockets st.sessions)).0 ready
                st.world e j (rw (reset_fd_set-take (get_accepted_sockets st.sessions) v) out) in
            elim (Bool-cases (contains server ready)) [
              | inl asks ↦ rw (e, asks) (enter_client-Unheard ready h)
              | inr quiet ↦
                  rw (e, quiet) (push_events-Unheard ready st.sessions (selection os server st).1 h)
            ]
      ]
