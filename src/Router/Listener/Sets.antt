-- ===== src/Router/Listener/Sets.antt =====
-- The set that `select` is given, and the threads.
use isc_challenge_without_bo.Prelude.{
  ℕ, ◌+◌, ◌≤◌, ◌≡◌, refl, inl, inr, true, Bool-cases, List, [], ◌∷◌, ℤ, ==ℤ_refl, lt_ℤ, Le, Le-refl,
  Le-trans, Le_of_lt, if◌then◌else◌, All, arith,
}
use isc_challenge_without_bo.Winsock.{Os}
use isc_challenge_without_bo.Router.Sessions.{contains}
use isc_challenge_without_bo.Router.Listener.{thread_roles, add_clients, reset_fd_set}

-- The two kinds of workers share all the threads, evenly but for one reader more.
pub thread_roles_lem :
    (n : ℕ)
    → ((thread_roles n).0 + (thread_roles n).1 ≡ n)
      × ((thread_roles n).1 ≤ (thread_roles n).0)
      × ((thread_roles n).0 ≤ (thread_roles n).1 + 1)
unfolding thread_roles
thread_roles_lem n = ground arith

-- `FD_SET` of each socket in turn.
pub set_all : (ℤ → List ℤ → List ℤ) → List ℤ → List ℤ → List ℤ
set_all fd_set [] fd = fd
set_all fd_set (sd ∷ sds) fd = set_all fd_set sds (fd_set sd fd)

module _ (os : Os) where
  add_clients-set :
      (clients fd : List ℤ) (max_sd : ℤ)
      → (add_clients os clients fd max_sd).0 ≡ set_all os.fd_set clients fd
  unfolding add_clients set_all
  add_clients-set [] fd max_sd = refl
  add_clients-set (sd ∷ clients) fd max_sd = add_clients-set clients (os.fd_set sd fd) _

  larger : ℤ → ℤ → ℤ
  larger max_sd sd = if lt_ℤ max_sd sd then sd else max_sd

  larger-Le : (a b : ℤ) → Le a (larger a b) × Le b (larger a b)
  unfolding larger
  larger-Le a b = elim (Bool-cases (lt_ℤ a b)) [
    | inl e ↦ rw e (Le_of_lt a b e, Le-refl b)
    | inr e ↦ rw e (Le-refl a, e)
  ]

  add_clients-Le :
      (clients fd : List ℤ) (max_sd : ℤ)
      → Le max_sd (add_clients os clients fd max_sd).1
        × All (λ sd. Le sd (add_clients os clients fd max_sd).1) clients
  unfolding add_clients larger
  add_clients-Le [] fd max_sd = (Le-refl max_sd, tt)
  add_clients-Le (sd ∷ clients) fd max_sd =
      let (low, rest) = add_clients-Le clients (os.fd_set sd fd) (larger max_sd sd) in
      let (old, new) = larger-Le max_sd sd in
      let top = (add_clients os clients (os.fd_set sd fd) (larger max_sd sd)).1 in
      (
        Le-trans max_sd (larger max_sd sd) top old low,
        (Le-trans sd (larger max_sd sd) top new low, rest),
      )

  add_clients-attained :
      (clients fd : List ℤ) (max_sd : ℤ)
      → contains (add_clients os clients fd max_sd).1 (max_sd ∷ clients) ≡ true
  unfolding add_clients larger contains
  add_clients-attained [] fd max_sd = ground (arith, ==ℤ_refl max_sd)
  add_clients-attained (sd ∷ clients) fd max_sd = elim (Bool-cases (lt_ℤ max_sd sd)) [
    | inl e ↦ ground (arith, add_clients-attained clients (os.fd_set sd fd) sd)
    | inr e ↦ ground (arith, add_clients-attained clients (os.fd_set sd fd) max_sd)
  ]

  -- `reset_fd_set` sets the server and then each client, from the empty set; its result is the
  -- largest of these sockets.
  pub reset_fd_set_lem :
      (server : ℤ) (clients : List ℤ)
      → ((reset_fd_set os server clients).0 ≡ set_all os.fd_set (server ∷ clients) [])
        × All (λ sd. Le sd (reset_fd_set os server clients).1) (server ∷ clients)
        × (contains (reset_fd_set os server clients).1 (server ∷ clients) ≡ true)
  unfolding reset_fd_set set_all
  reset_fd_set_lem server clients =
      let (low, all) = add_clients-Le clients (os.fd_set server []) server in
      (
        add_clients-set clients (os.fd_set server []) server,
        (low, all),
        add_clients-attained clients (os.fd_set server []) server,
      )
