-- ===== src/Router/Session.antt =====
-- The class `Session` of router/include/session.h. The objects stand in a store, and a
-- `shared_ptr<Session>` is a position in it, so that the two maps of `Sessions` share an object.
-- A position that is handed out always exists; the value at others is not used.
use isc_challenge_without_bo.Prelude.{
  ℕ, zero, suc, ◌<◌, ◌≡◌, refl, List, [], ◌∷◌, ◌++◌, ℤ, negsuc, ◌==◌, if◌then◌else◌, length, arith,
}

-- `NONE`
abbrev pub no_id : ℤ
no_id = negsuc 0

pub record Session : Type 0 where
  pub socket_ : ℤ
  pub id_ : ℤ

abbrev pub new_session : ℤ → Session
new_session socket = record { socket_ = socket; id_ = no_id }

unfoldable pub get_id : List Session → ℕ → ℤ
get_id [] r = no_id
get_id (x ∷ xs) zero = x.id_
get_id (x ∷ xs) (suc r) = get_id xs r

unfoldable pub get_socket : List Session → ℕ → ℤ
get_socket [] r = no_id
get_socket (x ∷ xs) zero = x.socket_
get_socket (x ∷ xs) (suc r) = get_socket xs r

unfoldable pub set_id : List Session → ℕ → ℤ → List Session
set_id [] r id = []
set_id (x ∷ xs) zero id = record x { id_ = id } ∷ xs
set_id (x ∷ xs) (suc r) id = x ∷ set_id xs r id

pub get_id-set_id :
    (xs : List Session) (r q : ℕ) (id : ℤ)
    → r < length xs
    → get_id (set_id xs r id) q ≡ (if r == q then id else get_id xs q)
unfolding get_id set_id
get_id-set_id [] r q id h = absurd (omega arith)
get_id-set_id (x ∷ xs) zero zero id h = refl
get_id-set_id (x ∷ xs) zero (suc q) id h = ground arith
get_id-set_id (x ∷ xs) (suc r) zero id h = ground arith
get_id-set_id (x ∷ xs) (suc r) (suc q) id h = ground (arith, get_id-set_id xs r q id)

pub get_socket-set_id :
    (xs : List Session) (r q : ℕ) (id : ℤ) → get_socket (set_id xs r id) q ≡ get_socket xs q
unfolding get_socket set_id
get_socket-set_id [] r q id = refl
get_socket-set_id (x ∷ xs) zero zero id = refl
get_socket-set_id (x ∷ xs) zero (suc q) id = refl
get_socket-set_id (x ∷ xs) (suc r) zero id = refl
get_socket-set_id (x ∷ xs) (suc r) (suc q) id = get_socket-set_id xs r q id

pub length-set_id : (xs : List Session) (r : ℕ) (id : ℤ) → length (set_id xs r id) ≡ length xs
unfolding set_id
length-set_id [] r id = refl
length-set_id (x ∷ xs) zero id = refl
length-set_id (x ∷ xs) (suc r) id = omega (arith, length-set_id xs r id)

-- A new object leaves the others as they are.
pub get_id-append :
    (xs : List Session) (x : Session) (r : ℕ)
    → r < length xs
    → get_id (xs ++ x ∷ []) r ≡ get_id xs r
unfolding get_id
get_id-append [] x r h = absurd (omega arith)
get_id-append (y ∷ xs) x zero h = refl
get_id-append (y ∷ xs) x (suc r) h = get_id-append xs x r (omega arith)

pub get_socket-append :
    (xs : List Session) (x : Session) (r : ℕ)
    → r < length xs
    → get_socket (xs ++ x ∷ []) r ≡ get_socket xs r
unfolding get_socket
get_socket-append [] x r h = absurd (omega arith)
get_socket-append (y ∷ xs) x zero h = refl
get_socket-append (y ∷ xs) x (suc r) h = get_socket-append xs x r (omega arith)

pub get_id-append_last :
    (xs : List Session) (x : Session) → get_id (xs ++ x ∷ []) (length xs) ≡ x.id_
unfolding get_id
get_id-append_last [] x = refl
get_id-append_last (y ∷ xs) x = get_id-append_last xs x

pub get_socket-append_last :
    (xs : List Session) (x : Session) → get_socket (xs ++ x ∷ []) (length xs) ≡ x.socket_
unfolding get_socket
get_socket-append_last [] x = refl
get_socket-append_last (y ∷ xs) x = get_socket-append_last xs x
