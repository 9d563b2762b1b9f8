-- ===== src/Router/Sessions/Lists.antt =====
-- The vector of accepted sockets.
use isc_challenge_without_bo.Prelude.{
  ◌≡◌, refl, true, false, List, [], ◌∷◌, ◌++◌, ℤ, ◌==ℤ◌, ==ℤ_iff, if◌then◌else◌, arith,
}
use isc_challenge_without_bo.Router.Sessions.{contains, erase_first}

-- No socket stands twice.
abbrev pub Distinct : List ℤ → Type 0
Distinct [] = Unit
Distinct (x ∷ xs) = (contains x xs ≡ false) × Distinct xs

pub contains-append :
    (j k : ℤ) (xs : List ℤ) → contains j (xs ++ k ∷ []) ≡ (if k ==ℤ j then true else contains j xs)
unfolding contains
contains-append j k [] = refl
contains-append j k (x ∷ xs) = ground (arith, contains-append j k xs)

pub Distinct-append :
    (k : ℤ) (xs : List ℤ) → contains k xs ≡ false → Distinct xs → Distinct (xs ++ k ∷ [])
unfolding contains
Distinct-append k [] h d = (refl, tt)
Distinct-append k (x ∷ xs) h d =
    ground (arith, contains-append x k xs, Distinct-append k xs, ==ℤ_iff k x, ==ℤ_iff x k)

pub contains-erase_first :
    (j k : ℤ) (xs : List ℤ)
    → Distinct xs
    → contains j (erase_first k xs) ≡ (if k ==ℤ j then false else contains j xs)
unfolding contains erase_first
contains-erase_first j k [] d = ground arith
contains-erase_first j k (x ∷ xs) d =
    ground
      (arith, contains-erase_first j k xs d.1, ==ℤ_iff k x, ==ℤ_iff x k, ==ℤ_iff k j, ==ℤ_iff x j)

pub Distinct-erase_first : (k : ℤ) (xs : List ℤ) → Distinct xs → Distinct (erase_first k xs)
unfolding erase_first
Distinct-erase_first k [] d = tt
Distinct-erase_first k (x ∷ xs) d =
    ground (arith, Distinct-erase_first k xs d.1, contains-erase_first x k xs d.1)
