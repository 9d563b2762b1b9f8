-- ===== src/IntMap.antt =====
-- What the program uses of `std::unordered_map<int, V>`: entries by key, one for each key that is
-- looked up.
use isc_challenge_without_bo.Prelude.{
  ◌≡◌, refl, List, [], ◌∷◌, Option, none, some, ℤ, ◌==ℤ◌, ==ℤ_iff, if◌then◌else◌, arith,
}

module _ {ℓ} {V : Type ℓ} where
  unfoldable pub lookup : ℤ → List (ℤ × V) → Option V
  lookup k [] = none
  lookup k ((j, v) ∷ m) = if j ==ℤ k then some v else lookup k m

  -- `m[k] = v`
  unfoldable pub assign : ℤ → V → List (ℤ × V) → List (ℤ × V)
  assign k v [] = (k, v) ∷ []
  assign k v ((j, w) ∷ m) = if j ==ℤ k then (k, v) ∷ m else (j, w) ∷ assign k v m

  unfoldable pub erase : ℤ → List (ℤ × V) → List (ℤ × V)
  erase k [] = []
  erase k ((j, v) ∷ m) = if j ==ℤ k then erase k m else (j, v) ∷ erase k m

  pub lookup-assign :
      (k j : ℤ) (v : V) (m : List (ℤ × V))
      → lookup j (assign k v m) ≡ (if k ==ℤ j then some v else lookup j m)
  unfolding lookup assign
  lookup-assign k j v [] = refl
  lookup-assign k j v ((i, w) ∷ m) =
      ground (arith, ==ℤ_iff k j, ==ℤ_iff i k, ==ℤ_iff i j, lookup-assign k j v m)

  pub lookup-erase :
      (k j : ℤ) (m : List (ℤ × V)) → lookup j (erase k m) ≡ (if k ==ℤ j then none else lookup j m)
  unfolding lookup erase
  lookup-erase k j [] = ground arith
  lookup-erase k j ((i, w) ∷ m) =
      ground (arith, ==ℤ_iff k j, ==ℤ_iff i k, ==ℤ_iff i j, lookup-erase k j m)
