-- ===== src/Prelude/Int.antt =====
-- The source's `int`: an integer, with the tests and the arithmetic that the source uses on it.
use Prim.Native.Nat.{ℕ, suc, ◌+◌, ◌-◌, ◌%◌}
use mathlib.Core.Path.{◌≡◌, refl}
use mathlib.Core.Logic.{◌≢◌, ◌↔◌}
use mathlib.Core.Bool.{Bool, true, false}
use mathlib.Core.List.{List, [], ◌∷◌}
use native.Mathlib.Omega.{arith}
use isc_challenge_without_bo.Prelude.Tests.{◌==◌, ltb, if◌then◌else◌}

-- `negsuc n` is -(n + 1).
pub data ℤ : Type 0 where
  pos : ℕ → ℤ
  negsuc : ℕ → ℤ

infix 50 ◌==ℤ◌
unfoldable pub ◌==ℤ◌ : ℤ → ℤ → Bool
pos a ==ℤ pos b = a == b
negsuc a ==ℤ negsuc b = a == b
a ==ℤ b = false

-- `a < n` for a constant `n` that is not negative.
abbrev pub lt_pos : ℤ → ℕ → Bool
lt_pos (pos a) n = ltb a n
lt_pos (negsuc a) n = true

-- `a + n` for a constant `n` that is not negative.
abbrev pub add_pos : ℤ → ℕ → ℤ
add_pos (pos a) n = pos (a + n)
add_pos (negsuc a) n = if ltb a n then pos (n - suc a) else negsuc (a - n)

-- minus `a`
abbrev pub neg : ℕ → ℤ
neg a = if a == 0 then pos 0 else negsuc (a - 1)

-- `a % n` of C++ for a positive `n`: the remainder has the sign of `a`.
abbrev pub rem_pos : ℤ → ℕ → ℤ
rem_pos (pos a) n = pos (a % n)
rem_pos (negsuc a) n = neg (suc a % n)

pub ==ℤ_refl : (a : ℤ) → (a ==ℤ a) ≡ true
unfolding ◌==ℤ◌
==ℤ_refl (pos a) = ground arith
==ℤ_refl (negsuc a) = ground arith

pub eq_of_==ℤ : (a b : ℤ) → (a ==ℤ b) ≡ true → a ≡ b
unfolding ◌==ℤ◌
eq_of_==ℤ (pos a) (pos b) h = ground arith
eq_of_==ℤ (pos a) (negsuc b) h = cc
eq_of_==ℤ (negsuc a) (pos b) h = cc
eq_of_==ℤ (negsuc a) (negsuc b) h = ground arith

pub ==ℤ_of_ne : (a b : ℤ) → a ≢ b → (a ==ℤ b) ≡ false
==ℤ_of_ne a b h = ground (arith, eq_of_==ℤ a b)

pub ==ℤ_iff : (a b : ℤ) → ((a ==ℤ b) ≡ true) ↔ (a ≡ b)
==ℤ_iff a b = (eq_of_==ℤ a b, λ e. rw e (==ℤ_refl b))

-- `a < b`
abbrev pub lt_ℤ : ℤ → ℤ → Bool
lt_ℤ (pos a) (pos b) = ltb a b
lt_ℤ (pos a) (negsuc b) = false
lt_ℤ (negsuc a) (pos b) = true
lt_ℤ (negsuc a) (negsuc b) = ltb b a

-- `a ≤ b`
abbrev pub Le : ℤ → ℤ → Type 0
Le a b = lt_ℤ b a ≡ false

pub Le-refl : (a : ℤ) → Le a a
Le-refl (pos a) = ground arith
Le-refl (negsuc a) = ground arith

pub Le-trans : (a b c : ℤ) → Le a b → Le b c → Le a c
Le-trans (pos a) (pos b) (pos c) h k = ground arith
Le-trans (pos a) (pos b) (negsuc c) h k = cc
Le-trans (pos a) (negsuc b) c h k = cc
Le-trans (negsuc a) (pos b) (pos c) h k = refl
Le-trans (negsuc a) (pos b) (negsuc c) h k = cc
Le-trans (negsuc a) (negsuc b) (pos c) h k = refl
Le-trans (negsuc a) (negsuc b) (negsuc c) h k = ground arith

-- One of two is at most the other.
pub Le_of_lt : (a b : ℤ) → lt_ℤ a b ≡ true → Le a b
Le_of_lt (pos a) (pos b) h = ground arith
Le_of_lt (pos a) (negsuc b) h = cc
Le_of_lt (negsuc a) (pos b) h = refl
Le_of_lt (negsuc a) (negsuc b) h = ground arith

-- `std::find(v.begin(), v.end(), x) != v.end()`
unfoldable pub contains : ℤ → List ℤ → Bool
contains k [] = false
contains k (x ∷ xs) = if x ==ℤ k then true else contains k xs
