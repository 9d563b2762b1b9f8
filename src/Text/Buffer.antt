-- ===== src/Text/Buffer.antt =====
-- Stretches of byte lists: what a buffer holds after bytes and a terminator are written to it.
use isc_challenge_without_bo.Prelude.{
  ℕ, zero, suc, ◌≤◌, ◌<◌, ◌≡◌, refl, sym, ap, ◌∙◌, [], ◌∷◌, ◌++◌, length, length-drop,
  length-append, take-append, drop-append, take, drop, set, arith,
}
use isc_challenge_without_bo.Text.{Bytes}

drop-cons : (n : ℕ) (xs : Bytes) → n < length xs → (c : ℕ) × (drop n xs ≡ c ∷ drop (suc n) xs)
drop-cons n [] h = absurd (omega arith)
drop-cons zero (x ∷ xs) h = (x, refl)
drop-cons (suc n) (x ∷ xs) h = drop-cons n xs (omega arith)

set-append : (xs ys : Bytes) (n c v : ℕ) → length xs ≡ n → set (xs ++ c ∷ ys) n v ≡ xs ++ v ∷ ys
set-append [] ys zero c v h = refl
set-append [] ys (suc n) c v h = absurd (omega arith)
set-append (x ∷ xs) ys zero c v h = absurd (omega arith)
set-append (x ∷ xs) ys (suc n) c v h = ap (◌∷◌ x) (set-append xs ys n c v (omega arith))

-- A terminator behind the bytes read.
pub set-terminator :
    (bs buffer : Bytes) (n : ℕ)
    → length bs ≡ n
    → n < length buffer
    → set (bs ++ drop (length bs) buffer) n 0 ≡ bs ++ 0 ∷ drop (suc n) buffer
set-terminator bs buffer n e h =
    let (c, split) = drop-cons n buffer h in
    rw (e, split) (set-append bs (drop (suc n) buffer) n c 0 e)

pub length-terminated :
    (bs buffer : Bytes) (n : ℕ)
    → length bs ≡ n
    → n < length buffer
    → length (bs ++ 0 ∷ drop (suc n) buffer) ≡ length buffer
length-terminated bs buffer n e h =
    omega (arith, length-append bs (0 ∷ drop (suc n) buffer), length-drop (suc n) buffer)

pub drop-append_le : (n : ℕ) (xs ys : Bytes) → n ≤ length xs → drop n (xs ++ ys) ≡ drop n xs ++ ys
drop-append_le zero xs ys h = refl
drop-append_le (suc n) [] ys h = absurd (omega arith)
drop-append_le (suc n) (x ∷ xs) ys h = drop-append_le n xs ys (omega arith)

pub take-append-drop : (n : ℕ) (xs : Bytes) → take n xs ++ drop n xs ≡ xs
take-append-drop zero xs = refl
take-append-drop (suc n) [] = refl
take-append-drop (suc n) (x ∷ xs) = ap (◌∷◌ x) (take-append-drop n xs)

-- Two readings of one stream with prefixes of one length.
pub prefix_of :
    (xs ys xs' ys' : Bytes)
    → xs ++ ys ≡ xs' ++ ys'
    → length xs ≡ length xs'
    → (xs ≡ xs') × (ys ≡ ys')
prefix_of xs ys xs' ys' e l = (
  sym (take-append xs ys (length xs') l)
      ∙ ap (take (length xs')) e
      ∙ take-append xs' ys' (length xs') refl,
  sym (drop-append xs ys (length xs') l)
      ∙ ap (drop (length xs')) e
      ∙ drop-append xs' ys' (length xs') refl,
)

pub take-append_le : (n : ℕ) (xs ys : Bytes) → n ≤ length xs → take n (xs ++ ys) ≡ take n xs
take-append_le zero xs ys h = refl
take-append_le (suc n) [] ys h = absurd (omega arith)
take-append_le (suc n) (x ∷ xs) ys h = ap (◌∷◌ x) (take-append_le n xs ys (omega arith))
