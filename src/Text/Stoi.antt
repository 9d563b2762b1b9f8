-- ===== src/Text/Stoi.antt =====
-- `std::stoi(text)` in base ten: leading space, an optional sign, digits; what follows is ignored.
pub mod Bounds
pub mod Digits
use isc_challenge_without_bo.Prelude.{
  ℕ, zero, suc, ◌+◌, ◌-◌, ◌*◌, ◌^◌, ◌≤◌, ◌<◌, Bool, true, false, ◌&&◌, ◌||◌, [], ◌∷◌, Result, ok,
  throw, invalid_argument, out_of_range, ℤ, pos, neg, leb, ltb, ◌==◌, if◌then◌else◌, length, All,
  arith,
}
use isc_challenge_without_bo.Text.{Bytes}
use native.Mathlib.Nat.{pow-suc}

abbrev pub is_space : ℕ → Bool
is_space c = c == b' ' || (leb 9 c && leb c 13)

abbrev pub is_digit : ℕ → Bool
is_digit c = leb b'0' c && leb c b'9'

pub skip_space : Bytes → Bytes
skip_space [] = []
skip_space (c ∷ s) = if is_space c then skip_space s else c ∷ s

pub leading_digits : Bytes → Bytes
leading_digits [] = []
leading_digits (c ∷ s) = if is_digit c then c ∷ leading_digits s else []

-- The number that digits spell behind `n`.
unfoldable pub value : ℕ → Bytes → ℕ
value n [] = n
value n (c ∷ s) = value (n * 10 + (c - b'0')) s

abbrev pub int_limit : ℕ
int_limit = 2 ^ 31

-- A magnitude and a sign as an `int` of 32 bits.
abbrev pub to_int : Bool → ℕ → Result ℤ
to_int true n = if leb n int_limit then ok (neg n) else throw out_of_range
to_int false n = if ltb n int_limit then ok (pos n) else throw out_of_range

pub convert : Bool → Bytes → Result ℤ
convert negative [] = throw invalid_argument
convert negative (d ∷ ds) = to_int negative (value 0 (d ∷ ds))

pub signed : Bytes → Result ℤ
signed [] = throw invalid_argument
signed (c ∷ s) =
    if c == b'-'
    then convert true (leading_digits s)
    else if c == b'+'
    then convert false (leading_digits s)
    else convert false (leading_digits (c ∷ s))

unfoldable pub stoi : Bytes → Result ℤ
unfolding skip_space signed convert leading_digits value
stoi s = signed (skip_space s)

abbrev pub IsDigit : ℕ → Type 0
IsDigit c = (b'0' ≤ c) × (c ≤ b'9')

pub leading_digits-IsDigit : (s : Bytes) → All IsDigit (leading_digits s)
unfolding leading_digits
leading_digits-IsDigit [] = tt
leading_digits-IsDigit (c ∷ s) = ground (arith, leading_digits-IsDigit s)

pub length-leading_digits-le : (s : Bytes) → length (leading_digits s) ≤ length s
unfolding leading_digits
length-leading_digits-le [] = omega arith
length-leading_digits-le (c ∷ s) = ground (arith, length-leading_digits-le s)

pub length-skip_space-le : (s : Bytes) → length (skip_space s) ≤ length s
unfolding skip_space
length-skip_space-le [] = omega arith
length-skip_space-le (c ∷ s) = ground (arith, length-skip_space-le s)

-- Digits behind `n` spell less than `(n + 1) * 10 ^ k`.
pub value-lt : (k n : ℕ) (s : Bytes) → All IsDigit s → length s ≤ k → value n s < (n + 1) * 10 ^ k
unfolding value
value-lt zero n [] a h = omega arith
value-lt zero n (c ∷ s) a h = absurd (omega arith)
value-lt (suc k) n [] a h = rw pow-suc (grind (arith, value-lt k n [] tt (omega arith)))
value-lt (suc k) n (c ∷ s) a h =
    rw pow-suc (grind (arith, value-lt k (n * 10 + (c - b'0')) s a.1 (omega arith)))
