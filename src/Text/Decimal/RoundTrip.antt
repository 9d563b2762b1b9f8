-- ===== src/Text/Decimal/RoundTrip.antt =====
-- Printed numbers are read back, and how wide they are.
use isc_challenge_without_bo.Prelude.{
  ℕ, zero, suc, ◌+◌, ◌-◌, ◌*◌, ◌/◌, ◌%◌, ◌^◌, ◌≤◌, ◌<◌, ◌≡◌, ◌≢◌, ◌∙◌, ap, [], ◌∷◌, ◌++◌, ok, pos,
  negsuc, length, length-append, length-replicate, All, All-append, All-replicate, replicate, arith,
}
use isc_challenge_without_bo.Text.{Bytes}
use isc_challenge_without_bo.Text.Stoi.{IsDigit, int_limit, value, stoi}
use isc_challenge_without_bo.Text.Stoi.Digits.{value-replicate, stoi-value}
use isc_challenge_without_bo.Text.Decimal.{digits, decimal, pad, set_width}
use native.Mathlib.Nat.{pow-suc}

digits-IsDigit : (f n : ℕ) (acc : Bytes) → All IsDigit acc → All IsDigit (digits f n acc)
unfolding digits
digits-IsDigit zero n acc h = h
digits-IsDigit (suc f) n acc h = ground (arith, digits-IsDigit f (n / 10) ((b'0' + n % 10) ∷ acc))

value-last : (n : ℕ) (acc : Bytes) → value (n / 10) ((b'0' + n % 10) ∷ acc) ≡ value n acc
unfolding value
value-last n acc = ap (λ m. value m acc) (omega arith)

-- Enough fuel prints every digit.
digits-value : (f n : ℕ) (acc : Bytes) → n ≤ f → value 0 (digits f n acc) ≡ value n acc
unfolding digits
digits-value zero n acc h = ap (λ m. value m acc) (omega arith)
digits-value (suc f) n acc h =
    ground (arith, digits-value f (n / 10) ((b'0' + n % 10) ∷ acc), value-last n acc)

length-digits-le : (k f n : ℕ) (acc : Bytes) → n < 10 ^ k → length (digits f n acc) ≤ k + length acc
unfolding digits
length-digits-le k zero n acc h = omega arith
length-digits-le zero (suc f) n acc h = ground arith
length-digits-le (suc k) (suc f) n acc h =
    let h' : n < 10 ^ k * 10 = rw (← pow-suc) h in
    ground (arith, length-digits-le k f (n / 10) ((b'0' + n % 10) ∷ acc))

le-length-digits : (f n : ℕ) (acc : Bytes) → length acc ≤ length (digits f n acc)
unfolding digits
le-length-digits zero n acc = omega arith
le-length-digits (suc f) n acc = ground (arith, le-length-digits f (n / 10) ((b'0' + n % 10) ∷ acc))

decimal-IsDigit : (n : ℕ) → All IsDigit (decimal n)
unfolding decimal
decimal-IsDigit n = ground (arith, digits-IsDigit n n [] tt)

decimal-value : (n : ℕ) → value 0 (decimal n) ≡ n
unfolding decimal value
decimal-value n = ground (arith, digits-value n n [])

length-decimal-le : (k n : ℕ) → 0 < k → n < 10 ^ k → length (decimal n) ≤ k
unfolding decimal
length-decimal-le k n p h = ground (arith, length-digits-le k n n [])

lt-length-decimal : (n : ℕ) → 0 < length (decimal n)
unfolding decimal digits
lt-length-decimal zero = omega arith
lt-length-decimal (suc n) =
    ground (arith, le-length-digits n (suc n / 10) ((b'0' + suc n % 10) ∷ []))

decimal-ne-nil : (n : ℕ) → decimal n ≢ []
decimal-ne-nil n e = omega (arith, lt-length-decimal n, ap length e)

append-ne-nil : (xs ys : Bytes) → ys ≢ [] → xs ++ ys ≢ []
append-ne-nil [] ys h = h
append-ne-nil (x ∷ xs) ys h = λ e. cc

pub set_width-IsDigit : (w n : ℕ) → All IsDigit (set_width w (pos n))
unfolding set_width
set_width-IsDigit w n =
    All-append IsDigit (replicate (w - length (decimal n)) b'0') (decimal n)
      (All-replicate IsDigit (w - length (decimal n)) b'0' (omega arith)) (decimal-IsDigit n)

-- A padded number has the width, if the width holds its digits.
pub length-set_width : (w n : ℕ) → 0 < w → n < 10 ^ w → length (set_width w (pos n)) ≡ w
unfolding set_width
length-set_width w n p h = omega (
  arith,
  length-append (replicate (w - length (decimal n)) b'0') (decimal n),
  length-replicate {A = ℕ} (w - length (decimal n)) b'0',
  length-decimal-le w n p h,
)

-- So has a padded number below zero, if the width holds its digits and the sign.
pub length-set_width_neg :
    (w n : ℕ) → 1 < w → n + 1 < 10 ^ (w - 1) → length (set_width w (negsuc n)) ≡ w
unfolding set_width
length-set_width_neg w n p h = omega (
  arith,
  length-append (replicate (w - suc (length (decimal (suc n)))) b'0') (b'-' ∷ decimal (suc n)),
  length-replicate {A = ℕ} (w - suc (length (decimal (suc n)))) b'0',
  length-decimal-le (w - 1) (suc n) (omega arith) (omega arith),
)

-- `std::stoi` reads a padded `int` back, whatever the width.
pub stoi-set_width : (w n : ℕ) → n < int_limit → stoi (set_width w (pos n)) ≡ ok (pos n)
unfolding set_width
stoi-set_width w n h =
    let same = value-replicate (w - length (decimal n)) (decimal n) ∙ decimal-value n in
    stoi-value (pad w (decimal n))
      (append-ne-nil (replicate (w - length (decimal n)) b'0') (decimal n) (decimal-ne-nil n))
      (set_width-IsDigit w n) (rw same h)
    ∙ ap (λ (m : ℕ). ok (pos m)) same
