-- ===== src/Text/Stoi/Digits.antt =====
-- What `std::stoi` returns for a text of digits.
use isc_challenge_without_bo.Prelude.{
  ℕ, zero, suc, ◌<◌, ◌≡◌, ◌≢◌, refl, false, [], ◌∷◌, ◌++◌, ok, pos, All, replicate, ◌∙◌, ap, arith,
}
use isc_challenge_without_bo.Text.{Bytes}
use isc_challenge_without_bo.Text.Stoi.{
  IsDigit, int_limit, value, convert, signed, leading_digits, stoi, skip_space,
}

leading_digits-eq_self : (s : Bytes) → All IsDigit s → leading_digits s ≡ s
unfolding leading_digits
leading_digits-eq_self [] h = refl
leading_digits-eq_self (c ∷ s) h = ground (arith, leading_digits-eq_self s h.1)

-- Leading zeros do not count.
pub value-replicate : (k : ℕ) (s : Bytes) → value 0 (replicate k b'0' ++ s) ≡ value 0 s
unfolding value
value-replicate zero s = refl
value-replicate (suc k) s = value-replicate k s

convert-value :
    (s : Bytes) → s ≢ [] → value 0 s < int_limit → convert false s ≡ ok (pos (value 0 s))
unfolding convert
convert-value [] ne fit = absurd (ne refl)
convert-value (c ∷ s) ne fit = ground arith

signed-digits : (c : ℕ) (s : Bytes) → All IsDigit (c ∷ s) → signed (c ∷ s) ≡ convert false (c ∷ s)
unfolding signed
signed-digits c s h = ground (arith, leading_digits-eq_self (c ∷ s) h)

skip_space-digit : (c : ℕ) (s : Bytes) → IsDigit c → skip_space (c ∷ s) ≡ c ∷ s
unfolding skip_space
skip_space-digit c s h = ground arith

stoi_lem : (s : Bytes) → stoi s ≡ signed (skip_space s)
unfolding stoi
stoi_lem s = refl

-- A text of digits is read as the number that they spell.
pub stoi-value :
    (s : Bytes) → s ≢ [] → All IsDigit s → value 0 s < int_limit → stoi s ≡ ok (pos (value 0 s))
stoi-value [] ne h fit = absurd (ne refl)
stoi-value (c ∷ s) ne h fit =
    stoi_lem (c ∷ s)
    ∙ ap signed (skip_space-digit c s h.0)
    ∙ signed-digits c s h
    ∙ convert-value (c ∷ s) ne fit
