-- ===== src/Text/Stoi/Bounds.antt =====
-- How large a number a short text can spell.
use isc_challenge_without_bo.Prelude.{
  ℕ, zero, suc, ◌+◌, ◌-◌, ◌^◌, ◌≤◌, ◌<◌, true, false, [], ◌∷◌, Result, ok, throw, invalid_argument,
  out_of_range, ℤ, pos, negsuc, length, All, arith,
}
use isc_challenge_without_bo.Text.{Bytes}
use isc_challenge_without_bo.Text.Stoi.{
  IsDigit, value-lt, convert, signed, leading_digits, stoi, skip_space, leading_digits-IsDigit,
  length-leading_digits-le, length-skip_space-le,
}
use native.Mathlib.Nat.{pow-le-pow_right}

-- At most `k` digits, or a sign and fewer than `k` digits; never out of range.
abbrev pub Within : ℕ → Result ℤ → Type 0
Within k (ok (pos n)) = n < 10 ^ k
Within k (ok (negsuc n)) = n + 1 < 10 ^ (k - 1)
Within k (throw invalid_argument) = Unit
Within k (throw out_of_range) = ⊥

small_pow : (k : ℕ) → k ≤ 9 → 10 ^ k ≤ 1_000_000_000
small_pow k h = pow-le-pow_right {n = 10} (omega arith) {i = k} {j = 9} h

convert-Within :
    (k : ℕ) (ds : Bytes) → All IsDigit ds → length ds ≤ k → k ≤ 9 → Within k (convert false ds)
unfolding convert
convert-Within k [] a h fit = tt
convert-Within k (d ∷ ds) a h fit = ground (arith, value-lt k 0 (d ∷ ds) a h, small_pow k fit)

convert-Within_neg :
    (k : ℕ) (ds : Bytes) → All IsDigit ds → length ds ≤ k → k ≤ 9 → Within (suc k) (convert true ds)
unfolding convert
convert-Within_neg k [] a h fit = tt
convert-Within_neg k (d ∷ ds) a h fit = ground (
  arith,
  value-lt k 0 (d ∷ ds) a h,
  small_pow k fit,
  pow-le-pow_right {n = 10} (omega arith) {i = k} {j = suc k} (omega arith),
)

signed-Within : (k : ℕ) (s : Bytes) → length s ≤ k → k ≤ 9 → Within k (signed s)
unfolding signed
signed-Within k [] h fit = tt
signed-Within zero (c ∷ s) h fit = absurd (omega arith)
signed-Within (suc k) (c ∷ s) h fit =
    let tail = length-leading_digits-le s in
    let whole = length-leading_digits-le (c ∷ s) in
    ground (
      arith,
      convert-Within_neg k (leading_digits s) (leading_digits-IsDigit s) (omega arith)
          (omega arith),
      convert-Within (suc k) (leading_digits s) (leading_digits-IsDigit s) (omega arith) fit,
      convert-Within (suc k) (leading_digits (c ∷ s)) (leading_digits-IsDigit (c ∷ s)) (omega arith)
          fit,
    )

-- A text of `k` bytes, `k` at most nine, spells a number of at most `k` digits, or of fewer
-- than `k` digits below zero, or none; it never spells a number out of range.
pub stoi-Within : (k : ℕ) (s : Bytes) → length s ≤ k → k ≤ 9 → Within k (stoi s)
unfolding stoi
stoi-Within k s h fit = signed-Within k (skip_space s) (omega (arith, length-skip_space-le s)) fit
