-- ===== src/Text/Decimal.antt =====
-- `oss << std::setw(w) << std::setfill('0') << n`: the decimal print, padded on the left.
pub mod RoundTrip
use isc_challenge_without_bo.Prelude.{
  ℕ, zero, suc, ◌+◌, ◌-◌, ◌/◌, ◌%◌, [], ◌∷◌, ◌++◌, ℤ, pos, negsuc, ◌==◌, if◌then◌else◌, length,
  replicate,
}
use isc_challenge_without_bo.Text.{Bytes}

-- The digits of `n` before `acc`; the fuel counts the digits at most, so `n` is enough.
unfoldable pub digits : ℕ → ℕ → Bytes → Bytes
digits zero n acc = acc
digits (suc fuel) n acc =
    let rest = digits fuel (n / 10) ((b'0' + n % 10) ∷ acc) in if n == 0 then acc else rest

unfoldable pub decimal : ℕ → Bytes
decimal n = if n == 0 then b'0' ∷ [] else digits n n []

pub print : ℤ → Bytes
print (pos n) = decimal n
print (negsuc n) = b'-' ∷ decimal (suc n)

abbrev pub pad : ℕ → Bytes → Bytes
pad w s = replicate (w - length s) b'0' ++ s

unfoldable pub set_width : ℕ → ℤ → Bytes
unfolding print
set_width w n = pad w (print n)
