-- ===== src/Text.antt =====
-- What the program uses of the C++ library's text functions: `std::stoi` on a C string, and an
-- `ostringstream` with `setw` and `setfill('0')`. Texts are lists of byte values.
pub mod Stoi
pub mod Decimal
pub mod Buffer
use Prim.Native.Char.{code}
use Prim.Native.String.{String}
use isc_challenge_without_bo.Prelude.{ℕ, List, [], ◌∷◌, ◌==◌, if◌then◌else◌}

abbrev pub Bytes : Type 0
Bytes = List ℕ

-- The bytes of a `const char*` up to its terminator.
unfoldable pub c_string : Bytes → Bytes
c_string [] = []
c_string (c ∷ s) = if c == 0 then [] else c ∷ c_string s

-- The bytes of an ASCII literal.
abbrev pub codes : String → Bytes
codes String.[] = []
codes (String.◌∷◌ c s) = code c ∷ codes s
