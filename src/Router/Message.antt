-- ===== src/Router/Message.antt =====
-- The class `Message` of router/include/message.h.
pub mod Wire
use isc_challenge_without_bo.Prelude.{
  ℕ, Result, ok, throw, invalid_argument, ℤ, negsuc, lt_pos, if◌then◌else◌, drop,
}
use isc_challenge_without_bo.Text.{Bytes, c_string}
use isc_challenge_without_bo.Text.Stoi.{stoi}

abbrev pub id_message_size : ℕ
id_message_size = 3

abbrev pub data_message_size : ℕ
data_message_size = 32

-- -1, which is also `NONE` of session.h
abbrev pub minus_one : ℤ
minus_one = negsuc 0

-- `catch (const std::invalid_argument&)` and `return -1`
abbrev pub or_minus_one : Result ℤ → Result ℤ
or_minus_one (throw invalid_argument) = ok minus_one
or_minus_one r = r

unfoldable pub extract_src_id : Bytes → ℤ → Result ℤ
extract_src_id msg len =
    if lt_pos len id_message_size then ok minus_one else or_minus_one (stoi (c_string msg))

unfoldable pub extract_dst_id : Bytes → ℤ → Result ℤ
extract_dst_id msg len =
    if lt_pos len data_message_size
    then ok minus_one
    else or_minus_one (stoi (c_string (drop 29 msg)))
