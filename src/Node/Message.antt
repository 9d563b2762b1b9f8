-- ===== src/Node/Message.antt =====
-- The class `Message` of node/include/message.h: the fixed layout of 32 bytes, which is
-- source (3), message type (4), trace (6), PAN (16) and destination (3).
pub mod Reply
pub mod Total
pub mod Layout
mod Tests
use isc_challenge_without_bo.Prelude.{
  ℕ, ◌+◌, ◌%◌, [], ◌∷◌, ◌++◌, Result, ok, throw, ◌>>=◌, ℤ, pos, negsuc, ◌==ℤ◌, add_pos, rem_pos,
  if◌then◌else◌, take, drop, replicate,
}
use isc_challenge_without_bo.Text.{Bytes}
use isc_challenge_without_bo.Text.Stoi.{stoi}
use isc_challenge_without_bo.Text.Decimal.{set_width}

abbrev pub msg_len : ℕ
msg_len = 32

-- `std::string(message + index, n)`
abbrev pub field : Bytes → ℕ → ℕ → Bytes
field message index n = take n (drop index message)

-- The reply to a message whose destination is this node.
unfoldable pub build_reply : Bytes → Result Bytes
build_reply message = do
  mti ← stoi (field message 3 4)
  let new_mti = rem_pos (add_pos mti 10) 10000
  ok (
      field message 29 3
      ++ (set_width 4 new_mti ++ (field message 7 6 ++ (field message 13 16 ++ field message 0 3))))

unfoldable pub process_message : ℤ → Bytes → ℤ → Result Bytes
unfolding build_reply
process_message current_node_id message message_len =
    if message_len ==ℤ pos msg_len
    then (do
      msg_dst ← stoi (field message 29 3)
      if msg_dst ==ℤ current_node_id then build_reply message else ok [])
    else ok []

abbrev pub first_mti : Bytes
first_mti = b'2' ∷ b'2' ∷ b'0' ∷ b'0' ∷ []

abbrev pub first_trace : Bytes
first_trace = b'1' ∷ b'2' ∷ b'3' ∷ b'4' ∷ b'5' ∷ b'6' ∷ []

abbrev pub first_pan : Bytes
first_pan = replicate 16 b'1'

unfoldable pub build_first_message : ℤ → ℤ → Bytes
build_first_message src_node_id dst_node_id =
    set_width 3 src_node_id
    ++ (first_mti ++ (first_trace ++ (first_pan ++ set_width 3 dst_node_id)))

unfoldable pub build_id_message : ℤ → Bytes
build_id_message current_node_id = set_width 3 current_node_id
