-- ===== src/Node/Message/Tests.antt =====
-- The cases of tests/node_tests.cpp.
use isc_challenge_without_bo.Prelude.{◌≡◌, refl, [], ok, pos, ◌==ℤ◌}
use isc_challenge_without_bo.Text.{codes}
use isc_challenge_without_bo.Text.Stoi.{stoi}
use isc_challenge_without_bo.Text.Decimal.{set_width, decimal, digits}
use isc_challenge_without_bo.Node.Message.{process_message, build_first_message, build_id_message}

initial_message : build_first_message (pos 3) (pos 5) ≡ codes "00322001234561111111111111111005"
unfolding build_first_message set_width decimal digits
initial_message = refl

process_message1 :
    process_message (pos 3) (codes "00522101234561111111111111111003") (pos 32)
    ≡ ok (codes "00322201234561111111111111111005")
unfolding process_message ◌==ℤ◌ stoi set_width decimal digits
process_message1 = refl

process_message2 :
    process_message (pos 3) (codes "00322101234561111111111111111005") (pos 32) ≡ ok []
unfolding process_message ◌==ℤ◌ stoi set_width decimal digits
process_message2 = refl

process_message3 :
    process_message (pos 3) (codes "0052210123456111111111111111003") (pos 31) ≡ ok []
unfolding process_message ◌==ℤ◌
process_message3 = refl

id_message : build_id_message (pos 3) ≡ codes "003"
unfolding build_id_message set_width decimal digits
id_message = refl
