-- ===== src/Node/Message/Reply.antt =====
-- What `processMessage` answers.
use isc_challenge_without_bo.Prelude.{
  ℕ, zero, suc, ◌+◌, ◌*◌, ◌%◌, ◌<◌, ◌≡◌, refl, ap, ◌∙◌, [], Result, ok, ◌>>=◌, ℤ, pos, ◌==ℤ◌,
  ==ℤ_refl, add_pos, rem_pos, if◌then◌else◌, length, arith,
}
use isc_challenge_without_bo.Text.{Bytes}
use isc_challenge_without_bo.Text.Stoi.{stoi}
use isc_challenge_without_bo.Text.Decimal.{set_width, decimal, digits}
use isc_challenge_without_bo.Text.Decimal.RoundTrip.{stoi-set_width, length-set_width}
use isc_challenge_without_bo.Node.Message.{
  process_message, build_first_message, first_trace, first_pan,
}
use isc_challenge_without_bo.Node.Message.Layout.{
  joined, layout, source_field, type_field, trace_field, pan_field, destination_field,
}

-- The answer to five fields of the right widths.
process_message-joined :
    (me : ℤ) (a b c d e : Bytes)
    → length a ≡ 3
    → length b ≡ 4
    → length c ≡ 6
    → length d ≡ 16
    → length e ≡ 3
    → process_message me (joined a b c d e) (pos 32) ≡ (
        stoi e >>= λ dst.
        if dst ==ℤ me
        then (stoi b >>= λ mti. ok (joined e (set_width 4 (rem_pos (add_pos mti 10) 10000)) c d a))
        else ok [])
unfolding process_message ◌==ℤ◌
process_message-joined me a b c d e la lb lc ld le = rw (
  source_field a b c d e la lb lc ld le,
  type_field a b c d e la lb lc ld le,
  trace_field a b c d e la lb lc ld le,
  pan_field a b c d e la lb lc ld le,
  destination_field a b c d e la lb lc ld le,
)

-- A node answers a message in the layout, with its numbers in range, with source and destination
-- swapped and the message type raised by ten modulo 10000 if it is the destination, and with the
-- empty text if not.
pub process_message-layout :
    (me : ℤ) (src mti dst : ℕ) (trace pan : Bytes)
    → src < 1000
    → mti < 10000
    → dst < 1000
    → length trace ≡ 6
    → length pan ≡ 16
    → process_message me (layout src mti trace pan dst) (pos 32)
      ≡ (if pos dst ==ℤ me then ok (layout dst ((mti + 10) % 10000) trace pan src) else ok [])
process_message-layout me src mti dst trace pan hs hm hd lt lp =
    process_message-joined me (set_width 3 (pos src)) (set_width 4 (pos mti)) trace pan
      (set_width 3 (pos dst)) (length-set_width 3 src (omega arith) hs)
      (length-set_width 4 mti (omega arith) hm) lt lp (length-set_width 3 dst (omega arith) hd)
    ∙ rw (stoi-set_width 3 dst (omega arith), stoi-set_width 4 mti (omega arith))

-- `n` times node `b` answers node `a`, and `a` answers `b`.
pub exchange : ℕ → ℤ → ℤ → Bytes → Result Bytes
exchange zero a b msg = ok msg
exchange (suc n) a b msg = do
  reply ← process_message b msg (pos 32)
  answer ← process_message a reply (pos 32)
  exchange n a b answer

exchange-layout :
    (n a mti b : ℕ) (trace pan : Bytes)
    → a < 1000
    → mti < 10000
    → b < 1000
    → length trace ≡ 6
    → length pan ≡ 16
    → exchange n (pos a) (pos b) (layout a mti trace pan b)
      ≡ ok (layout a ((mti + 20 * n) % 10000) trace pan b)
unfolding exchange
exchange-layout zero a mti b trace pan ha hm hb lt lp =
    ap (λ (m : ℕ). ok (layout a m trace pan b)) (omega arith)
exchange-layout (suc n) a mti b trace pan ha hm hb lt lp =
    rw
      (
        process_message-layout (pos b) a mti b trace pan ha hm hb lt lp,
        ==ℤ_refl (pos b),
        process_message-layout (pos a) b ((mti + 10) % 10000) a trace pan hb (omega arith) ha lt lp,
        ==ℤ_refl (pos a),
        exchange-layout n a (((mti + 10) % 10000 + 10) % 10000) b trace pan ha (omega arith) hb lt
            lp,
      )
      (ap (λ (m : ℕ). ok (layout a m trace pan b)) (omega arith))

pub build_first_message-layout :
    (a b : ℕ) → build_first_message (pos a) (pos b) ≡ layout a 2200 first_trace first_pan b
unfolding build_first_message set_width decimal digits
build_first_message-layout a b = refl

-- Two nodes with ids below 1000 keep a conversation up: after `n` answers of each to the other the
-- message is the first one with its message type raised by `20 * n` modulo 10000.
pub exchange-build_first_message :
    (n a b : ℕ)
    → a < 1000
    → b < 1000
    → exchange n (pos a) (pos b) (build_first_message (pos a) (pos b))
      ≡ ok (layout a ((2200 + 20 * n) % 10000) first_trace first_pan b)
exchange-build_first_message n a b ha hb =
    ap (exchange n (pos a) (pos b)) (build_first_message-layout a b)
    ∙ exchange-layout n a 2200 b first_trace first_pan ha (omega arith) hb refl refl
