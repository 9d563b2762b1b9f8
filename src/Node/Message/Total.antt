-- ===== src/Node/Message/Total.antt =====
-- What `processMessage` returns for an arbitrary buffer.
use isc_challenge_without_bo.Prelude.{
  ℕ, ◌+◌, ◌≤◌, ◌≡◌, ◌⊎◌, inl, inr, refl, true, false, [], Result, ok, throw, invalid_argument,
  out_of_range, ◌>>=◌, ℤ, pos, negsuc, ◌==ℤ◌, add_pos, rem_pos, if◌then◌else◌, drop, length,
  length-take, length-drop, length-take-le, Bool, arith,
}
use isc_challenge_without_bo.Text.{Bytes}
use isc_challenge_without_bo.Text.Stoi.{stoi}
use isc_challenge_without_bo.Text.Stoi.Bounds.{Within, stoi-Within}
use isc_challenge_without_bo.Text.Decimal.{set_width}
use isc_challenge_without_bo.Text.Decimal.RoundTrip.{length-set_width, length-set_width_neg}
use isc_challenge_without_bo.Node.Message.{field, process_message, build_reply}
use isc_challenge_without_bo.Node.Message.Layout.{
  joined, length-joined, source_field, trace_field, pan_field, destination_field,
}

-- Nothing, or a message of 32 bytes that swaps the ids and keeps trace and PAN. A field that is no
-- number is the only exception.
abbrev pub Answer : Bytes → Result Bytes → Type 0
Answer message (ok r) =
    (r ≡ [])
    ⊎ ((length r ≡ 32)
        × (field r 0 3 ≡ field message 29 3)
        × (field r 7 6 ≡ field message 7 6)
        × (field r 13 16 ≡ field message 13 16)
        × (field r 29 3 ≡ field message 0 3))
Answer message (throw e) = e ≡ invalid_argument

length-field : (s : Bytes) (i n : ℕ) → i + n ≤ length s → length (field s i n) ≡ n
length-field s i n h = length-take n (drop i s) (omega (arith, length-drop i s))

width_four : (z : ℤ) → Within 4 (ok z) → length (set_width 4 z) ≡ 4
width_four (pos n) h = length-set_width 4 n (omega arith) h
width_four (negsuc n) h = length-set_width_neg 4 n (omega arith) h

next-Within : (z : ℤ) → Within 4 (ok z) → Within 4 (ok (rem_pos (add_pos z 10) 10000))
next-Within (pos n) h = omega arith
next-Within (negsuc n) h = ground arith

module _ (message : Bytes) (full : 32 ≤ length message) where
  swap-Answer :
      (m : Bytes)
      → length m ≡ 4
      → Answer message (
          ok (
            joined
              (field message 29 3)
              m
              (field message 7 6)
              (field message 13 16)
              (field message 0 3)))
  swap-Answer m lm = inr (
    length-joined _ m _ _ _ d lm t p s,
    source_field _ m _ _ _ d lm t p s,
    trace_field _ m _ _ _ d lm t p s,
    pan_field _ m _ _ _ d lm t p s,
    destination_field _ m _ _ _ d lm t p s,
  )
    where
      d : length (field message 29 3) ≡ 3
      d = length-field message 29 3 full

      t : length (field message 7 6) ≡ 6
      t = length-field message 7 6 (omega arith)

      p : length (field message 13 16) ≡ 16
      p = length-field message 13 16 (omega arith)

      s : length (field message 0 3) ≡ 3
      s = length-field message 0 3 (omega arith)

  typed-Answer :
      (m : Result ℤ)
      → Within 4 m
      → Answer message (
          m >>= λ mti. ok (
            joined
              (field message 29 3)
              (set_width 4 (rem_pos (add_pos mti 10) 10000))
              (field message 7 6)
              (field message 13 16)
              (field message 0 3)))
  typed-Answer (ok z) w =
      swap-Answer (set_width 4 (rem_pos (add_pos z 10) 10000)) (width_four _ (next-Within z w))
  typed-Answer (throw invalid_argument) w = refl
  typed-Answer (throw out_of_range) w = absurd w

  build_reply-Answer : Answer message (build_reply message)
  unfolding build_reply
  build_reply-Answer =
      typed-Answer (stoi (field message 3 4))
        (stoi-Within 4 (field message 3 4) (length-take-le 4 (drop 3 message)) (omega arith))

  addressed-Answer : (b : Bool) → Answer message (if b then build_reply message else ok [])
  addressed-Answer true = build_reply-Answer
  addressed-Answer false = inl refl

  routed-Answer :
      (me : ℤ) (d : Result ℤ)
      → Within 3 d
      → Answer message (d >>= λ dst. if dst ==ℤ me then build_reply message else ok [])
  routed-Answer me (ok z) w = addressed-Answer (z ==ℤ me)
  routed-Answer me (throw invalid_argument) w = refl
  routed-Answer me (throw out_of_range) w = absurd w

  sized-Answer :
      (me : ℤ) (b : Bool)
      → Answer message (
          if b
          then (stoi (field message 29 3) >>= λ dst.
              if dst ==ℤ me then build_reply message else ok [])
          else ok [])
  sized-Answer me true =
      routed-Answer me (stoi (field message 29 3))
        (stoi-Within 3 (field message 29 3) (length-take-le 3 (drop 29 message)) (omega arith))
  sized-Answer me false = inl refl

  -- Whatever the buffer holds, of at least 32 bytes, `processMessage` returns the empty text, or 32
  -- bytes with the two ids swapped and trace and PAN kept; the only exception that it throws is
  -- `invalid_argument`.
  pub process_message-Answer : (me len : ℤ) → Answer message (process_message me message len)
  unfolding process_message
  process_message-Answer me len = sized-Answer me (len ==ℤ pos 32)
