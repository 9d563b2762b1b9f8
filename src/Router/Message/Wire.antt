-- ===== src/Router/Message/Wire.antt =====
-- The router reads the ids that the node writes, and never throws on a terminated buffer.
use isc_challenge_without_bo.Prelude.{
  ℕ, ◌≤◌, ◌<◌, ◌≡◌, refl, ap, ◌∙◌, [], ◌∷◌, ◌++◌, append_assoc, true, false, Bool, Result, ok,
  throw, invalid_argument, out_of_range, ℤ, pos, negsuc, lt_pos, if◌then◌else◌, length,
  length-append, drop-append, All, arith,
}
use isc_challenge_without_bo.Text.{Bytes, c_string}
use isc_challenge_without_bo.Text.Stoi.{stoi, IsDigit}
use isc_challenge_without_bo.Text.Stoi.Bounds.{Within, stoi-Within}
use isc_challenge_without_bo.Text.Decimal.{set_width}
use isc_challenge_without_bo.Text.Decimal.RoundTrip.{
  length-set_width, stoi-set_width, set_width-IsDigit,
}
use isc_challenge_without_bo.Node.Message.{build_id_message}
use isc_challenge_without_bo.Node.Message.Layout.{layout}
use isc_challenge_without_bo.Router.Message.{
  extract_src_id, extract_dst_id, or_minus_one, minus_one, data_message_size,
}

c_string-digits : (s rest : Bytes) → All IsDigit s → c_string (s ++ 0 ∷ rest) ≡ s
unfolding c_string
c_string-digits [] rest h = refl
c_string-digits (c ∷ s) rest h = ground (arith, c_string-digits s rest h.1)

length-c_string-le : (s rest : Bytes) → length (c_string (s ++ 0 ∷ rest)) ≤ length s
unfolding c_string
length-c_string-le [] rest = omega arith
length-c_string-le (c ∷ s) rest = ground (arith, length-c_string-le s rest)

-- The id message of a node with an id below 1000 is read back by the router, with a terminator
-- behind it.
pub extract_src_id-build_id_message :
    (id : ℕ) (rest : Bytes)
    → id < 1000
    → extract_src_id (build_id_message (pos id) ++ 0 ∷ rest) (pos 3) ≡ ok (pos id)
unfolding extract_src_id build_id_message
extract_src_id-build_id_message id rest h = rw (
  c_string-digits (set_width 3 (pos id)) rest (set_width-IsDigit 3 id),
  stoi-set_width 3 id (omega arith),
)

-- The destination of a message whose first 29 bytes are `head`.
extract_dst_id-append :
    (head : Bytes) (dst : ℕ) (rest : Bytes)
    → length head ≡ 29
    → dst < 1000
    → extract_dst_id (head ++ (set_width 3 (pos dst) ++ 0 ∷ rest)) (pos data_message_size)
      ≡ ok (pos dst)
unfolding extract_dst_id
extract_dst_id-append head dst rest l h = rw (
  drop-append head (set_width 3 (pos dst) ++ 0 ∷ rest) 29 l,
  c_string-digits (set_width 3 (pos dst)) rest (set_width-IsDigit 3 dst),
  stoi-set_width 3 dst (omega arith),
)

-- The router reads the destination of every message in the layout with its numbers in range, with
-- a terminator behind it.
pub extract_dst_id-layout :
    (src mti dst : ℕ) (trace pan rest : Bytes)
    → src < 1000
    → mti < 10000
    → dst < 1000
    → length trace ≡ 6
    → length pan ≡ 16
    → extract_dst_id (layout src mti trace pan dst ++ 0 ∷ rest) (pos data_message_size)
      ≡ ok (pos dst)
extract_dst_id-layout src mti dst trace pan rest hs hm hd lt lp =
    ap (λ s. extract_dst_id s (pos data_message_size))
      (regroup (set_width 3 (pos src)) (set_width 4 (pos mti)) (set_width 3 (pos dst)))
    ∙ extract_dst_id-append (set_width 3 (pos src) ++ (set_width 4 (pos mti) ++ (trace ++ pan))) dst
        rest
        (omega (
          arith,
          length-append (set_width 3 (pos src)) (set_width 4 (pos mti) ++ (trace ++ pan)),
          length-append (set_width 4 (pos mti)) (trace ++ pan),
          length-append trace pan,
          length-set_width 3 src (omega arith) hs,
          length-set_width 4 mti (omega arith) hm,
        ))
        hd
  where
    regroup :
        (a b e : Bytes)
        → (a ++ (b ++ (trace ++ (pan ++ e)))) ++ 0 ∷ rest
          ≡ (a ++ (b ++ (trace ++ pan))) ++ (e ++ 0 ∷ rest)
    regroup a b e = simp append_assoc

-- An id that the router reads from three bytes: -1 stands for no number.
abbrev pub IsId : Result ℤ → Type 0
IsId (ok (pos n)) = n < 1000
IsId (ok (negsuc n)) = n < 99
IsId (throw e) = ⊥

or_minus_one-IsId : (r : Result ℤ) → Within 3 r → IsId (or_minus_one r)
or_minus_one-IsId (ok (pos n)) w = w
or_minus_one-IsId (ok (negsuc n)) w = omega arith
or_minus_one-IsId (throw invalid_argument) w = omega arith
or_minus_one-IsId (throw out_of_range) w = absurd w

-- Neither extractor throws on the buffers that the router hands it, a terminator behind 3 bytes or
-- behind 32 bytes: the id that it returns is below 1000 and above -100.
pub extract_ids-IsId :
    (id head dst rest : Bytes) (len : ℤ)
    → length id ≡ 3
    → length head ≡ 29
    → length dst ≡ 3
    → IsId (extract_src_id (id ++ 0 ∷ rest) len)
      × IsId (extract_dst_id (head ++ (dst ++ 0 ∷ rest)) len)
unfolding extract_src_id extract_dst_id
extract_ids-IsId id head dst rest len li lh ld = (
  source (lt_pos len 3),
  rw (drop-append head (dst ++ 0 ∷ rest) 29 lh) (destination (lt_pos len 32)),
)
  where
    read : (s : Bytes) → length s ≡ 3 → IsId (or_minus_one (stoi (c_string (s ++ 0 ∷ rest))))
    read s l = or_minus_one-IsId _ (
        stoi-Within 3 (c_string (s ++ 0 ∷ rest)) (omega (arith, length-c_string-le s rest))
          (omega arith))

    source :
        (b : Bool)
        → IsId (if b then ok minus_one else or_minus_one (stoi (c_string (id ++ 0 ∷ rest))))
    source true = omega arith
    source false = read id li

    destination :
        (b : Bool)
        → IsId (if b then ok minus_one else or_minus_one (stoi (c_string (dst ++ 0 ∷ rest))))
    destination true = omega arith
    destination false = read dst ld
