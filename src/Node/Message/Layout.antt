-- ===== src/Node/Message/Layout.antt =====
-- The five fields of a message of node/include/message.h.
use isc_challenge_without_bo.Prelude.{
  ℕ, ◌<◌, take, ◌≡◌, sym, ap, ◌∙◌, [], ◌++◌, append-nil, append_assoc, pos, length, length-append,
  take-append, drop-append, arith,
}
use isc_challenge_without_bo.Text.{Bytes}
use isc_challenge_without_bo.Text.Decimal.{set_width}
use isc_challenge_without_bo.Text.Decimal.RoundTrip.{length-set_width}
use isc_challenge_without_bo.Node.Message.{field}

-- A message with numbers in its numeric fields.
abbrev pub layout : ℕ → ℕ → Bytes → Bytes → ℕ → Bytes
layout src mti trace pan dst =
    set_width 3 (pos src) ++ (set_width 4 (pos mti) ++ (trace ++ (pan ++ set_width 3 (pos dst))))

-- A field between a prefix and a rest.
pub field-append :
    (p f r : Bytes) (i n : ℕ) → length p ≡ i → length f ≡ n → field (p ++ (f ++ r)) i n ≡ f
field-append p f r i n hp hf = ap (take n) (drop-append p (f ++ r) i hp) ∙ take-append f r n hf

pub field-append_last :
    (p f : Bytes) (i n : ℕ) → length p ≡ i → length f ≡ n → field (p ++ f) i n ≡ f
field-append_last p f i n hp hf =
    ap (λ t. field (p ++ t) i n) (sym (append-nil f)) ∙ field-append p f [] i n hp hf

module _ (a b c d e : Bytes) where
  abbrev pub joined : Bytes
  joined = a ++ (b ++ (c ++ (d ++ e)))

  pub length-joined :
      length a ≡ 3 → length b ≡ 4 → length c ≡ 6 → length d ≡ 16 → length e ≡ 3 → length joined ≡ 32
  length-joined la lb lc ld le = omega (
    arith,
    length-append a (b ++ (c ++ (d ++ e))),
    length-append b (c ++ (d ++ e)),
    length-append c (d ++ e),
    length-append d e,
  )

  module _ (la : length a ≡ 3) (lb : length b ≡ 4) (lc : length c ≡ 6) (ld : length d ≡ 16)
      (le : length e ≡ 3) where
    pub source_field : field joined 0 3 ≡ a
    source_field = take-append a (b ++ (c ++ (d ++ e))) 3 la

    pub type_field : field joined 3 4 ≡ b
    type_field = field-append a b (c ++ (d ++ e)) 3 4 la lb

    pub trace_field : field joined 7 6 ≡ c
    trace_field =
        ap (λ t. field t 7 6) (sym (append_assoc a b (c ++ (d ++ e))))
        ∙ field-append (a ++ b) c (d ++ e) 7 6 (omega (arith, length-append a b)) lc

    pub pan_field : field joined 13 16 ≡ d
    pan_field =
        ap (λ t. field t 13 16)
          (sym (append_assoc a b (c ++ (d ++ e))) ∙ sym (append_assoc (a ++ b) c (d ++ e)))
        ∙ field-append (a ++ b ++ c) d e 13 16
            (omega (arith, length-append (a ++ b) c, length-append a b)) ld

    pub destination_field : field joined 29 3 ≡ e
    destination_field =
        ap (λ t. field t 29 3)
          (sym (append_assoc a b (c ++ (d ++ e)))
            ∙ sym (append_assoc (a ++ b) c (d ++ e))
            ∙ sym (append_assoc (a ++ b ++ c) d e))
        ∙ field-append_last (a ++ b ++ c ++ d) e 29 3
            (omega
              (arith, length-append (a ++ b ++ c) d, length-append (a ++ b) c, length-append a b))
            le

pub length-layout :
    (src mti dst : ℕ) (trace pan : Bytes)
    → src < 1000
    → mti < 10000
    → dst < 1000
    → length trace ≡ 6
    → length pan ≡ 16
    → length (layout src mti trace pan dst) ≡ 32
length-layout src mti dst trace pan hs hm hd lt lp =
    length-joined (set_width 3 (pos src)) (set_width 4 (pos mti)) trace pan (set_width 3 (pos dst))
      (length-set_width 3 src (omega arith) hs) (length-set_width 4 mti (omega arith) hm) lt lp
      (length-set_width 3 dst (omega arith) hd)
