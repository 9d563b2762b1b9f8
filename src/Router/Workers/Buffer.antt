-- ===== src/Router/Workers/Buffer.antt =====
-- The receive buffer of a worker, with the terminator that the handlers put behind a message.
use isc_challenge_without_bo.Prelude.{
  ◌≡◌, refl, sym, ap, ◌∙◌, [], ◌∷◌, ◌++◌, Result, ok, throw, ℤ, pos, length, length-take,
  length-drop, append_assoc, replicate, take, drop, arith,
}
use isc_challenge_without_bo.Text.{Bytes, c_string}
use isc_challenge_without_bo.Text.Buffer.{drop-append_le, take-append-drop}
use isc_challenge_without_bo.Router.Message.{extract_src_id, extract_dst_id}
use isc_challenge_without_bo.Router.Message.Wire.{IsId, extract_ids-IsId}

c_string-rest : (s rest : Bytes) → c_string (s ++ 0 ∷ rest) ≡ c_string (s ++ 0 ∷ [])
unfolding c_string
c_string-rest [] rest = refl
c_string-rest (c ∷ s) rest = ground (arith, c_string-rest s rest)

-- What stands behind the terminator does not matter.
pub extract_src_id-rest :
    (bs rest : Bytes) (len : ℤ)
    → extract_src_id (bs ++ 0 ∷ rest) len ≡ extract_src_id (bs ++ 0 ∷ []) len
unfolding extract_src_id
extract_src_id-rest bs rest len = rw (c_string-rest bs rest)

pub extract_dst_id-rest :
    (bs rest : Bytes) (len : ℤ)
    → length bs ≡ 32
    → extract_dst_id (bs ++ 0 ∷ rest) len ≡ extract_dst_id (bs ++ 0 ∷ []) len
unfolding extract_dst_id
extract_dst_id-rest bs rest len h = rw (
  drop-append_le 29 bs (0 ∷ rest) (omega arith),
  drop-append_le 29 bs (0 ∷ []) (omega arith),
  c_string-rest (drop 29 bs) rest,
)

id_of : (r : Result ℤ) → IsId r → (id : ℤ) × (r ≡ ok id)
id_of (ok id) h = (id, refl)
id_of (throw e) h = absurd h

pub extract_src_id-ok :
    (bs : Bytes) → length bs ≡ 3 → (id : ℤ) × (extract_src_id (bs ++ 0 ∷ []) (pos 3) ≡ ok id)
extract_src_id-ok bs h = id_of _ (extract_ids-IsId bs (replicate 29 0) bs [] (pos 3) h refl h).0

pub extract_dst_id-ok :
    (bs : Bytes) → length bs ≡ 32 → (id : ℤ) × (extract_dst_id (bs ++ 0 ∷ []) (pos 32) ≡ ok id)
extract_dst_id-ok bs h =
    let tail : length (drop 29 bs) ≡ 3 = omega (arith, length-drop 29 bs) in
    let (id, e) =
      id_of _
        (extract_ids-IsId (drop 29 bs) (take 29 bs) (drop 29 bs) [] (pos 32) tail
          (length-take 29 bs (omega arith)) tail).1 in
    (id, ap (λ t. extract_dst_id t (pos 32)) whole ∙ e)
  where
    whole : bs ++ 0 ∷ [] ≡ take 29 bs ++ (drop 29 bs ++ 0 ∷ [])
    whole =
        ap (λ t. t ++ 0 ∷ []) (sym (take-append-drop 29 bs))
        ∙ append_assoc (take 29 bs) (drop 29 bs) (0 ∷ [])
