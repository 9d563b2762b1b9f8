-- ===== src/Router/TcpServer/Fragments.antt =====
-- `read_async` and the pieces in which a stream arrives.
use isc_challenge_without_bo.Prelude.{
  ℕ, ◌<◌, ◌≡◌, sym, ap, ◌∙◌, inl, inr, ◌++◌, some, ℤ, pos, length, take, drop, take-append,
  drop-append,
}
use isc_challenge_without_bo.Text.{Bytes}
use isc_challenge_without_bo.Winsock.{Os, Delivers}
use isc_challenge_without_bo.Router.TcpServer.{read_async}
use isc_challenge_without_bo.Router.TcpServer.Reading.{Read, read_async-Read}

-- One read of `n` bytes of a stream: the buffer and what is left.
abbrev pub read_whole : ℕ → Bytes → Bytes → Bytes × Bytes
read_whole n stream buffer = (take n stream ++ drop n buffer, drop n stream)

eq_of_pos : (a b : ℕ) → pos a ≡ pos b → a ≡ b
eq_of_pos a b h = cc (h)

module _ {os : Os} (d : Delivers os) (s : ℤ) (len : ℕ) (buffer : Bytes) (w : os.World) where
  counted :
      {out : ℤ × Bytes × os.World} (r : Read d s len buffer w out) (n : ℕ)
      → out.0 ≡ pos n
      → length r.bytes ≡ n
  counted r n h = elim r.counted [
    | inl e ↦ eq_of_pos (length r.bytes) n (sym e ∙ h)
    | inr e ↦ absurd (cc (e, h))
  ]

  Read-whole :
      {out : ℤ × Bytes × os.World} (r : Read d s len buffer w out) (n : ℕ)
      → out.0 ≡ pos n
      → (out.1, d.incoming out.2 s) ≡ read_whole n (d.incoming w s) buffer
  Read-whole {out} r n h =
      let e = counted r n h in
      let taken = ap (take n) r.stream ∙ take-append r.bytes (d.incoming out.2 s) n e in
      let left = ap (drop n) r.stream ∙ drop-append r.bytes (d.incoming out.2 s) n e in
      cc (r.kept, taken, left, e)

  read_async-whole :
      0 < len
      → (n : ℕ) (buffer' : Bytes) (w' : os.World)
      → read_async os s buffer len w ≡ some (pos n, buffer', w')
      → (buffer', d.incoming w' s) ≡ read_whole n (d.incoming w s) buffer
  read_async-whole more n buffer' w' e =
      let (out, e', r) = read_async-Read d s len buffer w more in
      let same : out ≡ (pos n, buffer', w') = cc (e, e') in
      ap (λ o. (o.1, d.incoming o.2 s)) (sym same) ∙ Read-whole r n (ap (λ o. o.0) same)

-- `read_async` does not depend on how a stream is cut into pieces, nor on the system: if two connections
-- bring the same bytes, `recv` and `send` are as documented, and two calls of a length that is not 0
-- return the same number of bytes, then they leave the same buffer and the same bytes to come.
pub read_async-same :
    {os os' : Os} (d : Delivers os) (d' : Delivers os') (s s' : ℤ) (len n : ℕ) (buffer b b' : Bytes)
    (w w₁ : os.World) (v v₁ : os'.World)
    → 0 < len
    → d.incoming w s ≡ d'.incoming v s'
    → read_async os s buffer len w ≡ some (pos n, b, w₁)
    → read_async os' s' buffer len v ≡ some (pos n, b', v₁)
    → (b ≡ b') × (d.incoming w₁ s ≡ d'.incoming v₁ s')
read_async-same d d' s s' len n buffer b b' w w₁ v v₁ more h e e' =
    let p = read_async-whole d s len buffer w more n b w₁ e in
    let q = read_async-whole d' s' len buffer v more n b' v₁ e' in
    let same = p ∙ ap (λ stream. read_whole n stream buffer) h ∙ sym q in
    (ap (λ o. o.0) same, ap (λ o. o.1) same)
