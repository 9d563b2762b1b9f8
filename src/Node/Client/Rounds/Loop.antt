-- ===== src/Node/Client/Rounds/Loop.antt =====
-- The end of the inner loop of `Node::start`.
use isc_challenge_without_bo.Prelude.{
  ℕ, zero, suc, ◌<◌, ◌≡◌, refl, ap, ◌∙◌, Bool-cases, inl, inr, ℤ, pos, ◌==ℤ◌, ==ℤ_refl, eq_of_==ℤ,
  length, length-append, arith,
}
use mathlib.Core.Path.{subst}
use isc_challenge_without_bo.Text.{Bytes}
use isc_challenge_without_bo.Winsock.{Os, Delivers}
use isc_challenge_without_bo.Node.TcpSocket
use isc_challenge_without_bo.Node.TcpSocket.{TcpSocket, buffer_size, no_err, error}
use isc_challenge_without_bo.Node.TcpSocket.Receiving.{Got}
use isc_challenge_without_bo.Node.Client.{
  Node, Pass, returned, thrown, out_of_fuel, receive_round, receive_loop, proceed,
}
use isc_challenge_without_bo.Node.Client.Retries.{
  Refused, untried, again, Tried, sent, gave_up, Tried-keeps,
}
use isc_challenge_without_bo.Node.Client.Rounds.{
  Round, closes, skips, answers, throws, receive_round-Round, Conversation, goes_on, fails,
  breaks_off,
}

module _ {os : Os} (d : Delivers os) (node : Node) where
  open d use {incoming}

  -- What the connection will bring.
  abbrev left : TcpSocket os.World → Bytes
  left st = incoming st.world st.socket

  Refused-left :
      (msg : Bytes) (k : ℕ) (st st' : TcpSocket os.World)
      → Refused os msg k st st'
      → left st' ≡ left st
  unfolding TcpSocket.send_message
  Refused-left msg _ st _ untried = refl
  Refused-left msg _ st st' (again h refused) =
      Refused-left msg _ _ st' refused ∙ d.send_keeps st.socket msg st.world

  pub Tried-left :
      (msg : Bytes) (tries : ℕ) (st : TcpSocket os.World) (r : ℤ × TcpSocket os.World)
      → Tried os msg tries st r
      → left r.1 ≡ left st
  unfolding TcpSocket.send_message
  Tried-left msg tries st _ (sent {last} small refused whole) =
      d.send_keeps last.socket msg last.world ∙ Refused-left msg _ st last refused
  Tried-left msg tries st _ (gave_up {last} refused) = Refused-left msg _ st last refused

  -- A round that takes bytes, and keeps the buffer.
  record Advances (st st' : TcpSocket os.World) : Type 0 where
    fewer : length (left st') < length (left st)
    sized : length st'.buffer ≡ buffer_size

  Got-Advances : (n : ℤ) (st st' : TcpSocket os.World) → Got d st 32 n st' → Advances st st'
  Got-Advances n st st' g =
      let same : st'.socket ≡ st.socket = ap (λ s. s.socket) g.filled in
      let here : left st' ≡ incoming st'.world st.socket = ap (incoming st'.world) same in
      record {
        fewer = omega (
          arith,
          ap length g.stream,
          length-append g.bytes (incoming st'.world st.socket),
          g.some_bytes,
          ap length here,
        );
        sized = g.sized;
      }

  Tried-Advances :
      (msg : Bytes) (st st' : TcpSocket os.World) (r : ℤ × TcpSocket os.World)
      → Advances st st'
      → Tried os msg 3 st' r
      → Advances st r.1
  Tried-Advances msg st st' r a t = record {
    fewer = omega (arith, a.fewer, ap length (Tried-left msg 3 st' r t));
    sized = ap (λ s. length s.buffer) (Tried-keeps os msg 3 st' r t) ∙ a.sized;
  }

  abbrev Progress : TcpSocket os.World → Pass os.World → Type 0
  Progress st (returned code st') = code ≡ no_err → Advances st st'
  Progress st (thrown e st') = Unit
  Progress st out_of_fuel = ⊥

  Round-Progress : (st : TcpSocket os.World) (p : Pass os.World) → Round d node st p → Progress st p
  Round-Progress st _ (closes l) = λ h. cc
  Round-Progress st _ (skips {n} {st'} g ne) = λ h. Got-Advances n st st' g
  Round-Progress st _ (answers {st'} {out} reply g e v t) =
      λ h. Tried-Advances reply st st' out (Got-Advances (pos 32) st st' g) t
  Round-Progress st _ (throws g e) = tt

  proceed-Conversation :
      (st : TcpSocket os.World) (next : TcpSocket os.World → Pass os.World) (p : Pass os.World)
      → Round d node st p
      → ((st' : TcpSocket os.World) → Advances st st' → Conversation d node st' (next st'))
      → Conversation d node st (proceed os node next p)
  unfolding ◌==ℤ◌
  proceed-Conversation st next (returned code st') r k = elim (Bool-cases (code ==ℤ no_err)) [
    | inl e ↦
        let fine : code ≡ no_err = eq_of_==ℤ code no_err e in
        rw e (
          goes_on (subst (λ c. Round d node st (returned c st')) fine r)
            (k st' (Round-Progress st (returned code st') r fine)))
    | inr e ↦ rw e (fails r (λ h. ground (arith, ==ℤ_refl no_err)))
  ]
  proceed-Conversation st next (thrown e st') r k = breaks_off r
  proceed-Conversation st next out_of_fuel r k = absurd (Round-Progress st out_of_fuel r)

  -- With `recv` and `send` as documented, a whole buffer, and fuel above the number of bytes that
  -- the connection will bring, the inner loop of `start` ends by a round that returns an error or
  -- throws, after rounds that return `NO_ERR`.
  pub receive_loop-Conversation :
      (fuel : ℕ) (st : TcpSocket os.World)
      → length st.buffer ≡ buffer_size
      → length (incoming st.world st.socket) < fuel
      → Conversation d node st (receive_loop os node fuel st)
  unfolding receive_loop
  receive_loop-Conversation zero st sized enough = absurd (omega arith)
  receive_loop-Conversation (suc fuel) st sized enough =
      proceed-Conversation st (receive_loop os node fuel) (receive_round os node st)
        (receive_round-Round d node st sized)
        (λ st' a. receive_loop-Conversation fuel st' a.sized (omega (arith, a.fewer)))
