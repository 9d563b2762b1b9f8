-- ===== src/Node/Client/Rounds/Replies.antt =====
-- A whole message that arrives at the node.
use isc_challenge_without_bo.Prelude.{
  ℕ, ◌+◌, ◌%◌, ◌≤◌, ◌<◌, ◌≡◌, ◌≢◌, refl, sym, ap, ◌∙◌, Bool, true, false, inl, inr, [], ◌++◌, ok, ℤ,
  pos, ◌==ℤ◌, ==ℤ_of_ne, lt_pos, if◌then◌else◌, take, drop, length, length-drop, arith,
}
use mathlib.Core.Path.{subst}
use isc_challenge_without_bo.Text.{Bytes}
use isc_challenge_without_bo.Text.Buffer.{set-terminator, take-append_le, drop-append_le, prefix_of}
use isc_challenge_without_bo.Winsock.{Os, Delivers}
use isc_challenge_without_bo.Node.Message.{field, process_message, build_reply}
use isc_challenge_without_bo.Node.Message.Layout.{layout, length-layout}
use isc_challenge_without_bo.Node.Message.Reply.{process_message-layout}
use isc_challenge_without_bo.Node.TcpSocket
use isc_challenge_without_bo.Node.TcpSocket.{
  TcpSocket, recv_message, terminated, buffer_size, no_err, error,
}
use isc_challenge_without_bo.Node.TcpSocket.Receiving.{
  Received, got, lost, Got, recv_message-Received,
}
use isc_challenge_without_bo.Node.Client.{Node, returned, receive_round, answer, send_message}
use isc_challenge_without_bo.Node.Client.Retries.{Refused, Tried, sent, gave_up, send_message-Tried}

field-append_le : (s t : Bytes) (i n : ℕ) → i + n ≤ length s → field (s ++ t) i n ≡ field s i n
field-append_le s t i n h =
    ap (take n) (drop-append_le i s t (omega arith))
    ∙ take-append_le n (drop i s) t (omega (arith, length-drop i s))

-- Only the first 32 bytes of the buffer matter.
process_message-append :
    (me : ℤ) (s t : Bytes)
    → 32 ≤ length s
    → process_message me (s ++ t) (pos 32) ≡ process_message me s (pos 32)
unfolding process_message build_reply
process_message-append me s t h =
    rw
      (
        field-append_le s t 29 3 h,
        field-append_le s t 3 4 (omega arith),
        field-append_le s t 7 6 (omega arith),
        field-append_le s t 13 16 (omega arith),
        field-append_le s t 0 3 (omega arith),
      )
      refl

module _ {os : Os} (d : Delivers os) (node : Node) (st : TcpSocket os.World) where
  open d use {incoming}

  -- The end of a round in which a whole message has arrived.
  Received-whole :
      (out : ℤ × ℤ × TcpSocket os.World)
      → Received d st 32 out
      → out.1 ≡ pos 32
      → (out.0 ≡ no_err) × Got d st 32 (pos 32) out.2
  Received-whole _ (got {n} {st'} g) full = (refl, subst (λ m. Got d st 32 m st') full g)
  Received-whole _ (lost l) full =
      absurd (elim l.counted [ inl e ↦ cc (e, full) | inr e ↦ cc (e, full) ])

  whole_round :
      (recv_message os 32 st).0 ≡ no_err
      → (recv_message os 32 st).1 ≡ pos 32
      → receive_round os node st
        ≡ answer os node
            (recv_message os 32 st).2
            (process_message node.id (recv_message os 32 st).2.buffer (pos 32))
  unfolding receive_round ◌==ℤ◌
  whole_round fine full = rw (fine, full) refl

  module _ (src mti dst : ℕ) (trace pan rest : Bytes) (hs : src < 1000) (hm : mti < 10000)
      (hd : dst < 1000) (lt : length trace ≡ 6) (lp : length pan ≡ 16)
      (sized : length st.buffer ≡ buffer_size)
      (arrives : incoming st.world st.socket ≡ layout src mti trace pan dst ++ rest)
      (full : (recv_message os 32 st).1 ≡ pos 32) where
    abbrev after : TcpSocket os.World
    after = (recv_message os 32 st).2

    buffer-layout :
        (g : Got d st 32 (pos 32) after)
        → (process_message node.id after.buffer (pos 32)
            ≡ process_message node.id (layout src mti trace pan dst) (pos 32))
          × (incoming after.world st.socket ≡ rest)
    buffer-layout g =
        let whole : length g.bytes ≡ 32 = ground (arith, g.counted) in
        let long = length-layout src mti dst trace pan hs hm hd lt lp in
        let (same, left) =
          prefix_of g.bytes (incoming after.world st.socket) (layout src mti trace pan dst) rest
            (sym g.stream ∙ arrives) (whole ∙ sym long) in
        let filled : after.buffer ≡ terminated g.bytes st.buffer = ap (λ s. s.buffer) g.filled in
        let terminator =
          set-terminator g.bytes st.buffer (length g.bytes) refl (omega (arith, g.inside)) in
        (
          ap (λ b. process_message node.id b (pos 32)) (filled ∙ terminator)
              ∙ process_message-append node.id g.bytes _ (omega arith)
              ∙ ap (λ b. process_message node.id b (pos 32)) same,
          left,
        )

    answered :
        (b : Bool) (reply : Bytes)
        → answer os node after (if b then ok reply else ok [])
          ≡ (let out = send_message os (if b then reply else []) after in returned out.0 out.1)
    answered true reply = refl
    answered false reply = refl

    -- With `recv` and `send` as documented and a whole buffer, when a call of `recv` takes the
    -- whole of a message in the layout, with its numbers in range, then the node, if it is the
    -- destination, hands the reply to `send_message`, and if not the empty text; the result is
    -- that of `send_message`, and the rest of the connection is still to be read.
    pub receive_round-replies :
        (receive_round os node st ≡ (
          let reply =
            if pos dst ==ℤ node.id then layout dst ((mti + 10) % 10000) trace pan src else [] in
          let out = send_message os reply after in returned out.0 out.1))
        × (incoming after.world st.socket ≡ rest)
    receive_round-replies =
        let (fine, g) =
          Received-whole (recv_message os 32 st) (recv_message-Received d st 32 sized) full in
        let (e, left) = buffer-layout g in
        let decided = process_message-layout node.id src mti dst trace pan hs hm hd lt lp in
        (
          whole_round fine full
              ∙ ap (answer os node after) (e ∙ decided)
              ∙ answered (pos dst ==ℤ node.id) (layout dst ((mti + 10) % 10000) trace pan src),
          left,
        )

    module _ (other : pos dst ≢ node.id)
        (sends_none : (s : ℤ) (w : os.World) → (os.send s [] w).0 ≡ pos 0) where
      nothing_sent :
          (out : ℤ × TcpSocket os.World)
          → Tried os [] 3 after out
          → (out.0 ≡ error) × Refused os [] 3 after out.1
      unfolding TcpSocket.send_message
      nothing_sent _ (sent {last} small refused whole) =
          absurd (cc (whole, ap (λ z. lt_pos z 1) (sends_none last.socket last.world)))
      nothing_sent _ (gave_up refused) = (refl, refused)

      -- With `recv` and `send` as documented, a whole buffer, and a `send` that sends none of the
      -- empty text, when a call of `recv` takes the whole of a message in the layout for another
      -- node, the round returns an error with the connection open: nothing but three calls of
      -- `send` follows that of `recv`.
      pub receive_round-abandons :
          (st' : TcpSocket os.World) × (receive_round os node st ≡ returned error st')
          × Refused os [] 3 after st'
      receive_round-abandons =
          let (e, left) = receive_round-replies in
          let out = send_message os [] after in
          let (failed, refused) = nothing_sent out (send_message-Tried os [] after) in
          let none_due : receive_round os node st ≡ returned out.0 out.1 =
            e ∙ rw (==ℤ_of_ne (pos dst) node.id other) refl in
          (out.1, none_due ∙ ap (λ c. returned c out.1) failed, refused)
