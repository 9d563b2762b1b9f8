-- ===== src/Node/Client/Passes.antt =====
-- What a pass of the outer loop of `Node::start` does.
pub mod Endless
use isc_challenge_without_bo.Prelude.{
  ℕ, ◌<◌, ◌≡◌, ◌≢◌, refl, ap, ◌∙◌, true, false, Bool-cases, inl, inr, ◌⊎◌, ℤ, ◌==ℤ◌, ==ℤ_refl,
  eq_of_==ℤ, if◌then◌else◌, length, arith,
}
use mathlib.Core.Path.{subst}
use isc_challenge_without_bo.Text.{Bytes}
use isc_challenge_without_bo.Winsock.{Os, Delivers}
use isc_challenge_without_bo.Node.Message.{build_id_message, build_first_message}
use isc_challenge_without_bo.Node.TcpSocket.{
  TcpSocket, connect_to_server, close_socket, buffer_size, no_err, error,
}
use isc_challenge_without_bo.Node.Client.{
  Node, Pass, returned, send_message, subscribe_to_router, send_initiator_message, close_connection,
  receive_loop, start_pass,
}
use isc_challenge_without_bo.Node.Client.Retries.{
  Tried, sent, gave_up, send_message-Tried, Tried-keeps,
}
use isc_challenge_without_bo.Node.Client.Rounds.{Conversation}
use isc_challenge_without_bo.Node.Client.Rounds.Loop.{Tried-left, receive_loop-Conversation}

module _ {os : Os} (d : Delivers os) (node : Node) where
  open d use {incoming}

  abbrev id_message : Bytes
  id_message = build_id_message node.id

  abbrev first_message : Bytes
  first_message = build_first_message node.id node.dst_id

  -- The first message is sent, or there is none to send.
  pub Initiated : TcpSocket os.World → ℤ × TcpSocket os.World → Type 0
  Initiated st out =
      ((node.initiate_messaging ≡ true) × Tried os first_message 3 st out)
      ⊎ ((node.initiate_messaging ≡ false) × (out ≡ (no_err, st)))

  module _ (st : TcpSocket os.World) where
    abbrev pub connected : TcpSocket os.World
    connected = (connect_to_server os st).1

    -- No connection; a connection that is closed because the id message or the first message could not be
    -- sent; a conversation after both were sent.
    pub data Passed : Pass os.World → Type 0 where
      unconnected :
          (connect_to_server os st).0 ≢ no_err
          → Passed (returned (connect_to_server os st).0 connected)
      unsubscribed :
          (last : TcpSocket os.World)
          → (connect_to_server os st).0 ≡ no_err
          → Tried os id_message 3 connected (error, last)
          → Passed (returned error (close_connection os last))
      uninitiated :
          (subscribed last : TcpSocket os.World)
          → (connect_to_server os st).0 ≡ no_err
          → Tried os id_message 3 connected (no_err, subscribed)
          → Initiated subscribed (error, last)
          → Passed (returned error (close_connection os last))
      conversed :
          (subscribed last : TcpSocket os.World) {p : Pass os.World}
          → (connect_to_server os st).0 ≡ no_err
          → Tried os id_message 3 connected (no_err, subscribed)
          → Initiated subscribed (no_err, last)
          → Conversation d node last p
          → Passed p

  send_initiator_message-Initiated :
      (st : TcpSocket os.World) → Initiated st (send_initiator_message os node st)
  unfolding send_initiator_message Initiated
  send_initiator_message-Initiated st = elim (Bool-cases node.initiate_messaging) [
    | inl e ↦ rw e (inl (refl, send_message-Tried os first_message st))
    | inr e ↦ rw e (inr (refl, refl))
  ]

  -- The socket stays as it is but for the world, and the connection brings what it did.
  record Keeps (st st' : TcpSocket os.World) : Type 0 where
    sized : length st'.buffer ≡ length st.buffer
    left : incoming st'.world st'.socket ≡ incoming st.world st.socket

  Tried-Keeps :
      (msg : Bytes) (st : TcpSocket os.World) (out : ℤ × TcpSocket os.World)
      → Tried os msg 3 st out
      → Keeps st out.1
  Tried-Keeps msg st out t =
      let same = Tried-keeps os msg 3 st out t in
      record { sized = ap (λ s. length s.buffer) same; left = Tried-left d node msg 3 st out t }

  Initiated-Keeps :
      (st : TcpSocket os.World) (out : ℤ × TcpSocket os.World) → Initiated st out → Keeps st out.1
  unfolding Initiated
  Initiated-Keeps st out (inl (e, t)) = Tried-Keeps first_message st out t
  Initiated-Keeps st out (inr (e, same)) = rw same (record { sized = refl; left = refl })

  -- A result is `NO_ERR` or 1.
  abbrev Coded : ℤ × TcpSocket os.World → Type 0
  Coded out = (out ≡ (no_err, out.1)) ⊎ (out ≡ (error, out.1))

  Tried-Coded :
      (msg : Bytes) (st : TcpSocket os.World) (out : ℤ × TcpSocket os.World)
      → Tried os msg 3 st out
      → Coded out
  Tried-Coded msg st _ (sent small refused whole) = inl refl
  Tried-Coded msg st _ (gave_up refused) = inr refl

  Initiated-Coded :
      (st : TcpSocket os.World) (out : ℤ × TcpSocket os.World) → Initiated st out → Coded out
  unfolding Initiated
  Initiated-Coded st out (inl (e, t)) = Tried-Coded first_message st out t
  Initiated-Coded st out (inr (e, same)) = inl (rw same refl)

  module _ (fuel : ℕ) (st : TcpSocket os.World) (fine : (connect_to_server os st).0 ≡ no_err) where
    initiating :
        (subscribed : TcpSocket os.World) (out : ℤ × TcpSocket os.World)
        → Tried os id_message 3 (connected st) (no_err, subscribed)
        → Initiated subscribed out
        → length subscribed.buffer ≡ buffer_size
        → length (incoming subscribed.world subscribed.socket) < fuel
        → Passed st (
            if out.0 ==ℤ no_err
            then receive_loop os node fuel out.1
            else returned out.0 (close_connection os out.1))
    unfolding ◌==ℤ◌
    initiating subscribed out t i sized enough =
        let k = Initiated-Keeps subscribed out i in
        elim (Initiated-Coded subscribed out i) [
          | inl e ↦ rw (ap (λ o. o.0) e) (
              conversed subscribed out.1 fine t (subst (Initiated subscribed) e i) (
                receive_loop-Conversation d node fuel out.1 (k.sized ∙ sized)
                  (omega (arith, ap length k.left))))
          | inr e ↦
              rw (ap (λ o. o.0) e)
                (uninitiated subscribed out.1 fine t (subst (Initiated subscribed) e i))
        ]

    subscribing :
        (out : ℤ × TcpSocket os.World)
        → Tried os id_message 3 (connected st) out
        → length (connected st).buffer ≡ buffer_size
        → length (incoming (connected st).world (connected st).socket) < fuel
        → Passed st (
            if out.0 ==ℤ no_err
            then (let initiated = send_initiator_message os node out.1 in
                if initiated.0 ==ℤ no_err
                then receive_loop os node fuel initiated.1
                else returned initiated.0 (close_connection os initiated.1))
            else returned out.0 (close_connection os out.1))
    unfolding ◌==ℤ◌
    subscribing out t sized enough =
        let k = Tried-Keeps id_message (connected st) out t in
        elim (Tried-Coded id_message (connected st) out t) [
          | inl e ↦ rw (ap (λ o. o.0) e) (
              initiating out.1 (send_initiator_message os node out.1)
                (subst (Tried os id_message 3 (connected st)) e t)
                (send_initiator_message-Initiated out.1) (k.sized ∙ sized)
                (omega (arith, ap length k.left)))
          | inr e ↦
              rw (ap (λ o. o.0) e)
                (unsubscribed out.1 fine (subst (Tried os id_message 3 (connected st)) e t))
        ]

  connect_to_server-keeps :
      (st : TcpSocket os.World) → (connect_to_server os st).1.buffer ≡ st.buffer
  unfolding connect_to_server close_socket
  connect_to_server-keeps st = ground arith

  -- With `recv` and `send` as documented and a whole buffer, a pass of the outer loop of `start`
  -- with fuel for more bytes than the connection will bring ends: with no connection; with the
  -- connection closed because three attempts at the id message, or at the first message, sent
  -- nothing; or with the end of a conversation, before which the messages that are due were sent.
  pub start_pass-Passed :
      (fuel : ℕ) (st : TcpSocket os.World)
      → length st.buffer ≡ buffer_size
      → length (incoming (connected st).world (connected st).socket) < fuel
      → Passed st (start_pass os node fuel st)
  unfolding start_pass subscribe_to_router
  start_pass-Passed fuel st sized enough =
      elim (Bool-cases ((connect_to_server os st).0 ==ℤ no_err)) [
        | inl e ↦
            let fine = eq_of_==ℤ (connect_to_server os st).0 no_err e in
            rw e (
              subscribing fuel st fine (send_message os id_message (connected st))
                (send_message-Tried os id_message (connected st))
                (ap length (connect_to_server-keeps st) ∙ sized) enough)
        | inr e ↦ rw e (unconnected (λ h. ground (arith, ==ℤ_refl no_err)))
      ]
