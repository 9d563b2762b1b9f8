-- ===== src/Node/Client/Passes/Endless.antt =====
-- What ends `Node::start`.
use isc_challenge_without_bo.Prelude.{
  ℕ, zero, suc, ◌<◌, ◌≡◌, refl, ap, ◌∙◌, inl, inr, invalid_argument, ℤ, length,
}
use isc_challenge_without_bo.Text.{Bytes}
use isc_challenge_without_bo.Winsock.{Os, Delivers}
use isc_challenge_without_bo.Node.TcpSocket.{TcpSocket, close_socket, buffer_size, no_err, error}
use isc_challenge_without_bo.Node.Client.{
  Node, Pass, returned, thrown, close_connection, start_pass, start, follow,
}
use isc_challenge_without_bo.Node.Client.Retries.{Tried, Tried-keeps}
use isc_challenge_without_bo.Node.Client.Rounds.{
  Round, closes, skips, answers, throws, Conversation, goes_on, fails, breaks_off,
}
use isc_challenge_without_bo.Node.Client.Passes.{
  Passed, Initiated, unconnected, unsubscribed, uninitiated, conversed, connected, id_message,
  first_message, connect_to_server-keeps, start_pass-Passed,
}

module _ {os : Os} (d : Delivers os) (node : Node) where
  open d use {incoming}

  abbrev pub Sized : TcpSocket os.World → Type 0
  Sized st = length st.buffer ≡ buffer_size

  -- A pass has not run out of fuel, the buffer is whole, and an exception is one of `stoi`.
  pub data Ends : Pass os.World → Type 0 where
    ends : (err : ℤ) (st : TcpSocket os.World) → Sized st → Ends (returned err st)
    stops : (st : TcpSocket os.World) → Sized st → Ends (thrown invalid_argument st)

  close_connection-Sized : (st : TcpSocket os.World) → Sized st → Sized (close_connection os st)
  unfolding close_connection close_socket
  close_connection-Sized st h = h

  Tried-Sized :
      (msg : Bytes) (st : TcpSocket os.World) (r : ℤ × TcpSocket os.World)
      → Tried os msg 3 st r
      → Sized st
      → Sized r.1
  Tried-Sized msg st r t h = ap (λ s. length s.buffer) (Tried-keeps os msg 3 st r t) ∙ h

  Round-Ends : (st : TcpSocket os.World) (p : Pass os.World) → Sized st → Round d node st p → Ends p
  Round-Ends st _ h (closes {n} {st'} l) =
      ends error _ (close_connection-Sized st' (ap (λ s. length s.buffer) l.same ∙ h))
  Round-Ends st _ h (skips {n} {st'} g ne) = ends no_err st' g.sized
  Round-Ends st _ h (answers {st'} {out} reply g e v t) =
      ends out.0 out.1 (Tried-Sized reply st' out t g.sized)
  Round-Ends st _ h (throws {st'} g e) = stops st' g.sized

  Ends-Sized : (err : ℤ) (st : TcpSocket os.World) → Ends (returned err st) → Sized st
  Ends-Sized err st (ends _ _ h) = h

  Conversation-Ends :
      (st : TcpSocket os.World) (p : Pass os.World) → Sized st → Conversation d node st p → Ends p
  Conversation-Ends st p h (goes_on {st' = next} r c) =
      Conversation-Ends next p (Ends-Sized no_err next (Round-Ends st _ h r)) c
  Conversation-Ends st _ h (fails r ne) = Round-Ends st _ h r
  Conversation-Ends st _ h (breaks_off r) = Round-Ends st _ h r

  Initiated-Sized :
      (st : TcpSocket os.World) (out : ℤ × TcpSocket os.World)
      → Initiated d node st out
      → Sized st
      → Sized out.1
  unfolding Initiated
  Initiated-Sized st out (inl (e, t)) h = Tried-Sized (first_message d node) st out t h
  Initiated-Sized st out (inr (e, same)) h = rw same h

  connected-Sized : (st : TcpSocket os.World) → Sized st → Sized (connected d node st)
  connected-Sized st h = ap length (connect_to_server-keeps d node st) ∙ h

  Passed-Ends :
      (st : TcpSocket os.World) (p : Pass os.World) → Sized st → Passed d node st p → Ends p
  Passed-Ends st _ h (unconnected broken) = ends _ _ (connected-Sized st h)
  Passed-Ends st _ h (unsubscribed last fine t) =
      ends error _
        (close_connection-Sized last (Tried-Sized (id_message d node) _ _ t (connected-Sized st h)))
  Passed-Ends st _ h (uninitiated subscribed last fine t i) =
      let subscribed-Sized = Tried-Sized (id_message d node) _ _ t (connected-Sized st h) in
      ends error _ (close_connection-Sized last (Initiated-Sized subscribed _ i subscribed-Sized))
  Passed-Ends st p h (conversed subscribed last fine t i c) =
      let subscribed-Sized = Tried-Sized (id_message d node) _ _ t (connected-Sized st h) in
      Conversation-Ends last p (Initiated-Sized subscribed _ i subscribed-Sized) c

  -- Each of the next passes has fuel for more bytes than its connection will bring.
  abbrev pub Enough : ℕ → ℕ → TcpSocket os.World → Type 0
  Enough zero fuel st = Unit
  Enough (suc passes) fuel st =
      (length (incoming (connected d node st).world (connected d node st).socket) < fuel)
      × ((err : ℤ) (st' : TcpSocket os.World)
          → start_pass os node fuel st ≡ returned err st'
          → Enough passes fuel st')

  -- The outer loop, from a state: behind so many passes, each from the state that the one before left,
  -- whatever code it returned; or it has ended on an exception of one of these passes.
  pub data Going (fuel : ℕ) : ℕ → TcpSocket os.World → Pass os.World → Type 0 where
    between : (st : TcpSocket os.World) → Sized st → Going fuel 0 st (returned no_err st)
    passes :
        {n : ℕ} {st : TcpSocket os.World} {p : Pass os.World} (err : ℤ) (st' : TcpSocket os.World)
        → start_pass os node fuel st ≡ returned err st'
        → Going fuel n st' p
        → Going fuel (suc n) st p
    stopped :
        {n : ℕ} {st : TcpSocket os.World} (st' : TcpSocket os.World)
        → start_pass os node fuel st ≡ thrown invalid_argument st'
        → Sized st'
        → Going fuel (suc n) st (thrown invalid_argument st')

  pub Going-Ends :
      {fuel n : ℕ} {st : TcpSocket os.World} {p : Pass os.World} → Going fuel n st p → Ends p
  Going-Ends (between st h) = ends no_err st h
  Going-Ends (passes err st' e g) = Going-Ends g
  Going-Ends (stopped st' e h) = stops st' h

  follow-Going :
      (n fuel : ℕ) (st : TcpSocket os.World) (p : Pass os.World)
      → start_pass os node fuel st ≡ p
      → Ends p
      → ((err : ℤ) (st' : TcpSocket os.World)
          → p ≡ returned err st'
          → Sized st'
          → Going fuel n st' (start os node n fuel st'))
      → Going fuel (suc n) st (follow os node (start os node n fuel) p)
  follow-Going n fuel st _ e (ends err st' h) k = passes err st' e (k err st' refl h)
  follow-Going n fuel st _ e (stops st' h) k = stopped st' e h

  -- With `recv` and `send` as documented, a whole buffer, and fuel in each pass for more bytes than
  -- its connection will bring, `start` makes as many passes as are asked for, each from the state
  -- that the one before left, whatever code that one returned: no error code of a connection, a
  -- subscription or a message ends it, but only an exception of a pass, which is `invalid_argument`.
  pub start-Going :
      (n fuel : ℕ) (st : TcpSocket os.World)
      → Sized st
      → Enough n fuel st
      → Going fuel n st (start os node n fuel st)
  unfolding start
  start-Going zero fuel st h enough = between st h
  start-Going (suc n) fuel st h enough =
      follow-Going n fuel st (start_pass os node fuel st) refl
        (Passed-Ends st _ h (start_pass-Passed d node fuel st h enough.0))
        (λ err st' e h'. start-Going n fuel st' h' (enough.1 err st' e))
