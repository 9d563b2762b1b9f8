-- ===== src/Node/Client/Rounds.antt =====
-- What the inner loop of `Node::start` does.
pub mod Loop
pub mod Replies
use isc_challenge_without_bo.Prelude.{
  ℕ, zero, suc, ◌+◌, ◌≤◌, ◌<◌, ◌≡◌, ◌≢◌, refl, sym, ap, ◌∙◌, true, false, Bool-cases, ◌⊎◌, inl, inr,
  List, [], ◌++◌, Exception, invalid_argument, Result, ok, throw, ℤ, pos, ◌==ℤ◌, ==ℤ_refl,
  ==ℤ_of_ne, eq_of_==ℤ, if◌then◌else◌, length, length-append, arith,
}
use mathlib.Core.Path.{subst}
use isc_challenge_without_bo.Text.{Bytes}
use isc_challenge_without_bo.Winsock.{Os, Delivers, socket_error}
use isc_challenge_without_bo.Node.Message.{process_message}
use isc_challenge_without_bo.Node.Message.Total.{Answer, process_message-Answer}
use isc_challenge_without_bo.Node.TcpSocket.{TcpSocket, recv_message, buffer_size, no_err, error}
use isc_challenge_without_bo.Node.TcpSocket.Receiving.{
  Received, got, lost, Got, Lost, recv_message-Received,
}
use isc_challenge_without_bo.Node.Client.{
  Node, Pass, returned, thrown, out_of_fuel, receive_round, receive_loop, answer, close_connection,
  send_message, proceed,
}
use isc_challenge_without_bo.Node.Client.Retries.{
  Tried, sent, gave_up, send_message-Tried, Tried-keeps,
}

module _ {os : Os} (d : Delivers os) (node : Node) where
  open d use {incoming}

  -- How a round ends. The connection is lost: it is closed. Some other number of bytes than 32 has arrived:
  -- they are passed over. A message has arrived: its answer, which is the empty text or has 32 bytes,
  -- is sent. A field of it is no number: the exception of `stoi`.
  pub data Round (st : TcpSocket os.World) : Pass os.World → Type 0 where
    closes :
        {n : ℤ} {st' : TcpSocket os.World}
        → Lost d st 32 n st'
        → Round st (returned error (close_connection os st'))
    skips :
        {n : ℤ} {st' : TcpSocket os.World}
        → Got d st 32 n st'
        → n ≢ pos 32
        → Round st (returned no_err st')
    answers :
        {st' : TcpSocket os.World} {out : ℤ × TcpSocket os.World} (reply : Bytes)
        → Got d st 32 (pos 32) st'
        → process_message node.id st'.buffer (pos 32) ≡ ok reply
        → (reply ≡ []) ⊎ (length reply ≡ 32)
        → Tried os reply 3 st' out
        → Round st (returned out.0 out.1)
    throws :
        {st' : TcpSocket os.World}
        → Got d st 32 (pos 32) st'
        → process_message node.id st'.buffer (pos 32) ≡ throw invalid_argument
        → Round st (thrown invalid_argument st')

  answer-Round :
      (st st' : TcpSocket os.World) (r : Result Bytes)
      → Got d st 32 (pos 32) st'
      → process_message node.id st'.buffer (pos 32) ≡ r
      → Answer st'.buffer r
      → Round st (answer os node st' r)
  answer-Round st st' (ok reply) g e (inl none_due) =
      answers reply g e (inl none_due) (send_message-Tried os reply st')
  answer-Round st st' (ok reply) g e (inr v) =
      answers reply g e (inr v.0) (send_message-Tried os reply st')
  answer-Round st st' (throw e') g e malformed = rw malformed (throws g (e ∙ ap throw malformed))

  abbrev handled : TcpSocket os.World → ℤ → Pass os.World
  handled st' n =
      if n ==ℤ pos 32
      then answer os node st' (process_message node.id st'.buffer n)
      else returned no_err st'

  whole-Round : (st st' : TcpSocket os.World) (n : ℤ) → Got d st 32 n st' → Round st (handled st' n)
  unfolding ◌==ℤ◌
  whole-Round st st' n g = elim (Bool-cases (n ==ℤ pos 32)) [
    | inl e ↦
        let full : n ≡ pos 32 = eq_of_==ℤ n (pos 32) e in
        subst (λ m. Got d st 32 m st' → Round st (handled st' m)) (sym full)
          (λ g.
            answer-Round st st' _ g refl
              (process_message-Answer st'.buffer (omega (arith, g.sized)) node.id (pos 32)))
          g
    | inr e ↦ rw e (skips g (λ h. ground (arith, ==ℤ_refl (pos 32))))
  ]

  outcome-Round :
      (st : TcpSocket os.World) (out : ℤ × ℤ × TcpSocket os.World)
      → Received d st 32 out
      → Round st (
          if out.0 ==ℤ no_err
          then handled out.2 out.1
          else returned out.0 (close_connection os out.2))
  unfolding ◌==ℤ◌
  outcome-Round st _ (got {n} {st'} g) = whole-Round st st' n g
  outcome-Round st _ (lost l) = closes l

  -- With `recv` and `send` as documented and a whole buffer, a round of the inner loop ends in one
  -- of four ways: the connection is lost, and it closes it and returns an error; it takes some
  -- other number of bytes than 32 and passes over them; it takes 32 bytes, whose answer, empty or
  -- of 32 bytes, it hands to `send_message`, and returns its result; or a field of the 32 bytes is
  -- no number, and it throws `invalid_argument`.
  pub receive_round-Round :
      (st : TcpSocket os.World)
      → length st.buffer ≡ buffer_size
      → Round st (receive_round os node st)
  unfolding receive_round
  receive_round-Round st sized =
      outcome-Round st (recv_message os 32 st) (recv_message-Received d st 32 sized)

  -- The rounds of the loop: each but the last returns `NO_ERR`.
  pub data Conversation : TcpSocket os.World → Pass os.World → Type 0 where
    goes_on :
        {st st' : TcpSocket os.World} {p : Pass os.World}
        → Round st (returned no_err st')
        → Conversation st' p
        → Conversation st p
    fails :
        {code : ℤ} {st st' : TcpSocket os.World}
        → Round st (returned code st')
        → code ≢ no_err
        → Conversation st (returned code st')
    breaks_off :
        {e : Exception} {st st' : TcpSocket os.World}
        → Round st (thrown e st')
        → Conversation st (thrown e st')
