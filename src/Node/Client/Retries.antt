-- ===== src/Node/Client/Retries.antt =====
-- What `Node::send_message` does.
use isc_challenge_without_bo.Prelude.{
  ℕ, zero, suc, ◌<◌, ◌≡◌, refl, true, false, Bool-cases, inl, inr, ℤ, pos, lt_pos, if◌then◌else◌,
  arith,
}
use isc_challenge_without_bo.Text.{Bytes}
use isc_challenge_without_bo.Winsock.{Os}
use isc_challenge_without_bo.Node.TcpSocket
use isc_challenge_without_bo.Node.TcpSocket.{TcpSocket, no_err, error}
use isc_challenge_without_bo.Node.Client.{retry, send_message}

module _ (os : Os) (msg : Bytes) where
  abbrev attempt : TcpSocket os.World → ℤ × TcpSocket os.World
  attempt = TcpSocket.send_message os msg

  -- That many attempts in a row send nothing.
  pub data Refused : ℕ → TcpSocket os.World → TcpSocket os.World → Type 0 where
    untried : {st : TcpSocket os.World} → Refused 0 st st
    again :
        {k : ℕ} {st st' : TcpSocket os.World}
        → lt_pos (attempt st).0 1 ≡ true
        → Refused k (attempt st).1 st'
        → Refused (suc k) st st'

  -- The attempt after fewer than `tries` failures sends something, or all of them fail.
  pub data Tried (tries : ℕ) (st : TcpSocket os.World) : ℤ × TcpSocket os.World → Type 0 where
    sent :
        {k : ℕ} {last : TcpSocket os.World}
        → k < tries
        → Refused k st last
        → lt_pos (attempt last).0 1 ≡ false
        → Tried tries st (no_err, (attempt last).1)
    gave_up : {last : TcpSocket os.World} → Refused tries st last → Tried tries st (error, last)

  abbrev judged : ℤ × TcpSocket os.World → ℤ × TcpSocket os.World
  judged (byte_send, st) = if lt_pos byte_send 1 then (error, st) else (no_err, st)

  Tried-again :
      (tries : ℕ) (st : TcpSocket os.World) (r : ℤ × TcpSocket os.World)
      → lt_pos (attempt st).0 1 ≡ true
      → Tried tries (attempt st).1 r
      → Tried (suc tries) st r
  Tried-again tries st _ h (sent small refused whole) = sent (omega arith) (again h refused) whole
  Tried-again tries st _ h (gave_up refused) = gave_up (again h refused)

  -- A loop whose last attempt sent something makes no other.
  retry-whole :
      (tries : ℕ) (b : ℤ) (st : TcpSocket os.World)
      → lt_pos b 1 ≡ false
      → retry os msg tries b st ≡ (b, st)
  unfolding retry
  retry-whole zero b st h = refl
  retry-whole (suc tries) b st h = rw h refl

  retry-Tried :
      (tries : ℕ) (b : ℤ) (st : TcpSocket os.World)
      → lt_pos b 1 ≡ true
      → Tried tries st (judged (retry os msg tries b st))
  unfolding retry
  retry-Tried zero b st h = rw h (gave_up untried)
  retry-Tried (suc tries) b st h = rw h (elim (Bool-cases (lt_pos (attempt st).0 1)) [
    | inl none_sent ↦
        Tried-again tries st _ none_sent (retry-Tried tries (attempt st).0 (attempt st).1 none_sent)
    | inr some_sent ↦
        rw (retry-whole tries (attempt st).0 (attempt st).1 some_sent, some_sent)
          (sent (omega arith) untried some_sent)
  ])

  -- `send_message` calls `send` until a call sends something, three times at most, and returns
  -- `NO_ERR` if the last call did, and 1 after three calls that did not.
  pub send_message-Tried : (st : TcpSocket os.World) → Tried 3 st (send_message os msg st)
  unfolding send_message
  send_message-Tried st = retry-Tried 3 (pos 0) st refl

  pub Refused-keeps :
      (k : ℕ) (st st' : TcpSocket os.World)
      → Refused k st st'
      → st' ≡ record st { world = st'.world }
  unfolding TcpSocket.send_message
  Refused-keeps _ st _ untried = refl
  Refused-keeps _ st st' (again h refused) = Refused-keeps _ (attempt st).1 st' refused

  pub Tried-keeps :
      (tries : ℕ) (st : TcpSocket os.World) (r : ℤ × TcpSocket os.World)
      → Tried tries st r
      → r.1 ≡ record st { world = r.1.world }
  unfolding TcpSocket.send_message
  Tried-keeps tries st _ (sent {last} small refused whole) = cc (Refused-keeps _ st last refused)
  Tried-keeps tries st _ (gave_up {last} refused) = Refused-keeps _ st last refused
