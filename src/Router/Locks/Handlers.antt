-- ===== src/Router/Locks/Handlers.antt =====
-- The moves of a worker that nobody disturbs, on the states that the router can reach.
use isc_challenge_without_bo.Prelude.{ℕ, suc, ◌<◌, ◌≡◌, [], ℤ, length}
use mathlib.Core.Path.{subst}
use isc_challenge_without_bo.Text.{Bytes}
use isc_challenge_without_bo.Winsock.{Os, Delivers}
use isc_challenge_without_bo.Router.Sessions.Reachable.{Reachable}
use isc_challenge_without_bo.Router.State.{Task, State, done, and_then, pure}
use isc_challenge_without_bo.Router.Workers.{do_writes}
use isc_challenge_without_bo.Router.Workers.Loops.{Handled, do_reads-Handled}
use isc_challenge_without_bo.Router.Workers.Writes.{do_writes-Written}
use isc_challenge_without_bo.Router.Locks.{idle, begin_reads, begin_writes}
use isc_challenge_without_bo.Router.Locks.Alone.{
  alone, Agrees, begin_reads-Agrees, begin_writes-Agrees,
}

module _ {os : Os} (d : Delivers os) (buffer : Bytes) (st : State os.World)
    (reached : Reachable st.sessions) where
  -- A reader that is alone, on a state that the router can reach, with `recv` and `send` as documented, a buffer
  -- of more than 32 bytes and fuel for more bytes than the connection will bring: its moves end, no
  -- mutex is held, and nothing has happened if the socket has no session. Else it has made rounds of
  -- the loop, each but the last with a positive result and the last with none; if that was
  -- `SOCKET_ERROR`, then the socket has no session any more and is not among the accepted ones, while
  -- every other socket leads where it did, and if not, then nothing has followed the last round.
  pub begin_reads-Handled :
      (fuel : ℕ) (socket : ℤ)
      → 32 < length buffer
      → length (d.incoming st.world socket) < fuel
      → (buffer' : Bytes) × (st' : State os.World) × (and_then
            (begin_reads os socket buffer [] st)
            (alone os (suc (suc (suc fuel))))
          ≡ done (idle, buffer', []) st')
        × Handled os socket buffer st buffer' st'
  begin_reads-Handled fuel socket room enough =
      let (buffer', st', e, h) = do_reads-Handled d socket buffer st fuel reached room enough in
      (
        buffer',
        st',
        subst
            (λ r.
              Agrees [] r
                (and_then (begin_reads os socket buffer [] st) (alone os (suc (suc (suc fuel))))))
            e (begin_reads-Agrees os fuel socket buffer st),
        h,
      )

  -- A writer that is alone leaves in two moves the state that `do_writes` leaves, and no mutex is held.
  pub begin_writes-do_writes :
      (task : Task)
      → (st' : State os.World) × (do_writes os task st ≡ done tt st')
        × (and_then (begin_writes os task buffer [] st) (alone os 2) ≡ done (idle, buffer, []) st')
  begin_writes-do_writes task =
      let (st', e, w) = do_writes-Written os task.0 task.1 st reached in
      (
        st',
        e,
        subst
            (λ r.
              Agrees [] (and_then r (λ _. pure buffer))
                (and_then (begin_writes os task buffer [] st) (alone os 2)))
            e (begin_writes-Agrees os task buffer st),
      )
