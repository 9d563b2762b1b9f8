-- ===== src/Router/Locks/Alone.antt =====
-- A worker that nobody disturbs: its moves are `do_reads` and `do_writes`.
use isc_challenge_without_bo.Prelude.{
  ℕ, zero, suc, ◌≡◌, refl, Bool-cases, inl, inr, List, [], ◌∷◌, Option, none, some, ℤ, ◌==ℤ◌,
  if◌then◌else◌, arith,
}
use mathlib.Core.Path.{subst}
use isc_challenge_without_bo.Text.{Bytes}
use isc_challenge_without_bo.Winsock.{Os, socket_error}
use isc_challenge_without_bo.Router.Sessions.{find_session_by_socket, remove_session}
use isc_challenge_without_bo.Router.State.{
  Task, State, Cmd, Run, Fault, waits_forever, uncaught, done, fault, out_of_fuel, pure, and_then,
  ◌>>◌, query, update,
}
use isc_challenge_without_bo.Router.Workers.{
  do_reads, do_writes, read_rounds, read_round, serve, lock_and_serve, is_positive, send_task,
}
use isc_challenge_without_bo.Router.Locks.{
  idle, read_waits, read_serves, read_ends, write_waits, unlock, Turn, found, second_lookup,
  begin_reads, begin_writes, advance,
}

-- A run of the moves that ends as a run of the handler does, with these mutexes held; a handler that runs out of
-- fuel says nothing.
abbrev pub Agrees : {W : Type 0} → List ℕ → Run W Bytes → Run W Turn → Type 0
Agrees left (done buffer st) r = r ≡ done (idle, buffer, left) st
Agrees left (fault out_of_fuel) r = Unit
Agrees left (fault f) r = r ≡ fault f

fault-Agrees : (W : Type 0) (left : List ℕ) (f : Fault) → Agrees {W = W} left (fault f) (fault f)
fault-Agrees W left waits_forever = refl
fault-Agrees W left (uncaught e) = refl
fault-Agrees W left out_of_fuel = tt

module _ (os : Os) where
  -- The moves of a worker till it is in neither handler, on fuel.
  pub alone : ℕ → Turn → Cmd os.World Turn
  alone fuel (idle, buffer, held) st = done (idle, buffer, held) st
  alone zero (job, buffer, held) st = fault out_of_fuel
  alone (suc fuel) (job, buffer, held) st = and_then (advance os job buffer held st) (alone fuel)

  alone-idle :
      (fuel : ℕ) (buffer : Bytes) (held : List ℕ) (st : State os.World)
      → alone fuel (idle, buffer, held) st ≡ done (idle, buffer, held) st
  unfolding alone
  alone-idle zero buffer held st = refl
  alone-idle (suc fuel) buffer held st = refl

  module _ (socket : ℤ) (m : ℕ) (held : List ℕ) where
    -- The end of `do_reads`.
    abbrev finish : ℤ × Bytes → Cmd os.World Bytes
    finish (bytes_read, buffer) =
        if bytes_read ==ℤ socket_error
        then (do update (remove_session socket); pure buffer)
        else pure buffer

    removed-Agrees :
        (fuel : ℕ) (buffer : Bytes) (r : Run os.World (Unit {0}))
        → Agrees
            (unlock m held)
            (and_then r (λ _. pure buffer))
            (and_then (and_then r (λ _. pure (idle, buffer, unlock m held))) (alone fuel))
    removed-Agrees fuel buffer (done a st) = alone-idle fuel buffer (unlock m held) st
    removed-Agrees fuel buffer (fault f) = fault-Agrees os.World (unlock m held) f

    ends-Agrees :
        (fuel : ℕ) (out : ℤ × Bytes) (st : State os.World)
        → Agrees
            (unlock m held)
            (finish out st)
            (alone (suc fuel) (read_ends socket m out.0, out.1, held) st)
    unfolding alone advance
    ends-Agrees fuel out st = elim (Bool-cases (out.0 ==ℤ socket_error)) [
      | inl e ↦ rw e (removed-Agrees fuel out.1 (update (remove_session socket) st))
      | inr e ↦ rw e (alone-idle fuel out.1 (unlock m held) st)
    ]

    module _ (session : ℕ) where
      round-Agrees :
          (fuel : ℕ) (r : Run os.World (ℤ × Bytes))
          → ((buffer : Bytes) (st : State os.World)
              → Agrees
                  (unlock m held)
                  (and_then (read_rounds os fuel session socket buffer st) finish)
                  (alone (suc fuel) (read_serves socket m session, buffer, held) st))
          → Agrees
              (unlock m held)
              (and_then
                (and_then r λ out st'.
                  if is_positive out.0
                  then read_rounds os fuel session socket out.1 st'
                  else done (out.0, out.1) st')
                finish)
              (and_then
                (and_then r λ out.
                  if is_positive out.0
                  then pure (read_serves socket m session, out.1, held)
                  else pure (read_ends socket m out.0, out.1, held))
                (alone (suc fuel)))
      round-Agrees fuel (done out st) next = elim (Bool-cases (is_positive out.0)) [
        | inl e ↦ rw e (next out.1 st)
        | inr e ↦ rw e (ends-Agrees fuel out st)
      ]
      round-Agrees fuel (fault f) next = fault-Agrees os.World (unlock m held) f

      rounds-Agrees :
          (fuel : ℕ) (buffer : Bytes) (st : State os.World)
          → Agrees
              (unlock m held)
              (and_then (read_rounds os fuel session socket buffer st) finish)
              (alone (suc fuel) (read_serves socket m session, buffer, held) st)
      unfolding read_rounds alone advance
      rounds-Agrees zero buffer st = tt
      rounds-Agrees (suc fuel) buffer st =
          round-Agrees fuel (read_round os session socket buffer st) (rounds-Agrees fuel)

    -- From the second lookup on.
    second-Agrees :
        (fuel : ℕ) (buffer : Bytes) (r : Run os.World (Option ℕ))
        → Agrees
            (unlock m held)
            (and_then r (serve os fuel socket buffer))
            (and_then (and_then r (second_lookup os socket m buffer held)) (alone (suc fuel)))
    second-Agrees fuel buffer (done none st) = alone-idle (suc fuel) buffer (unlock m held) st
    second-Agrees fuel buffer (done (some session) st) = rounds-Agrees session fuel buffer st
    second-Agrees fuel buffer (fault f) = fault-Agrees os.World (unlock m held) f

  -- A lock and the lock's end.
  unlock-lock : (m : ℕ) → unlock m (m ∷ []) ≡ []
  unlock-lock m = ground arith

  first-Agrees :
      (fuel : ℕ) (socket : ℤ) (buffer : Bytes) (r : Run os.World (Option ℕ))
      → Agrees [] (and_then r (lock_and_serve os fuel socket buffer)) (
          and_then
            (and_then r (found os (read_waits socket) buffer []))
            (alone (suc (suc (suc fuel)))))
  unfolding alone advance
  first-Agrees fuel socket buffer (done none st) = alone-idle (suc (suc (suc fuel))) buffer [] st
  first-Agrees fuel socket buffer (done (some m) st) =
      subst
        (λ left.
          Agrees left (lock_and_serve os fuel socket buffer (some m) st)
            (alone (suc (suc (suc fuel))) (read_waits socket m, buffer, []) st))
        (unlock-lock m)
        (second-Agrees socket m (m ∷ []) fuel buffer (query (find_session_by_socket socket) st))
  first-Agrees fuel socket buffer (fault f) = fault-Agrees os.World [] f

  -- The moves of a reader that is alone, with no mutex held, do what `do_reads` does, whatever that is, and
  -- leave no mutex held.
  pub begin_reads-Agrees :
      (fuel : ℕ) (socket : ℤ) (buffer : Bytes) (st : State os.World)
      → Agrees []
          (do_reads os fuel socket buffer st)
          (and_then (begin_reads os socket buffer [] st) (alone (suc (suc (suc fuel)))))
  unfolding do_reads
  begin_reads-Agrees fuel socket buffer st =
      first-Agrees fuel socket buffer (query (find_session_by_socket socket) st)

  sends-Agrees :
      (task : Task) (m : ℕ) (buffer : Bytes) (held : List ℕ) (r : Run os.World (Unit {0}))
      → Agrees
          (unlock m held)
          (and_then r (λ _. pure buffer))
          (and_then (and_then r (λ _. pure (idle, buffer, unlock m held))) (alone 0))
  sends-Agrees task m buffer held (done a st) = alone-idle 0 buffer (unlock m held) st
  sends-Agrees task m buffer held (fault f) = fault-Agrees os.World (unlock m held) f

  writer-Agrees :
      (task : Task) (buffer : Bytes) (r : Run os.World (Option ℕ))
      → Agrees []
          (and_then (and_then r (send_task os task)) (λ _. pure buffer))
          (and_then (and_then r (found os (write_waits task) buffer [])) (alone 2))
  unfolding alone advance
  writer-Agrees task buffer (done none st) = alone-idle 2 buffer [] st
  writer-Agrees task buffer (done (some m) st) =
      subst
        (λ left.
          Agrees left (and_then (send_task os task (some m) st) (λ _. pure buffer))
            (alone 2 (write_waits task m, buffer, []) st))
        (unlock-lock m) (sends-Agrees task m buffer (m ∷ []) (send_task os task (some m) st))
  writer-Agrees task buffer (fault f) = fault-Agrees os.World [] f

  -- The same for a writer and `do_writes`, which leave the buffer of the worker alone.
  pub begin_writes-Agrees :
      (task : Task) (buffer : Bytes) (st : State os.World)
      → Agrees []
          (and_then (do_writes os task st) (λ _. pure buffer))
          (and_then (begin_writes os task buffer [] st) (alone 2))
  unfolding do_writes
  begin_writes-Agrees task buffer st =
      writer-Agrees task buffer (query (find_session_by_socket task.0) st)
