-- ===== src/Router/Workers/Taking.antt =====
-- What the two handlers of a read have in common.
use isc_challenge_without_bo.Prelude.{
  ℕ, suc, ◌<◌, ◌≡◌, ◌≢◌, refl, ap, ◌∙◌, ◌⊎◌, inl, inr, true, Bool-cases, ◌∷◌, ◌++◌, ℤ, pos, ◌==ℤ◌,
  ==ℤ_refl, ==ℤ_of_ne, ◌==◌, if◌then◌else◌, length, length-append, length-drop, drop, set, arith,
}
use isc_challenge_without_bo.Text.{Bytes}
use isc_challenge_without_bo.Winsock.{Os, Delivers, socket_error}
use isc_challenge_without_bo.Router.TcpServer.Reading.{Read, read_async-Read}
use isc_challenge_without_bo.Router.State.{State, Run, Cmd, done, pure, ◌>>=◌}
use isc_challenge_without_bo.Router.Workers.{is_positive, read}
use isc_challenge_without_bo.Text.Buffer.{set-terminator, length-terminated}

module _ {os : Os} (d : Delivers os) (socket : ℤ) (buffer : Bytes) (st : State os.World) where
  open d use {incoming}

  -- What every handler of a read does: it takes the next bytes of the connection, one at least if it
  -- returns a positive count, and leaves the size of the buffer and the queue of sockets.
  pub record Takes (bytes : Bytes) (out : ℤ × Bytes) (st' : State os.World) : Type 0 where
    pub stream : incoming st.world socket ≡ bytes ++ incoming st'.world socket
    pub sized : length out.1 ≡ length buffer
    pub progress : is_positive out.0 ≡ true → 0 < length bytes
    pub reads : st'.ready_read_sockets_queue_ ≡ st.ready_read_sockets_queue_

  -- Fewer bytes than a message, or an error: what was read is dropped.
  pub record Dropped (size : ℕ) (bytes : Bytes) (result : ℤ) (st' : State os.World) : Type 0 where
    pub counted : ((result ≡ pos (length bytes)) × (length bytes < size)) ⊎ (result ≡ socket_error)
    pub queued : st'.ready_write_sockets_queue_ ≡ st.ready_write_sockets_queue_

  abbrev pub Ends : (ℤ × Bytes → State os.World → Type 0) → Run os.World (ℤ × Bytes) → Type 0
  Ends P r = (out : ℤ × Bytes) × (st' : State os.World) × (r ≡ done out st') × P out st'

  -- A read of `size` bytes, and `next` if they are all there.
  abbrev pub reading : ℕ → (ℤ → Bytes → Cmd os.World (ℤ × Bytes)) → Run os.World (ℤ × Bytes)
  reading size next =
      (read os socket buffer size >>= λ (n, buf).
      if n ==ℤ pos size then next n (set buf size 0) else pure (n, buf))
        st

  module _ (P : ℤ × Bytes → State os.World → Type 0) (size : ℕ)
      (next : ℤ → Bytes → Cmd os.World (ℤ × Bytes))
      (on_whole : (bytes rest : Bytes) (w' : os.World)
        → incoming st.world socket ≡ bytes ++ incoming w' socket
        → length bytes ≡ size
        → length (bytes ++ 0 ∷ rest) ≡ length buffer
        → Ends P (next (pos size) (bytes ++ 0 ∷ rest) (record st { world = w' })))
      (on_short : (bytes : Bytes) (out : ℤ × Bytes) (w' : os.World)
        → Takes bytes out (record st { world = w' })
        → Dropped size bytes out.0 (record st { world = w' })
        → P out (record st { world = w' }))
      (room : size < length buffer) where
    short-Ends :
        (n : ℤ) (buf : Bytes) (w' : os.World) (rd : Read d socket size buffer st.world (n, buf, w'))
        → n ≢ pos size
        → ((n ≡ pos (length rd.bytes)) × (length rd.bytes < size)) ⊎ (n ≡ socket_error)
        → Ends P (
            (if n ==ℤ pos size then next n (set buf size 0) else pure (n, buf))
              (record st { world = w' }))
    short-Ends n buf w' rd ne counted = rw (==ℤ_of_ne n (pos size) ne) (
      (n, buf),
      record st { world = w' },
      refl,
      on_short rd.bytes (n, buf) w'
          (record {
            stream = rd.stream;
            sized = omega (
              arith,
              ap length rd.kept,
              length-append rd.bytes (drop (length rd.bytes) buffer),
              length-drop (length rd.bytes) buffer,
              rd.fits,
            );
            progress = λ p. ground (arith, counted);
            reads = refl;
          })
          (record { counted = counted; queued = refl }),
    )

    settle :
        (n : ℤ) (buf : Bytes) (w' : os.World)
        → Read d socket size buffer st.world (n, buf, w')
        → Ends P (
            (if n ==ℤ pos size then next n (set buf size 0) else pure (n, buf))
              (record st { world = w' }))
    settle n buf w' rd = elim rd.counted [
      | inl c ↦ elim (Bool-cases (length rd.bytes == size)) [
        | inl full ↦
            let e : length rd.bytes ≡ size = ground arith in
            rw
              (
                c ∙ ap pos e,
                ==ℤ_refl (pos size),
                rd.kept,
                set-terminator rd.bytes buffer size e room,
              )
              (on_whole rd.bytes (drop (suc size) buffer) w' rd.stream e
                (length-terminated rd.bytes buffer size e room))
        | inr short ↦
            let e : length rd.bytes < size = ground (arith, rd.fits) in
            short-Ends n buf w' rd (λ same. ground (arith, c)) (inl (c, e))
      ]
      | inr broken ↦ short-Ends n buf w' rd (λ same. cc broken) (inr broken)
    ]

    pub reading-Ends : 0 < size → Ends P (reading size next)
    reading-Ends some_bytes =
        let ((n, buf, w'), e, rd) = read_async-Read d socket size buffer st.world some_bytes in
        rw e (settle n buf w' rd)
