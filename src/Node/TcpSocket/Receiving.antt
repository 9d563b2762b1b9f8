-- ===== src/Node/TcpSocket/Receiving.antt =====
-- What `recvMessage` does.
use isc_challenge_without_bo.Prelude.{
  ℕ, ◌-◌, ◌≤◌, ◌<◌, ◌≡◌, refl, ◌⊎◌, inl, inr, Bool-cases, [], ◌∷◌, ◌++◌, ℤ, pos, ltb, length,
  length-append, length-drop, length-set, drop, arith,
}
use isc_challenge_without_bo.Text.{Bytes}
use isc_challenge_without_bo.Winsock.{Os, Delivers, Recv, received, failed, socket_error}
use isc_challenge_without_bo.Node.TcpSocket.{
  TcpSocket, recv_message, take_recv, terminated, buffer_size, no_err, error,
}

length-terminated :
    (bs buffer : Bytes) → length bs ≤ length buffer → length (terminated bs buffer) ≡ length buffer
length-terminated bs buffer h = omega (
  arith,
  length-set (bs ++ drop (length bs) buffer) (length bs) 0,
  length-append bs (drop (length bs) buffer),
  length-drop (length bs) buffer,
)

module _ {os : Os} (d : Delivers os) (st : TcpSocket os.World) (needed_bytes : ℕ) where
  open d use {incoming}

  -- The next bytes of the connection are in the buffer, behind them a terminator that is inside of
  -- the buffer.
  pub record Got (count : ℤ) (st' : TcpSocket os.World) : Type 0 where
    pub bytes : Bytes
    pub some_bytes : 0 < length bytes
    pub counted : count ≡ pos (length bytes)
    pub asked : length bytes ≤ needed_bytes
    pub inside : length bytes < buffer_size
    pub stream : incoming st.world st.socket ≡ bytes ++ incoming st'.world st.socket
    pub filled : st' ≡ record st { buffer = terminated bytes st.buffer; world = st'.world }
    pub sized : length st'.buffer ≡ buffer_size

  -- The connection is closed, or broken: no byte is taken.
  pub record Lost (count : ℤ) (st' : TcpSocket os.World) : Type 0 where
    pub counted : (count ≡ pos 0) ⊎ (count ≡ socket_error)
    pub stream : incoming st.world st.socket ≡ incoming st'.world st.socket
    pub same : st' ≡ record st { world = st'.world }

  pub data Received : ℤ × ℤ × TcpSocket os.World → Type 0 where
    got : {n : ℤ} {st' : TcpSocket os.World} → Got n st' → Received (no_err, n, st')
    lost : {n : ℤ} {st' : TcpSocket os.World} → Lost n st' → Received (error, n, st')

  take_recv-Received :
      (asked : ℕ) (r : Recv) (w' : os.World)
      → os.recv st.socket asked st.world ≡ (r, w')
      → asked ≤ needed_bytes
      → asked < buffer_size
      → length st.buffer ≡ buffer_size
      → Received (take_recv os st (r, w'))
  take_recv-Received asked (received []) w' e small inside sized =
      let (bounded, stream) = d.recv_received st.socket asked st.world w' [] e in
      lost (record { counted = inl refl; stream = stream; same = refl })
  take_recv-Received asked (received (b ∷ bs)) w' e small inside sized =
      let (bounded, stream) = d.recv_received st.socket asked st.world w' (b ∷ bs) e in
      got (record {
        bytes = b ∷ bs;
        some_bytes = omega arith;
        counted = refl;
        asked = omega arith;
        inside = omega arith;
        stream = stream;
        filled = refl;
        sized = omega (arith, length-terminated (b ∷ bs) st.buffer);
      })
  take_recv-Received asked (failed code) w' e small inside sized = lost (record {
    counted = inr refl;
    stream = cc (d.recv_failed st.socket asked st.world w' code e);
    same = refl;
  })

  -- With `recv` and `send` as documented and a whole buffer, `recvMessage` writes nothing outside
  -- of it, terminator included, whatever number of bytes is asked for; it succeeds when it has
  -- taken some of the next bytes of the connection, no more than asked for, and fails when it has
  -- taken none.
  pub recv_message-Received :
      length st.buffer ≡ buffer_size → Received (recv_message os needed_bytes st)
  unfolding recv_message
  recv_message-Received sized = elim (Bool-cases (ltb needed_bytes (buffer_size - 1))) [
    | inl e ↦ rw e (take_recv-Received needed_bytes _ _ refl (omega arith) (ground arith) sized)
    | inr e ↦
        rw e (take_recv-Received (buffer_size - 1) _ _ refl (ground arith) (omega arith) sized)
  ]
