-- ===== src/Node/TcpSocket.antt =====
-- The class `TCPSocket` of node/include/tcp_socket.h and node/src/tcp_socket.cpp. Log lines are left out.
pub mod Receiving
use isc_challenge_without_bo.Prelude.{
  ℕ, ◌-◌, [], ◌∷◌, ◌+◌, ◌++◌, not, ℤ, pos, ◌==ℤ◌, if◌then◌else◌, ltb, length, set, take, drop,
  replicate,
}
use isc_challenge_without_bo.Text.{Bytes}
use isc_challenge_without_bo.Winsock.{Os, Recv, received, failed, socket_error}

abbrev pub buffer_size : ℕ
buffer_size = 3200

-- `NO_ERR`, and the code of every error.
abbrev pub no_err : ℤ
no_err = pos 0

abbrev pub error : ℤ
error = pos 1

pub record TcpSocket (W : Type 0) : Type 0 where
  pub buffer : Bytes
  pub server_ip : Bytes
  pub server_port : ℤ
  pub socket : ℤ
  pub world : W

-- The constructor leaves `_socket` and the buffer uninitialised: they are arguments here.
unfoldable pub new_tcp_socket : {W : Type 0} → Bytes → ℤ → Bytes → ℤ → W → TcpSocket W
new_tcp_socket server_ip server_port buffer socket w = record {
  buffer = buffer;
  server_ip = server_ip;
  server_port = server_port;
  socket = socket;
  world = w;
}

-- What the buffer holds after `recv` and the terminator.
abbrev pub terminated : Bytes → Bytes → Bytes
terminated bs buffer = set (bs ++ drop (length bs) buffer) (length bs) 0

module _ (os : Os) where
  open os use {World, startup, cleanup}

  unfoldable pub close_socket : TcpSocket World → TcpSocket World
  close_socket st = record st { world = cleanup (os.closesocket st.socket st.world) }

  -- The destructor: the buffer is freed, and what is left is the state of the system.
  unfoldable pub destroy : TcpSocket World → World
  unfolding close_socket
  destroy st = (close_socket st).world

  unfoldable pub connect_to_server : TcpSocket World → ℤ × TcpSocket World
  unfolding close_socket
  connect_to_server st =
      let (started, w) = startup st.world in
      if not (started ==ℤ pos 0)
      then (error, record st { world = w })
      else (let (fd, w) = os.socket w in
          let opened = record st { socket = fd; world = w } in
          if fd ==ℤ socket_error
          then (error, opened)
          else (let (status, w) = os.connect fd st.server_ip st.server_port w in
              let tried = record opened { world = w } in
              if status ==ℤ socket_error then (error, close_socket tried) else (no_err, tried)))

  -- The error code, `bytes_received` and the state, after a result of `recv`.
  abbrev pub take_recv : TcpSocket World → Recv × World → ℤ × ℤ × TcpSocket World
  take_recv st (received [], w) = (error, pos 0, record st { world = w })
  take_recv st (received (b ∷ bs), w) = (
    no_err,
    pos (length (b ∷ bs)),
    record st { buffer = terminated (b ∷ bs) st.buffer; world = w },
  )
  take_recv st (failed code, w) = (error, socket_error, record st { world = w })

  unfoldable pub recv_message : ℕ → TcpSocket World → ℤ × ℤ × TcpSocket World
  recv_message needed_bytes st =
      let needed_bytes =
        if ltb needed_bytes (buffer_size - 1) then needed_bytes else buffer_size - 1 in
      take_recv st (os.recv st.socket needed_bytes st.world)

  unfoldable pub send_message : Bytes → TcpSocket World → ℤ × TcpSocket World
  send_message message st =
      let (bytes_sent, w) = os.send st.socket message st.world in
      (bytes_sent, record st { world = w })
