-- ===== src/Router/TcpServer.antt =====
-- The class `TcpServer` of router/include/tcpserver.h and router/src/tcpserver.cpp.
pub mod Reading
pub mod Fragments
use isc_challenge_without_bo.Prelude.{
  ℕ, zero, suc, ◌+◌, ◌-◌, Bool, true, false, not, List, [], ◌∷◌, ◌++◌, Option, none, some, ℤ, pos,
  negsuc, ◌==ℤ◌, ◌==◌, if◌then◌else◌, length, take, drop, lt_pos,
}
use isc_challenge_without_bo.Text.{Bytes, codes}
use isc_challenge_without_bo.Winsock.{Os, Recv, received, failed, socket_error, would_block}

-- What `recv` writes at `buffer + offset`.
abbrev pub write_at : ℕ → Bytes → Bytes → Bytes
write_at offset bs buffer = take offset buffer ++ (bs ++ drop (offset + length bs) buffer)

abbrev pub no_more_data : ℕ → Bool
no_more_data code = code == would_block

module _ (os : Os) where
  open os use {World, startup, socket, bind, listen, accept, ioctlsocket, closesocket, recv, send}

  unfoldable pub start_tcp_server : ℤ → World → ℤ × World
  start_tcp_server port w =
      let (started, w) = startup w in
      if not (started ==ℤ pos 0)
      then (socket_error, w)
      else (let (server_socket, w) = socket w in
          if server_socket ==ℤ negsuc 0
          then (socket_error, w)
          else (let (bind_status, w) = bind server_socket (codes "127.0.0.1") port w in
              if lt_pos bind_status 0
              then (socket_error, w)
              else (server_socket, listen server_socket w)))

  pub set_client_socket_nonblocking : ℤ → World → ℤ × World
  set_client_socket_nonblocking client_socket w =
      let (status, w) = ioctlsocket client_socket w in
      if not (status ==ℤ pos 0) then (socket_error, closesocket client_socket w) else (pos 0, w)

  unfoldable pub accept_client : ℤ → World → ℤ × World
  unfolding set_client_socket_nonblocking
  accept_client server_socket w =
      let (new_client, w) = accept server_socket w in
      let (err, w) = set_client_socket_nonblocking new_client w in
      if err ==ℤ pos 0 then (new_client, w) else (err, w)

  -- One result of `recv` in the loop of `read_async`; `again` is the rest of the loop.
  pub take_recv :
      (ℕ → Bytes → World → Option (ℤ × Bytes × World))
      → ℕ
      → ℕ
      → Bytes
      → Recv × World
      → Option (ℤ × Bytes × World)
  take_recv again buffer_len total_read buffer (received [], w) = some (socket_error, buffer, w)
  take_recv again buffer_len total_read buffer (received (b ∷ bs), w) =
      let total = total_read + length (b ∷ bs) in
      let buffer' = write_at total_read (b ∷ bs) buffer in
      let rest = again total buffer' w in
      if total == buffer_len then some (pos total, buffer', w) else rest
  take_recv again buffer_len total_read buffer (failed code, w) =
      if no_more_data code then some (pos total_read, buffer, w) else some (socket_error, buffer, w)

  -- The loop of `read_async` on fuel; `none` means that the fuel ran out.
  pub read_loop : ℕ → ℤ → ℕ → ℕ → Bytes → World → Option (ℤ × Bytes × World)
  unfolding take_recv
  read_loop zero client_socket buffer_len total_read buffer w = none
  read_loop (suc fuel) client_socket buffer_len total_read buffer w =
      take_recv (read_loop fuel client_socket buffer_len) buffer_len total_read buffer
        (recv client_socket (buffer_len - total_read) w)

  -- Each round but the last reads a byte or more, so `buffer_len` rounds are enough.
  unfoldable pub read_async : ℤ → Bytes → ℕ → World → Option (ℤ × Bytes × World)
  unfolding read_loop
  read_async client_socket buffer buffer_len w =
      read_loop buffer_len client_socket buffer_len 0 buffer w

  unfoldable pub send_to_client : ℤ → Bytes → World → ℤ × World
  send_to_client client_socket buffer w =
      let (bytes_sent, w) = send client_socket buffer w in
      if not (bytes_sent ==ℤ pos (length buffer)) then (socket_error, w) else (bytes_sent, w)
