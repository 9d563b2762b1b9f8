-- ===== src/Winsock.antt =====
-- The socket calls of the operating system, which the program is linked with: a parameter of the
-- models. An `Os` has a state of its own, and every call is a function of it. The calls are those of the
-- Windows build, the one that the sources are written for: `fd_array` and `SOCKET_ERROR` are its names.
use isc_challenge_without_bo.Prelude.{
  ℕ, ◌≤◌, ◌≡◌, false, List, [], ◌∷◌, ◌++◌, Option, some, ℤ, negsuc, length, ltb, contains,
  if◌then◌else◌,
}
use isc_challenge_without_bo.Text.{Bytes}

-- `SOCKET_ERROR`
abbrev pub socket_error : ℤ
socket_error = negsuc 0

-- `WSAEWOULDBLOCK`
abbrev pub would_block : ℕ
would_block = 10035

-- What `recv` returns: the bytes that it wrote, none if the peer has closed the connection, or
-- `SOCKET_ERROR` with what `WSAGetLastError` returns then.
pub data Recv : Type 0 where
  received : Bytes → Recv
  failed : ℕ → Recv

pub record Os : Type 1 where
  pub World : Type 0
  pub startup : World → ℤ × World
  pub socket : World → ℤ × World
  pub bind : ℤ → Bytes → ℤ → World → ℤ × World
  pub listen : ℤ → World → World
  pub connect : ℤ → Bytes → ℤ → World → ℤ × World
  pub accept : ℤ → World → ℤ × World
  pub ioctlsocket : ℤ → World → ℤ × World
  pub closesocket : ℤ → World → World
  pub cleanup : World → World
  pub recv : ℤ → ℕ → World → Recv × World
  pub send : ℤ → Bytes → World → ℤ × World
  -- the macro `FD_SET`, on the `fd_array` of a set
  pub fd_set : ℤ → List ℤ → List ℤ
  -- the sockets of a set that are ready, or `none` for `SOCKET_ERROR`
  pub select : List ℤ → World → Option (List ℤ) × World

-- What is documented of `recv` on a stream: it writes no more bytes than it is asked for, and these
-- are the next ones of the connection; a call that fails, and a `send`, takes none.
pub record Delivers (os : Os) : Type 0 where
  pub incoming : os.World → ℤ → Bytes
  pub recv_received :
      (s : ℤ) (n : ℕ) (w w' : os.World) (bs : Bytes)
      → os.recv s n w ≡ (received bs, w')
      → (length bs ≤ n) × (incoming w s ≡ bs ++ incoming w' s)
  pub recv_failed :
      (s : ℤ) (n : ℕ) (w w' : os.World) (code : ℕ)
      → os.recv s n w ≡ (failed code, w')
      → incoming w' s ≡ incoming w s
  pub send_keeps :
      (s : ℤ) (bs : Bytes) (w : os.World) → incoming (os.send s bs w).1 s ≡ incoming w s

-- `FD_SETSIZE` of the Windows headers, which nothing in the sources changes.
abbrev pub fd_setsize : ℕ
fd_setsize = 64

-- What is documented of sets on Windows: `FD_SET` appends a socket that is not in the set, while
-- there is room; what `select` leaves in a set was in it.
pub record Selects (os : Os) : Type 0 where
  pub fd_set_appends :
      (k : ℤ) (set : List ℤ)
      → os.fd_set k set ≡ (
          if contains k set
          then set
          else if ltb (length set) fd_setsize
          then set ++ k ∷ []
          else set)
  pub select_keeps :
      (set ready : List ℤ) (w : os.World)
      → (os.select set w).0 ≡ some ready
      → (k : ℤ) → contains k set ≡ false
      → contains k ready ≡ false
