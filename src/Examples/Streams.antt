-- ===== src/Examples/Streams.antt =====
-- A system that hands out a stream byte by byte, beside the one that hands out all there is.
use isc_challenge_without_bo.Prelude.{
  ℕ, zero, suc, ◌≤◌, ◌≡◌, refl, [], ◌∷◌, Option, none, some, ℤ, pos, ◌==ℤ◌, replicate, arith,
}
use isc_challenge_without_bo.Text.{Bytes}
use isc_challenge_without_bo.Winsock.{Os, Delivers}
use isc_challenge_without_bo.Router.TcpServer.{read_async}
use isc_challenge_without_bo.Router.TcpServer.Fragments.{read_async-same}
use isc_challenge_without_bo.Examples.{
  Net, example_os, example_Delivers, receive, receive_received, receive_failed, bringing,
}

abbrev one_of : ℕ → ℕ
one_of zero = 0
one_of (suc n) = 1

one_of-le : (n : ℕ) → one_of n ≤ n
one_of-le zero = omega arith
one_of-le (suc n) = omega arith

abbrev slow_os : Os
slow_os = record example_os { recv = λ s n w. receive (w.stream s) s (one_of n) w }

abbrev slow_Delivers : Delivers slow_os
slow_Delivers = record {
  incoming = λ w s. w.stream s;
  recv_received = λ s n w w' bs e.
      let (short, taken) = receive_received (w.stream s) s (one_of n) w w' bs refl e in
      (omega (arith, one_of-le n), taken);
  recv_failed = λ s n w w' code e. receive_failed (w.stream s) s (one_of n) w w' code e;
  send_keeps = λ s bs w. refl;
}

abbrev pieces : Bytes
pieces = 49 ∷ 50 ∷ 51 ∷ 52 ∷ []

abbrev buffer : Bytes
buffer = replicate 4 0

-- 3 bytes of the 4
abbrev first_three : Bytes
first_three = 49 ∷ 50 ∷ 51 ∷ 0 ∷ []

abbrev left_by : Option (ℤ × Bytes × Net) → Net
left_by none = bringing []
left_by (some (n, b, w)) = w

abbrev slowly : Net
slowly = left_by (read_async slow_os (pos 10) buffer 3 (bringing pieces))

abbrev at_once : Net
at_once = left_by (read_async example_os (pos 11) buffer 3 (bringing pieces))

read_async-same_example :
    (first_three ≡ first_three) × (slowly.stream (pos 10) ≡ at_once.stream (pos 11))
unfolding read_async ◌==ℤ◌
read_async-same_example =
    read_async-same slow_Delivers example_Delivers (pos 10) (pos 11) 3 3 buffer first_three
      first_three (bringing pieces) slowly (bringing pieces) at_once (omega arith) refl refl refl
