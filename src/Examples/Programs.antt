-- ===== src/Examples/Programs.antt =====
-- The two programs, run for a round.
use isc_challenge_without_bo.Prelude.{
  ap, length, ◌<◌, ℕ, ◌≡◌, refl, [], ◌∷◌, List, Exception, ℤ, pos, ◌==ℤ◌, length-replicate,
  replicate, true, false, ok, throw, ◌≢◌, arith,
}
use isc_challenge_without_bo.Text.{Bytes, codes}
use isc_challenge_without_bo.Text.Stoi.{stoi}
use isc_challenge_without_bo.IntMap.{lookup}
use isc_challenge_without_bo.Router.Sessions.{find_session_by_socket}
use isc_challenge_without_bo.Router.TcpServer
use isc_challenge_without_bo.Router.State.{initial, done}
use isc_challenge_without_bo.Router.Listener.{listen_round}
use mathlib.Core.Path.{subst}
use mathlib.Core.Option.{some, none}
use isc_challenge_without_bo.Router.Start.{start}
use isc_challenge_without_bo.Router.Start.Listening.{Starts, AllFresh, start-Starts}
use isc_challenge_without_bo.Router.Main.{main, crashed}
use isc_challenge_without_bo.Router.Main.Ends.{Ends, main-Ends, main-null}
use isc_challenge_without_bo.Text.Decimal.{set_width, decimal, digits}
use isc_challenge_without_bo.Node.Message.{build_id_message, build_first_message}
use isc_challenge_without_bo.Node.TcpSocket
use isc_challenge_without_bo.Node.TcpSocket.{TcpSocket, buffer_size, connect_to_server}
use isc_challenge_without_bo.Node.Client
use isc_challenge_without_bo.Node.Client.{Node}
use isc_challenge_without_bo.Node.Client.Passes
use isc_challenge_without_bo.Node.Client.Passes.Endless.{Going, Enough, start-Going}
use isc_challenge_without_bo.Node.Main
use isc_challenge_without_bo.Node.Main.{new_node}
use isc_challenge_without_bo.Node.Main.Outcomes.{Outcome, main-Outcome}
use isc_challenge_without_bo.Examples.{Net, example_os, example_Delivers, bringing}
use isc_challenge_without_bo.Examples.Logs.{
  example_spdlog, example_Registers, fresh, read_only, unregistered,
}

-- No event, and no client.
abbrev server : ℤ → ℤ × Net
server port = TcpServer.start_tcp_server example_os port (bringing [])

quiet_round :
    (port : ℤ)
    → listen_round example_os (server port).0 (initial (server port).1)
      ≡ done tt (initial (server port).1)
unfolding listen_round initial TcpServer.start_tcp_server ◌==ℤ◌
quiet_round port = refl

quiet : (port : ℤ) → AllFresh example_Delivers 2 (server port).0 (initial (server port).1)
unfolding find_session_by_socket initial lookup
quiet port = (
  (λ _. refl),
  (λ st' e.
      let same : initial (server port).1 ≡ st' = cc (quiet_round port, e) in
      (
        (λ _.
            subst
              (λ st.
                find_session_by_socket
                  (TcpServer.accept_client example_os (server port).0 st.world).0 st.sessions
                ≡ some none)
              same refl),
        (λ st'' e'. tt),
      )),
)

start-Starts_example :
    Starts example_Delivers 4
      (pos 5000)
      2
      (bringing [])
      (start example_os 4 (pos 5000) 2 (bringing []))
start-Starts_example =
    start-Starts example_Delivers 4 (pos 5000) 2 (bringing []) (omega arith) (quiet (pos 5000))

abbrev command_line : List Bytes
command_line = codes "ISC-Router.exe" ∷ codes "5000" ∷ []

main-Ends_example :
    Ends example_Delivers example_Registers 2
      (bringing [])
      command_line
      (main example_os example_spdlog 2 command_line (bringing []) fresh)
main-Ends_example =
    main-Ends example_Delivers example_Registers 2 (bringing []) fresh
      (unregistered (codes "console")).0 (unregistered (codes "file")).0 false true refl refl quiet
      command_line

readable_port : stoi (codes "5000") ≡ ok (pos 5000)
unfolding stoi
readable_port = refl

readable :
    (program port : Bytes) (x : Exception)
    → command_line ≡ program ∷ port ∷ []
    → stoi port ≢ throw x
readable program port x e h =
    let same : codes "5000" ≡ port = cc (e) in absurd (cc (readable_port, same, h))

main-null_example : main example_os example_spdlog 1 command_line (bringing []) read_only ≡ crashed
main-null_example =
    main-null example_Delivers example_Registers 1 (bringing []) read_only
      (unregistered (codes "console")).1 (unregistered (codes "file")).1 false refl refl
      command_line readable

abbrev whole_buffer : Bytes
whole_buffer = replicate buffer_size 0

abbrev what : Exception → Bytes
what x = codes "stoi"

abbrev node_command_line : List Bytes
node_command_line =
    codes "ISC-Node.exe" ∷ codes "5" ∷ codes "6" ∷ codes "127.0.0.1" ∷ codes "5000" ∷ []

-- A router that sends nothing.
one_pass :
    (n : Main.Numbers) (router_ip : Bytes)
    → Enough example_Delivers
        (new_node n.id n.dstid true router_ip n.router_port whole_buffer (pos 0) (bringing [])).0
        1
        1
        (new_node n.id n.dstid true router_ip n.router_port whole_buffer (pos 0) (bringing [])).1
unfolding new_node connect_to_server ◌==ℤ◌
one_pass n router_ip = (omega arith, λ code st e. tt)

main-Outcome_example :
    Outcome example_Delivers example_Registers what whole_buffer
      (pos 0)
      1
      1
      (bringing [])
      node_command_line
      (Main.main example_os example_spdlog what whole_buffer
        (pos 0)
        1
        1
        node_command_line
        (bringing [])
        fresh)
main-Outcome_example =
    main-Outcome example_Delivers example_Registers what whole_buffer (pos 0) 1 1 (bringing [])
      fresh (unregistered (codes "console")).0 (unregistered (codes "file")).0 false true refl refl
      (length-replicate {A = ℕ} buffer_size 0) one_pass node_command_line

abbrev tcp_socket : TcpSocket Net
tcp_socket = record {
  buffer = whole_buffer;
  server_ip = codes "127.0.0.1";
  server_port = pos 5000;
  socket = pos 0;
  world = bringing [];
}

abbrev node : Node
node = record { id = pos 5; dst_id = pos 6; initiate_messaging = true }

-- The socket behind a pass.
abbrev left : Client.Pass Net → TcpSocket Net
left (Client.returned err st) = st
left (Client.thrown e st) = st
left Client.out_of_fuel = tcp_socket

abbrev second : TcpSocket Net
second = left (Client.start_pass example_os node 1 tcp_socket)

second-stream :
    example_Delivers.incoming
      (Passes.connected example_Delivers node second).world
      (Passes.connected example_Delivers node second).socket
    ≡ []
unfolding Client.start_pass ◌==ℤ◌ connect_to_server Client.send_message TcpSocket.send_message
    build_id_message set_width decimal digits build_first_message Client.receive_round
    TcpSocket.recv_message
second-stream = refl

start-Going_example :
    Going example_Delivers node 1 2 tcp_socket (Client.start example_os node 2 1 tcp_socket)
unfolding connect_to_server ◌==ℤ◌
start-Going_example =
    start-Going example_Delivers node 2 1 tcp_socket (length-replicate {A = ℕ} buffer_size 0) (
      omega arith,
      λ code st e. (
        let same : second ≡ st = ap left e in
            subst
              (λ st.
                length (
                  example_Delivers.incoming (Passes.connected example_Delivers node st).world
                    (Passes.connected example_Delivers node st).socket)
                < 1)
              same (omega (arith, ap length second-stream)),
        λ code' st' e'. tt,
      ),
    )
