-- ===== src/Examples/Nodes.antt =====
-- The theorems on the node, applied.
use isc_challenge_without_bo.Prelude.{
  ℕ, ◌≡◌, ◌≢◌, refl, sym, append-nil, [], ok, true, ℤ, pos, ◌==ℤ◌, length, replicate,
  length-replicate, arith,
}
use isc_challenge_without_bo.Text.{Bytes}
use isc_challenge_without_bo.Text.Decimal.{set_width, decimal, digits}
use isc_challenge_without_bo.Node.Message.{process_message, first_trace, first_pan}
use isc_challenge_without_bo.Node.Message.Layout.{layout, length-layout}
use isc_challenge_without_bo.Node.Message.Reply.{process_message-layout}
use isc_challenge_without_bo.Node.TcpSocket.{
  TcpSocket, connect_to_server, recv_message, buffer_size, error,
}
use isc_challenge_without_bo.Node.TcpSocket.Receiving.{Received, recv_message-Received}
use isc_challenge_without_bo.Node.Client.{Node, returned, send_message, receive_round, start_pass}
use isc_challenge_without_bo.Node.Client.Retries.{Refused}
use isc_challenge_without_bo.Node.Client.Rounds.{Round, receive_round-Round}
use isc_challenge_without_bo.Node.Client.Rounds.Replies.{
  receive_round-replies, receive_round-abandons,
}
use isc_challenge_without_bo.Node.Client.Passes.{Passed, start_pass-Passed}
use isc_challenge_without_bo.Examples.{Net, example_os, example_Delivers, bringing}

abbrev request : Bytes
request = layout 6 2200 first_trace first_pan 5

abbrev zeros : Bytes
zeros = replicate buffer_size 0

abbrev tcp_socket : TcpSocket Net
tcp_socket = record {
  buffer = zeros;
  server_ip = [];
  server_port = pos 4000;
  socket = pos 3;
  world = bringing request;
}

abbrev node_of : ℤ → Node
node_of id = record { id = id; dst_id = pos 6; initiate_messaging = true }

zeros_fill : length zeros ≡ buffer_size
zeros_fill = length-replicate {A = ℕ} buffer_size 0

process_message-layout_example :
    process_message (pos 5) request (pos 32) ≡ ok (layout 5 2210 first_trace first_pan 6)
unfolding ◌==ℤ◌
process_message-layout_example =
    process_message-layout (pos 5) 6 2200 5 first_trace first_pan (omega arith) (omega arith)
      (omega arith) refl refl

recv_message-Received_example :
    Received example_Delivers tcp_socket 9000 (recv_message example_os 9000 tcp_socket)
recv_message-Received_example = recv_message-Received example_Delivers tcp_socket 9000 zeros_fill

receive_round-Round_example :
    Round example_Delivers
      (node_of (pos 5))
      tcp_socket
      (receive_round example_os (node_of (pos 5)) tcp_socket)
receive_round-Round_example =
    receive_round-Round example_Delivers (node_of (pos 5)) tcp_socket zeros_fill

receive_round-replies_example :
    (receive_round example_os (node_of (pos 5)) tcp_socket ≡ (
      let out =
        send_message example_os
          (layout 5 2210 first_trace first_pan 6)
          (recv_message example_os 32 tcp_socket).2 in
      returned out.0 out.1))
    × ((recv_message example_os 32 tcp_socket).2.world.stream (pos 3) ≡ [])
unfolding set_width decimal digits ◌==ℤ◌ recv_message
receive_round-replies_example =
    receive_round-replies example_Delivers (node_of (pos 5)) tcp_socket 6 2200 5 first_trace
      first_pan [] (omega arith) (omega arith) (omega arith) refl refl zeros_fill
      (sym (append-nil request)) refl

start_pass-Passed_example :
    Passed example_Delivers
      (node_of (pos 5))
      tcp_socket
      (start_pass example_os (node_of (pos 5)) 40 tcp_socket)
unfolding connect_to_server ◌==ℤ◌
start_pass-Passed_example =
    start_pass-Passed example_Delivers (node_of (pos 5)) 40 tcp_socket zeros_fill (
      omega (
        arith,
        length-layout 6 2200 5 first_trace first_pan (omega arith) (omega arith) (omega arith) refl
            refl,
      ))

-- The message is not for node 7.
five_is_not_seven : pos 5 ≢ pos 7
five_is_not_seven h = cc (h)

receive_round-abandons_example :
    (st' : TcpSocket Net) × (receive_round example_os (node_of (pos 7)) tcp_socket
      ≡ returned error st')
    × Refused example_os [] 3 (recv_message example_os 32 tcp_socket).2 st'
unfolding set_width decimal digits ◌==ℤ◌ recv_message
receive_round-abandons_example =
    receive_round-abandons example_Delivers (node_of (pos 7)) tcp_socket 6 2200 5 first_trace
      first_pan [] (omega arith) (omega arith) (omega arith) refl refl zeros_fill
      (sym (append-nil request)) refl five_is_not_seven (λ s w. refl)
