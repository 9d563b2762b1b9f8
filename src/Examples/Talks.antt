-- ===== src/Examples/Talks.antt =====
-- Node 6 writes to node 5 through the router, and node 5 answers.
use isc_challenge_without_bo.Prelude.{
  ◌≡◌, refl, sym, append-nil, false, [], ℤ, pos, ◌==ℤ◌, replicate, arith,
}
use isc_challenge_without_bo.Text.{Bytes, c_string}
use isc_challenge_without_bo.Text.Stoi.{stoi}
use isc_challenge_without_bo.Text.Decimal.{set_width, decimal, digits}
use isc_challenge_without_bo.IntMap.{lookup}
use isc_challenge_without_bo.Node.Message.{first_trace, first_pan, build_first_message}
use isc_challenge_without_bo.Node.Message.Layout.{layout}
use isc_challenge_without_bo.Node.Message.Reply.{process_message-layout}
use isc_challenge_without_bo.Router.Message.{extract_dst_id}
use isc_challenge_without_bo.Router.Session.{get_socket}
use isc_challenge_without_bo.Router.Sessions.{find_session_by_id, find_session_by_socket}
use isc_challenge_without_bo.Router.SignalingQueue.{push, pop}
use isc_challenge_without_bo.Router.TcpServer.{read_async, send_to_client}
use isc_challenge_without_bo.Router.State.{State, Run}
use isc_challenge_without_bo.Router.Workers.{process_message, forward, do_writes}
use isc_challenge_without_bo.Router.System.{test, worker_thread_write_handler}
use isc_challenge_without_bo.Router.System.Replies.{Relay, Talk, opens, answers, Talk-sends}
use isc_challenge_without_bo.Examples.{
  Net, example_os, example_Delivers, bringing, with_tables, two_nodes, two_nodes-Reachable,
  state_after, result_of,
}

abbrev buffer : Bytes
buffer = replicate 40 0

abbrev request : Bytes
request = layout 6 2200 first_trace first_pan 5

abbrev reply : Bytes
reply = layout 5 2210 first_trace first_pan 6

abbrev asked : State Net
asked = with_tables two_nodes (bringing request)

-- After a reader has read what the connection brings, and after a writer.
abbrev read_from : ℤ → State Net → Run Net (ℤ × Bytes)
read_from socket st = process_message example_os socket buffer st

abbrev routed : ℤ → State Net → State Net
routed socket st = state_after (read_from socket st) st

abbrev handed : ℤ → State Net → State Net
handed socket st =
    state_after (worker_thread_write_handler example_os false (routed socket st)) (routed socket st)

abbrev left_in : ℤ → State Net → Bytes
left_in socket st = (result_of (read_from socket st) (pos 0, buffer)).1

-- Node 5 has answered.
abbrev answered : State Net
answered = record (handed (pos 11) asked) { world = bringing reply }

request_relay : Relay example_Delivers (pos 11) request asked (handed (pos 11) asked)
unfolding process_message read_async set_width decimal digits find_session_by_id lookup ◌==ℤ◌
    get_socket extract_dst_id c_string stoi forward push worker_thread_write_handler test pop
    do_writes find_session_by_socket send_to_client
request_relay = record {
  buffer = buffer;
  buffer' = left_in (pos 11) asked;
  rest = [];
  between = routed (pos 11) asked;
  room = omega arith;
  arrives = sym (append-nil request);
  read = refl;
  whole = λ s. refl;
  wrote = refl;
}

reply_relay : Relay example_Delivers (pos 10) reply answered (handed (pos 10) answered)
unfolding process_message read_async set_width decimal digits find_session_by_id lookup ◌==ℤ◌
    get_socket extract_dst_id c_string stoi forward push worker_thread_write_handler test pop
    do_writes find_session_by_socket send_to_client
reply_relay = record {
  buffer = buffer;
  buffer' = left_in (pos 10) answered;
  rest = [];
  between = routed (pos 10) answered;
  room = omega arith;
  arrives = sym (append-nil reply);
  read = refl;
  whole = λ s. refl;
  wrote = refl;
}

-- Node 5 is about to be answered.
talk : Talk example_Delivers asked 5 0 6 1 reply (handed (pos 11) asked)
unfolding find_session_by_id lookup ◌==ℤ◌ get_socket build_first_message set_width decimal digits
talk =
    answers (bringing request) reply (opens (omega arith, refl) (omega arith, refl)) request_relay (
      process_message-layout (pos 5) 6 2200 5 first_trace first_pan (omega arith) (omega arith)
        (omega arith) refl refl)

Talk-sends_example :
    ((handed (pos 10) answered).world
      ≡ (example_os.send (pos 11) reply (routed (pos 10) answered).world).1)
    × ((handed (pos 10) answered).sessions ≡ two_nodes)
    × ((handed (pos 10) answered).ready_write_sockets_queue_.m_queue ≡ [])
unfolding get_socket reply_relay
Talk-sends_example =
    Talk-sends example_Delivers asked two_nodes-Reachable refl talk (bringing reply) reply_relay
