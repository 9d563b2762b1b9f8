-- ===== src/Examples/Handlers.antt =====
-- The theorems on the handlers of the router, applied.
use isc_challenge_without_bo.Prelude.{
  false, ◌≡◌, refl, sym, append-nil, [], ◌∷◌, ◌++◌, some, ok, ℤ, pos, ◌==ℤ◌, length, replicate,
  arith,
}
use isc_challenge_without_bo.Text.{Bytes, c_string}
use isc_challenge_without_bo.Text.Stoi.{stoi}
use isc_challenge_without_bo.Text.Decimal.{set_width, decimal, digits}
use isc_challenge_without_bo.IntMap.{lookup}
use isc_challenge_without_bo.Node.Message.{build_id_message, first_trace, first_pan}
use isc_challenge_without_bo.Node.Message.Layout.{layout, length-layout}
use isc_challenge_without_bo.Router.Message.{extract_src_id, extract_dst_id}
use isc_challenge_without_bo.Router.Message.Wire.{IsId, extract_dst_id-layout, extract_ids-IsId}
use isc_challenge_without_bo.Router.Session.{get_id, get_socket}
use isc_challenge_without_bo.Router.Sessions.{find_session_by_socket, find_session_by_id, add_node}
use isc_challenge_without_bo.Router.Sessions.Reachable.{Allowed, adds}
use isc_challenge_without_bo.Router.SignalingQueue.{push}
use isc_challenge_without_bo.Router.TcpServer.{read_async}
use isc_challenge_without_bo.Router.TcpServer.Reading.{Read, read_async-Read}
use isc_challenge_without_bo.Router.State.{State, done}
use isc_challenge_without_bo.Router.Workers.{
  process_message, handle_handshake, do_reads, do_writes, forward,
}
use isc_challenge_without_bo.Router.System.{worker_thread_write_handler}
use isc_challenge_without_bo.Router.System.Routing.{Handed, process_message-routes}
use isc_challenge_without_bo.Router.Workers.Reads
use isc_challenge_without_bo.Router.Workers.Reads.{do_reads-Served}
use isc_challenge_without_bo.Router.Workers.Writes
use isc_challenge_without_bo.Router.Workers.Writes.{do_writes-Written}
use isc_challenge_without_bo.Router.Workers.Delivery.{handle_handshake-registers}
use isc_challenge_without_bo.Examples.{
  Net, example_os, example_Delivers, bringing, with_tables, one_and_new, one_and_new-Reachable,
  two_nodes, two_nodes-Reachable, anonymous, state_after, result_of,
}

abbrev request : Bytes
request = layout 6 2200 first_trace first_pan 5

abbrev buffer : Bytes
buffer = replicate 40 0

-- Node 6 has sent its request.
abbrev asked : State Net
asked = with_tables two_nodes (bringing request)

-- The node on socket 11 has sent its id.
abbrev greeted : State Net
greeted = with_tables one_and_new (bringing (build_id_message (pos 6)))

length-request : length request ≡ 32
length-request =
    length-layout 6 2200 5 first_trace first_pan (omega arith) (omega arith) (omega arith) refl refl

extract_dst_id-layout_example : extract_dst_id (request ++ 0 ∷ []) (pos 32) ≡ ok (pos 5)
extract_dst_id-layout_example =
    extract_dst_id-layout 6 2200 5 first_trace first_pan [] (omega arith) (omega arith)
      (omega arith) refl refl

extract_ids-IsId_example :
    IsId (extract_src_id ((45 ∷ 57 ∷ 57 ∷ []) ++ 0 ∷ []) (pos 3))
    × IsId (extract_dst_id (replicate 29 49 ++ ((120 ∷ 32 ∷ 57 ∷ []) ++ 0 ∷ [])) (pos 3))
extract_ids-IsId_example =
    extract_ids-IsId (45 ∷ 57 ∷ 57 ∷ []) (replicate 29 49) (120 ∷ 32 ∷ 57 ∷ []) [] (pos 3) refl refl
      refl

read_async-Read_example :
    (out : ℤ × Bytes × Net) × (read_async example_os (pos 11) buffer 32 (bringing request)
      ≡ some out)
    × Read example_Delivers (pos 11) 32 buffer (bringing request) out
read_async-Read_example =
    read_async-Read example_Delivers (pos 11) 32 buffer (bringing request) (omega arith)

eleven_is_anonymous : (id : ℤ) → Allowed greeted.sessions (adds (pos 11) id)
unfolding lookup ◌==ℤ◌ get_id
eleven_is_anonymous id r = anonymous one_and_new r 1 refl

do_reads-Served_example :
    Reads.Ends example_Delivers (pos 11) buffer asked (do_reads example_os 40 (pos 11) buffer asked)
do_reads-Served_example =
    do_reads-Served example_Delivers (pos 11) buffer asked 40 two_nodes-Reachable (omega arith)
      (omega (arith, length-request))

do_writes-Written_example :
    Writes.Ends example_os (pos 10) request asked (do_writes example_os (pos 10, request) asked)
do_writes-Written_example = do_writes-Written example_os (pos 10) request asked two_nodes-Reachable

abbrev routed : State Net
routed = state_after (process_message example_os (pos 11) buffer asked) asked

abbrev routed_buffer : Bytes
routed_buffer = (result_of (process_message example_os (pos 11) buffer asked) (pos 0, buffer)).1

process_message-routes_example :
    (st' : State Net) × (worker_thread_write_handler example_os false routed ≡ done tt st')
    × Handed example_os routed (pos 10) request [] st'
unfolding process_message read_async set_width decimal digits find_session_by_id lookup ◌==ℤ◌
    get_socket extract_dst_id c_string stoi forward push
process_message-routes_example =
    process_message-routes example_Delivers (pos 11) buffer asked 6 2200 5 0 first_trace first_pan
      [] routed_buffer routed (omega arith) (omega arith) (omega arith) refl refl
      two_nodes-Reachable (omega arith) (sym (append-nil request)) refl refl refl

-- The state in which the request waits.
abbrev forwarded : State Net
forwarded = record asked {
  ready_write_sockets_queue_ = record { m_queue = (pos 10, request) ∷ []; sleepers = 0; woken = 0 };
}

abbrev registered : State Net
registered = state_after (handle_handshake example_os (pos 11) buffer greeted) greeted

abbrev registered_buffer : Bytes
registered_buffer =
    (result_of (handle_handshake example_os (pos 11) buffer greeted) (pos 0, buffer)).1

handle_handshake-registers_example :
    (find_session_by_id (pos 6) registered.sessions ≡ some (some 1))
    × (registered.world.stream (pos 11) ≡ [])
unfolding handle_handshake build_id_message read_async set_width decimal digits
    find_session_by_socket lookup ◌==ℤ◌ get_id extract_src_id c_string stoi add_node
handle_handshake-registers_example =
    handle_handshake-registers example_Delivers (pos 11) buffer greeted 6 1 [] registered_buffer
      registered (omega arith) one_and_new-Reachable (omega arith)
      (sym (append-nil (build_id_message (pos 6)))) refl refl refl
