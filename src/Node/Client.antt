-- ===== src/Node/Client.antt =====
-- The class `Node` of node/include/node.h and node/src/node.cpp. Its `TCPSocket` is the state. Log lines
-- and the pause before the next attempt to connect are left out.
pub mod Retries
pub mod Rounds
pub mod Passes
use isc_challenge_without_bo.Prelude.{
  ℕ, zero, suc, Bool, Exception, Result, ok, throw, ℤ, pos, ◌==ℤ◌, lt_pos, if◌then◌else◌,
}
use isc_challenge_without_bo.Text.{Bytes}
use isc_challenge_without_bo.Winsock.{Os}
use isc_challenge_without_bo.Node.Message.{process_message, build_first_message, build_id_message}
use isc_challenge_without_bo.Node.TcpSocket
use isc_challenge_without_bo.Node.TcpSocket.{
  TcpSocket, connect_to_server, recv_message, close_socket, no_err, error,
}

abbrev pub max_retry : ℕ
max_retry = 3

abbrev pub message_length : ℕ
message_length = 32

pub record Node : Type 0 where
  pub id : ℤ
  pub dst_id : ℤ
  pub initiate_messaging : Bool

-- How a stretch of `start` ends: with an error code, by an exception, or for want of fuel.
pub data Pass (W : Type 0) : Type 0 where
  returned : ℤ → TcpSocket W → Pass W
  thrown : Exception → TcpSocket W → Pass W
  out_of_fuel : Pass W

module _ (os : Os) where
  open os use {World}

  -- The loop of `send_message` with `tries_left` attempts left.
  pub retry : Bytes → ℕ → ℤ → TcpSocket World → ℤ × TcpSocket World
  retry msg zero byte_send st = (byte_send, st)
  retry msg (suc tries_left) byte_send st =
      let (byte_send', st') = TcpSocket.send_message os msg st in
      let rest = retry msg tries_left byte_send' st' in
      if lt_pos byte_send 1 then rest else (byte_send, st)

  unfoldable pub send_message : Bytes → TcpSocket World → ℤ × TcpSocket World
  unfolding retry
  send_message msg st =
      let (byte_send, st') = retry msg max_retry (pos 0) st in
      if lt_pos byte_send 1 then (error, st') else (no_err, st')

  unfoldable pub close_connection : TcpSocket World → TcpSocket World
  close_connection = close_socket os

  module _ (node : Node) where
    unfoldable pub subscribe_to_router : TcpSocket World → ℤ × TcpSocket World
    subscribe_to_router = send_message (build_id_message node.id)

    unfoldable pub send_initiator_message : TcpSocket World → ℤ × TcpSocket World
    send_initiator_message st =
        if node.initiate_messaging
        then send_message (build_first_message node.id node.dst_id) st
        else (no_err, st)

    abbrev pub answer : TcpSocket World → Result Bytes → Pass World
    answer st (ok reply) = let (err, st') = send_message reply st in returned err st'
    answer st (throw e) = thrown e st

    -- The body of the inner loop of `start`.
    unfoldable pub receive_round : TcpSocket World → Pass World
    unfolding close_connection
    receive_round st =
        let (err, recv_bytes, st') = recv_message os message_length st in
        if err ==ℤ no_err
        then (if recv_bytes ==ℤ pos message_length
            then answer st' (process_message node.id st'.buffer recv_bytes)
            else returned no_err st')
        else returned err (close_connection st')

    abbrev pub proceed : (TcpSocket World → Pass World) → Pass World → Pass World
    proceed again (returned err st) = if err ==ℤ no_err then again st else returned err st
    proceed again p = p

    -- The inner loop on fuel.
    pub receive_loop : ℕ → TcpSocket World → Pass World
    receive_loop zero st = out_of_fuel
    receive_loop (suc fuel) st = proceed (receive_loop fuel) (receive_round st)

    -- One pass of the outer loop of `start`; whatever it returns, the next pass follows.
    unfoldable pub start_pass : ℕ → TcpSocket World → Pass World
    unfolding close_connection subscribe_to_router send_initiator_message receive_loop
    start_pass fuel st =
        let (errcode, connected) = connect_to_server os st in
        if errcode ==ℤ no_err
        then (let (err, subscribed) = subscribe_to_router connected in
            if err ==ℤ no_err
            then (let (err, initiated) = send_initiator_message subscribed in
                if err ==ℤ no_err
                then receive_loop fuel initiated
                else returned err (close_connection initiated))
            else returned err (close_connection subscribed))
        else returned errcode connected

    -- What follows a pass; `next` is the rest of the outer loop.
    abbrev pub follow : (TcpSocket World → Pass World) → Pass World → Pass World
    follow next (returned err st) = next st
    follow next (thrown e st) = thrown e st
    follow next out_of_fuel = out_of_fuel

    -- The first `passes` passes of the outer loop, which only an exception ends.
    unfoldable pub start : ℕ → ℕ → TcpSocket World → Pass World
    unfolding start_pass
    start zero fuel st = returned no_err st
    start (suc passes) fuel st = follow (start passes fuel) (start_pass fuel st)
