-- ===== src/Lib.antt =====
-- The message routing system: a router that accepts nodes and forwards their messages of 32 bytes,
-- and the node that answers them.
--
-- The program and its parts. A node (node/) connects to the router, sends its id in 3 bytes, sends
-- a first message, and then answers each message that is for it. The router (router/) has one
-- event loop and two kinds of worker threads. The loop waits in `select`, accepts connections and
-- pushes the sockets that are ready to a queue; a reader pops a socket and reads the id or the
-- messages that have arrived, and pushes each message with the socket of its destination to a
-- second queue; a writer pops from there and sends. The session tables, which all of them share,
-- lead from sockets and from ids to sessions.
--
-- The files.
--   Prelude: names of the libraries, Boolean tests, lists and integers over the native numbers.
--   Text: C strings, `std::stoi` and `ostringstream` with `setw` and `setfill`, as far as the program
--     uses them. A byte is a number, and a text is a list of bytes.
--   IntMap: `std::unordered_map<int, V>`.
--   Winsock: the socket calls, a parameter of everything that uses them, and what is documented
--     of `recv` and `send` on a connection, of `FD_SET` and of `select`.
--   Logger: router/include/logger.h, and node/include/logger.h, which is the same text, over a parameter for
--     spdlog. `Initialize` is `initialize`; a macro is `log_console` or `log_file` with its level, and
--     follows a null pointer where the registry has no logger.
--   Node/Message: node/include/message.h. `processMessage` is `process_message`, `buildFirstMessage` is
--     `build_first_message`, `buildIdMessage` is `build_id_message`.
--   Node/TcpSocket: node/src/tcp_socket.cpp. `recvMessage` is `recv_message`, and so on.
--   Node/Client: node/src/node.cpp. `start` makes a number of passes of its outer loop, each a
--     `start_pass`, with `receive_loop` and `receive_round` for the inner one.
--   Node/Main: node/main.cpp.
--   Router/Message: router/include/message.h.
--   Router/SignalingQueue: router/include/signaling_queue.h. The actions that the threads perform on the queue
--     under its mutex, and schedules of them.
--   Router/Session, Router/Sessions: router/include/session.h and router/src/sessions.cpp. Sessions stand in
--     a store, and a `shared_ptr<Session>` is a position in it, since both tables share a session.
--     `sessions_mutex_` is the field `locked`; an operation that locks it while it is held never
--     returns, and has the result `none`.
--     Router/Sessions/Directory is a specification of the tables, and Router/Sessions/Refinement compares
--     the two.
--   Router/TcpServer: router/src/tcpserver.cpp. `reset_fd_set` is in Router/Listener.
--   Router/State, Router/Workers, Router/Listener: router/src/router.cpp. `do_reads`, `process_message`,
--     `handle_handshake`, `forward` and `do_writes` are commands on the shared state, and so is a round
--     of `start_event_listener`, `listen_round`.
--   Router/System: the passes of the threads' loops, router/src/router.cpp, in any order.
--   Router/Locks: the mutexes of the sessions, router/include/session.h: `do_reads` and `do_writes` cut into the
--     moves between which another thread may run, and all orders of the moves of any number of workers; in
--     Router/Locks/Sockets the event loop accepts connections between them.
--   Router/Start, Router/Main: `Router::start` of router/src/router.cpp, and router/main.cpp. The threads are a
--     list, whose destruction is the end of the scope of `threads`.
--   Examples: a small system and a small history on which the theorems are applied.
--
-- Bounds and fuel. Numbers that the program computes are far below 2 ^ 31: lengths of at most 3200,
-- ids and types of at most four digits; `stoi` has the bounds of `int`. `read_loop` has as much fuel as the
-- buffer has bytes, since each round but the last takes a byte. `read_rounds` and `receive_loop` have fuel
-- for more rounds than the connection will bring bytes, for the same reason. What a connection will bring is
-- `incoming` of `Delivers`, a finite list.
--
-- The loop of the event listener and the outer loop of a node have no end: `start_event_listener` and
-- `start` of the node are their first rounds, as many as are asked for.
--
-- What is not modelled. Log lines, but for those of the two `main`, and pauses. The Linux branches: the
-- sources are for Windows, where `fd_array` is. Threads: in Router/System a handler runs as a
-- whole, between two of them the others may run, and in Router/Locks a round of `do_reads` and a `send` do; the
-- mutex of `Sessions` is held in one operation at a time. What an exception that no handler of a thread catches
-- does to the other threads.
pub mod Prelude
pub mod Text
pub mod Logger
pub mod IntMap
pub mod Winsock
pub mod Node
pub mod Router
pub mod Examples
