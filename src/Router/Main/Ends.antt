-- ===== src/Router/Main/Ends.antt =====
-- How the router's program ends.
use isc_challenge_without_bo.Prelude.{
  ℕ, ◌≡◌, ◌≢◌, refl, ap, List, [], ◌∷◌, Option, none, some, Exception, Result, ok, throw, ℤ, pos,
  length, arith,
}
use isc_challenge_without_bo.Text.{Bytes, codes}
use isc_challenge_without_bo.Text.Stoi.{stoi}
use isc_challenge_without_bo.Winsock.{Os, Delivers, socket_error}
use isc_challenge_without_bo.Logger.{
  Spdlog, Level, info, critical, initialize, console, file, console_logger, log_console,
  default_max_file_size, default_max_files,
}
use isc_challenge_without_bo.Logger.Registry.{
  Registers, console_made, file_made, initialize-console, log_console-some, initialize-null,
}
use isc_challenge_without_bo.Router.TcpServer.{start_tcp_server}
use isc_challenge_without_bo.Router.State.{State, done, initial}
use isc_challenge_without_bo.Router.System.{Reached}
use isc_challenge_without_bo.Router.Start.{Started, start_threads}
use isc_challenge_without_bo.Router.Start.Listening.{
  AllFresh, Loops, Starts, aborts, goes_on, start-Starts,
}
use isc_challenge_without_bo.Router.Main.{
  Ended, exited, aborted, crashed, serving, ended, misuse, usage, listening_line, serve, run_main,
  main,
}

module _ {os : Os} (d : Delivers os) {spdlog : Spdlog} (r : Registers spdlog) (rounds : ℕ)
    (w : os.World) where
  -- Wrong arguments; a port that is no number; a server that does not start; the event loop.
  pub data Ends (argv : List Bytes) (e : Ended os.World) : Type 0 where
    misused : length argv ≢ 2 → e ≡ exited (pos 1) → Ends argv e
    unreadable :
        (program port : Bytes) (x : Exception)
        → argv ≡ program ∷ port ∷ []
        → stoi port ≡ throw x
        → e ≡ exited (pos 0)
        → Ends argv e
    unavailable :
        (program port : Bytes) (n : ℤ)
        → argv ≡ program ∷ port ∷ []
        → stoi port ≡ ok n
        → (start_tcp_server os n w).0 ≡ socket_error
        → e ≡ aborted
        → Ends argv e
    serves :
        (program port : Bytes) (n : ℤ) (st' : State os.World)
        → argv ≡ program ∷ port ∷ []
        → stoi port ≡ ok n
        → (start_tcp_server os n w).0 ≢ socket_error
        → e ≡ serving (start_threads 4) (done tt st')
        → Loops os (start_tcp_server os n w).0 rounds (initial (start_tcp_server os n w).1) st'
        → Reached d (start_tcp_server os n w).0 st'
        → Ends argv e

  started-Ends :
      (program port : Bytes) (n : ℤ) {s : Started os.World}
      → stoi port ≡ ok n
      → Starts d 4 n rounds w s
      → Ends (program ∷ port ∷ []) (ended s)
  started-Ends program port n readable (aborts error e) =
      unavailable program port n refl readable error (ap ended e)
  started-Ends program port n readable (goes_on st' fine e loop reached) =
      serves program port n st' refl readable fine (ap ended e) loop reached

  module _ (v : spdlog.World) (l : spdlog.SpdLogger) (here : console spdlog v ≡ some l)
      (fresh : (n : ℤ)
        → AllFresh d rounds (start_tcp_server os n w).0 (initial (start_tcp_server os n w).1)) where
    serve-Ends :
        (program port : Bytes) (o : Result ℤ)
        → stoi port ≡ o
        → Ends (program ∷ port ∷ []) (serve os spdlog rounds o w v)
    unfolding serve
    serve-Ends program port (throw x) e = unreadable program port x refl e refl
    serve-Ends program port (ok n) e =
        let (v', logs, _) = log_console-some r l info (listening_line n) v here in
        rw logs
          (started-Ends program port n e (start-Starts d 4 n rounds w (omega arith) (fresh n)))

    misuse-Ends : (argv : List Bytes) → length argv ≢ 2 → Ends argv (misuse os spdlog v)
    misuse-Ends argv other =
        let (v', logs, _) = log_console-some r l critical usage v here in
        rw logs (misused other refl)

    run_main-Ends : (argv : List Bytes) → Ends argv (run_main os spdlog rounds argv w v)
    unfolding run_main
    run_main-Ends [] = misuse-Ends [] (λ h. omega (arith, h))
    run_main-Ends (program ∷ []) = misuse-Ends (program ∷ []) (λ h. omega (arith, h))
    run_main-Ends (program ∷ port ∷ []) = serve-Ends program port (stoi port) refl
    run_main-Ends (program ∷ port ∷ other ∷ argv) =
        misuse-Ends (program ∷ port ∷ other ∷ argv) (λ h. omega (arith, h))

  module _ (v : spdlog.World)
      (null : (level : Level) (line : Bytes) → log_console spdlog level line v ≡ none) where
    serve-null :
        (o : Result ℤ) → ((x : Exception) → o ≢ throw x) → serve os spdlog rounds o w v ≡ crashed
    unfolding serve
    serve-null (throw x) readable = absurd (readable x refl)
    serve-null (ok n) readable = rw (null info (listening_line n)) refl

    misuse-null : misuse os spdlog v ≡ crashed
    misuse-null = rw (null critical usage) refl

    run_main-null :
        (argv : List Bytes)
        → ((program port : Bytes) (x : Exception)
            → argv ≡ program ∷ port ∷ []
            → stoi port ≢ throw x)
        → run_main os spdlog rounds argv w v ≡ crashed
    unfolding run_main
    run_main-null [] readable = misuse-null
    run_main-null (program ∷ []) readable = misuse-null
    run_main-null (program ∷ port ∷ []) readable =
        serve-null (stoi port) (λ x. readable program port x refl)
    run_main-null (program ∷ port ∷ other ∷ argv) readable = misuse-null

  -- The sinks of the router's loggers.
  module _ (v : spdlog.World) where
    abbrev path : Bytes
    path = codes "logs/router.log"

    abbrev console_sink : Option spdlog.Sink × spdlog.World
    console_sink = console_made r path default_max_file_size default_max_files v

    abbrev file_sink : spdlog.Sink → Option spdlog.Sink × spdlog.World
    file_sink = file_made r path default_max_file_size default_max_files v

    -- With `recv`, `send` and the registry as documented, no logger registered yet, both sinks of the
    -- loggers made, and an `accept` that hands out no socket in use, `main` exits with 1 if the number
    -- of arguments is not 2, with 0 if the port is no number, is aborted if the server does not start,
    -- and else has started its 4 threads and makes as many rounds of the event loop as are asked for,
    -- each of which returns and goes on from the state that the one before left, to a state that the
    -- router reaches.
    pub main-Ends :
        console spdlog v ≡ none
        → file spdlog v ≡ none
        → (c f : spdlog.Sink) → console_sink.0 ≡ some c
        → (file_sink c).0 ≡ some f
        → ((n : ℤ)
            → AllFresh d rounds (start_tcp_server os n w).0 (initial (start_tcp_server os n w).1))
        → (argv : List Bytes) → Ends argv (main os spdlog rounds argv w v)
    unfolding main
    main-Ends hc hf c f e e' fresh argv =
        run_main-Ends (initialize spdlog path default_max_file_size default_max_files v)
          (console_logger spdlog c)
          (initialize-console r path default_max_file_size default_max_files v hc hf c f e e') fresh
          argv

    -- With `recv`, `send` and the registry as documented and no logger registered yet, if the sink
    -- of the console is made and that of the log file cannot be, then `main` follows a null
    -- pointer, unless its number of arguments is right and the port is no number.
    pub main-null :
        console spdlog v ≡ none
        → file spdlog v ≡ none
        → (c : spdlog.Sink) → console_sink.0 ≡ some c
        → (file_sink c).0 ≡ none
        → (argv : List Bytes)
        → ((program port : Bytes) (x : Exception)
            → argv ≡ program ∷ port ∷ []
            → stoi port ≢ throw x)
        → main os spdlog rounds argv w v ≡ crashed
    unfolding main
    main-null hc hf c e e' argv readable =
        run_main-null (initialize spdlog path default_max_file_size default_max_files v)
          (λ level line.
            (initialize-null r path default_max_file_size default_max_files v hc hf c e e' level
              line).0)
          argv readable
