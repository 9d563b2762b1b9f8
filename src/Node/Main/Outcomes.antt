-- ===== src/Node/Main/Outcomes.antt =====
-- How the node's program ends.
use isc_challenge_without_bo.Prelude.{
  ℕ, ◌≡◌, ◌≢◌, refl, true, List, [], ◌∷◌, none, some, Exception, invalid_argument, Result, ok,
  throw, ℤ, pos, length, arith,
}
use isc_challenge_without_bo.Text.{Bytes}
use isc_challenge_without_bo.Winsock.{Os, Delivers}
use isc_challenge_without_bo.Logger.{
  Spdlog, Level, info, err, critical, initialize, console, file, console_logger, default_file_path,
  default_max_file_size, default_max_files,
}
use isc_challenge_without_bo.Logger.Registry.{
  Registers, console_made, file_made, initialize-console, log_console-some,
}
use isc_challenge_without_bo.Node.TcpSocket.{TcpSocket, buffer_size, destroy}
use isc_challenge_without_bo.Node.Client.{Node, Pass, returned, thrown}
use isc_challenge_without_bo.Node.Client.Passes.Endless
use isc_challenge_without_bo.Node.Client.Passes.Endless.{
  Ends, Going, Going-Ends, Enough, start-Going,
}
use isc_challenge_without_bo.Node.Main.{
  Ended, exited, running, Numbers, numbers, usage, new_node, logged, ended, started, attempt,
  misuse, run_main, main,
}

module _ {os : Os} (d : Delivers os) {spdlog : Spdlog} (r : Registers spdlog)
    (what : Exception → Bytes) (buffer : Bytes) (socket : ℤ) (passes fuel : ℕ) where
  -- The pass of the node that `main` makes of its arguments.
  abbrev pub loop : Numbers → Bytes → os.World → Pass os.World
  loop = started os spdlog what buffer socket passes fuel

  -- The node and its socket.
  abbrev pub made : Numbers → Bytes → os.World → Node × TcpSocket os.World
  made n router_ip w = new_node n.id n.dstid true router_ip n.router_port buffer socket w

  module _ (w : os.World) where
    -- Wrong arguments; a number that is none; an exception of the node; the node's loop.
    pub data Outcome (argv : List Bytes) (e : Ended os.World) : Type 0 where
      misused : length argv ≢ 5 → e ≡ exited (pos 1) w → Outcome argv e
      unreadable :
          (program id dstid router_ip router_port : Bytes) (x : Exception)
          → argv ≡ program ∷ id ∷ dstid ∷ router_ip ∷ router_port ∷ []
          → numbers id dstid router_port ≡ throw x
          → e ≡ exited (pos 0) w
          → Outcome argv e
      stops :
          (program id dstid router_ip router_port : Bytes) (n : Numbers) (st : TcpSocket os.World)
          → argv ≡ program ∷ id ∷ dstid ∷ router_ip ∷ router_port ∷ []
          → numbers id dstid router_port ≡ ok n
          → Going d
              (made n router_ip w).0
              fuel
              passes
              (made n router_ip w).1
              (thrown invalid_argument st)
          → e ≡ exited (pos 0) (destroy os st)
          → Outcome argv e
      runs :
          (program id dstid router_ip router_port : Bytes) (n : Numbers) (code : ℤ)
          (st : TcpSocket os.World)
          → argv ≡ program ∷ id ∷ dstid ∷ router_ip ∷ router_port ∷ []
          → numbers id dstid router_port ≡ ok n
          → Going d (made n router_ip w).0 fuel passes (made n router_ip w).1 (returned code st)
          → e ≡ running st
          → Outcome argv e

    module _ (l : spdlog.SpdLogger) where
      Here : spdlog.World → Type 0
      Here v = console spdlog v ≡ some l

      abbrev line_then :
          Level → Bytes → (spdlog.World → Ended os.World) → spdlog.World → Ended os.World
      line_then = logged os spdlog what buffer socket passes fuel

      -- A line, with the logger there, does not change how the program ends.
      logged-Outcome :
          (argv : List Bytes) (level : Level) (line : Bytes) (next : spdlog.World → Ended os.World)
          → ((v : spdlog.World) → Here v → Outcome argv (next v))
          → (v : spdlog.World) → Here v
          → Outcome argv (line_then level line next v)
      unfolding Here
      logged-Outcome argv level line next k v here =
          let (v', logs, here') = log_console-some r l level line v here in rw logs (k v' here')

      misuse-Outcome :
          (argv : List Bytes)
          → length argv ≢ 5
          → (v : spdlog.World) → Here v
          → Outcome argv (misuse os spdlog what buffer socket passes fuel w v)
      misuse-Outcome argv other =
          logged-Outcome argv critical usage _ (λ v here. misused other refl)

      module _ (program id dstid router_ip router_port : Bytes) where
        abbrev given : List Bytes
        given = program ∷ id ∷ dstid ∷ router_ip ∷ router_port ∷ []

        ended-Outcome :
            (n : Numbers) (p : Pass os.World)
            → numbers id dstid router_port ≡ ok n
            → Going d (made n router_ip w).0 fuel passes (made n router_ip w).1 p
            → Ends d (made n router_ip w).0 p
            → (v : spdlog.World) → Here v
            → Outcome given (ended os spdlog what buffer socket passes fuel p v)
        ended-Outcome n _ e g (Endless.ends code st h) v here =
            runs program id dstid router_ip router_port n code st refl e g refl
        ended-Outcome n _ e g (Endless.stops st h) v here =
            logged-Outcome given err _ _
              (λ v here. stops program id dstid router_ip router_port n st refl e g refl) v here

        module _ (sized : length buffer ≡ buffer_size)
            (enough : (n : Numbers)
              → Enough d (made n router_ip w).0 passes fuel (made n router_ip w).1) where
          loop-Going :
              (n : Numbers)
              → Going d
                  (made n router_ip w).0
                  fuel
                  passes
                  (made n router_ip w).1
                  (loop n router_ip w)
          unfolding new_node
          loop-Going n = start-Going d _ passes fuel _ sized (enough n)

          attempt-Outcome :
              (o : Result Numbers)
              → numbers id dstid router_port ≡ o
              → (v : spdlog.World) → Here v
              → Outcome given (attempt os spdlog what buffer socket passes fuel router_ip o w v)
          unfolding attempt
          attempt-Outcome (throw x) e =
              logged-Outcome given err _ _
                (λ v here. unreadable program id dstid router_ip router_port x refl e refl)
          attempt-Outcome (ok n) e = logged-Outcome given info _ _ (
              logged-Outcome given info _ _ (
                logged-Outcome given info _ _ (
                  ended-Outcome n (loop n router_ip w) e (loop-Going n)
                    (Going-Ends d _ (loop-Going n)))))

      module _ (sized : length buffer ≡ buffer_size)
          (enough : (n : Numbers) (router_ip : Bytes)
            → Enough d (made n router_ip w).0 passes fuel (made n router_ip w).1) where
        run_main-Outcome :
            (argv : List Bytes) (v : spdlog.World)
            → Here v
            → Outcome argv (run_main os spdlog what buffer socket passes fuel argv w v)
        unfolding run_main
        run_main-Outcome [] = misuse-Outcome [] (λ h. omega (arith, h))
        run_main-Outcome (a ∷ []) = misuse-Outcome (a ∷ []) (λ h. omega (arith, h))
        run_main-Outcome (a ∷ b ∷ []) = misuse-Outcome (a ∷ b ∷ []) (λ h. omega (arith, h))
        run_main-Outcome (a ∷ b ∷ c ∷ []) = misuse-Outcome (a ∷ b ∷ c ∷ []) (λ h. omega (arith, h))
        run_main-Outcome (a ∷ b ∷ c ∷ e ∷ []) =
            misuse-Outcome (a ∷ b ∷ c ∷ e ∷ []) (λ h. omega (arith, h))
        run_main-Outcome (program ∷ id ∷ dstid ∷ router_ip ∷ router_port ∷ []) =
            attempt-Outcome program id dstid router_ip router_port sized (λ n. enough n router_ip)
              (numbers id dstid router_port) refl
        run_main-Outcome (a ∷ b ∷ c ∷ e ∷ f ∷ g ∷ argv) =
            misuse-Outcome (a ∷ b ∷ c ∷ e ∷ f ∷ g ∷ argv) (λ h. omega (arith, h))

  -- With `recv`, `send` and the registry as documented, no logger registered yet, both sinks of
  -- the loggers made, a whole buffer, and fuel in each pass for more bytes than its connection
  -- will bring: `main` exits with 1, and calls nothing of the system, if the number of arguments
  -- is not 5; with 0, and calls nothing of the system, if one of the three numbers is none; with
  -- 0, and the socket of the node closed, if the node throws `invalid_argument` in one of its
  -- passes; and else the node has made as many passes as are asked for. Up to there each pass has gone
  -- on from the state that the one before left, whatever code that one returned, the first from the
  -- node and the socket that the constructor makes of the numbers.
  pub main-Outcome :
      (w : os.World) (v : spdlog.World)
      → console spdlog v ≡ none
      → file spdlog v ≡ none
      → (c f : spdlog.Sink)
      → (console_made r default_file_path default_max_file_size default_max_files v).0 ≡ some c
      → (file_made r default_file_path default_max_file_size default_max_files v c).0 ≡ some f
      → length buffer ≡ buffer_size
      → ((n : Numbers) (router_ip : Bytes)
          → Enough d (made n router_ip w).0 passes fuel (made n router_ip w).1)
      → (argv : List Bytes)
      → Outcome w argv (main os spdlog what buffer socket passes fuel argv w v)
  unfolding main Here
  main-Outcome w v hc hf c f e e' sized enough argv =
      run_main-Outcome w (console_logger spdlog c) sized enough argv
        (initialize spdlog default_file_path default_max_file_size default_max_files v)
        (initialize-console r default_file_path default_max_file_size default_max_files v hc hf c f
          e e')
