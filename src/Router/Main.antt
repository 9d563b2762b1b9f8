-- ===== src/Router/Main.antt =====
-- The `main` of router/main.cpp.
pub mod Ends
use isc_challenge_without_bo.Prelude.{
  ℕ, List, [], ◌∷◌, ◌++◌, Option, none, some, Result, ok, throw, ℤ, pos,
}
use isc_challenge_without_bo.Text.{Bytes, codes}
use isc_challenge_without_bo.Text.Stoi.{stoi}
use isc_challenge_without_bo.Text.Decimal.{print}
use isc_challenge_without_bo.Winsock.{Os}
use isc_challenge_without_bo.Logger.{
  Spdlog, info, critical, initialize, log_console, default_max_file_size, default_max_files,
}
use isc_challenge_without_bo.Router.State.{Run}
use isc_challenge_without_bo.Router.Start.{Thread, Started, returned, terminated, listening, start}

-- `THREAD_COUNT`
abbrev pub thread_count : ℕ
thread_count = 4

abbrev pub usage : Bytes
usage = codes "Insufficient Argument.\nUsage: ISC-Router.exe <listen_port>"

abbrev pub listening_line : ℤ → Bytes
listening_line router_port =
    codes "Router started to listen on " ++ (print router_port ++ codes " port.")

-- How the program ends, or how far it is: the code of `main`; `std::terminate`; a null pointer
-- that is followed; the event loop after some rounds.
pub data Ended (W : Type 0) : Type 0 where
  exited : ℤ → Ended W
  aborted : Ended W
  crashed : Ended W
  serving : List Thread → Run W (Unit {0}) → Ended W

-- `main` takes no notice of the code that `start` returns.
abbrev pub ended : {W : Type 0} → Started W → Ended W
ended (returned code w) = exited (pos 0)
ended (terminated w) = aborted
ended (listening threads run) = serving threads run

module _ (os : Os) (spdlog : Spdlog) where
  abbrev pub logged : Option spdlog.World → (spdlog.World → Ended os.World) → Ended os.World
  logged none next = crashed
  logged (some v) next = next v

  -- The rest of `main` with the result of `std::stoi`. The text of an exception goes to `std::cerr`.
  unfoldable pub serve : ℕ → Result ℤ → os.World → spdlog.World → Ended os.World
  serve rounds (throw e) w v = exited (pos 0)
  serve rounds (ok router_port) w v =
      logged (log_console spdlog info (listening_line router_port) v)
        λ v. ended (start os thread_count router_port rounds w)

  abbrev pub misuse : spdlog.World → Ended os.World
  misuse v = logged (log_console spdlog critical usage v) λ v. exited (pos 1)

  -- The arguments as in `argv`, the name of the program first.
  unfoldable pub run_main : ℕ → List Bytes → os.World → spdlog.World → Ended os.World
  unfolding serve
  run_main rounds (program ∷ port ∷ []) w v = serve rounds (stoi port) w v
  run_main rounds _ w v = misuse v

  unfoldable pub main : ℕ → List Bytes → os.World → spdlog.World → Ended os.World
  unfolding run_main
  main rounds argv w v =
      run_main rounds argv w
        (initialize spdlog (codes "logs/router.log") default_max_file_size default_max_files v)
