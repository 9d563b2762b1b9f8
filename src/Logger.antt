-- ===== src/Logger.antt =====
-- The class `Logger` of router/include/logger.h, which node/include/logger.h repeats word for word. The
-- library spdlog, which it sets up, is a parameter with a state of its own.
pub mod Registry
use isc_challenge_without_bo.Prelude.{ℕ, ◌*◌, Bool, not, Option, none, some, if◌then◌else◌}
use isc_challenge_without_bo.Text.{Bytes, codes}

-- `spdlog::level`
pub data Level : Type 0 where
  trace debug info warn err critical : Level

-- A sink that is `none`, and a registration that is `false`, is an exception `spdlog_ex`. `get` is
-- `none` for a null pointer.
pub record Spdlog : Type 1 where
  pub World : Type 0
  pub Sink : Type 0
  pub SpdLogger : Type 0
  pub stdout_color_sink_mt : World → Option Sink × World
  pub rotating_file_sink_mt : Bytes → ℕ → ℕ → World → Option Sink × World
  pub set_pattern : Bytes → Sink → World → World
  -- `std::make_shared<spdlog::logger>`
  pub logger : Bytes → Sink → SpdLogger
  pub set_level : Level → SpdLogger → SpdLogger
  pub register_logger : SpdLogger → World → Bool × World
  pub flush_on : Level → World → World
  pub get : Bytes → World → Option SpdLogger
  pub log : SpdLogger → Level → Bytes → World → World

-- The default arguments of `Initialize`.
abbrev pub default_file_path : Bytes
default_file_path = codes "logs/app.log"

abbrev pub default_max_file_size : ℕ
default_max_file_size = 1024 * 1024 * 5

abbrev pub default_max_files : ℕ
default_max_files = 3

module _ (spdlog : Spdlog) where
  open spdlog use {
    World, Sink, SpdLogger, logger, set_level, set_pattern, register_logger, flush_on, get, log,
  }

  abbrev pub console_logger : Sink → SpdLogger
  console_logger sink = set_level trace (logger (codes "console") sink)

  abbrev pub file_logger : Sink → SpdLogger
  file_logger sink = set_level trace (logger (codes "file") sink)

  -- The rest of `Initialize` once both sinks are there. An exception ends it, and is caught.
  abbrev pub register_loggers : Sink → Sink → World → World
  register_loggers console_sink file_sink w =
      let (registered, w) = register_logger (console_logger console_sink) w in
      if not registered
      then w
      else (let (registered, w) = register_logger (file_logger file_sink) w in
          if not registered then w else flush_on err w)

  abbrev pub with_file_sink : Sink → Option Sink × World → World
  with_file_sink console_sink (none, w) = w
  with_file_sink console_sink (some file_sink, w) =
      register_loggers console_sink file_sink
        (set_pattern (codes "[%Y-%m-%d %T.%e] [%l] : %v") file_sink w)

  abbrev pub with_console_sink : Bytes → ℕ → ℕ → Option Sink × World → World
  with_console_sink file_path max_file_size max_files (none, w) = w
  with_console_sink file_path max_file_size max_files (some console_sink, w) =
      with_file_sink console_sink (
        spdlog.rotating_file_sink_mt file_path max_file_size max_files
          (set_pattern (codes "%^[%T] : %v%$") console_sink w))

  unfoldable pub initialize : Bytes → ℕ → ℕ → World → World
  initialize file_path max_file_size max_files w =
      with_console_sink file_path max_file_size max_files (spdlog.stdout_color_sink_mt w)

  abbrev pub console : World → Option SpdLogger
  console = get (codes "console")

  abbrev pub file : World → Option SpdLogger
  file = get (codes "file")

  -- A line on a logger that a macro fetched: `none` where it follows a null pointer.
  abbrev pub write : Option SpdLogger → Level → Bytes → World → Option World
  write none level line w = none
  write (some l) level line w = some (log l level line w)

  -- The macros `LOG_TRACE` and so on, by their level.
  unfoldable pub log_console : Level → Bytes → World → Option World
  log_console level line w = write (console w) level line w

  -- `FLOG_TRACE` and so on
  unfoldable pub log_file : Level → Bytes → World → Option World
  log_file level line w = write (file w) level line w
