-- ===== src/Logger/Registry.antt =====
-- Which loggers are there after `Initialize`.
use isc_challenge_without_bo.Prelude.{
  ℕ, ◌≡◌, ◌≢◌, refl, sym, ◌∙◌, true, false, inl, inr, Option, none, some, Option-cases,
}
use isc_challenge_without_bo.Text.{Bytes, codes}
use isc_challenge_without_bo.Logger.{
  Spdlog, Level, trace, err, initialize, console, file, console_logger, file_logger, log_console,
  log_file, register_loggers,
}

-- What is documented of the registry of spdlog: a logger is registered under its name if the name is
-- free, and else an exception is thrown; nothing else enters or takes away a logger.
pub record Registers (spdlog : Spdlog) : Type 0 where
  pub name : spdlog.SpdLogger → Bytes
  pub name-logger : (n : Bytes) (sink : spdlog.Sink) → name (spdlog.logger n sink) ≡ n
  pub name-set_level :
      (level : Level) (l : spdlog.SpdLogger) → name (spdlog.set_level level l) ≡ name l
  pub registered :
      (l : spdlog.SpdLogger) (n : Bytes) (w : spdlog.World)
      → name l ≡ n
      → spdlog.get n w ≡ none
      → ((spdlog.register_logger l w).0 ≡ true)
        × (spdlog.get n (spdlog.register_logger l w).1 ≡ some l)
  pub refused :
      (l m : spdlog.SpdLogger) (n : Bytes) (w : spdlog.World)
      → name l ≡ n
      → spdlog.get n w ≡ some m
      → spdlog.register_logger l w ≡ (false, w)
  pub others :
      (l : spdlog.SpdLogger) (n m : Bytes) (w : spdlog.World)
      → name l ≡ n
      → m ≢ n
      → spdlog.get m (spdlog.register_logger l w).1 ≡ spdlog.get m w
  pub console_sink_keeps :
      (w : spdlog.World) (name : Bytes)
      → spdlog.get name (spdlog.stdout_color_sink_mt w).1 ≡ spdlog.get name w
  pub file_sink_keeps :
      (path : Bytes) (size files : ℕ) (w : spdlog.World) (name : Bytes)
      → spdlog.get name (spdlog.rotating_file_sink_mt path size files w).1 ≡ spdlog.get name w
  pub set_pattern_keeps :
      (pattern : Bytes) (sink : spdlog.Sink) (w : spdlog.World) (name : Bytes)
      → spdlog.get name (spdlog.set_pattern pattern sink w) ≡ spdlog.get name w
  pub flush_on_keeps :
      (level : Level) (w : spdlog.World) (name : Bytes)
      → spdlog.get name (spdlog.flush_on level w) ≡ spdlog.get name w
  pub log_keeps :
      (l : spdlog.SpdLogger) (level : Level) (line : Bytes) (w : spdlog.World) (name : Bytes)
      → spdlog.get name (spdlog.log l level line w) ≡ spdlog.get name w

names_differ : codes "console" ≢ codes "file"
names_differ h = cc (h)

module _ {spdlog : Spdlog} (d : Registers spdlog) where
  open spdlog use {
    World, Sink, SpdLogger, get, register_logger, set_pattern, flush_on, stdout_color_sink_mt,
    rotating_file_sink_mt,
  }

  named_console : (c : Sink) → d.name (console_logger spdlog c) ≡ codes "console"
  named_console c = d.name-set_level trace _ ∙ d.name-logger (codes "console") c

  named_file : (f : Sink) → d.name (file_logger spdlog f) ≡ codes "file"
  named_file f = d.name-set_level trace _ ∙ d.name-logger (codes "file") f

  module _ (c f : Sink) (w : World) where
    register_loggers-registers :
        console spdlog w ≡ none
        → file spdlog w ≡ none
        → (console spdlog (register_loggers spdlog c f w) ≡ some (console_logger spdlog c))
          × (file spdlog (register_loggers spdlog c f w) ≡ some (file_logger spdlog f))
    register_loggers-registers hc hf =
        let l = console_logger spdlog c in
        let m = file_logger spdlog f in
        let (fine, here) = d.registered l (codes "console") w (named_console c) hc in
        let w₁ = (register_logger l w).1 in
        let free : file spdlog w₁ ≡ none =
          d.others l (codes "console") (codes "file") w (named_console c)
            (λ h. names_differ (sym h))
          ∙ hf in
        let (fine', here') = d.registered m (codes "file") w₁ (named_file f) free in
        rw (fine, fine')
          (
            d.flush_on_keeps err (register_logger m w₁).1 (codes "console")
                ∙ d.others m (codes "file") (codes "console") w₁ (named_file f) names_differ
                ∙ here,
            d.flush_on_keeps err (register_logger m w₁).1 (codes "file") ∙ here',
          )

    register_loggers-again :
        (l : SpdLogger) → console spdlog w ≡ some l → register_loggers spdlog c f w ≡ w
    register_loggers-again l hc =
        rw (d.refused (console_logger spdlog c) l (codes "console") w (named_console c) hc) refl

  module _ (file_path : Bytes) (max_file_size max_files : ℕ) (w : World) where
    -- The sinks that a call makes, where the library makes them.
    abbrev pub console_made : Option Sink × World
    console_made = stdout_color_sink_mt w

    abbrev pub file_made : Sink → Option Sink × World
    file_made c =
        rotating_file_sink_mt file_path max_file_size max_files
          (set_pattern (codes "%^[%T] : %v%$") c console_made.1)

    -- Both loggers are there, at the level `trace`, or a sink could not be made and neither is.
    pub data Initialized (w' : World) : Type 0 where
      ready :
          (c f : Sink)
          → console_made.0 ≡ some c
          → (file_made c).0 ≡ some f
          → console spdlog w' ≡ some (console_logger spdlog c)
          → file spdlog w' ≡ some (file_logger spdlog f)
          → Initialized w'
      no_console :
          console_made.0 ≡ none → console spdlog w' ≡ none → file spdlog w' ≡ none → Initialized w'
      no_file :
          (c : Sink)
          → console_made.0 ≡ some c
          → (file_made c).0 ≡ none
          → console spdlog w' ≡ none
          → file spdlog w' ≡ none
          → Initialized w'

    made-keeps : (name : Bytes) → get name console_made.1 ≡ get name w
    made-keeps name = d.console_sink_keeps w name

    file_made-keeps : (c : Sink) (name : Bytes) → get name (file_made c).1 ≡ get name w
    file_made-keeps c name =
        d.file_sink_keeps file_path max_file_size max_files _ name
        ∙ d.set_pattern_keeps (codes "%^[%T] : %v%$") c console_made.1 name
        ∙ made-keeps name

    abbrev ruled : Sink → Sink → World
    ruled c f = set_pattern (codes "[%Y-%m-%d %T.%e] [%l] : %v") f (file_made c).1

    ruled-keeps : (c f : Sink) (name : Bytes) → get name (ruled c f) ≡ get name w
    ruled-keeps c f name =
        d.set_pattern_keeps (codes "[%Y-%m-%d %T.%e] [%l] : %v") f (file_made c).1 name
        ∙ file_made-keeps c name

    -- With the registry of spdlog as documented and neither name taken: `Initialize` registers the
    -- console's logger and the file's logger at the level `trace`, each on its own sink, if the library
    -- makes both sinks; if it throws on one of them, the exception is caught and neither logger is there.
    pub initialize-Initialized :
        console spdlog w ≡ none
        → file spdlog w ≡ none
        → Initialized (initialize spdlog file_path max_file_size max_files w)
    unfolding initialize
    initialize-Initialized hc hf = elim (Option-cases console_made.0) [
      | inl e ↦
          rw e (no_console e (made-keeps (codes "console") ∙ hc) (made-keeps (codes "file") ∙ hf))
      | inr (c, e) ↦ elim (Option-cases (file_made c).0) [
        | inl e' ↦
            rw (e, e')
              (no_file c e e' (file_made-keeps c (codes "console") ∙ hc)
                (file_made-keeps c (codes "file") ∙ hf))
        | inr (f, e') ↦
            let (here, here') =
              register_loggers-registers c f (ruled c f) (ruled-keeps c f (codes "console") ∙ hc)
                (ruled-keeps c f (codes "file") ∙ hf) in
            rw (e, e') (ready c f e e' here here')
      ]
    ]

    -- With the registry as documented, a call of `Initialize` when the console's logger is there leaves
    -- each name with the logger it has, whether or not its sinks can be made.
    pub initialize-again :
        (l : SpdLogger)
        → console spdlog w ≡ some l
        → (name : Bytes)
        → get name (initialize spdlog file_path max_file_size max_files w) ≡ get name w
    unfolding initialize
    initialize-again l h name = elim (Option-cases console_made.0) [
      | inl e ↦ rw e (made-keeps name)
      | inr (c, e) ↦ elim (Option-cases (file_made c).0) [
        | inl e' ↦ rw (e, e') (file_made-keeps c name)
        | inr (f, e') ↦
            let same =
              register_loggers-again c f (ruled c f) l (ruled-keeps c f (codes "console") ∙ h) in
            rw (e, e', same) (ruled-keeps c f name)
      ]
    ]

    -- With the registry as documented and neither name taken: if the library cannot make the sink of the
    -- file, then after `Initialize` each logging macro, on the console's logger as on the file's,
    -- follows a null pointer.
    pub initialize-null :
        console spdlog w ≡ none
        → file spdlog w ≡ none
        → (c : Sink) → console_made.0 ≡ some c
        → (file_made c).0 ≡ none
        → (level : Level) (line : Bytes)
        → (log_console spdlog level line (initialize spdlog file_path max_file_size max_files w)
            ≡ none)
          × (log_file spdlog level line (initialize spdlog file_path max_file_size max_files w)
              ≡ none)
    unfolding initialize log_console log_file
    initialize-null hc hf c e e' level line =
        rw (e, e', file_made-keeps c (codes "console") ∙ hc, file_made-keeps c (codes "file") ∙ hf)
          (refl, refl)

    -- With both sinks made, the console's logger is there.
    pub initialize-console :
        console spdlog w ≡ none
        → file spdlog w ≡ none
        → (c f : Sink) → console_made.0 ≡ some c
        → (file_made c).0 ≡ some f
        → console spdlog (initialize spdlog file_path max_file_size max_files w)
          ≡ some (console_logger spdlog c)
    unfolding initialize
    initialize-console hc hf c f e e' =
        rw (e, e')
          (register_loggers-registers c f (ruled c f) (ruled-keeps c f (codes "console") ∙ hc)
            (ruled-keeps c f (codes "file") ∙ hf)).0

  -- A line on the console's logger, which is still there behind it.
  pub log_console-some :
      (l : SpdLogger) (level : Level) (line : Bytes) (w : World)
      → console spdlog w ≡ some l
      → (w' : World) × (log_console spdlog level line w ≡ some w') × (console spdlog w' ≡ some l)
  unfolding log_console
  log_console-some l level line w h =
      (spdlog.log l level line w, rw h refl, d.log_keeps l level line w (codes "console") ∙ h)
