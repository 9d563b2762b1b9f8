-- ===== src/Examples/Logs.antt =====
-- A small registry of loggers, on a disk that may be read-only.
use isc_challenge_without_bo.Prelude.{
  ◌≡◌, ◌≢◌, refl, sym, ◌∙◌, Bool, true, false, ◌&&◌, Bool-cases, inl, inr, List, [], ◌∷◌, Option,
  none, some, ◌==◌, if◌then◌else◌, arith,
}
use isc_challenge_without_bo.Text.{Bytes, codes}
use isc_challenge_without_bo.Logger.{
  Spdlog, Level, info, critical, initialize, log_console, log_file, default_file_path,
  default_max_file_size, default_max_files,
}
use isc_challenge_without_bo.Logger.Registry.{
  Registers, Initialized, initialize-Initialized, initialize-null,
}

same_name : Bytes → Bytes → Bool
same_name [] [] = true
same_name (a ∷ as') (b ∷ bs) = a == b && same_name as' bs
same_name _ _ = false

same_name_refl : (a : Bytes) → same_name a a ≡ true
unfolding same_name
same_name_refl [] = refl
same_name_refl (x ∷ a) = ground (arith, same_name_refl a)

eq_of_same_name : (a b : Bytes) → same_name a b ≡ true → a ≡ b
unfolding same_name
eq_of_same_name [] [] h = refl
eq_of_same_name [] (y ∷ b) h = cc
eq_of_same_name (x ∷ a) [] h = cc
eq_of_same_name (x ∷ a) (y ∷ b) h = ground (arith, eq_of_same_name a b)

-- A logger is its name, its sink and its level.
abbrev pub Entry : Type 0
Entry = Bytes × Bool × Level

-- A sink is known by whether it is the file's.
pub record Logs : Type 0 where
  pub loggers : List Entry
  pub writable : Bool

pub entry_of : Bytes → List Entry → Option Entry
entry_of name [] = none
entry_of name (l ∷ ls) = if same_name l.0 name then some l else entry_of name ls

abbrev is_none : Option Entry → Bool
is_none none = true
is_none (some l) = false

abbrev pub entered : Entry → Option Entry → Logs → Bool × Logs
entered l none w = (true, record w { loggers = l ∷ w.loggers })
entered l (some m) w = (false, w)

abbrev pub example_spdlog : Spdlog
example_spdlog = record {
  World = Logs;
  Sink = Bool;
  SpdLogger = Entry;
  logger = λ name sink. (name, sink, info);
  set_level = λ level l. (l.0, l.1, level);
  stdout_color_sink_mt = λ w. (some false, w);
  rotating_file_sink_mt = λ path size files w. (if w.writable then some true else none, w);
  set_pattern = λ pattern sink w. w;
  register_logger = λ l w. entered l (entry_of l.0 w.loggers) w;
  flush_on = λ level w. w;
  get = λ name w. entry_of name w.loggers;
  log = λ l level line w. w;
}

entered-others :
    (l : Entry) (o : Option Entry) (w : Logs) (name : Bytes)
    → name ≢ l.0
    → entry_of name (entered l o w).1.loggers ≡ entry_of name w.loggers
unfolding entry_of
entered-others l none w name ne = elim (Bool-cases (same_name l.0 name)) [
  | inl e ↦ absurd (ne (sym (eq_of_same_name l.0 name e)))
  | inr e ↦ rw e refl
]
entered-others l (some m) w name ne = refl

pub example_Registers : Registers example_spdlog
unfolding entry_of
example_Registers = record {
  name = λ l. l.0;
  name-logger = λ n sink. refl;
  name-set_level = λ level l. refl;
  registered = λ l n w e h. rw (e, h, same_name_refl n) (refl, refl);
  refused = λ l m n w e h. rw (e, h) refl;
  others = λ l n m w e ne. entered-others l (entry_of l.0 w.loggers) w m (λ same. ne (same ∙ e));
  console_sink_keeps = λ w name. refl;
  file_sink_keeps = λ path size files w name. refl;
  set_pattern_keeps = λ pattern sink w name. refl;
  flush_on_keeps = λ level w name. refl;
  log_keeps = λ l level line w name. refl;
}

abbrev pub fresh : Logs
fresh = record { loggers = []; writable = true }

abbrev pub read_only : Logs
read_only = record { loggers = []; writable = false }

-- No logger is there yet.
pub unregistered :
    (name : Bytes)
    → (example_spdlog.get name fresh ≡ none) × (example_spdlog.get name read_only ≡ none)
unfolding entry_of
unregistered name = (refl, refl)

-- `fresh` with the two loggers.
abbrev initialized : Logs
initialized =
    initialize example_spdlog default_file_path default_max_file_size default_max_files fresh

initialize-Initialized_example :
    Initialized example_Registers default_file_path default_max_file_size default_max_files fresh
      initialized
unfolding entry_of
initialize-Initialized_example =
    initialize-Initialized example_Registers default_file_path default_max_file_size
      default_max_files fresh refl refl

initialize-null_example :
    (log_console example_spdlog critical (codes "Usage") (
        initialize example_spdlog default_file_path default_max_file_size default_max_files
          read_only)
      ≡ none)
    × (log_file example_spdlog critical (codes "Usage") (
          initialize example_spdlog default_file_path default_max_file_size default_max_files
            read_only)
        ≡ none)
unfolding entry_of
initialize-null_example =
    initialize-null example_Registers default_file_path default_max_file_size default_max_files
      read_only refl refl false refl refl critical (codes "Usage")
