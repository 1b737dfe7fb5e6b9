-- ===== src/Logger.antt =====
-- src/logger.cpp and include/rapid/core/logger.h: the loggers of the program by their names. spdlog and the file system
-- are parameters; a text is the list of its character codes.
pub mod Names
use librapid.Prelude.{
  ℕ, ◌*◌, pos, Bool, Option, none, some, List, [], ◌∷◌, ◌++◌, if◌then◌else◌, codes,
}
use librapid.Outcome.{Outcome, ok, thrown, M, pure, throw, runtime_error, ◌>>=◌, ◌>>◌}

-- A logger and a sink are handles.
pub record Spdlog : Type 1 where
  pub State : Type 0
  pub init_thread_pool : (queue_size threads : ℕ) → State → State
  pub shutdown : State → State
  pub get : (name : List ℕ) → State → Option ℕ
  -- an async_logger that blocks on overflow, and a logger, on these sinks
  pub make_async : (name : List ℕ) → (sinks : List ℕ) → State → ℕ × State
  pub make_sync : (name : List ℕ) → (sinks : List ℕ) → State → ℕ × State
  pub set_level : (logger level : ℕ) → State → State
  pub set_pattern : (logger : ℕ) → (pattern : List ℕ) → State → State
  pub flush_on : (logger level : ℕ) → State → State
  -- nothing where it throws
  pub register_logger : (logger : ℕ) → State → Option State
  pub stdout_color_sink : State → ℕ × State
  pub rotating_file_sink : (path : List ℕ) → (max_size max_files : ℕ) → State → ℕ × State
  pub exists : (path : List ℕ) → State → Bool
  pub create_directory : (path : List ℕ) → State → State

-- spdlog::level::debug
abbrev debug_level : ℕ
debug_level = 1

module _ (S : Spdlog) where
  -- sinks_, and spdlog.
  abbrev pub Log : Type 0
  Log = List ℕ × S.State

  -- Logger::Logger
  unfoldable pub construct : M S.State (List ℕ)
  construct s = ok [] (S.init_thread_pool 8192 2 s)

  -- Logger::~Logger
  unfoldable pub destroy : M Log (Unit {0})
  destroy (sinks, s) = ok tt (sinks, S.shutdown s)

  unfoldable pub register_logger : ℕ → M Log (Unit {0})
  register_logger l (sinks, s) = elim (S.register_logger l s) [
    | none ↦ thrown (runtime_error (pos 0)) (sinks, s)
    | some s' ↦ ok tt (sinks, s')
  ]

  -- The two branches of make_shared, on the sinks of this moment.
  unfoldable pub make_logger : List ℕ → Bool → M Log ℕ
  make_logger name async_logging (sinks, s) =
      let (l, s') = if async_logging then S.make_async name sinks s else S.make_sync name sinks s in
      ok l (sinks, s')

  unfoldable pub configure : ℕ → M Log (Unit {0})
  configure l (sinks, s) = ok tt (
    sinks,
    S.flush_on l debug_level
        (S.set_pattern l (codes "[%H:%M:%S.%e][%l][%n] %v") (S.set_level l debug_level s)),
  )

  -- Logger::getLogger
  unfoldable pub get_logger : List ℕ → Bool → M Log ℕ
  unfolding make_logger configure register_logger
  get_logger name async_logging (sinks, s) = elim (S.get name s) [
    | some l ↦ ok l (sinks, s)
    | none ↦
        (do l ← make_logger name async_logging; configure l; register_logger l; pure l) (sinks, s)
  ]

  -- Logger::addConsoleLogger
  unfoldable pub add_console_logger : M Log (Unit {0})
  add_console_logger (sinks, s) =
      let (sink, s') = S.stdout_color_sink s in ok tt (sinks ++ sink ∷ [], s')

  -- createLogsDirIfNotExists
  unfoldable pub create_logs_dir : S.State → S.State
  create_logs_dir s = if S.exists (codes "logs") s then s else S.create_directory (codes "logs") s

  -- Logger::addFileLogger
  unfoldable pub add_file_logger : List ℕ → M Log (Unit {0})
  unfolding create_logs_dir
  add_file_logger file_name (sinks, s) =
      let (sink, s') =
        S.rotating_file_sink (codes "logs/" ++ file_name) (1024 * 1024) 0 (create_logs_dir s) in
      ok tt (sinks ++ sink ∷ [], s')
