-- ===== src/Log/Logger.antt =====
-- `Logger` and `LogEventWrap` of Log/Log.cpp.
pub mod Routing
pub mod Making
pub mod Default
pub mod Keeping
pub mod Attaching
pub mod Formatting
pub mod Pattern
use rabbit_log_db.Base.{
  ℕ, zero, suc, Bool, true, false, List, [], ◌∷◌, ◌++◌, Option, none, some, if◌then◌else◌, Bytes,
  codes, not,
}
use rabbit_log_db.Log.Appender
use rabbit_log_db.Log.Event.{LogEvent}
use rabbit_log_db.Log.Formatter.{LogFormatter, init, unclosed, parse_error}
use rabbit_log_db.Log.Level.{Level, at_least}
use rabbit_log_db.Log.Level
use rabbit_log_db.Log.World.{
  Appender, Logger, World, Outside, logger_lock, appender_lock, no_fuel, M, pure, ◌>>=◌, ◌>>◌, fail,
  with_lock, appender_at, put_appender, logger_at, put_logger, alloc_logger, print, each,
}

-- `new LogFormatter(pattern)`: a shared pointer that is not null. The constructor complains of each brace
-- that is not closed.
unfoldable pub new_formatter : Bytes → M LogFormatter
new_formatter pattern = elim (init pattern) [
  | none ↦ fail no_fuel
  | some f ↦ do each (unclosed pattern) (λ rest. print (parse_error pattern rest)); pure f
]

abbrev pub default_pattern : Bytes
default_pattern = codes "%d{%Y-%m-%d %H:%M:%S}%T%t%T%N%T%F%T[%p]%T[%c]%T%f:%l%T%m%n"

-- The constructor `Logger::Logger`.
unfoldable pub new_logger : Bytes → M ℕ
new_logger name = do
  f ← new_formatter default_pattern
  alloc_logger
      (record { name = name; level = Level.debug; appenders = []; formatter = some f; root = none })

-- `Logger::setLevel`
unfoldable pub set_level : ℕ → Level → M (Unit {0})
set_level l val = do lg ← logger_at l; put_logger l (record lg { level = val })

-- The body of the loop of `Logger::setFormatter`.
unfoldable pub inherit : Option LogFormatter → ℕ → M (Unit {0})
inherit val i = with_lock (appender_lock i) (do
  ap ← appender_at i
  if not ap.has_formatter then put_appender i (record ap { formatter = val }) else pure tt)

-- `Logger::setFormatter(LogFormatter::ptr)`
unfoldable pub set_formatter : ℕ → Option LogFormatter → M (Unit {0})
unfolding inherit
set_formatter l val = with_lock (logger_lock l) (do
  lg ← logger_at l
  put_logger l (record lg { formatter = val })
  each lg.appenders (inherit val))

-- `Logger::setFormatter(const std::string&)`
unfoldable pub set_pattern : ℕ → Bytes → M (Unit {0})
set_pattern l val = do
  print (codes "---" ++ (val ++ codes "\n"))
  new_val ← new_formatter val
  lg ← logger_at l
  if new_val.error
      then print (
          codes "Logger setFormatter name="
          ++ (lg.name ++ (codes "value = " ++ (val ++ codes "invalid formatter\n"))))
      else pure tt
  set_formatter l (some new_val)

-- `Logger::getFormatter`
unfoldable pub get_formatter : ℕ → M (Option LogFormatter)
get_formatter l = with_lock (logger_lock l) (do lg ← logger_at l; pure lg.formatter)

-- The branch of `Logger::addAppender` for an appender with no formatter.
unfoldable pub adopt : ℕ → Option LogFormatter → Option LogFormatter → M (Unit {0})
adopt a own (some f) = pure tt
adopt a own none =
    with_lock (appender_lock a)
      (do ap ← appender_at a; put_appender a (record ap { formatter = own }))

-- `Logger::addAppender`
unfoldable pub add_appender : ℕ → ℕ → M (Unit {0})
unfolding adopt
add_appender l a = with_lock (logger_lock l) (do
  f ← Appender.get_formatter a
  lg ← logger_at l
  adopt a lg.formatter f
  put_logger l (record lg { appenders = lg.appenders ++ a ∷ [] }))

-- `Logger::delAppender`
unfoldable pub del_appender : ℕ → ℕ → M (Unit {0})
del_appender l a =
    with_lock (logger_lock l) (do lg ← logger_at l; put_logger l (record lg { appenders = [] }))

-- `Logger::log`. The fuel bounds the chain of roots.
unfoldable pub log : Outside → ℕ → ℕ → Level → LogEvent → M (Unit {0})
log out zero l lv e = fail no_fuel
log out (suc f) l lv e = do
  lg ← logger_at l
  if at_least lv lg.level
      then with_lock (logger_lock l) (elim lg.appenders [
        | a ∷ rest ↦ each (a ∷ rest) (λ i. Appender.log out i lv e)
        | [] ↦ elim lg.root [ none ↦ pure tt | some r ↦ log out f r lv e ]
      ])
      else pure tt

-- `Logger::debug`
unfoldable pub debug : Outside → ℕ → ℕ → LogEvent → M (Unit {0})
debug out f l e = log out f l Level.debug e

-- `Logger::info`
unfoldable pub info : Outside → ℕ → ℕ → LogEvent → M (Unit {0})
info out f l e = log out f l Level.info e

-- `Logger::warn`
unfoldable pub warn : Outside → ℕ → ℕ → LogEvent → M (Unit {0})
warn out f l e = log out f l Level.warn e

-- `Logger::error`
unfoldable pub error : Outside → ℕ → ℕ → LogEvent → M (Unit {0})
error out f l e = log out f l Level.error e

-- `Logger::fatal`
unfoldable pub fatal : Outside → ℕ → ℕ → LogEvent → M (Unit {0})
fatal out f l e = log out f l Level.fatal e

-- The destructor of `LogEventWrap`.
unfoldable pub wrap_end : Outside → ℕ → LogEvent → M (Unit {0})
wrap_end out f e = log out f e.logger e.level e
