-- ===== src/Log/Threads/Logging.antt =====
-- The methods of `Logger`, and `LoggerManager::getLogger`, of Log/Log.cpp, one access to shared memory
-- at a time. The name and the root of a logger that the manager has given out never change.
pub mod Keeping
pub mod Logs
use rabbit_log_db.Base.{
  ℕ, zero, suc, Bool, List, [], ◌∷◌, ◌++◌, Option, none, some, if◌then◌else◌, Bytes, codes, not,
}
use rabbit_log_db.Log.Event.{LogEvent}
use rabbit_log_db.Log.Formatter.Item.{find}
use rabbit_log_db.Log.Formatter.{LogFormatter, init, unclosed, parse_error}
use rabbit_log_db.Log.Level.{Level, at_least}
use rabbit_log_db.Log.Level
use rabbit_log_db.Log.Logger.{default_pattern}
use rabbit_log_db.Log.Manager.{insert}
use rabbit_log_db.Log.Threads.Appending
use rabbit_log_db.Log.Threads.{
  Prog, ret, access, out_of_fuel, ◌>>=◌, ◌>>◌, pure, locked, read_logger, read_appender,
  write_logger, write_appender, new_logger_at, print, each,
}
use rabbit_log_db.Log.World.{World, Outside, logger_lock, appender_lock, manager_lock}

-- `new LogFormatter(pattern)`
unfoldable pub new_formatter : Bytes → Prog LogFormatter
new_formatter pattern = elim (init pattern) [
  | none ↦ out_of_fuel
  | some f ↦ do each (unclosed pattern) (λ rest. print (parse_error pattern rest)); pure f
]

-- The constructor `Logger::Logger`.
unfoldable pub new_logger : Bytes → Prog ℕ
unfolding new_formatter
new_logger name = do
  f ← new_formatter default_pattern
  new_logger_at
      (record { name = name; level = Level.debug; appenders = []; formatter = some f; root = none })

-- `Logger::setLevel`, which takes no lock.
unfoldable pub set_level : ℕ → Level → Prog (Unit {0})
set_level l val = write_logger l (λ lg. record lg { level = val })

-- The body of the loop of `Logger::setFormatter`.
unfoldable pub inherit : Option LogFormatter → ℕ → Prog (Unit {0})
inherit val i = locked (appender_lock i) (do
  ap ← read_appender i
  if not ap.has_formatter then write_appender i (λ ap. record ap { formatter = val }) else pure tt)

-- `Logger::setFormatter(LogFormatter::ptr)`
unfoldable pub set_formatter : ℕ → Option LogFormatter → Prog (Unit {0})
unfolding inherit
set_formatter l val = locked (logger_lock l) (do
  write_logger l (λ lg. record lg { formatter = val })
  lg ← read_logger l
  each lg.appenders (inherit val))

-- `Logger::setFormatter(const std::string&)`
unfoldable pub set_pattern : ℕ → Bytes → Prog (Unit {0})
unfolding new_formatter
set_pattern l val = do
  print (codes "---" ++ (val ++ codes "\n"))
  new_val ← new_formatter val
  lg ← read_logger l
  if new_val.error
      then print (
          codes "Logger setFormatter name="
          ++ (lg.name ++ (codes "value = " ++ (val ++ codes "invalid formatter\n"))))
      else pure tt
  set_formatter l (some new_val)

-- The branch of `Logger::addAppender` for an appender with no formatter.
unfoldable pub adopt : ℕ → ℕ → Option LogFormatter → Prog (Unit {0})
adopt l a (some f) = pure tt
adopt l a none =
    locked (appender_lock a)
      (do lg ← read_logger l; write_appender a (λ ap. record ap { formatter = lg.formatter }))

-- `Logger::addAppender`
unfoldable pub add_appender : ℕ → ℕ → Prog (Unit {0})
unfolding adopt
add_appender l a = locked (logger_lock l) (do
  f ← Appending.get_formatter a
  adopt l a f
  write_logger l (λ lg. record lg { appenders = lg.appenders ++ a ∷ [] }))

-- `Logger::delAppender`
unfoldable pub del_appender : ℕ → ℕ → Prog (Unit {0})
del_appender l a = locked (logger_lock l) (write_logger l (λ lg. record lg { appenders = [] }))

-- `Logger::log`; `m_level` is read before the lock is taken.
unfoldable pub log : Outside → ℕ → ℕ → Level → LogEvent → Prog (Unit {0})
log out zero l lv e = out_of_fuel
log out (suc f) l lv e = do
  lg ← read_logger l
  if at_least lv lg.level
      then locked (logger_lock l) (do
        now ← read_logger l
        elim now.appenders [
          | a ∷ rest ↦ each (a ∷ rest) (λ i. Appending.log out i lv e)
          | [] ↦ elim now.root [ none ↦ pure tt | some r ↦ log out f r lv e ]
        ])
      else pure tt

-- `m_loggers.find(name)`, and `m_loggers[name] = l`.
unfoldable pub find_managed : Bytes → Prog (Option ℕ)
find_managed name = access (λ w. w) (λ w. ret (find name w.managed))

unfoldable pub put_managed : Bytes → ℕ → Prog (Unit {0})
put_managed name l = access (λ w. record w { managed = insert name l w.managed }) (λ w. ret tt)

unfoldable pub root_of : Prog ℕ
root_of = access (λ w. w) (λ w. ret w.root)

-- The branch of `getLogger` that makes a logger.
unfoldable pub create : Bytes → Prog ℕ
unfolding root_of put_managed
create name = do
  l ← new_logger name
  r ← root_of
  write_logger l (λ lg. record lg { root = some r })
  put_managed name l
  pure l

-- `LoggerManager::getLogger`
unfoldable pub get_logger : Bytes → Prog ℕ
unfolding find_managed create
get_logger name =
    locked manager_lock
      (do found ← find_managed name; elim found [ some l ↦ pure l | none ↦ create name ])
