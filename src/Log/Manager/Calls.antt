-- ===== src/Log/Manager/Calls.antt =====
-- The calls of the logging library, and when their arguments are in order.
pub mod Appenders
pub mod Steps
use rabbit_log_db.Base.{
  ℕ, suc, Bool, true, false, List, [], ◌∷◌, ◌++◌, Option, none, some, ◌≡◌, refl, sym, ◌∙◌, arith,
  Bytes, length, get_elem?, set, Option-cases, inl, inr, set-append_self, get_elem?-append_self,
}
use rabbit_log_db.Log.Appender
use rabbit_log_db.Log.Appender.Fanout.{Ready, Unchanged, deliver_all, deliver_all-Unchanged}
use rabbit_log_db.Log.Event.{LogEvent}
use rabbit_log_db.Log.Formatter.Item.{find}
use rabbit_log_db.Log.Formatter.Runs.{init_total}
use rabbit_log_db.Log.Formatter.{LogFormatter}
use rabbit_log_db.Log.Level.{Level}
use rabbit_log_db.Log.Logger
use rabbit_log_db.Log.Logger.Attaching.{attached, add_appender-attached, attached-WellFormed}
use rabbit_log_db.Log.Logger.Formatting.{formatted}
use rabbit_log_db.Log.Logger.Keeping.{
  Keeps, Keeps-set, Keeps-set_same, Keeps-append, WellFormed-Keeps, WellFormed-set,
  deliver_all-WellFormed, targets-AllReady,
}
use rabbit_log_db.Log.Logger.Pattern.{set_pattern-formatted, formatted-WellFormed, said}
use rabbit_log_db.Log.Logger.Routing.{WellFormed, targets, log-targets}
use rabbit_log_db.Log.Manager.Growth.{Grows}
use rabbit_log_db.Log.Manager.Lookup.{get_logger-known, create-with_logger}
use rabbit_log_db.Log.Manager.Naming.{
  Inv, Managed, SameNames, SameNames-loggers, SameNames-set, Managed-SameNames, with_logger-Inv,
}
use rabbit_log_db.Log.Manager.{get_logger}
use rabbit_log_db.Log.World.{
  Appender, Logger, World, Outside, Result, ok, M, pure, ◌>>=◌, ◌>>◌, with_lock, is_held, logger_at,
  appender_at, deref, put_logger, put_appender, alloc_appender, open_file, stdout, file,
}

-- A call from outside the library, under no lock.
pub data Call : Type 0 where
  get : Bytes → Call
  level : ℕ → Level → Call
  pattern : ℕ → Bytes → Call
  add remove : ℕ → ℕ → Call
  log : ℕ → Level → LogEvent → Call
  new_stdout : Call
  new_file : Bytes → Call
  appender_level : ℕ → Level → Call
  appender_formatter : ℕ → LogFormatter → Call
  logger_formatter : ℕ → LogFormatter → Call
  appender_reopen : ℕ → Call
  appender_log : ℕ → Level → LogEvent → Call

abbrev pub forget : {A : Type 0} → M A → M (Unit {0})
forget m = m >>= λ _. pure tt

unfoldable pub call : Outside → Call → M (Unit {0})
call out (get name) = forget (get_logger name)
call out (level l lv) = Logger.set_level l lv
call out (pattern l val) = Logger.set_pattern l val
call out (add l a) = Logger.add_appender l a
call out (remove l a) = Logger.del_appender l a
call out (log l lv e) = Logger.log out 2 l lv e
call out new_stdout = forget Appender.new_stdout
call out (new_file name) = forget (Appender.new_file out name)
call out (appender_level a lv) = Appender.set_level a lv
call out (appender_formatter a f) = Appender.set_formatter a (some f)
call out (logger_formatter l f) = Logger.set_formatter l (some f)
call out (appender_reopen a) = forget (Appender.reopen out a)
call out (appender_log a lv e) = Appender.log out a lv e

abbrev pub IsLogger : World → ℕ → Type 0
IsLogger w l = (lg : Logger) × (get_elem? w.loggers l ≡ some lg)

-- The event's logger exists, and its file is not null.
abbrev pub IsSender : World → LogEvent → Type 0
IsSender w e = IsLogger w e.logger × ((t : Bytes) × (e.file ≡ some t))

abbrev pub IsAppender : World → ℕ → Type 0
IsAppender w a = (ap : Appender) × (get_elem? w.appenders a ≡ some ap)

-- The pointers that are passed are not null. An appender that is logged to directly has a formatter.
abbrev pub Valid : World → Call → Type 0
Valid w (get name) = Unit {0}
Valid w (level l lv) = IsLogger w l
Valid w (pattern l val) = IsLogger w l
Valid w (add l a) = IsLogger w l × IsAppender w a
Valid w (remove l a) = IsLogger w l
Valid w (log l lv e) = IsLogger w l × IsSender w e
Valid w new_stdout = Unit {0}
Valid w (new_file name) = Unit {0}
Valid w (appender_level a lv) = IsAppender w a
Valid w (appender_formatter a f) = IsAppender w a
Valid w (logger_formatter l f) = IsLogger w l
Valid w (appender_reopen a) = IsAppender w a
Valid w (appender_log a lv e) = Ready w.appenders a × IsSender w e

-- A call succeeds, keeps the invariant and takes nothing away.
pub record Succeeds (m : M (Unit {0})) (w : World) : Type 0 where
  pub after : World
  pub runs : m [] w ≡ ok (tt, after)
  pub keeps : Inv after
  pub grows : Grows w after
