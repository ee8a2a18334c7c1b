-- ===== src/Log/Manager/Lookup.antt =====
-- What `getLogger` returns, and what it leaves in the store.
use rabbit_log_db.Base.{
  ℕ, List, [], ◌∷◌, ◌++◌, Option, none, some, ◌≡◌, refl, arith, Bytes, equal, equal_iff, equal_refl,
  get_elem?, length, if◌then◌else◌, set-append_self, get_elem?-append_self,
}
use rabbit_log_db.Log.Formatter.Item.{find}
use rabbit_log_db.Log.Formatter.Runs.{init_total}
use rabbit_log_db.Log.Formatter.{LogFormatter, init, unclosed}
use rabbit_log_db.Log.Level
use rabbit_log_db.Log.Logger.{new_logger, new_formatter, default_pattern}
use rabbit_log_db.Log.Manager.{insert, get_logger}
use rabbit_log_db.Log.World.{
  Logger, World, Lock, manager_lock, each, ok, with_lock, is_held, alloc_logger, put_logger,
  logger_at, deref,
}

-- The formatter of the default pattern.
pub default_formatter : LogFormatter
default_formatter = (init_total default_pattern).0

pub default_formatter_lem : init default_pattern ≡ some default_formatter
unfolding default_formatter
default_formatter_lem = (init_total default_pattern).1

-- It has no unclosed brace, so making it prints nothing.
pub new_formatter-default :
    (h : List Lock) (w : World) → new_formatter default_pattern h w ≡ ok (default_formatter, w)
unfolding new_formatter unclosed each
new_formatter-default h w = rw (default_formatter_lem, new_formatter) refl

-- A logger that the manager has just made.
unfoldable pub made : Bytes → Option ℕ → Logger
made name r = record {
  name = name;
  level = Level.debug;
  appenders = [];
  formatter = some default_formatter;
  root = r;
}

-- The store once the manager has made a logger.
unfoldable pub with_logger : Bytes → World → World
unfolding made
with_logger name w = record w {
  loggers = w.loggers ++ made name (some w.root) ∷ [];
  managed = insert name (length w.loggers) w.managed;
}

-- Asking for a known name returns its logger and changes nothing.
pub get_logger-known :
    (name : Bytes) (l : ℕ) (w : World)
    → find name w.managed ≡ some l
    → get_logger name [] w ≡ ok (l, w)
unfolding get_logger with_lock is_held
get_logger-known name l w h = ground arith

pub create-with_logger :
    (name : Bytes) (w : World)
    → find name w.managed ≡ none
    → get_logger name [] w ≡ ok (length w.loggers, with_logger name w)
unfolding get_logger with_lock is_held new_logger alloc_logger logger_at deref put_logger
    with_logger
create-with_logger name w h = ground (
  arith,
  new_formatter-default (manager_lock ∷ []) w,
  get_elem?-append_self w.loggers (made name none),
  set-append_self w.loggers (made name none) (made name (some w.root)),
)

pub find-insert :
    (name other : Bytes) (l : ℕ) (m : List (Bytes × ℕ))
    → find other (insert name l m) ≡ (if equal name other then some l else find other m)
unfolding find insert
find-insert name other l [] = refl
find-insert name other l ((k, v) ∷ m) =
    ground
      (arith, equal_iff k name, equal_iff k other, equal_iff name other, find-insert name other l m)

-- Asking for a name that is not known makes a logger of that name, at an address that was free, with
-- no appender of its own and the manager's root; asking again, at any later store in which the map is
-- as it was left, gives the same logger and changes nothing.
pub get_logger_twice :
    (name : Bytes) (w w' : World)
    → find name w.managed ≡ none
    → w'.managed ≡ (with_logger name w).managed
    → (get_logger name [] w ≡ ok (length w.loggers, with_logger name w))
      × (get_elem? (with_logger name w).loggers (length w.loggers) ≡ some (made name (some w.root)))
      × (get_logger name [] w' ≡ ok (length w.loggers, w'))
unfolding with_logger
get_logger_twice name w w' h e = (
  create-with_logger name w h,
  get_elem?-append_self w.loggers (made name (some w.root)),
  get_logger-known name (length w.loggers) w'
      (ground (arith, find-insert name name (length w.loggers) w.managed, equal_refl name)),
)
