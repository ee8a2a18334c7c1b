-- ===== src/Log/World.antt =====
-- The objects that shared pointers of Log/Log.h point to, as a store, and the effects of the
-- methods of Log/Log.cpp: faults, locks that are held to the end of a scope, and output.
use rabbit_log_db.Base.{
  ℕ, suc, Bool, true, false, ◌||◌, List, [], ◌∷◌, ◌++◌, Option, none, some, ◌==◌, if◌then◌else◌,
  Bytes, length, get_elem?, set,
}
use rabbit_log_db.Log.Formatter.{LogFormatter}
use rabbit_log_db.Log.Level.{Level}

-- The subclass of an appender. Of a file the fields are `m_filename`, whether `m_filestream` is good
-- (open and not failed), and `m_lastTime`.
pub data Sink : Type 0 where
  stdout : Sink
  file : Bytes → Bool → ℕ → Sink

-- `LogAppender`; a null `m_formatter` is `none`.
pub record Appender : Type 0 where
  pub sink : Sink
  pub level : Level
  pub has_formatter : Bool
  pub formatter : Option LogFormatter

-- `Logger`; the appenders and the root are addresses.
pub record Logger : Type 0 where
  pub name : Bytes
  pub level : Level
  pub appenders : List ℕ
  pub formatter : Option LogFormatter
  pub root : Option ℕ

-- The store: an address is a position. `console` is what went to `std::cout`, `written` what went
-- through file streams, in order, and `opens` counts the attempts to open a file. `managed` and `root`
-- are `m_loggers`, in the order of its keys, and `m_root` of the one `LoggerManager`.
pub record World : Type 0 where
  pub appenders : List Appender
  pub loggers : List Logger
  pub console : Bytes
  pub written : List (Bytes × Bytes)
  pub opens : ℕ
  pub managed : List (Bytes × ℕ)
  pub root : ℕ

-- What is not in the repository or depends on the machine: the text of `localtime_r` and `strftime`,
-- and whether the n-th `FSUtil::OpenForWrite` opens the file.
pub record Outside : Type 0 where
  pub strftime : Bytes → ℕ → Bytes
  pub open_for_write : Bytes → ℕ → Bool

-- The mutexes; a `pthread_mutex_t` initialised by default is not recursive.
pub data Lock : Type 0 where
  logger_lock appender_lock : ℕ → Lock
  manager_lock : Lock

pub data Fault : Type 0 where
  deadlock : Lock → Fault
  bad_pointer no_fuel : Fault
  -- Exceptions, which no handler of the program catches.
  bad_conversion bad_subscript bad_document : Fault
  logic_error : Bytes → Fault

pub data Result (A : Type 0) : Type 0 where
  ok : A → Result A
  fault : Fault → Result A

-- A method runs under the locks that its thread holds, and changes the store.
abbrev pub M : Type 0 → Type 0
M A = List Lock → World → Result (A × World)

abbrev pub pure : {A : Type 0} → A → M A
pure a held w = ok (a, w)

infixl 5 ◌>>=◌ ◌>>◌
abbrev pub ◌>>=◌ : {A B : Type 0} → M A → (A → M B) → M B
◌>>=◌ m f held w = elim (m held w) [ fault e ↦ fault e | ok (a, w') ↦ f a held w' ]

abbrev pub ◌>>◌ : {B : Type 0} → M (Unit {0}) → M B → M B
m >> k = m >>= λ _. k

abbrev pub fail : {A : Type 0} → Fault → M A
fail e held w = fault e

unfoldable pub same_lock : Lock → Lock → Bool
same_lock (logger_lock a) (logger_lock b) = a == b
same_lock (appender_lock a) (appender_lock b) = a == b
same_lock manager_lock manager_lock = true
same_lock _ _ = false

unfoldable pub is_held : Lock → List Lock → Bool
unfolding same_lock
is_held l [] = false
is_held l (h ∷ hs) = same_lock l h || is_held l hs

-- `MutexType::Lock lock(m_mutex)` to the end of its scope: a mutex that the thread already holds
-- blocks it for ever.
unfoldable pub with_lock : {A : Type 0} → Lock → M A → M A
unfolding is_held
with_lock l m held w = if is_held l held then fault (deadlock l) else m (l ∷ held) w

unfoldable pub deref : {A : Type 0} → Option A → M A
deref none = fail bad_pointer
deref (some a) = pure a

unfoldable pub logger_at : ℕ → M Logger
unfolding deref
logger_at l held w = deref (get_elem? w.loggers l) held w

unfoldable pub appender_at : ℕ → M Appender
unfolding deref
appender_at a held w = deref (get_elem? w.appenders a) held w

unfoldable pub put_logger : ℕ → Logger → M (Unit {0})
put_logger l lg held w = ok (tt, record w { loggers = set w.loggers l lg })

unfoldable pub put_appender : ℕ → Appender → M (Unit {0})
put_appender a ap held w = ok (tt, record w { appenders = set w.appenders a ap })

-- A new object is put at a new address.
unfoldable pub alloc_logger : Logger → M ℕ
alloc_logger lg held w = ok (length w.loggers, record w { loggers = w.loggers ++ lg ∷ [] })

unfoldable pub alloc_appender : Appender → M ℕ
alloc_appender ap held w = ok (length w.appenders, record w { appenders = w.appenders ++ ap ∷ [] })

-- `std::cout << text`
unfoldable pub print : Bytes → M (Unit {0})
print text held w = ok (tt, record w { console = w.console ++ text })

-- Writing to the stream of a file.
unfoldable pub write : Bytes → Bytes → M (Unit {0})
write name text held w = ok (tt, record w { written = w.written ++ (name, text) ∷ [] })

-- `FSUtil::OpenForWrite`
unfoldable pub open_file : Outside → Bytes → M Bool
open_file out name held w = ok (out.open_for_write name w.opens, record w { opens = suc w.opens })

-- A loop over a list.
unfoldable pub each : {A : Type 0} → List A → (A → M (Unit {0})) → M (Unit {0})
each [] f = pure tt
each (x ∷ xs) f = f x >> each xs f
