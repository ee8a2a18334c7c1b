-- ===== src/Log/Appender.antt =====
-- `LogAppender`, `StdoutLogAppender` and `FileLogAppender` of Log/Log.cpp.
pub mod Delivery
pub mod Fanout
pub mod Recovery
use Prim.Native.Nat.{◌^◌}
use rabbit_log_db.Base.{
  ℕ, ◌+◌, ◌%◌, Bool, true, false, [], ◌++◌, Option, none, some, leb, if◌then◌else◌, Bytes, codes,
  get_elem?, not,
}
use rabbit_log_db.Log.Event.{LogEvent}
use rabbit_log_db.Log.Formatter.Item.{Env, format_on}
use rabbit_log_db.Log.Formatter.{LogFormatter}
use rabbit_log_db.Log.Level.{Level, at_least, debug}
use rabbit_log_db.Log.World.{
  Sink, stdout, file, Appender, Logger, World, Outside, appender_lock, M, pure, ◌>>=◌, ◌>>◌,
  with_lock, deref, appender_at, put_appender, alloc_appender, print, write, open_file,
}

unfoldable pub is_some : {A : Type 0} → Option A → Bool
is_some none = false
is_some (some a) = true

-- `LogAppender::setFormatter`
unfoldable pub set_formatter : ℕ → Option LogFormatter → M (Unit {0})
unfolding is_some
set_formatter a val = with_lock (appender_lock a) (do
  ap ← appender_at a
  put_appender a (record ap { formatter = val; has_formatter = is_some val }))

-- `LogAppender::getFormatter`
unfoldable pub get_formatter : ℕ → M (Option LogFormatter)
get_formatter a = with_lock (appender_lock a) (do ap ← appender_at a; pure ap.formatter)

-- `LogAppender::setLevel`
unfoldable pub set_level : ℕ → Level → M (Unit {0})
set_level a val = do ap ← appender_at a; put_appender a (record ap { level = val })

-- A new `StdoutLogAppender`, with the field initialisers of `LogAppender`.
unfoldable pub new_stdout : M ℕ
new_stdout =
    alloc_appender
      (record { sink = stdout; level = debug; has_formatter = false; formatter = none })

-- The name of a file's sink; a stream of no file is nameless.
unfoldable pub file_name : Sink → Bytes
file_name stdout = []
file_name (file name good last) = name

-- The flag and the time of a file's sink.
unfoldable pub with_good : Bool → Sink → Sink
with_good g stdout = stdout
with_good g (file name good last) = file name g last

unfoldable pub with_last : ℕ → Sink → Sink
with_last t stdout = stdout
with_last t (file name good last) = file name good t

-- `FileLogAppender::reopen`. Closing has no effect that is modelled: what was written stays written,
-- and opening clears the state that closing leaves.
unfoldable pub reopen : Outside → ℕ → M Bool
unfolding file_name with_good
reopen out a = with_lock (appender_lock a) (do
  ap ← appender_at a
  opened ← open_file out (file_name ap.sink)
  put_appender a (record ap { sink = with_good opened ap.sink })
  pure opened)

-- The constructor of `FileLogAppender`.
unfoldable pub new_file : Outside → Bytes → M ℕ
new_file out name = do
  a ←
      alloc_appender
        (record { sink = file name true 0; level = debug; has_formatter = false; formatter = none })
  opened ← reopen out a
  pure a

-- `logger->getName()`, in the store.
unfoldable pub name_at : World → ℕ → Option Bytes
name_at w l = elim (get_elem? w.loggers l) [ none ↦ none | some lg ↦ some lg.name ]

-- `LogFormatter::format`: all that the items write.
unfoldable pub format : Outside → Level → LogEvent → LogFormatter → M Bytes
unfolding deref format_on name_at
format out lv e f held w =
    deref (format_on (record { strftime = out.strftime; name_of = name_at w }) lv e f.items) held w

-- `m_lastTime + 3` in 64 bits.
unfoldable pub next_reopen : ℕ → ℕ
next_reopen last = (last + 3) % 2 ^ 64

-- The branch of `FileLogAppender::log` that opens the file again.
unfoldable pub refresh : Outside → ℕ → ℕ → ℕ → M (Unit {0})
unfolding with_last next_reopen
refresh out a last now =
    if leb (next_reopen last) now
    then (do
      opened ← reopen out a
      ap ← appender_at a
      put_appender a (record ap { sink = with_last now ap.sink }))
    else pure tt

-- What the formatter wrote goes to the stream, if that is good; a bad stream drops it.
unfoldable pub put_text : Sink → Bytes → M (Unit {0})
put_text stdout text = print text
put_text (file name true last) text = write name text
put_text (file name false last) text = print (codes "error\n")

-- The locked part of `log`.
unfoldable pub emit : Outside → ℕ → Level → LogEvent → M (Unit {0})
unfolding put_text
emit out a lv e =
    with_lock (appender_lock a) (do
      ap ← appender_at a
      f ← deref ap.formatter
      text ← format out lv e f
      put_text ap.sink text)

-- `StdoutLogAppender::log` and `FileLogAppender::log`, behind the level test.
unfoldable pub log_to : Outside → ℕ → Level → LogEvent → Sink → M (Unit {0})
log_to out a lv e stdout = emit out a lv e
log_to out a lv e (file name good last) = do refresh out a last e.time; emit out a lv e

-- The virtual `log`.
unfoldable pub log : Outside → ℕ → Level → LogEvent → M (Unit {0})
log out a lv e = do
  ap ← appender_at a
  if at_least lv ap.level then log_to out a lv e ap.sink else pure tt
