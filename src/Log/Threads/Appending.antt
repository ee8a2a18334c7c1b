-- ===== src/Log/Threads/Appending.antt =====
-- The methods of `LogAppender`, `StdoutLogAppender` and `FileLogAppender` of Log/Log.cpp, one access to
-- shared memory at a time. The subclass and the name of a file never change.
pub mod Keeping
use rabbit_log_db.Base.{
  ℕ, Bool, true, false, [], Option, none, some, leb, if◌then◌else◌, not, Bytes, codes,
}
use rabbit_log_db.Log.Appender.{is_some, file_name, with_good, with_last, next_reopen, name_at}
use rabbit_log_db.Log.Event.{LogEvent}
use rabbit_log_db.Log.Formatter.Item.{format_on}
use rabbit_log_db.Log.Formatter.{LogFormatter}
use rabbit_log_db.Log.Level.{Level, at_least, debug}
use rabbit_log_db.Log.Threads.{
  Prog, ret, access, crash, ◌>>=◌, ◌>>◌, pure, locked, deref, read_appender, write_appender,
  new_appender_at, print, write, open_file,
}
use rabbit_log_db.Log.World.{Sink, stdout, file, Outside, appender_lock}

-- `LogAppender::setFormatter`
unfoldable pub set_formatter : ℕ → Option LogFormatter → Prog (Unit {0})
unfolding is_some
set_formatter a val = locked (appender_lock a) (do
  write_appender a (λ ap. record ap { formatter = val })
  write_appender a (λ ap. record ap { has_formatter = is_some val }))

-- `LogAppender::getFormatter`
unfoldable pub get_formatter : ℕ → Prog (Option LogFormatter)
get_formatter a = locked (appender_lock a) (do ap ← read_appender a; pure ap.formatter)

-- `LogAppender::setLevel`, which takes no lock.
unfoldable pub set_level : ℕ → Level → Prog (Unit {0})
set_level a val = write_appender a (λ ap. record ap { level = val })

-- A new `StdoutLogAppender`.
unfoldable pub new_stdout : Prog ℕ
new_stdout =
    new_appender_at
      (record { sink = stdout; level = debug; has_formatter = false; formatter = none })

-- `FileLogAppender::reopen`
unfoldable pub reopen : Outside → ℕ → Prog Bool
unfolding file_name with_good
reopen out a = locked (appender_lock a) (do
  ap ← read_appender a
  opened ← open_file out (file_name ap.sink)
  write_appender a (λ ap. record ap { sink = with_good opened ap.sink })
  pure opened)

-- The constructor of `FileLogAppender`.
unfoldable pub new_file : Outside → Bytes → Prog ℕ
new_file out name = do
  a ←
      new_appender_at
        (record { sink = file name true 0; level = debug; has_formatter = false; formatter = none })
  opened ← reopen out a
  pure a

-- `LogFormatter::format`; the names of loggers never change.
unfoldable pub format : Outside → Level → LogEvent → LogFormatter → Prog Bytes
unfolding deref format_on name_at
format out lv e f =
    access (λ w. w)
      (λ w.
        deref (format_on (record { strftime = out.strftime; name_of = name_at w }) lv e f.items))

-- The branch of `FileLogAppender::log` that opens the file again; the time is read and written with
-- no lock.
unfoldable pub refresh : Outside → ℕ → ℕ → ℕ → Prog (Unit {0})
unfolding with_last next_reopen
refresh out a last now =
    if leb (next_reopen last) now
    then (do
      opened ← reopen out a
      write_appender a (λ ap. record ap { sink = with_last now ap.sink }))
    else pure tt

-- What the formatter wrote goes to the stream, if that is good.
unfoldable pub put_text : Sink → Bytes → Prog (Unit {0})
put_text stdout text = print text
put_text (file name true last) text = write name text
put_text (file name false last) text = print (codes "error\n")

-- The locked part of `log`.
unfoldable pub emit : Outside → ℕ → Level → LogEvent → Prog (Unit {0})
unfolding put_text
emit out a lv e = locked (appender_lock a) (do
  ap ← read_appender a
  f ← deref ap.formatter
  text ← format out lv e f
  put_text ap.sink text)

-- The two methods `log`, behind the level test; `m_lastTime` is read now.
unfoldable pub log_to : Outside → ℕ → Level → LogEvent → Sink → Prog (Unit {0})
log_to out a lv e stdout = emit out a lv e
log_to out a lv e (file name good last) = do refresh out a last e.time; emit out a lv e

-- The virtual `log`; `m_level` is read with no lock.
unfoldable pub log : Outside → ℕ → Level → LogEvent → Prog (Unit {0})
log out a lv e = do
  ap ← read_appender a
  if at_least lv ap.level then (do now ← read_appender a; log_to out a lv e now.sink) else pure tt
