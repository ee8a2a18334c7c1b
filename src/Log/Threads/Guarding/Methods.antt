-- ===== src/Log/Threads/Guarding/Methods.antt =====
-- Each method of Log/Log.cpp, as Log/Threads.antt has it, writes what a mutex guards under that mutex.
use rabbit_log_db.Base.{ℕ, true, false, not, leb, List, ◌∷◌, Option, none, some, refl, Bytes}
use rabbit_log_db.Log.Appender.{file_name, next_reopen}
use rabbit_log_db.Log.Event.{LogEvent}
use rabbit_log_db.Log.Formatter.{LogFormatter, init, unclosed, parse_error}
use rabbit_log_db.Log.Level.{Level, at_least}
use rabbit_log_db.Log.Threads.Appending
use rabbit_log_db.Log.Threads.Guarding.{Kept-same, Guards}
use rabbit_log_db.Log.Threads.Guarding.Rules.{
  Guards-ret, Guards-bind, Guards-locked, Guards-access, Guards-no_fuel, Guards-if, Guards-option,
  Guards-each, Guards-deref, Guards-read_logger, Guards-read_appender, Guards-logger,
  Guards-appender, Guards-other_appender, Guards-new_appender_at, Guards-print, Guards-write,
  Guards-open_file,
}
use rabbit_log_db.Log.Threads.Invariant.{held_on_top}
use rabbit_log_db.Log.Threads.Logging
use rabbit_log_db.Log.Threads.{
  each, deref, read_logger, read_appender, write_logger, write_appender, new_appender_at, print,
  open_file,
}
use rabbit_log_db.Log.World.{Outside, Sink, stdout, file, Lock, logger_lock, appender_lock}

module _ (out : Outside) (h : List Lock) (a : ℕ) where
  abbrev own : List Lock
  own = appender_lock a ∷ h

  pub appender_formatter-Guards :
      (val : Option LogFormatter) → Guards h (Appending.set_formatter a val)
  unfolding Appending.set_formatter
  appender_formatter-Guards val = Guards-locked h (appender_lock a) _ (
      Guards-bind own (write_appender a (λ x. record x { formatter = val })) _
        (Guards-appender own a _ (held_on_top (appender_lock a) h))
        (λ u. Guards-appender own a _ (held_on_top (appender_lock a) h)))

  pub get_formatter-Guards : Guards h (Appending.get_formatter a)
  unfolding Appending.get_formatter
  get_formatter-Guards = Guards-locked h (appender_lock a) _ (
      Guards-bind own (read_appender a) _ (Guards-read_appender own a)
        (λ x. Guards-ret own x.formatter))

  pub appender_level-Guards : (val : Level) → Guards h (Appending.set_level a val)
  unfolding Appending.set_level
  appender_level-Guards val = Guards-other_appender h a _ (λ x. refl)

  pub reopen-Guards : Guards h (Appending.reopen out a)
  unfolding Appending.reopen
  reopen-Guards = Guards-locked h (appender_lock a) _ (
      Guards-bind own (read_appender a) _ (Guards-read_appender own a) (λ x.
        Guards-bind own (open_file out (file_name x.sink)) _ (Guards-open_file own out _) (λ o.
          Guards-bind own (write_appender a _) _ (Guards-other_appender own a _ (λ x. refl))
            (λ u. Guards-ret own o))))

  pub refresh-Guards : (last now : ℕ) → Guards h (Appending.refresh out a last now)
  unfolding Appending.refresh
  refresh-Guards last now =
      Guards-if h (leb (next_reopen last) now) _ _
        (Guards-bind h (Appending.reopen out a) _ reopen-Guards
          (λ o. Guards-other_appender h a _ (λ x. refl)))
        (Guards-ret h tt)

  pub format-Guards :
      (lv : Level) (e : LogEvent) (f : LogFormatter) → Guards own (Appending.format out lv e f)
  unfolding Appending.format
  format-Guards lv e f =
      Guards-access own _ _ (λ w. Kept-same own w w refl refl refl) (λ w. Guards-deref own _)

  pub put_text-Guards : (s : Sink) (text : Bytes) → Guards own (Appending.put_text s text)
  unfolding Appending.put_text
  put_text-Guards stdout text = Guards-print own text
  put_text-Guards (file name true last) text = Guards-write own name text
  put_text-Guards (file name false last) text = Guards-print own _

  pub emit-Guards : (lv : Level) (e : LogEvent) → Guards h (Appending.emit out a lv e)
  unfolding Appending.emit
  emit-Guards lv e = Guards-locked h (appender_lock a) _ (
      Guards-bind own (read_appender a) _ (Guards-read_appender own a) (λ x.
        Guards-bind own (deref x.formatter) _ (Guards-deref own x.formatter) (λ f.
          Guards-bind own (Appending.format out lv e f) _ (format-Guards lv e f)
            (put_text-Guards x.sink))))

  pub log_to-Guards :
      (lv : Level) (e : LogEvent) (s : Sink) → Guards h (Appending.log_to out a lv e s)
  unfolding Appending.log_to
  log_to-Guards lv e stdout = emit-Guards lv e
  log_to-Guards lv e (file name good last) =
      Guards-bind h (Appending.refresh out a last e.time) _ (refresh-Guards last e.time)
        (λ u. emit-Guards lv e)

  pub appender_log-Guards : (lv : Level) (e : LogEvent) → Guards h (Appending.log out a lv e)
  unfolding Appending.log
  appender_log-Guards lv e = Guards-bind h (read_appender a) _ (Guards-read_appender h a) (λ x.
      Guards-if h (at_least lv x.level) _ _
        (Guards-bind h (read_appender a) _ (Guards-read_appender h a)
          (λ now. log_to-Guards lv e now.sink))
        (Guards-ret h tt))

  pub inherit-Guards : (val : Option LogFormatter) → Guards h (Logging.inherit val a)
  unfolding Logging.inherit
  inherit-Guards val = Guards-locked h (appender_lock a) _ (
      Guards-bind own (read_appender a) _ (Guards-read_appender own a) (λ x.
        Guards-if own (not x.has_formatter) _ _
          (Guards-appender own a _ (held_on_top (appender_lock a) h)) (Guards-ret own tt)))

  pub adopt-Guards : (l : ℕ) (f : Option LogFormatter) → Guards h (Logging.adopt l a f)
  unfolding Logging.adopt
  adopt-Guards l (some f) = Guards-ret h tt
  adopt-Guards l none = Guards-locked h (appender_lock a) _ (
      Guards-bind own (read_logger l) _ (Guards-read_logger own l)
        (λ lg. Guards-appender own a _ (held_on_top (appender_lock a) h)))

pub new_file-Guards :
    (out : Outside) (h : List Lock) (name : Bytes) → Guards h (Appending.new_file out name)
unfolding Appending.new_file
new_file-Guards out h name =
    Guards-bind h (new_appender_at _) _ (Guards-new_appender_at h _)
      (λ a. Guards-bind h (Appending.reopen out a) _ (reopen-Guards out h a) (λ o. Guards-ret h a))

pub new_formatter-Guards : (h : List Lock) (s : Bytes) → Guards h (Logging.new_formatter s)
unfolding Logging.new_formatter
new_formatter-Guards h s = Guards-option h (init s) _ _ (Guards-no_fuel _ h) (λ f.
    Guards-bind h (each (unclosed s) _) _
      (Guards-each h (unclosed s) _ (λ r. Guards-print h (parse_error s r))) (λ u. Guards-ret h f))

module _ (out : Outside) (h : List Lock) (l : ℕ) where
  abbrev mine : List Lock
  mine = logger_lock l ∷ h

  pub set_formatter-Guards : (val : Option LogFormatter) → Guards h (Logging.set_formatter l val)
  unfolding Logging.set_formatter
  set_formatter-Guards val = Guards-locked h (logger_lock l) _ (
      Guards-bind mine (write_logger l (λ lg. record lg { formatter = val })) _
        (Guards-logger mine l _ (held_on_top (logger_lock l) h))
        (λ u. Guards-bind mine (read_logger l) _ (Guards-read_logger mine l) (λ lg.
          Guards-each mine lg.appenders (Logging.inherit val)
            (λ a. inherit-Guards out mine a val))))

  pub set_pattern-Guards : (val : Bytes) → Guards h (Logging.set_pattern l val)
  unfolding Logging.set_pattern
  set_pattern-Guards val = Guards-bind h (print _) _ (Guards-print h _) (λ u.
      Guards-bind h (Logging.new_formatter val) _ (new_formatter-Guards h val) (λ f.
        Guards-bind h (read_logger l) _ (Guards-read_logger h l) (λ lg.
          Guards-bind h _ _ (Guards-if h f.error _ _ (Guards-print h _) (Guards-ret h tt))
            (λ u. set_formatter-Guards (some f)))))

  pub add_appender-Guards : (a : ℕ) → Guards h (Logging.add_appender l a)
  unfolding Logging.add_appender
  add_appender-Guards a = Guards-locked h (logger_lock l) _ (
      Guards-bind mine (Appending.get_formatter a) _ (get_formatter-Guards out mine a) (λ f.
        Guards-bind mine (Logging.adopt l a f) _ (adopt-Guards out mine a l f)
          (λ u. Guards-logger mine l _ (held_on_top (logger_lock l) h))))

  pub del_appender-Guards : (a : ℕ) → Guards h (Logging.del_appender l a)
  unfolding Logging.del_appender
  del_appender-Guards a =
      Guards-locked h (logger_lock l) _ (Guards-logger mine l _ (held_on_top (logger_lock l) h))
