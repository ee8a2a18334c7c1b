-- ===== src/Tests/Logger.antt =====
-- Tests of loggers and appenders, in the store of Tests/Data.
use rabbit_log_db.Base.{
  ℕ, zero, suc, true, [], ◌∷◌, none, some, ◌≡◌, ◌≢◌, refl, codes, get_elem?, if◌then◌else◌, arith,
}
use rabbit_log_db.Log.Appender
use rabbit_log_db.Log.Appender.Delivery.{delivered, log-delivered}
use rabbit_log_db.Log.Appender.Fanout.{Ready, AllReady, deliver_all}
use rabbit_log_db.Log.Formatter.{LogFormatter, init}
use rabbit_log_db.Log.Formatter.Rendering.{sender}
use rabbit_log_db.Log.Level
use rabbit_log_db.Log.Logger
use rabbit_log_db.Log.Logger.Attaching.{
  attached, add_appender-attached, appenders_of, removed, del_appender-clears,
}
use rabbit_log_db.Log.Logger.Formatting.{
  formatted, inherited, contains, map_at, set_formatter-inherits,
}
use rabbit_log_db.Log.Logger.Pattern.{said, set_pattern-formatted, set_formatter_null-faults}
use rabbit_log_db.Log.Logger.Routing.{WellFormed, targets, log-targets}
use rabbit_log_db.Log.World.{
  Logger, World, ok, fault, bad_pointer, with_lock, is_held, logger_at, appender_at, deref,
  put_appender, print, write, open_file, each, file,
}
use rabbit_log_db.Tests.Data.{
  machine, plain, console_appender, file_appender, new_appender, root_logger, db_logger, world,
  event,
}

first-Ready : Ready world.appenders 0
first-Ready = record { appender = console_appender; formatter = plain; at = refl; formats = refl }

second-Ready : Ready world.appenders 1
second-Ready = record { appender = file_appender; formatter = plain; at = refl; formats = refl }

attached_at :
    (l : ℕ) (lg : Logger)
    → get_elem? world.loggers l ≡ some lg
    → AllReady world.appenders lg.appenders
attached_at zero lg h = let e : root_logger ≡ lg = cc in rw (← e) (first-Ready, (second-Ready, tt))
attached_at (suc zero) lg h = let e : db_logger ≡ lg = cc in rw (← e) tt
attached_at (suc (suc l)) lg h = cc

formatted_at :
    (l : ℕ) (lg : Logger)
    → get_elem? world.loggers l ≡ some lg
    → (f : LogFormatter) × (lg.formatter ≡ some f)
formatted_at zero lg h = let e : root_logger ≡ lg = cc in rw (← e) (plain, refl)
formatted_at (suc zero) lg h = let e : db_logger ≡ lg = cc in rw (← e) (plain, refl)
formatted_at (suc (suc l)) lg h = cc

rooted_at :
    (l : ℕ) (lg : Logger) (r : ℕ)
    → get_elem? world.loggers l ≡ some lg
    → lg.root ≡ some r
    → (rg : Logger) × (get_elem? world.loggers r ≡ some rg) × (rg.root ≡ none)
rooted_at zero lg r h hr = ground arith
rooted_at (suc zero) lg r h hr = let e : 0 ≡ r = ground arith in rw (← e) (root_logger, refl, refl)
rooted_at (suc (suc l)) lg r h hr = cc

pub world-WellFormed : WellFormed world
world-WellFormed = record { attached = attached_at; formatted = formatted_at; rooted = rooted_at }

-- The event is an error, so it passes at the root's console and at its file, which is stale.
log_through_root :
    Logger.log machine 2 1 Level.error event [] world
    ≡ ok (
      tt,
      record world {
        console = codes "hi\n";
        written = (codes "a.log", codes "hi\n") ∷ [];
        opens = 2;
        appenders =
            console_appender
            ∷ record file_appender { sink = file (codes "a.log") true 105 }
            ∷ new_appender
            ∷ [];
      },
    )
unfolding Logger.log Appender.log Appender.log_to Appender.emit Appender.format Appender.refresh
    Appender.reopen Appender.put_text with_lock is_held logger_at appender_at deref put_appender
    print write open_file each Level.at_least
log_through_root = refl

log-targets_example :
    Logger.log machine 2 1 Level.error event [] world
    ≡ ok (
      tt,
      deliver_all machine
          (codes "db")
          Level.error
          event
          (targets world Level.error db_logger)
          world,
    )
unfolding Appender.name_at sender
log-targets_example =
    log-targets machine Level.error event 0 1 db_logger world world-WellFormed refl refl

log-delivered_example :
    Appender.log machine 1 Level.error event [] world
    ≡ ok (tt, delivered machine (codes "db") 1 Level.error event file_appender plain world)
unfolding is_held Appender.name_at sender
log-delivered_example = log-delivered machine [] 1 refl world Level.error event refl refl refl

set_formatter-inherits_example :
    (w' : World) × (Logger.set_formatter 0 none [] world ≡ ok (tt, w'))
    × (get_elem? w'.loggers 0 ≡ some (record root_logger { formatter = none }))
    × ((b : ℕ)
        → get_elem? w'.appenders b ≡ (
            if contains b root_logger.appenders
            then map_at (inherited none) (get_elem? world.appenders b)
            else get_elem? world.appenders b))
set_formatter-inherits_example =
    set_formatter-inherits 0 root_logger none world refl
      ((console_appender, refl), ((file_appender, refl), tt))

invalid : (f : LogFormatter) × (init (codes "%") ≡ some f) × (f.error ≡ true)
unfolding init
invalid = (_, refl, refl)

set_pattern-formatted_example :
    Logger.set_pattern 0 (codes "%") [] world
    ≡ ok (
      tt,
      formatted 0 root_logger (some invalid.0) (said root_logger (codes "%") invalid.0 world),
    )
set_pattern-formatted_example =
    set_pattern-formatted 0 root_logger (codes "%") world world-WellFormed refl invalid.1

set_formatter_null-faults_example :
    (w' : World) × (Logger.set_formatter 0 none [] world ≡ ok (tt, w'))
    × (Logger.log machine 1 0 Level.error event [] w' ≡ fault bad_pointer)
unfolding Level.at_least
set_formatter_null-faults_example =
    set_formatter_null-faults machine 0 root_logger 0 (1 ∷ []) console_appender world 0 Level.error
      event refl ((console_appender, refl), ((file_appender, refl), tt)) refl refl refl refl refl
      refl

add_appender-attached_example :
    Logger.add_appender 1 2 [] world ≡ ok (tt, attached 1 db_logger 2 new_appender world)
add_appender-attached_example = add_appender-attached 1 db_logger 2 new_appender world refl refl

del_appender-clears_example :
    (w' : World) × (Logger.del_appender 0 0 [] world ≡ ok (tt, w'))
    × (appenders_of w' 0 ≡ some [])
    × (appenders_of w' 0 ≢ some (removed 0 root_logger.appenders))
unfolding removed
del_appender-clears_example = del_appender-clears 0 root_logger 0 world refl (λ e. cc e)
