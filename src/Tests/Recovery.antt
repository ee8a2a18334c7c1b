-- ===== src/Tests/Recovery.antt =====
-- Tests of a file that cannot be opened at first.
use rabbit_log_db.Base.{ℕ, false, [], ◌∷◌, ◌++◌, ◌≡◌, refl, arith, leb, codes}
use rabbit_log_db.Log.Appender.Recovery.{FileAt, OpensFrom, lines_of, file_recovers}
use rabbit_log_db.Log.Appender.{name_at, next_reopen, log}
use rabbit_log_db.Log.Event.{LogEvent}
use rabbit_log_db.Log.Formatter.Rendering.{sender}
use rabbit_log_db.Log.Level
use rabbit_log_db.Log.World.{World, Outside, ok, each, file}
use rabbit_log_db.Tests.Data.{machine, plain, console_appender, file_appender, world, event}

-- The file opens from the opening with the number 3 on.
abbrev slow_machine : Outside
slow_machine = record machine { open_for_write = λ name n. leb 3 n }

slow-OpensFrom : OpensFrom slow_machine (codes "a.log") 3
slow-OpensFrom n h = ground arith

-- The second appender's stream has failed.
abbrev failed : World
failed = record world {
  appenders =
      console_appender ∷ record file_appender { sink = file (codes "a.log") false 100 } ∷ [];
}

failed-FileAt : FileAt 1 (codes "a.log") Level.error plain failed false 100
unfolding Level.at_least
failed-FileAt = record { appender = _; at = refl; formats = refl; passes = refl; sink = refl }

abbrev at_time : ℕ → LogEvent
at_time t = record event { time = t }

file_recovers_example :
    (v : World) × (each
        (at_time 105 ∷ at_time 110 ∷ at_time 115 ∷ [])
        (log slow_machine 1 Level.error)
        []
        failed
      ≡ ok (tt, v))
    × ((u : World) × (each (at_time 116 ∷ at_time 120 ∷ []) (log slow_machine 1 Level.error) [] v
          ≡ ok (tt, u))
        × (u.written
            ≡ v.written
              ++ lines_of slow_machine
                  (codes "a.log")
                  (codes "db")
                  Level.error
                  plain
                  (at_time 116 ∷ at_time 120 ∷ [])))
unfolding name_at next_reopen sender
file_recovers_example =
    file_recovers slow_machine 1 (codes "a.log") (codes "db") Level.error plain 3 slow-OpensFrom
      (at_time 105) (at_time 110 ∷ at_time 115 ∷ []) (at_time 116 ∷ at_time 120 ∷ []) failed false
      100 failed-FileAt (refl, (refl, (refl, tt))) (refl, (refl, (refl, tt))) (refl, (refl, tt))
      (omega arith)
