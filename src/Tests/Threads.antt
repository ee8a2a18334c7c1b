-- ===== src/Tests/Threads.antt =====
-- Tests of several threads.
use rabbit_log_db.Base.{
  ℕ, zero, suc, true, List, [], ◌∷◌, none, some, ◌≡◌, ◌≢◌, ◌⊎◌, inl, inr, refl, arith, codes, equal,
  Bool-cases, get_elem?,
}
use mathlib.Core.WellFounded.{Acc}
use rabbit_log_db.Log.Formatter.Item.{find}
use rabbit_log_db.Log.Level
use rabbit_log_db.Log.Config.Running.{Each}
use rabbit_log_db.Log.Manager.Calls.{
  Valid, call, Call, get, log, add, remove, pattern, new_file, appender_formatter,
}
use rabbit_log_db.Log.Threads.Alone.{alone}
use rabbit_log_db.Log.Threads.Alone.Calls.{thread_call-alone, Reach-alone}
use rabbit_log_db.Log.Threads.Ending.{Follows}
use rabbit_log_db.Log.Threads.Finishing.{AllEnded, Reach-ends}
use rabbit_log_db.Log.Threads.Guarding.Reached.{Reach-guarded}
use rabbit_log_db.Log.Threads.Guarding.{Kept}
use rabbit_log_db.Log.Threads.Invariant.{Exclusive}
use rabbit_log_db.Log.Threads.Logging
use rabbit_log_db.Log.Threads.Progress.{Moves, Reach-Moves}
use rabbit_log_db.Log.Threads.Race.{add_appender-loses, InTurn}
use rabbit_log_db.Log.Threads.Rules.{Sound}
use rabbit_log_db.Log.Threads.System.{
  Thread, System, start, run_calls, thread_call, nobody_holds, move, next, Reach, here, moved,
}
use rabbit_log_db.Log.Threads.{ret, crash, out_of_fuel, ◌>>=◌, locked, write_logger, modify, found}
use rabbit_log_db.Log.World.{Logger, ok, each}
use rabbit_log_db.Tests.Data.{
  machine, world, event, plain, root_logger, db_logger, console_appender, new_appender,
}
use rabbit_log_db.Tests.Logger.{world-WellFormed}

world-Sound : Sound 0 world
unfolding find
world-Sound = record {
  root_is = refl;
  root = (root_logger, refl);
  member = λ l lg h. record {
    formatted = world-WellFormed.formatted l lg h;
    attached = world-WellFormed.attached l lg h;
    rooted = below l lg h;
  };
  managed = λ name l h. elim (Bool-cases (equal (codes "db") name)) [
    | inl e ↦ let is : 1 ≡ l = ground (arith, e, h) in rw (← is) (db_logger, refl)
    | inr e ↦ elim (Bool-cases (equal (codes "root") name)) [
      | inl e' ↦ let is : 0 ≡ l = ground (arith, e, e', h) in rw (← is) (root_logger, refl)
      | inr e' ↦ absurd (ground (arith, e, e', h))
    ]
  ];
}
  where
    below :
        (l : ℕ) (lg : Logger)
        → get_elem? world.loggers l ≡ some lg
        → (lg.root ≡ none) ⊎ ((lg.root ≡ some 0) × (l ≢ 0))
    below zero lg h = let is : root_logger ≡ lg = ground (arith, h) in rw (← is) (inl refl)
    below (suc zero) lg h =
        let is : db_logger ≡ lg = ground (arith, h) in rw (← is) (inr (refl, λ e. cc e))
    below (suc (suc l)) lg h = absurd (cc h)

-- One thread empties the list of the root logger, two log, one asks for a logger and makes a file.
abbrev calls : List (List Call)
calls =
    (remove 0 0 ∷ [])
    ∷ (log 1 Level.error event ∷ pattern 1 (codes "%m") ∷ [])
    ∷ (get (codes "net") ∷ new_file (codes "b.log") ∷ [])
    ∷ (add 1 0 ∷ log 1 Level.info event ∷ [])
    ∷ []

calls-Valid : Each (λ cs. Each (Valid world) cs) calls
calls-Valid = (
  ((root_logger, refl), tt),
  (
    (((db_logger, refl), ((db_logger, refl), (codes "main.cc", refl))), ((db_logger, refl), tt)),
    (
      (tt, (tt, tt)),
      (
        (
          ((db_logger, refl), (console_appender, refl)),
          (((db_logger, refl), ((db_logger, refl), (codes "main.cc", refl))), tt),
        ),
        tt,
      ),
    ),
  ),
)

-- The first thread has taken the lock of the root logger.
abbrev under_way : (s : System) × Reach (start machine world calls) s
unfolding move next start run_calls thread_call Logging.del_appender locked ◌>>=◌ nobody_holds
under_way = (_, moved 0 here refl)

Reach-Moves_example :
    Exclusive under_way.0.threads
    × ((i : ℕ) (t : Thread)
        → get_elem? under_way.0.threads i ≡ some t
        → ((t.todo ≢ crash) × (t.todo ≢ out_of_fuel))
          × ((t ≡ record { held = []; todo = ret tt }) ⊎ Moves under_way.0))
Reach-Moves_example =
    Reach-Moves 0 machine world calls under_way.0 world-Sound calls-Valid under_way.1

Reach-ends_example :
    Acc Follows under_way.0
    × (¬ Moves under_way.0 → AllEnded under_way.0)
    × ((u : System) × Reach under_way.0 u × AllEnded u)
Reach-ends_example =
    Reach-ends 0 machine world calls under_way.0 world-Sound calls-Valid under_way.1

-- Appender 2 has no formatter.
add_appender-loses_example :
    ((s : System) × Reach
        (start machine world ((add 1 2 ∷ []) ∷ (appender_formatter 2 plain ∷ []) ∷ []))
        s
      × AllEnded s
      × (get_elem? s.mem.appenders 2
          ≡ some (record new_appender { formatter = db_logger.formatter; has_formatter = true })))
    × InTurn machine 1 db_logger 2 new_appender plain world (add 1 2) (appender_formatter 2 plain)
    × InTurn machine 1 db_logger 2 new_appender plain world (appender_formatter 2 plain) (add 1 2)
add_appender-loses_example =
    add_appender-loses machine 1 db_logger 2 new_appender plain world refl refl refl

-- Appender 2 is attached to the logger of the database.
thread_call-alone_example :
    alone (thread_call machine (add 1 2)) [] world ≡ call machine (add 1 2) [] world
thread_call-alone_example = thread_call-alone machine (add 1 2) [] world

abbrev one_by_one : List Call
one_by_one = add 1 0 ∷ log 1 Level.error event ∷ get (codes "net") ∷ []

one_by_one-Valid : Each (Valid world) one_by_one
one_by_one-Valid = (
  ((db_logger, refl), (console_appender, refl)),
  (((db_logger, refl), ((db_logger, refl), (codes "main.cc", refl))), (tt, tt)),
)

Reach-alone_example :
    (u : System) × Reach (start machine world (one_by_one ∷ [])) u
    × AllEnded u
    × (each one_by_one (call machine) [] world ≡ ok (tt, u.mem))
    × ((s : System) → Reach (start machine world (one_by_one ∷ [])) s → AllEnded s → s.mem ≡ u.mem)
Reach-alone_example = Reach-alone 0 machine world one_by_one world-Sound one_by_one-Valid

-- The first thread goes on, under the lock of the root logger.
abbrev one_on : (u : System) × (move 0 under_way.0 ≡ some u)
unfolding move next start run_calls thread_call Logging.del_appender locked ◌>>=◌ nobody_holds
    write_logger modify found
one_on = (_, refl)

Reach-guarded_example :
    (t : Thread) × (get_elem? under_way.0.threads 0 ≡ some t)
    × Kept t.held under_way.0.mem one_on.0.mem
Reach-guarded_example =
    Reach-guarded machine world calls under_way.0 one_on.0 0 under_way.1 one_on.1
