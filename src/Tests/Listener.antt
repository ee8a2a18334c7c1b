-- ===== src/Tests/Listener.antt =====
-- Tests of the listener that applies a configuration.
use rabbit_log_db.Base.{[], ◌++◌, inl, inr, ◌≡◌, refl, codes, length, set}
use rabbit_log_db.Log.Config.Apply.{configure}
use rabbit_log_db.Log.Config.Outcome.{logger_formatter, old_appenders, configure-described}
use rabbit_log_db.Log.Config.Planned.{planned_all, row}
use rabbit_log_db.Log.World.{World, ok}
use rabbit_log_db.Log.Config.{LogDefine}
use rabbit_log_db.Tests.Config.{net_define, clearing, clearing-Clears}
use rabbit_log_db.Tests.Data.{machine, world, root_logger}
use rabbit_log_db.Tests.Logger.{world-WellFormed}

-- With a pattern for the logger.
abbrev pattern_define : LogDefine
pattern_define = record net_define { formatter = codes "%p %m%n" }

configure-described_example :
    (v : World) × (configure machine clearing 0 pattern_define [] world ≡ ok (tt, v))
    × (v.loggers
        ≡ set world.loggers 0 (record root_logger {
          level = pattern_define.level;
          formatter = logger_formatter pattern_define root_logger;
          appenders = row 3 (
              length (
                planned_all machine
                  (logger_formatter pattern_define root_logger)
                  (clearing.has (codes "d"))
                  1
                  pattern_define.appenders));
        }))
    × (v.appenders
        ≡ old_appenders pattern_define root_logger world.appenders
          ++ planned_all machine
              (logger_formatter pattern_define root_logger)
              (clearing.has (codes "d"))
              1
              pattern_define.appenders)
    × (v.written ≡ world.written)
configure-described_example =
    configure-described machine clearing 0 root_logger pattern_define world clearing-Clears
      world-WellFormed refl (inl refl, (inr refl, tt))
