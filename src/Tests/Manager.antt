-- ===== src/Tests/Manager.antt =====
-- Tests of the manager and of histories of calls.
use rabbit_log_db.Base.{[], some, ◌≡◌, refl, codes, get_elem?, arith}
use rabbit_log_db.Log.Formatter.Item.{find}
use rabbit_log_db.Log.Manager.Calls.{Call, get, call, Valid, Succeeds}
use rabbit_log_db.Log.Manager.History.{
  History, none_yet, then_call, initial, nothing, History-Succeeds,
}
use rabbit_log_db.Log.Manager.Lookup.{made, with_logger, get_logger_twice, create-with_logger}
use rabbit_log_db.Log.Manager.Naming.{Inv}
use rabbit_log_db.Log.Manager.{construct, get_logger}
use rabbit_log_db.Log.World.{World, ok}
use rabbit_log_db.Tests.Data.{machine, world}

get_logger_twice_example :
    (get_logger (codes "net") [] world ≡ ok (2, with_logger (codes "net") world))
    × (get_elem? (with_logger (codes "net") world).loggers 2 ≡ some (made (codes "net") (some 0)))
    × (get_logger (codes "net") [] (with_logger (codes "net") world)
        ≡ ok (2, with_logger (codes "net") world))
unfolding find
get_logger_twice_example =
    get_logger_twice (codes "net") world (with_logger (codes "net") world) refl refl

-- The first call makes a logger.
abbrev after_get : World
after_get = with_logger (codes "db") initial

made_db : call machine (get (codes "db")) [] initial ≡ ok (tt, after_get)
unfolding call find initial
made_db = ground (arith, create-with_logger (codes "db") initial refl)

short-History : History machine initial after_get
short-History = then_call (get (codes "db")) none_yet tt made_db

History-Succeeds_example :
    (construct [] nothing ≡ ok (tt, initial))
    × Inv after_get
    × ((c : Call) → Valid after_get c → Succeeds (call machine c) after_get)
History-Succeeds_example = History-Succeeds machine after_get short-History
