-- ===== src/Log/Manager.antt =====
-- `LoggerManager` of Log/Log.cpp.
pub mod Lookup
pub mod Naming
pub mod Growth
pub mod Calls
pub mod History
use rabbit_log_db.Base.{
  ℕ, List, [], ◌∷◌, Option, none, some, Bytes, codes, equal, less, if◌then◌else◌,
}
use rabbit_log_db.Log.Appender.{new_stdout}
use rabbit_log_db.Log.Formatter.Item.{find}
use rabbit_log_db.Log.Logger.{new_logger, add_appender}
use rabbit_log_db.Log.World.{
  World, manager_lock, ok, M, pure, ◌>>=◌, ◌>>◌, with_lock, logger_at, put_logger,
}

-- `m_loggers[name] = l` in a `std::map`, whose keys are in order.
unfoldable pub insert : Bytes → ℕ → List (Bytes × ℕ) → List (Bytes × ℕ)
insert name l [] = (name, l) ∷ []
insert name l ((k, v) ∷ m) =
    if equal k name
    then (name, l) ∷ m
    else if less name k
    then (name, l) ∷ (k, v) ∷ m
    else (k, v) ∷ insert name l m

unfoldable pub put_managed : Bytes → ℕ → M (Unit {0})
put_managed name l held w = ok (tt, record w { managed = insert name l w.managed })

unfoldable pub put_root : ℕ → M (Unit {0})
put_root l held w = ok (tt, record w { root = l })

unfoldable pub find_managed : Bytes → M (Option ℕ)
find_managed name held w = ok (find name w.managed, w)

unfoldable pub root_of : M ℕ
root_of held w = ok (w.root, w)

abbrev pub root_name : Bytes
root_name = codes "root"

-- The constructor. `init` does nothing.
unfoldable pub construct : M (Unit {0})
unfolding put_root put_managed
construct = do
  l ← new_logger root_name
  put_root l
  a ← new_stdout
  add_appender l a
  lg ← logger_at l
  put_managed lg.name l

-- The branch of `getLogger` that makes a logger.
unfoldable pub create : Bytes → M ℕ
unfolding root_of put_managed
create name = do
  l ← new_logger name
  lg ← logger_at l
  r ← root_of
  put_logger l (record lg { root = some r })
  put_managed name l
  pure l

-- `LoggerManager::getLogger`
unfoldable pub get_logger : Bytes → M ℕ
unfolding find_managed create
get_logger name =
    with_lock manager_lock
      (do found ← find_managed name; elim found [ some l ↦ pure l | none ↦ create name ])
