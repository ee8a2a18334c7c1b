-- ===== src/Log/Threads/Alone/Managing.antt =====
-- New loggers and the manager of Log/Log.cpp: a thread alone, and the model without threads.
use rabbit_log_db.Base.{
  ℕ, List, ◌∷◌, none, some, refl, arith, inl, inr, Bytes, Option-cases, get_elem?, set,
}
use rabbit_log_db.Log.Logger
use rabbit_log_db.Log.Manager
use rabbit_log_db.Log.Threads.Alone.Logging.{Agrees-new_formatter}
use rabbit_log_db.Log.Threads.Alone.{
  Agrees, alone, resume, Agrees-bind, Agrees-ret, Agrees-locked, Agrees-option,
}
use rabbit_log_db.Log.Threads.Logging
use rabbit_log_db.Log.Threads.{Prog, ◌>>=◌, ◌>>◌, pure, modify, found, write_logger, new_logger_at}
use rabbit_log_db.Log.World
use rabbit_log_db.Log.World.{Lock, manager_lock, logger_at, put_logger, M}

module _ (h : List Lock) (w : World.World) where
  Agrees-new_logger_at : (x : World.Logger) → Agrees h w (new_logger_at x) (World.alloc_logger x)
  unfolding Agrees new_logger_at World.alloc_logger ◌>>=◌ alone resume
  Agrees-new_logger_at x k = refl

  Agrees-find : (name : Bytes) → Agrees h w (Logging.find_managed name) (Manager.find_managed name)
  unfolding Agrees Logging.find_managed Manager.find_managed ◌>>=◌ alone resume
  Agrees-find name k = refl

  Agrees-put_managed :
      (name : Bytes) (l : ℕ) → Agrees h w (Logging.put_managed name l) (Manager.put_managed name l)
  unfolding Agrees Logging.put_managed Manager.put_managed ◌>>=◌ alone resume
  Agrees-put_managed name l k = refl

  -- The root is read before the logger is written, or after it is read.
  Agrees-put_root :
      (l : ℕ) (p : Prog ℕ) (m : M ℕ)
      → ((v : World.World) → Agrees h v p m)
      → Agrees h w
          (Logging.root_of >>= λ r. write_logger l (λ lg. record lg { root = some r }) >> p)
          (World.◌>>=◌ (logger_at l) (λ lg.
            World.◌>>=◌ Manager.root_of
              (λ r. World.◌>>◌ (put_logger l (record lg { root = some r })) m)))
  unfolding Agrees Logging.root_of Manager.root_of write_logger logger_at put_logger modify found
      World.deref ◌>>=◌ alone resume
  Agrees-put_root l p m a k = elim (Option-cases (get_elem? w.loggers l)) [
    | inl e ↦ ground (arith, e)
    | inr (lg, e) ↦
        let to = record lg { root = some w.root } in
        ground (arith, e, a (record w { loggers = set w.loggers l to }) k)
  ]

new_logger-Agrees :
    (h : List Lock) (w : World.World) (name : Bytes)
    → Agrees h w (Logging.new_logger name) (Logger.new_logger name)
unfolding Logging.new_logger Logger.new_logger
new_logger-Agrees h w name =
    Agrees-bind h (Logging.new_formatter _) _ (Logger.new_formatter _) _
      (Agrees-new_formatter h w _) (λ f v e. Agrees-new_logger_at h v _)

create-Agrees :
    (h : List Lock) (w : World.World) (name : Bytes)
    → Agrees h w (Logging.create name) (Manager.create name)
unfolding Logging.create Manager.create
create-Agrees h w name =
    Agrees-bind h (Logging.new_logger name) _ (Logger.new_logger name) _
      (new_logger-Agrees h w name)
      (λ l v e. Agrees-put_root h v l _ _ (λ w.
        Agrees-bind h (Logging.put_managed name l) _ (Manager.put_managed name l) _
          (Agrees-put_managed h w name l) (λ u w e. Agrees-ret h w l)))

pub get_logger-Agrees :
    (h : List Lock) (w : World.World) (name : Bytes)
    → Agrees h w (Logging.get_logger name) (Manager.get_logger name)
unfolding Logging.get_logger Manager.get_logger
get_logger-Agrees h w name = Agrees-locked h w manager_lock _ _ (λ free.
    let h' = manager_lock ∷ h in
    Agrees-bind h' (Logging.find_managed name) _ (Manager.find_managed name)
      (λ o. elim o [ some l ↦ World.pure l | none ↦ Manager.create name ]) (Agrees-find h' w name)
      (λ o v e.
        Agrees-option h' v o (Logging.create name) pure (Manager.create name) World.pure
          (create-Agrees h' v name) (Agrees-ret h' v)))
