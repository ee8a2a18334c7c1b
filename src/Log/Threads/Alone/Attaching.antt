-- ===== src/Log/Threads/Alone/Attaching.antt =====
-- `Logger::addAppender` of Log/Log.cpp: a thread alone, and the model without threads.
use rabbit_log_db.Base.{
  ℕ, false, List, [], ◌∷◌, ◌++◌, Option, none, some, ◌≡◌, arith, inl, inr, Bool-cases, Option-cases,
  get_elem?,
}
use rabbit_log_db.Log.Appender
use rabbit_log_db.Log.Formatter.{LogFormatter}
use rabbit_log_db.Log.Logger
use rabbit_log_db.Log.Threads.Alone.Appending as Appenders
use rabbit_log_db.Log.Threads.Alone.{
  Agrees, alone, resume, Agrees-bind, Agrees-ret, Agrees-locked, Agrees-known_logger,
  Agrees-put_logger, Agrees-write_appender,
}
use rabbit_log_db.Log.Threads.Appending
use rabbit_log_db.Log.Threads.Logging
use rabbit_log_db.Log.Threads.{
  locked, Prog, ◌>>=◌, ◌>>◌, modify, found, deref, write_logger, read_logger,
}
use rabbit_log_db.Log.World
use rabbit_log_db.Log.World.{
  ok, Lock, appender_lock, logger_lock, appender_at, logger_at, put_logger, put_appender, M,
  with_lock, is_held,
}

-- What follows the reading of a logger that is there.
Agrees-at :
    {A : Type 0} {lg : World.Logger} (h : List Lock) (w : World.World) (l : ℕ) (p : Prog A)
    (n : World.Logger → M A)
    → get_elem? w.loggers l ≡ some lg
    → Agrees h w p (n lg)
    → Agrees h w p (World.◌>>=◌ (logger_at l) n)
unfolding Agrees logger_at World.deref resume
Agrees-at h w l p n is a k = ground (arith, is, a k)

-- What `adopt` does when it succeeds leaves the loggers alone.
adopt-loggers :
    (h : List Lock) (w v : World.World) (a : ℕ) (own f : Option LogFormatter)
    → Logger.adopt a own f h w ≡ ok (tt, v)
    → w.loggers ≡ v.loggers
unfolding Logger.adopt with_lock appender_at World.deref put_appender
adopt-loggers h w v a own (some f) e = ground (arith, e)
adopt-loggers h w v a own none e = elim (Option-cases (get_elem? w.appenders a)) [
  | inl gone ↦ absurd (ground (arith, gone, e))
  | inr (x, is) ↦ ground (arith, is, e)
]

-- `adopt` reads the formatter of the logger again.
adopt-Agrees :
    (h : List Lock) (w : World.World) (l a : ℕ) (lg : World.Logger) (f : Option LogFormatter)
    → get_elem? w.loggers l ≡ some lg
    → Agrees h w (Logging.adopt l a f) (Logger.adopt a lg.formatter f)
unfolding Logging.adopt Logger.adopt
adopt-Agrees h w l a lg (some f) is = Agrees-ret h w tt
adopt-Agrees h w l a lg none is = Agrees-locked h w (appender_lock a) _ _ (λ free.
    let h' = appender_lock a ∷ h in
    Agrees-known_logger h' w l _ _ is
      (Agrees-write_appender h' w a (λ x. record x { formatter = lg.formatter })))

-- Without the logger both stop.
adopt-gone :
    (h : List Lock) (w : World.World) (l a : ℕ) (f : Option LogFormatter)
    (g : World.Logger → World.Logger) (n : World.Logger → M (Unit {0}))
    → is_held (appender_lock a) h ≡ false
    → get_elem? w.loggers l ≡ none
    → Agrees h w (Logging.adopt l a f >> write_logger l g) (World.◌>>=◌ (logger_at l) n)
unfolding Agrees Logging.adopt logger_at World.deref read_logger write_logger locked deref modify
    found ◌>>=◌ alone resume
adopt-gone h w l a (some f) g n free gone k = ground (arith, gone)
adopt-gone h w l a none g n free gone k = ground (arith, gone, free)

-- `getFormatter` of an appender succeeds only where its mutex is not held, and changes nothing.
get_formatter-ok :
    (h : List Lock) (w v : World.World) (a : ℕ) (f : Option LogFormatter)
    → Appender.get_formatter a h w ≡ ok (f, v)
    → (is_held (appender_lock a) h ≡ false) × (w ≡ v)
unfolding Appender.get_formatter with_lock appender_at World.deref
get_formatter-ok h w v a f e = elim (Bool-cases (is_held (appender_lock a) h)) [
  | inl held ↦ absurd (ground (arith, held, e))
  | inr free ↦ elim (Option-cases (get_elem? w.appenders a)) [
    | inl gone ↦ absurd (ground (arith, free, gone, e))
    | inr (x, is) ↦ (free, ground (arith, free, is, e))
  ]
]

module _ (h : List Lock) (w : World.World) (l a : ℕ) where
  -- The logger is read after `adopt`, or before.
  Agrees-adopt :
      (f : Option LogFormatter)
      → is_held (appender_lock a) h ≡ false
      → Agrees h w
          (Logging.adopt l a f
            >> write_logger l (λ lg. record lg { appenders = lg.appenders ++ a ∷ [] }))
          (World.◌>>=◌ (logger_at l) (λ lg.
            World.◌>>◌
              (Logger.adopt a lg.formatter f)
              (put_logger l (record lg { appenders = lg.appenders ++ a ∷ [] }))))
  Agrees-adopt f free =
      let g : World.Logger → World.Logger =
        λ lg. record lg { appenders = lg.appenders ++ a ∷ [] } in
      elim (Option-cases (get_elem? w.loggers l)) [
        | inl gone ↦ adopt-gone h w l a f g _ free gone
        | inr (lg, is) ↦ Agrees-at h w l _ _ is (
            Agrees-bind h (Logging.adopt l a f) _ (Logger.adopt a lg.formatter f) _
              (adopt-Agrees h w l a lg f is)
              (λ u v e.
                let same = adopt-loggers h w v a lg.formatter f e in
                Agrees-put_logger h v l g (rw same at is)))
      ]

pub add_appender-Agrees :
    (h : List Lock) (w : World.World) (l a : ℕ)
    → Agrees h w (Logging.add_appender l a) (Logger.add_appender l a)
unfolding Logging.add_appender Logger.add_appender
add_appender-Agrees h w l a = Agrees-locked h w (logger_lock l) _ _ (λ free.
    let h' = logger_lock l ∷ h in
    Agrees-bind h' (Appending.get_formatter a) _ (Appender.get_formatter a) _
      (Appenders.get_formatter-Agrees h' w a)
      (λ f v e. Agrees-adopt h' v l a f (get_formatter-ok h' w v a f e).0))
