-- ===== src/Log/Threads/Alone/Logging.antt =====
-- Loggers of Log/Log.cpp: a thread alone, and the model without threads.
use rabbit_log_db.Base.{
  ℕ, zero, suc, not, List, [], ◌∷◌, Option, none, some, refl, arith, inl, inr, Bytes, Option-cases,
  get_elem?, set, get_elem?-set_self, lt_of_get_elem?,
}
use rabbit_log_db.Log.Appender
use rabbit_log_db.Log.Event.{LogEvent}
use rabbit_log_db.Log.Formatter.{LogFormatter, init, unclosed, parse_error}
use rabbit_log_db.Log.Level.{Level, at_least}
use rabbit_log_db.Log.Logger
use rabbit_log_db.Log.Threads.Alone.Appending as Appenders
use rabbit_log_db.Log.Threads.Alone.{
  Agrees, alone, resume, Agrees-bind, Agrees-ret, Agrees-locked, Agrees-if, Agrees-option,
  Agrees-each, Agrees-read_logger, Agrees-read_appender, Agrees-known_logger, Agrees-put_appender,
  Agrees-write_logger, appender_at-ok, logger_at-ok,
}
use rabbit_log_db.Log.Threads.Appending
use rabbit_log_db.Log.Threads.Logging
use rabbit_log_db.Log.Threads.{
  out_of_fuel, Prog, ◌>>=◌, ◌>>◌, pure, modify, found, deref, write_logger, read_logger,
  read_appender, print, each,
}
use rabbit_log_db.Log.World
use rabbit_log_db.Log.World.{
  Lock, Outside, appender_lock, logger_lock, appender_at, logger_at, put_logger, M,
}

module _ (h : List Lock) (w : World.World) where
  Agrees-print : (text : Bytes) → Agrees h w (print text) (World.print text)
  unfolding Agrees print World.print ◌>>=◌ alone resume
  Agrees-print text k = refl

Agrees-no_fuel :
    (A : Type 0) (h : List Lock) (w : World.World)
    → Agrees {A = A} h w out_of_fuel (World.fail World.no_fuel)
unfolding Agrees ◌>>=◌ alone resume
Agrees-no_fuel A h w k = refl

module _ (h : List Lock) (w : World.World) where
  pub Agrees-new_formatter :
      (pattern : Bytes) → Agrees h w (Logging.new_formatter pattern) (Logger.new_formatter pattern)
  unfolding Logging.new_formatter Logger.new_formatter
  Agrees-new_formatter pattern =
      Agrees-option h w (init pattern) _ _ _ _ (Agrees-no_fuel _ h w) (λ f.
        Agrees-bind h (each (unclosed pattern) _) _ (World.each (unclosed pattern) _) _
          (Agrees-each (unclosed pattern) _ _ (λ r h w. Agrees-print h w (parse_error pattern r)) h
            w)
          (λ u v e. Agrees-ret h v f))

module _ (h : List Lock) (w : World.World) (l : ℕ) where
  pub set_level-Agrees :
      (val : Level) → Agrees h w (Logging.set_level l val) (Logger.set_level l val)
  unfolding Logging.set_level Logger.set_level
  set_level-Agrees val = Agrees-write_logger h w l (λ x. record x { level = val })

  pub del_appender-Agrees :
      (a : ℕ) → Agrees h w (Logging.del_appender l a) (Logger.del_appender l a)
  unfolding Logging.del_appender Logger.del_appender
  del_appender-Agrees a =
      Agrees-locked h w (logger_lock l) _ _
        (λ e. Agrees-write_logger (logger_lock l ∷ h) w l (λ x. record x { appenders = [] }))

inherit-Agrees :
    (val : Option LogFormatter) (i : ℕ) (h : List Lock) (w : World.World)
    → Agrees h w (Logging.inherit val i) (Logger.inherit val i)
unfolding Logging.inherit Logger.inherit
inherit-Agrees val i h w = Agrees-locked h w (appender_lock i) _ _ (λ free.
    let h' = appender_lock i ∷ h in
    Agrees-bind h' (read_appender i) _ (appender_at i) _ (Agrees-read_appender h' w i) (λ x v known.
      let (is, same) = appender_at-ok h' w i known in
      Agrees-if h' v (not x.has_formatter) _ _ _ _
        (Agrees-put_appender h' v i (λ x. record x { formatter = val }) (rw same at is))
        (Agrees-ret h' v tt)))

-- The logger is written before its appenders are read, or after.
Agrees-write_read :
    (h : List Lock) (w : World.World) (l : ℕ) (g : World.Logger → World.Logger)
    (p : World.Logger → Prog (Unit {0})) (m : World.Logger → M (Unit {0}))
    → ((lg : World.Logger) (v : World.World) → Agrees h v (p (g lg)) (m lg))
    → Agrees h w
        (write_logger l g >> (read_logger l >>= p))
        (World.◌>>=◌ (logger_at l) (λ lg. World.◌>>◌ (put_logger l (g lg)) (m lg)))
unfolding Agrees write_logger read_logger deref logger_at put_logger modify found World.deref ◌>>=◌
    alone resume
Agrees-write_read h w l g p m a k = elim (Option-cases (get_elem? w.loggers l)) [
  | inl e ↦ ground (arith, e)
  | inr (lg, e) ↦
      let again = get_elem?-set_self w.loggers l (g lg) (lt_of_get_elem? w.loggers l e) in
      let next = a lg (record w { loggers = set w.loggers l (g lg) }) k in
      ground (arith, e, again, next)
]

pub set_formatter-Agrees :
    (h : List Lock) (w : World.World) (l : ℕ) (val : Option LogFormatter)
    → Agrees h w (Logging.set_formatter l val) (Logger.set_formatter l val)
unfolding Logging.set_formatter Logger.set_formatter
set_formatter-Agrees h w l val = Agrees-locked h w (logger_lock l) _ _ (λ free.
    Agrees-write_read (logger_lock l ∷ h) w l (λ x. record x { formatter = val })
      (λ x. each x.appenders (Logging.inherit val))
      (λ x. World.each x.appenders (Logger.inherit val))
      (λ x v.
        Agrees-each x.appenders (Logging.inherit val) (Logger.inherit val) (inherit-Agrees val)
          (logger_lock l ∷ h) v))

pub set_pattern-Agrees :
    (h : List Lock) (w : World.World) (l : ℕ) (val : Bytes)
    → Agrees h w (Logging.set_pattern l val) (Logger.set_pattern l val)
unfolding Logging.set_pattern Logger.set_pattern
set_pattern-Agrees h w l val =
    Agrees-bind h (print _) _ (World.print _) _ (Agrees-print h w _) (λ u w e.
      Agrees-bind h (Logging.new_formatter val) _ (Logger.new_formatter val) _
        (Agrees-new_formatter h w val)
        (λ f w e.
          Agrees-bind h (read_logger l) _ (logger_at l) _ (Agrees-read_logger h w l) (λ x w e.
            Agrees-bind h _ _ _ _
              (Agrees-if h w f.error _ _ _ _ (Agrees-print h w _) (Agrees-ret h w tt))
              (λ u w e. set_formatter-Agrees h w l (some f)))))

-- The level is read outside the lock, the appenders and the root again inside it.
pub log-Agrees :
    (out : Outside) (f l : ℕ) (lv : Level) (e : LogEvent) (h : List Lock) (w : World.World)
    → Agrees h w (Logging.log out f l lv e) (Logger.log out f l lv e)
unfolding Logging.log Logger.log
log-Agrees out zero l lv e h w = Agrees-no_fuel _ h w
log-Agrees out (suc f) l lv e h w =
    Agrees-bind h (read_logger l) _ (logger_at l) _ (Agrees-read_logger h w l) (λ lg v known.
      let (is, same) = logger_at-ok h w l known in
      let h' = logger_lock l ∷ h in
      Agrees-if h v (at_least lv lg.level) _ _ _ _
        (Agrees-locked h v (logger_lock l) _ _ (λ free.
          Agrees-known_logger h' v l _ _ (rw same at is)
            (elim lg.appenders
              as (λ xs.
                Agrees {A = Unit {0}} h' v
                  (elim xs [
                    | a ∷ rest ↦ each (a ∷ rest) (λ i. Appending.log out i lv e)
                    | [] ↦ elim lg.root [ none ↦ pure tt | some r ↦ Logging.log out f r lv e ]
                  ])
                  (elim xs [
                    | a ∷ rest ↦ World.each (a ∷ rest) (λ i. Appender.log out i lv e)
                    | [] ↦ elim lg.root [ none ↦ World.pure tt | some r ↦ Logger.log out f r lv e ]
                  ])) [
                    | a ∷ rest ↦
                        Agrees-each (a ∷ rest) (λ i. Appending.log out i lv e)
                          (λ i. Appender.log out i lv e) (Appenders.log-Agrees out lv e) h' v
                    | [] ↦
                        Agrees-option h' v lg.root (pure tt) (λ r. Logging.log out f r lv e)
                          (World.pure tt) (λ r. Logger.log out f r lv e) (Agrees-ret h' v tt)
                          (λ r. log-Agrees out f r lv e h' v)
                  ])))
        (Agrees-ret h v tt))
