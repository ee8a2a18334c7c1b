-- ===== src/Log/Manager/Growth.antt =====
-- No logger and no appender goes away.
use rabbit_log_db.Base.{
  ℕ, ◌≤◌, List, [], ◌∷◌, Option, ◌≡◌, refl, sym, ap, ◌∙◌, arith, Bytes, length, get_elem?,
  length-set, length-append, Option-cases, inl, inr,
}
use rabbit_log_db.Log.Appender.Fanout.{Unchanged, length-configs}
use rabbit_log_db.Log.Formatter.{LogFormatter}
use rabbit_log_db.Log.Logger.Attaching.{attached}
use rabbit_log_db.Log.Logger.Formatting.{formatted, inherit_at, inherit_all}
use rabbit_log_db.Log.Manager.Lookup.{with_logger}
use rabbit_log_db.Log.World.{Appender, Logger, World}

pub record Grows (w w' : World) : Type 0 where
  pub loggers : length w.loggers ≤ length w'.loggers
  pub appenders : length w.appenders ≤ length w'.appenders

pub Grows-refl : (w : World) → Grows w w
Grows-refl w = record { loggers = omega arith; appenders = omega arith }

pub Grows-trans : {u v w : World} → Grows u v → Grows v w → Grows u w
Grows-trans g h = record { loggers = omega arith; appenders = omega arith }

-- Two stores with as many loggers and appenders.
pub Grows-eq :
    (w w' : World)
    → length w'.loggers ≡ length w.loggers
    → length w'.appenders ≡ length w.appenders
    → Grows w w'
Grows-eq w w' h k = record { loggers = omega arith; appenders = omega arith }

pub Unchanged-Grows : (w w' : World) → Unchanged w w' → Grows w w'
Unchanged-Grows w w' u = Grows-eq w w' (ap (λ (xs : List Logger). length xs) u.loggers) (
    sym (length-configs w'.appenders)
    ∙ ap (λ (xs : List Appender). length xs) u.appenders
    ∙ length-configs w.appenders)

length-inherit_at :
    (val : Option LogFormatter) (i : ℕ) (xs : List Appender)
    → length (inherit_at val i xs) ≡ length xs
unfolding inherit_at
length-inherit_at val i xs = elim (Option-cases (get_elem? xs i)) [
  | inl e ↦ rw (e, inherit_at) refl
  | inr (a, e) ↦ rw (e, inherit_at) (length-set xs i _)
]

pub length-inherit_all :
    (val : Option LogFormatter) (is : List ℕ) (xs : List Appender)
    → length (inherit_all val is xs) ≡ length xs
unfolding inherit_all
length-inherit_all val [] xs = refl
length-inherit_all val (i ∷ is) xs =
    length-inherit_all val is (inherit_at val i xs) ∙ length-inherit_at val i xs

pub formatted-Grows :
    (l : ℕ) (lg : Logger) (val : Option LogFormatter) (w : World) → Grows w (formatted l lg val w)
unfolding formatted
formatted-Grows l lg val w =
    Grows-eq w (formatted l lg val w) (length-set w.loggers l _)
      (length-inherit_all val lg.appenders w.appenders)

pub attached-Grows :
    (l : ℕ) (lg : Logger) (a : ℕ) (ap : Appender) (w : World) → Grows w (attached l lg a ap w)
unfolding attached
attached-Grows l lg a ap w =
    Grows-eq w (attached l lg a ap w) (length-set w.loggers l _) (length-set w.appenders a _)

pub with_logger-Grows : (name : Bytes) (w : World) → Grows w (with_logger name w)
unfolding with_logger
with_logger-Grows name w = record {
  loggers = omega (arith, length-append {0} w.loggers (_ ∷ []));
  appenders = omega arith;
}
