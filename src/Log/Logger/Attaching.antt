-- ===== src/Log/Logger/Attaching.antt =====
-- `addAppender`, `delAppender` and the formatter that an appender adopts.
use rabbit_log_db.Base.{
  ℕ, List, [], ◌∷◌, ◌++◌, Option, none, some, ◌≡◌, refl, ap, arith, get_elem?, set, set_same,
  get_elem?-set_self, lt_of_get_elem?, Option-cases, inl, inr, ◌≢◌, ◌==◌, if◌then◌else◌,
}
use rabbit_log_db.Log.Appender.Fanout.{Ready, AllReady}
use rabbit_log_db.Log.Appender.{get_formatter}
use rabbit_log_db.Log.Formatter.{LogFormatter}
use rabbit_log_db.Log.Logger.Keeping.{
  Keeps, Keeps-set, AllReady-Keeps, WellFormed-Keeps, WellFormed-set,
}
use rabbit_log_db.Log.Logger.Routing.{WellFormed}
use rabbit_log_db.Log.Logger.{add_appender, del_appender}
use rabbit_log_db.Log.World.{
  Appender, Logger, World, ok, logger_at, with_lock, deref, is_held, appender_at, put_appender,
  put_logger,
}

-- The appender once it is attached to a logger whose formatter is `own`.
unfoldable pub adopted : Option LogFormatter → Appender → Appender
adopted own ap = elim ap.formatter [ none ↦ record ap { formatter = own } | some f ↦ ap ]

abbrev pub with_appender : Logger → ℕ → Logger
with_appender lg a = record lg { appenders = lg.appenders ++ a ∷ [] }

-- The store once appender `a`, which is `ap`, is attached to logger `l`, which is `lg`.
unfoldable pub attached : ℕ → Logger → ℕ → Appender → World → World
unfolding adopted
attached l lg a ap w = record w {
  appenders = set w.appenders a (adopted lg.formatter ap);
  loggers = set w.loggers l (with_appender lg a);
}

-- With no lock held, attaching an existing appender to an existing logger succeeds: the appender
-- goes to the end of the list, and takes the logger's formatter if it has none.
pub add_appender-attached :
    (l : ℕ) (lg : Logger) (a : ℕ) (ap : Appender) (w : World)
    → get_elem? w.loggers l ≡ some lg
    → get_elem? w.appenders a ≡ some ap
    → add_appender l a [] w ≡ ok (tt, attached l lg a ap w)
unfolding add_appender attached get_formatter with_lock deref is_held logger_at appender_at
    put_appender put_logger
add_appender-attached l lg a ap w hl ha = ground (arith, set_same w.appenders a ha)

adopted-formats :
    (own : Option LogFormatter) (ap : Appender) {f : LogFormatter}
    → own ≡ some f
    → (g : LogFormatter) × ((adopted own ap).formatter ≡ some g)
unfolding adopted
adopted-formats own ap {f} h = elim (Option-cases ap.formatter) [
  | inl e ↦ (f, ground arith)
  | inr (g, e) ↦ (g, ground arith)
]

pub AllReady-concat :
    (xs : List Appender) (rest : List ℕ) (a : ℕ)
    → AllReady xs rest
    → Ready xs a
    → AllReady xs (rest ++ a ∷ [])
AllReady-concat xs [] a h r = (r, tt)
AllReady-concat xs (b ∷ rest) a h r = (h.0, AllReady-concat xs rest a h.1 r)

-- Attaching keeps the store well formed.
pub attached-WellFormed :
    (l : ℕ) (lg : Logger) (a : ℕ) (ap : Appender) (w : World)
    → get_elem? w.loggers l ≡ some lg
    → get_elem? w.appenders a ≡ some ap
    → WellFormed w
    → WellFormed (attached l lg a ap w)
unfolding attached
attached-WellFormed l lg a ap w hl ha wf =
    WellFormed-set mid l lg (with_appender lg a) hl
      (AllReady-concat mid.appenders lg.appenders a
        (AllReady-Keeps lg.appenders keeps (wf.attached l lg hl)) ready)
      own.1 refl (WellFormed-Keeps refl keeps wf)
  where
    own : (f : LogFormatter) × (lg.formatter ≡ some f)
    own = wf.formatted l lg hl

    new : (g : LogFormatter) × ((adopted lg.formatter ap).formatter ≡ some g)
    new = adopted-formats lg.formatter ap own.1

    mid : World
    mid = record w { appenders = set w.appenders a (adopted lg.formatter ap) }

    keeps : Keeps w.appenders mid.appenders
    keeps = Keeps-set w.appenders a (adopted lg.formatter ap) new.1

    ready : Ready mid.appenders a
    ready = record {
      appender = adopted lg.formatter ap;
      formatter = new.0;
      at = get_elem?-set_self w.appenders a _ (lt_of_get_elem? w.appenders a ha);
      formats = new.1;
    }

-- The list without one address: what removing an appender is documented to leave.
unfoldable pub removed : ℕ → List ℕ → List ℕ
removed a [] = []
removed a (b ∷ rest) = if a == b then removed a rest else b ∷ removed a rest

abbrev pub appenders_of : World → ℕ → Option (List ℕ)
appenders_of w l = elim (get_elem? w.loggers l) [ none ↦ none | some lg ↦ some lg.appenders ]

-- Removing an appender succeeds and leaves the logger with no appender at all. So wherever a logger
-- has an appender other than the one named, the rest of its appenders is not what is left.
pub del_appender-clears :
    (l : ℕ) (lg : Logger) (a : ℕ) (w : World)
    → get_elem? w.loggers l ≡ some lg
    → removed a lg.appenders ≢ []
    → (w' : World) × (del_appender l a [] w ≡ ok (tt, w'))
      × (appenders_of w' l ≡ some [])
      × (appenders_of w' l ≢ some (removed a lg.appenders))
unfolding del_appender with_lock is_held logger_at deref put_logger
del_appender-clears l lg a w hl ne = (cleared, ground arith, at, λ e. ne (cc at))
  where
    cleared : World
    cleared = record w { loggers = set w.loggers l (record lg { appenders = [] }) }

    at : appenders_of cleared l ≡ some []
    at = ground (
      arith,
      get_elem?-set_self w.loggers l (record lg { appenders = [] })
          (lt_of_get_elem? w.loggers l hl),
    )
