-- ===== src/Log/Logger/Routing.antt =====
-- Where a logger sends an event, and that it gets there.
use rabbit_log_db.Base.{
  ℕ, suc, Bool, false, List, [], ◌∷◌, none, some, ◌≡◌, refl, ◌∙◌, arith, ◌==◌, Bytes, get_elem?,
  Option-cases, inl, inr, if◌then◌else◌,
}
use rabbit_log_db.Log.Appender.Fanout.{AllReady, deliver_all, each-deliver_all}
use rabbit_log_db.Log.Appender.{name_at}
use rabbit_log_db.Log.Event.{LogEvent}
use rabbit_log_db.Log.Formatter.{LogFormatter}
use rabbit_log_db.Log.Formatter.Rendering.{sender}
use rabbit_log_db.Log.Level.{Level, at_least}
use rabbit_log_db.Log.Logger.{log}
use rabbit_log_db.Log.World.{
  Logger, World, Outside, Lock, logger_lock, appender_lock, ok, is_held, logger_at, with_lock,
}

-- What holds of the store between calls: the loggers and the appenders in use have formatters, and
-- a root exists and has no root itself.
pub record WellFormed (w : World) : Type 0 where
  pub attached :
      (l : ℕ) (lg : Logger) → get_elem? w.loggers l ≡ some lg → AllReady w.appenders lg.appenders
  pub formatted :
      (l : ℕ) (lg : Logger)
      → get_elem? w.loggers l ≡ some lg
      → (f : LogFormatter) × (lg.formatter ≡ some f)
  pub rooted :
      (l : ℕ) (lg : Logger) (r : ℕ)
      → get_elem? w.loggers l ≡ some lg
      → lg.root ≡ some r
      → (rg : Logger) × (get_elem? w.loggers r ≡ some rg) × (rg.root ≡ none)

-- The appenders of a logger that lets the level pass.
unfoldable pub own_targets : Level → Logger → List ℕ
own_targets lv lg = if at_least lv lg.level then lg.appenders else []

-- The appenders that an event reaches through a logger: its own, or those of its root if it has
-- none; each logger on the way has to let the level pass.
unfoldable pub targets : World → Level → Logger → List ℕ
unfolding own_targets
targets w lv lg =
    if at_least lv lg.level
    then elim lg.appenders [
      | a ∷ rest ↦ a ∷ rest
      | [] ↦ elim lg.root [
        | none ↦ []
        | some r ↦ elim (get_elem? w.loggers r) [ none ↦ [] | some rg ↦ own_targets lv rg ]
      ]
    ]
    else []

module _ (out : Outside) (lv : Level) (e : LogEvent) {n : Bytes} where
  -- A logger that has no root, under the locks of other loggers.
  log_root :
      (f : ℕ) (l : ℕ) (lg : Logger) (held : List Lock) (w : World)
      → sender (name_at w) e ≡ some n
      → get_elem? w.loggers l ≡ some lg
      → lg.root ≡ none
      → AllReady w.appenders lg.appenders
      → is_held (logger_lock l) held ≡ false
      → ((a : ℕ) → is_held (appender_lock a) held ≡ false)
      → log out (suc f) l lv e held w ≡ ok (tt, deliver_all out n lv e (own_targets lv lg) w)
  unfolding log own_targets with_lock logger_at deliver_all is_held
  log_root f l lg held w hn hl hr ready free others =
      ground
        (arith, each-deliver_all out n lv e lg.appenders (logger_lock l ∷ held) w others hn ready)

  log_rooted :
      (f : ℕ) (l r : ℕ) (lg rg : Logger) (w : World)
      → sender (name_at w) e ≡ some n
      → get_elem? w.loggers l ≡ some lg
      → lg.root ≡ some r
      → get_elem? w.loggers r ≡ some rg
      → rg.root ≡ none
      → AllReady w.appenders lg.appenders
      → AllReady w.appenders rg.appenders
      → log out (suc (suc f)) l lv e [] w ≡ ok (tt, deliver_all out n lv e (targets w lv lg) w)
  unfolding log targets with_lock logger_at is_held deliver_all
  log_rooted f l r lg rg w hn hl hr hg rr ready root_ready = ground (
    arith,
    each-deliver_all out n lv e lg.appenders (logger_lock l ∷ []) w (λ a. refl) hn ready,
    log_root f r rg (logger_lock l ∷ []) w hn hg rr root_ready (other refl) (λ a. refl),
  )
    where
      other : {b : Bool} → r == l ≡ b → is_held (logger_lock r) (logger_lock l ∷ []) ≡ false
      other {b} h = ground arith

  -- In a well-formed store and with no lock held, logging an event that has a file name and whose
  -- logger exists, through any logger, succeeds: no null pointer is followed, no thread waits for its
  -- own lock, and two levels of fuel are enough. The event goes to the targets of the logger in turn,
  -- and nothing else changes.
  pub log-targets :
      (f : ℕ) (l : ℕ) (lg : Logger) (w : World)
      → WellFormed w
      → sender (name_at w) e ≡ some n
      → get_elem? w.loggers l ≡ some lg
      → log out (suc (suc f)) l lv e [] w ≡ ok (tt, deliver_all out n lv e (targets w lv lg) w)
  unfolding targets is_held
  log-targets f l lg w wf hn hl = elim (Option-cases lg.root) [
    | inl h ↦
        log_root (suc f) l lg [] w hn hl h (wf.attached l lg hl) refl (λ a. refl) ∙ ground arith
    | inr (r, h) ↦
        let (rg, hg, rr) = wf.rooted l lg r hl h in
        log_rooted f l r lg rg w hn hl h hg rr (wf.attached l lg hl) (wf.attached r rg hg)
  ]
