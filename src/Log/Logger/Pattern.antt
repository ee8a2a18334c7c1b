-- ===== src/Log/Logger/Pattern.antt =====
-- The formatter of a logger set from a pattern, valid or not, and set to null.
use rabbit_log_db.Base.{
  ℕ, suc, true, false, List, [], ◌∷◌, ◌++◌, none, some, ◌≡◌, refl, ap, arith, Bytes, codes,
  get_elem?, set, get_elem?-set_self, lt_of_get_elem?, if◌then◌else◌, append-nil, Bool-cases, inl,
  inr,
}
use rabbit_log_db.Log.Appender.Fanout.{Ready, AllReady}
use rabbit_log_db.Log.Appender
use rabbit_log_db.Log.Event.{LogEvent}
use rabbit_log_db.Log.Formatter.{LogFormatter, init}
use rabbit_log_db.Log.Level.{Level, at_least}
use rabbit_log_db.Log.Logger.Formatting.{
  inherited, inherit_at, inherit_all, AllExist, formatted, contains, get_elem?-inherit_all,
  set_formatter-formatted,
}
use rabbit_log_db.Log.Logger.Keeping.{
  Keeps, Keeps-set, Keeps-refl, Keeps-trans, AllReady-Keeps, WellFormed-Keeps, WellFormed-set,
}
use rabbit_log_db.Log.Logger.Making.{complaints, new_formatter-prints}
use rabbit_log_db.Log.Logger.Routing.{WellFormed}
use rabbit_log_db.Log.Logger.{set_formatter, set_pattern, new_formatter, log}
use rabbit_log_db.Log.World.{
  Appender, Logger, World, Outside, ok, fault, bad_pointer, logger_at, with_lock, deref, is_held,
  print, each, appender_at, stdout,
}

pub AllReady-AllExist : (xs : List Appender) (rest : List ℕ) → AllReady xs rest → AllExist xs rest
AllReady-AllExist xs [] h = tt
AllReady-AllExist xs (a ∷ rest) h = ((h.0.appender, h.0.at), AllReady-AllExist xs rest h.1)

inherited-formats :
    (f : LogFormatter) (ap : Appender) {g : LogFormatter}
    → ap.formatter ≡ some g
    → (h : LogFormatter) × ((inherited (some f) ap).formatter ≡ some h)
unfolding inherited
inherited-formats f ap {g} e = elim (Bool-cases ap.has_formatter) [
  | inl t ↦ (g, ground arith)
  | inr t ↦ (f, ground arith)
]

inherit_at-Keeps :
    (f : LogFormatter) (i : ℕ) (xs : List Appender)
    → Ready xs i
    → Keeps xs (inherit_at (some f) i xs)
unfolding inherit_at
inherit_at-Keeps f i xs r =
    let (g, e) = inherited-formats f r.appender r.formats in
    let k = Keeps-set xs i (inherited (some f) r.appender) e in
    let same : inherit_at (some f) i xs ≡ set xs i (inherited (some f) r.appender) =
      ground (arith, r.at) in
    rw same k

pub inherit_all-Keeps :
    (f : LogFormatter) (rest : List ℕ) (xs : List Appender)
    → AllReady xs rest
    → Keeps xs (inherit_all (some f) rest xs)
unfolding inherit_all
inherit_all-Keeps f [] xs r = Keeps-refl xs
inherit_all-Keeps f (i ∷ rest) xs r =
    let k = inherit_at-Keeps f i xs r.0 in
    Keeps-trans k (inherit_all-Keeps f rest (inherit_at (some f) i xs) (AllReady-Keeps rest k r.1))

-- Setting a formatter that is not null keeps the store well formed.
pub formatted-WellFormed :
    (l : ℕ) (lg : Logger) (f : LogFormatter) (w : World)
    → get_elem? w.loggers l ≡ some lg
    → WellFormed w
    → WellFormed (formatted l lg (some f) w)
unfolding formatted
formatted-WellFormed l lg f w hl wf =
    WellFormed-set mid l lg (record lg { formatter = some f }) hl
      (AllReady-Keeps lg.appenders keeps (wf.attached l lg hl)) refl refl
      (WellFormed-Keeps refl keeps wf)
  where
    mid : World
    mid = record w { appenders = inherit_all (some f) lg.appenders w.appenders }

    keeps : Keeps w.appenders mid.appenders
    keeps = inherit_all-Keeps f lg.appenders w.appenders (wf.attached l lg hl)

-- What `setFormatter` itself prints about a pattern that is invalid.
pub remarks : Logger → Bytes → LogFormatter → Bytes
remarks lg val f =
    if f.error
    then codes "Logger setFormatter name="
      ++ (lg.name ++ (codes "value = " ++ (val ++ codes "invalid formatter\n")))
    else []

unfoldable pub said : Logger → Bytes → LogFormatter → World → World
unfolding remarks
said lg val f w = record w {
  console =
      ((w.console ++ (codes "---" ++ (val ++ codes "\n"))) ++ complaints val) ++ remarks lg val f;
}

-- In a well-formed store with no lock held, setting a pattern gives an existing logger the formatter
-- that `init` makes of it, and each attached appender that has none of its own. An invalid pattern is
-- reported and then treated no differently: the formatter in error is put in place. The console has
-- the line with the pattern, one line for each brace that is not closed, and the report.
pub set_pattern-formatted :
    (l : ℕ) (lg : Logger) (val : Bytes) {f : LogFormatter} (w : World)
    → WellFormed w
    → get_elem? w.loggers l ≡ some lg
    → init val ≡ some f
    → set_pattern l val [] w ≡ ok (tt, formatted l lg (some f) (said lg val f w))
unfolding set_pattern print logger_at deref said
set_pattern-formatted l lg val {f} w wf hl hi = elim (Bool-cases f.error) [
  | inl e ↦ ground (arith, made, set_formatter-formatted l lg (some f) (said lg val f w) hl exist)
  | inr e ↦ ground (
    arith,
    made,
    set_formatter-formatted l lg (some f) (said lg val f w) hl exist,
    append-nil ((w.console ++ (codes "---" ++ (val ++ codes "\n"))) ++ complaints val),
  )
]
  where
    asked : World
    asked = record w { console = w.console ++ (codes "---" ++ (val ++ codes "\n")) }

    made :
        new_formatter val [] asked
        ≡ ok (f, record asked { console = asked.console ++ complaints val })
    made = new_formatter-prints val [] asked hi

    exist : AllExist w.appenders lg.appenders
    exist = AllReady-AllExist w.appenders lg.appenders (wf.attached l lg hl)

-- After a logger was given a null formatter, logging through it at a level that passes follows a null
-- pointer as soon as its first appender lets the level pass and has no formatter of its own.
pub set_formatter_null-faults :
    (out : Outside) (l : ℕ) (lg : Logger) (a : ℕ) (rest : List ℕ) (ap : Appender) (w : World)
    (f : ℕ) (lv : Level) (e : LogEvent)
    → get_elem? w.loggers l ≡ some lg
    → AllExist w.appenders lg.appenders
    → lg.appenders ≡ a ∷ rest
    → get_elem? w.appenders a ≡ some ap
    → ap.sink ≡ stdout
    → ap.has_formatter ≡ false
    → at_least lv lg.level ≡ true
    → at_least lv ap.level ≡ true
    → (w' : World) × (set_formatter l none [] w ≡ ok (tt, w'))
      × (log out (suc f) l lv e [] w' ≡ fault bad_pointer)
unfolding log formatted with_lock is_held logger_at deref each Appender.log Appender.log_to
    Appender.emit appender_at inherited contains
set_formatter_null-faults out l lg a rest ap w f lv e hl he hs ha hk ho hv hp = (
  formatted l lg none w,
  set_formatter-formatted l lg none w hl he,
  ground (
    arith,
    get_elem?-set_self w.loggers l (record lg { formatter = none })
        (lt_of_get_elem? w.loggers l hl),
    get_elem?-inherit_all none lg.appenders a w.appenders,
  ),
)
