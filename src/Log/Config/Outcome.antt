-- ===== src/Log/Config/Outcome.antt =====
-- What the listener of `LogIniter` makes of one configuration, described without locks and faults.
use rabbit_log_db.Base.{
  ℕ, not, List, [], ◌++◌, Option, some, ◌≡◌, refl, ap, ◌∙◌, arith, inl, inr, if◌then◌else◌, codes,
  length, get_elem?, set, set-set, get_elem?-set_self, lt_of_get_elem?, Bool-cases,
}
use rabbit_log_db.Log.Config.Apply.{Program, Clears, configure}
use rabbit_log_db.Log.Config.Running.{Each}
use rabbit_log_db.Log.Config.Single.{IsKnown}
use rabbit_log_db.Log.Config.{LogDefine, empty}
use rabbit_log_db.Log.Formatter.Runs.{init_total}
use rabbit_log_db.Log.Formatter.{LogFormatter, init}
use rabbit_log_db.Log.Level.{Level}
use rabbit_log_db.Log.Logger
use rabbit_log_db.Log.Logger.Formatting.{formatted, inherit_all}
use rabbit_log_db.Log.Logger.Keeping.{WellFormed-set}
use rabbit_log_db.Log.Logger.Pattern.{said, set_pattern-formatted}
use rabbit_log_db.Log.Logger.Routing.{WellFormed}
use rabbit_log_db.Log.Manager.Growth.{length-inherit_all}
use rabbit_log_db.Log.World.{
  Appender, Logger, World, Outside, ok, M, pure, ◌>>=◌, ◌>>◌, logger_at, put_logger, deref,
}
use rabbit_log_db.Log.Config.Planned.{planned_all, row}
use rabbit_log_db.Log.Config.Applied.{all-Applied}

-- The formatter of the configured logger: that of the pattern, if there is one.
unfoldable pub logger_formatter : LogDefine → Logger → Option LogFormatter
logger_formatter i lg = if not (empty i.formatter) then init i.formatter else lg.formatter

-- The old appenders: a new pattern goes to those of the logger that have no formatter of their own.
unfoldable pub old_appenders : LogDefine → Logger → List Appender → List Appender
unfolding logger_formatter
old_appenders i lg xs =
    if not (empty i.formatter) then inherit_all (logger_formatter i lg) lg.appenders xs else xs

-- The part before the appenders.
record Prepared (i : LogDefine) (l : ℕ) (lg : Logger) (w : World) (patterned : M (Unit {0}))
    (v : World) : Type 0 where
  end : World
  runs : patterned [] v ≡ ok (tt, end)
  loggers :
      end.loggers
      ≡ set w.loggers l (record lg { level = i.level; formatter = logger_formatter i lg })
  appenders : end.appenders ≡ old_appenders i lg w.appenders
  written : end.written ≡ w.written
  opens : end.opens ≡ w.opens

level_set :
    (l : ℕ) (lg : Logger) (lv : Level) (w : World)
    → get_elem? w.loggers l ≡ some lg
    → Logger.set_level l lv [] w
      ≡ ok (tt, record w { loggers = set w.loggers l (record lg { level = lv }) })
unfolding Logger.set_level logger_at deref put_logger
level_set l lg lv w h = ground (arith, h)

prepared :
    (i : LogDefine) (l : ℕ) (lg : Logger) (w : World)
    → WellFormed w
    → get_elem? w.loggers l ≡ some lg
    → Prepared i l lg w
        (if not (empty i.formatter) then Logger.set_pattern l i.formatter else pure tt)
        (record w { loggers = set w.loggers l (record lg { level = i.level }) })
unfolding logger_formatter old_appenders said formatted
prepared i l lg w wf h =
    let lg' = record lg { level = i.level } in
    let w' = record w { loggers = set w.loggers l lg' } in
    let own = wf.formatted l lg h in
    let wf' : WellFormed w' = WellFormed-set w l lg lg' h (wf.attached l lg h) own.1 refl wf in
    let h' = get_elem?-set_self w.loggers l lg' (lt_of_get_elem? w.loggers l h) in
    let (f, e, p) = init_total i.formatter in
    elim (Bool-cases (empty i.formatter)) [
      | inl t ↦ record {
        end = w';
        runs = ground arith;
        loggers = ground arith;
        appenders = ground arith;
        written = refl;
        opens = refl;
      }
      | inr t ↦ record {
        end = formatted l lg' (some f) (said lg' i.formatter f w');
        runs = ground (arith, set_pattern-formatted l lg' i.formatter w' wf' h' e);
        loggers = ground (arith, e, set-set w.loggers l lg' (record lg' { formatter = some f }));
        appenders = ground (arith, e);
        written = refl;
        opens = refl;
      }
    ]

length-old_appenders :
    (i : LogDefine) (lg : Logger) (xs : List Appender) → length (old_appenders i lg xs) ≡ length xs
unfolding old_appenders
length-old_appenders i lg xs = elim (Bool-cases (empty i.formatter)) [
  | inl t ↦ ground arith
  | inr t ↦ ground (arith, length-inherit_all (logger_formatter i lg) lg.appenders xs)
]

-- In a well-formed store with no lock held, configuring an existing logger by a configuration whose
-- appenders have known types succeeds, if clearAppenders empties the list. The logger has the level of
-- the configuration, the formatter of its pattern or else the old one, and as appenders the new ones,
-- in order: each with the level, the file and the valid formatter that the configuration names, or else
-- with the logger's formatter, and those to the console left out with the flag "d". The old appenders
-- stay in the store, where a new pattern goes to those of the logger that have no formatter of their
-- own; the other loggers are as before, and nothing is written to a file.
pub configure-described :
    (out : Outside) (program : Program) (l : ℕ) (lg : Logger) (i : LogDefine) (w : World)
    → Clears program
    → WellFormed w
    → get_elem? w.loggers l ≡ some lg
    → Each IsKnown i.appenders
    → (v : World) × (configure out program l i [] w ≡ ok (tt, v))
      × (v.loggers
          ≡ set w.loggers l (record lg {
            level = i.level;
            formatter = logger_formatter i lg;
            appenders = row (length w.appenders) (
                length (
                  planned_all out
                    (logger_formatter i lg)
                    (program.has (codes "d"))
                    w.opens
                    i.appenders));
          }))
      × (v.appenders
          ≡ old_appenders i lg w.appenders
            ++ planned_all out
                (logger_formatter i lg)
                (program.has (codes "d"))
                w.opens
                i.appenders)
      × (v.written ≡ w.written)
unfolding configure
configure-described out program l lg i w clears wf h known =
    let p = prepared i l lg w wf h in
    let lg2 = record lg { level = i.level; formatter = logger_formatter i lg } in
    let lg3 = record lg2 { appenders = [] } in
    let at2 : get_elem? p.end.loggers l ≡ some lg2 =
      rw p.loggers (get_elem?-set_self w.loggers l lg2 (lt_of_get_elem? w.loggers l h)) in
    let u = record p.end { loggers = set p.end.loggers l lg3 } in
    let r =
      all-Applied out program l i i.appenders lg3 u known
        (get_elem?-set_self p.end.loggers l lg3 (lt_of_get_elem? p.end.loggers l at2)) in
    let size : length p.end.appenders ≡ length w.appenders =
      rw p.appenders (length-old_appenders i lg w.appenders) in
    (
      r.end,
      rw (level_set l lg i.level w h, ◌>>=◌, ◌>>◌)
          (rw (p.runs, ◌>>=◌, ◌>>◌) (rw (clears l lg2 p.end at2, ◌>>=◌, ◌>>◌) r.runs)),
      r.loggers
          ∙ set-set p.end.loggers l lg3 (final (length p.end.appenders) p.end.opens)
          ∙ ap (λ ls. set ls l (final (length p.end.appenders) p.end.opens)) p.loggers
          ∙ set-set w.loggers l lg2 (final (length p.end.appenders) p.end.opens)
          ∙ ap (λ k. set w.loggers l (final k p.end.opens)) size
          ∙ ap (λ n. set w.loggers l (final (length w.appenders) n)) p.opens,
      r.appenders ∙ rw (p.appenders, p.opens) refl,
      r.written ∙ p.written,
    )
  where
    final : ℕ → ℕ → Logger
    final k n = record lg {
      level = i.level;
      formatter = logger_formatter i lg;
      appenders = row k (
          length (planned_all out (logger_formatter i lg) (program.has (codes "d")) n i.appenders));
    }
