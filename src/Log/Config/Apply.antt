-- ===== src/Log/Config/Apply.antt =====
-- The listener of `LogIniter` of Log/Log.cpp, which applies a new configuration.
use rabbit_log_db.Base.{
  arith, get_elem?, set, ap, ◌∙◌, get_elem?-set_self, lt_of_get_elem?, set-set, ℕ, Bool, true, ◌&&◌,
  List, [], ◌∷◌, ◌++◌, Option, none, some, ◌≡◌, refl, ◌==◌, if◌then◌else◌, not, Bytes, codes,
  decimal, less,
}
use rabbit_log_db.Log.Appender
use rabbit_log_db.Log.Config.Comparing.{same_define_iff}
use rabbit_log_db.Log.Config.{LogAppenderDefine, LogDefine, empty, same_define, less_define}
use rabbit_log_db.Log.Level
use rabbit_log_db.Log.Logger
use rabbit_log_db.Log.World.{
  Logger, logger_at, deref, put_logger, World, Lock, Outside, ok, bad_pointer, M, pure, ◌>>=◌, ◌>>◌,
  fail, print, each,
}

-- What the listener uses that has no body in the repository: the macros SYLAR_LOG_NAME and
-- SYLAR_LOG_INFO on SYLAR_LOG_ROOT, `Logger::clearAppenders`, and `EnvMgr::has`.
pub record Program : Type 0 where
  pub log_name : Bytes → M ℕ
  pub log_info : Bytes → M (Unit {0})
  pub clear_appenders : ℕ → M (Unit {0})
  pub has : Bytes → Bool

-- `std::set<LogDefine>::find`: the element that is neither less nor greater.
unfoldable pub find_define : LogDefine → List LogDefine → Option LogDefine
unfolding less_define less
find_define i [] = none
find_define i (d ∷ ds) =
    if not (less_define d i) && not (less_define i d) then some d else find_define i ds

-- The formatter of a new appender, if the configuration has one.
unfoldable pub format_appender : LogDefine → LogAppenderDefine → ℕ → M (Unit {0})
format_appender i a ap =
    if not (empty a.formatter)
    then (do
      fmt ← Logger.new_formatter a.formatter
      if not fmt.error
          then Appender.set_formatter ap (some fmt)
          else print (
              codes "log.name="
              ++ (i.name
                  ++ (codes " appender type="
                      ++ (decimal a.type
                          ++ (codes " formatter=" ++ (a.formatter ++ codes " is invalid\n")))))))
    else pure tt

-- The end of the loop's body over the appenders, for the new appender `ap`.
unfoldable pub equip : ℕ → LogDefine → LogAppenderDefine → ℕ → M (Unit {0})
unfolding format_appender
equip logger i a ap = do
  Appender.set_level ap a.level
  format_appender i a ap
  Logger.add_appender logger ap

module _ (out : Outside) (program : Program) where
  -- The body of the loop over the appenders. An appender of another type is a null pointer, whose
  -- level is set.
  unfoldable pub apply_appender : ℕ → LogDefine → LogAppenderDefine → M (Unit {0})
  unfolding equip
  apply_appender logger i a =
      if a.type == 1
      then (do ap ← Appender.new_file out a.file; equip logger i a ap)
      else if a.type == 2
      then (if not (program.has (codes "d"))
          then (do ap ← Appender.new_stdout; equip logger i a ap)
          else pure tt)
      else fail bad_pointer

  -- The logger of a new or changed configuration.
  unfoldable pub configure : ℕ → LogDefine → M (Unit {0})
  unfolding apply_appender
  configure logger i = do
    Logger.set_level logger i.level
    if not (empty i.formatter) then Logger.set_pattern logger i.formatter else pure tt
    program.clear_appenders logger
    each i.appenders (apply_appender logger i)

  -- The body of the loop over the new configurations.
  unfoldable pub apply_define : List LogDefine → LogDefine → M (Unit {0})
  unfolding configure same_define find_define
  apply_define old i = elim (find_define i old) [
    | none ↦ do logger ← program.log_name i.name; configure logger i
    | some it ↦
        if not (same_define i it)
        then (do logger ← program.log_name i.name; configure logger i)
        else pure tt
  ]

  -- The body of the loop over the old configurations.
  unfoldable pub drop_define : List LogDefine → LogDefine → M (Unit {0})
  unfolding find_define
  drop_define new i = elim (find_define i new) [
    | none ↦ do
      logger ← program.log_name i.name
      Logger.set_level logger Level.unknow
      program.clear_appenders logger
    | some it ↦ pure tt
  ]

  -- The listener.
  unfoldable pub on_change : List LogDefine → List LogDefine → M (Unit {0})
  unfolding apply_define drop_define
  on_change old new = do
    program.log_info (codes "on_logger_conf_changed")
    each new (apply_define old)
    each old (drop_define new)

  -- A configuration whose old version has the same name, level and formatter is skipped, whatever the
  -- appenders of the two: nothing changes.
  pub changed_appenders_ignored :
      (old : List LogDefine) (i it : LogDefine) (held : List Lock) (w : World)
      → find_define i old ≡ some it
      → i.name ≡ it.name
      → i.level ≡ it.level
      → i.formatter ≡ it.formatter
      → apply_define old i held w ≡ ok (tt, w)
  unfolding apply_define
  changed_appenders_ignored old i it held w h n l f =
      let same : same_define i it ≡ true = (same_define_iff i it).1 (n, l, f) in
      rw (h, apply_define) (rw same refl)

-- `Logger::clearAppenders` empties the list of appenders, with no lock held before.
abbrev pub Clears : Program → Type 0
Clears program =
    (l : ℕ) (lg : Logger) (w : World)
    → get_elem? w.loggers l ≡ some lg
    → program.clear_appenders l [] w
      ≡ ok (tt, record w { loggers = set w.loggers l (record lg { appenders = [] }) })

module _ (out : Outside) (program : Program) where
  -- A configuration that is gone, whose name leads to an existing logger: the logger is left with the
  -- unknown level and no appender, and nothing else changes, if clearAppenders empties the list.
  pub drop_define-cleared :
      (new : List LogDefine) (i : LogDefine) (l : ℕ) (lg : Logger) (w : World)
      → Clears program
      → find_define i new ≡ none
      → program.log_name i.name [] w ≡ ok (l, w)
      → get_elem? w.loggers l ≡ some lg
      → drop_define out program new i [] w
        ≡ ok (
          tt,
          record w {
            loggers = set w.loggers l (record lg { level = Level.unknow; appenders = [] });
          },
        )
  unfolding drop_define Logger.set_level logger_at deref put_logger
  drop_define-cleared new i l lg w clears gone named h =
      let lg' = record lg { level = Level.unknow } in
      let w' = record w { loggers = set w.loggers l lg' } in
      let run : Logger.set_level l Level.unknow [] w ≡ ok (tt, w') = ground (arith, h) in
      rw (gone, drop_define)
        (rw (named, ◌>>=◌)
          (rw (run, ◌>>=◌, ◌>>◌)
            (clears l lg' w' (get_elem?-set_self w.loggers l lg' (lt_of_get_elem? w.loggers l h))
              ∙ ap (λ xs. ok (tt, record w { loggers = xs }))
                  (set-set w.loggers l lg' (record lg' { appenders = [] })))))
