-- ===== src/Log/Config/Changes.antt =====
-- The listener of `LogIniter` of Log/Log.cpp from a store that is in order, for configurations whose
-- appenders have known types.
use rabbit_log_db.Base.{
  ℕ, true, false, List, [], ◌++◌, ◌∙◌, decimal, some, ◌≡◌, inl, inr, arith, codes, Option-cases,
  Bool-cases, if◌then◌else◌, not, ◌==◌,
}
use rabbit_log_db.Log.Appender
use rabbit_log_db.Log.Config.Apply.{
  Program, find_define, format_appender, equip, apply_appender, configure, apply_define,
  drop_define, on_change,
}
use rabbit_log_db.Log.Config.Running.{
  IsLogger-Grows, IsAppender-Grows, pure-Succeeds, same-Succeeds, then-Succeeds, bind-Succeeds,
  if-Succeeds, Each, Each-any, each-Succeeds,
}
use rabbit_log_db.Log.Config.Single.{IsKnown}
use rabbit_log_db.Log.Config.{LogAppenderDefine, LogDefine, empty, same_define}
use rabbit_log_db.Log.Formatter.Runs.{init_total}
use rabbit_log_db.Log.Level.{Level}
use rabbit_log_db.Log.Logger
use rabbit_log_db.Log.Logger.Making.{complaints, new_formatter-prints}
use rabbit_log_db.Log.Manager.Calls.Steps.{call-Succeeds}
use rabbit_log_db.Log.Manager.Calls.{
  level, pattern, add, appender_level, appender_formatter, call, IsLogger, IsAppender, Succeeds,
}
use rabbit_log_db.Log.Manager.Growth.{Grows-trans}
use rabbit_log_db.Log.Manager.Naming.{Inv}
use rabbit_log_db.Log.World.{World, Outside, M, pure, ◌>>=◌, ◌>>◌, print, each}
use rabbit_log_db.Log.Config.Surroundings.{
  Expected, KnownTypes, print-Succeeds, named-Gives, file-Gives, stdout-Gives, clear-Succeeds,
  info-Succeeds,
}

module _ (out : Outside) (program : Program) (expected : Expected out program) where
  level_of-Succeeds :
      (a : ℕ) (lv : Level) (w : World)
      → Inv w
      → IsAppender w a
      → Succeeds (Appender.set_level a lv) w
  unfolding call
  level_of-Succeeds a lv w i h = call-Succeeds out w i (appender_level a lv) h

  -- What comes after the lines that the constructor of a formatter prints.
  after_print :
      (a : LogAppenderDefine) {m m' : M (Unit {0})} {w : World}
      → (s : Succeeds (print (complaints a.formatter)) w) → m [] w ≡ m' [] s.after
      → Succeeds m' s.after
      → Succeeds m w
  after_print a s e t = record {
    after = t.after;
    runs = e ∙ t.runs;
    keeps = t.keeps;
    grows = Grows-trans s.grows t.grows;
  }

  -- The formatter of a configured appender.
  format-Succeeds :
      (i : LogDefine) (a : LogAppenderDefine) (x : ℕ) (w : World)
      → Inv w
      → IsAppender w x
      → Succeeds (format_appender i a x) w
  unfolding call format_appender print
  format-Succeeds i a x w inv h =
      let (f, e, p) = init_total a.formatter in
      let s = print-Succeeds (complaints a.formatter) w inv in
      let made = new_formatter-prints a.formatter [] w e in
      elim (Bool-cases (empty a.formatter)) [
        | inl t ↦ same-Succeeds {m' = pure tt} (ground arith) (pure-Succeeds w inv)
        | inr t ↦ elim (Bool-cases f.error) [
          | inl bad ↦ after_print a s (ground (arith, made, s.runs)) (
              print-Succeeds
                (codes "log.name="
                  ++ (i.name
                      ++ (codes " appender type="
                          ++ (decimal a.type
                              ++ (codes " formatter=" ++ (a.formatter ++ codes " is invalid\n"))))))
                s.after s.keeps)
          | inr good ↦
              after_print a {m' = Appender.set_formatter x (some f)} s
                (ground (arith, made, s.runs))
                (call-Succeeds out s.after s.keeps (appender_formatter x f)
                  (IsAppender-Grows x s.grows h))
        ]
      ]

  equip-Succeeds :
      (l : ℕ) (i : LogDefine) (a : LogAppenderDefine) (x : ℕ) (w : World)
      → Inv w
      → IsLogger w l
      → IsAppender w x
      → Succeeds (equip l i a x) w
  unfolding equip call
  equip-Succeeds l i a x w inv hl hx =
      let s = level_of-Succeeds x a.level w inv hx in
      let t = format-Succeeds i a x s.after s.keeps (IsAppender-Grows x s.grows hx) in
      let g = Grows-trans s.grows t.grows in
      then-Succeeds (Appender.set_level x a.level)
        (format_appender i a x >> Logger.add_appender l x) w s
        (then-Succeeds (format_appender i a x) (Logger.add_appender l x) s.after t (
          call-Succeeds out t.after t.keeps (add l x)
            (IsLogger-Grows l g hl, IsAppender-Grows x g hx)))

  apply_appender-Succeeds :
      (l : ℕ) (i : LogDefine) (a : LogAppenderDefine) (w : World)
      → IsKnown a
      → Inv w
      → IsLogger w l
      → Succeeds (apply_appender out program l i a) w
  unfolding apply_appender
  apply_appender-Succeeds l i a w (inl e) inv hl =
      let s = file-Gives out program expected a.file w inv in
      let t : (a.type == 1) ≡ true = ground (arith, e) in
      rw t (
        bind-Succeeds (Appender.new_file out a.file) (equip l i a) w s
          (equip-Succeeds l i a s.value s.after s.keeps (IsLogger-Grows l s.grows hl) s.there))
  apply_appender-Succeeds l i a w (inr e) inv hl =
      let s = stdout-Gives out program expected w inv in
      let f : (a.type == 1) ≡ false = ground (arith, e) in
      let t : (a.type == 2) ≡ true = ground (arith, e) in
      rw (f, t)
        (if-Succeeds (not (program.has (codes "d")))
          (bind-Succeeds Appender.new_stdout (equip l i a) w s
            (equip-Succeeds l i a s.value s.after s.keeps (IsLogger-Grows l s.grows hl) s.there))
          (pure-Succeeds w inv))

  configure-Succeeds :
      (l : ℕ) (i : LogDefine) (w : World)
      → KnownTypes i
      → Inv w
      → IsLogger w l
      → Succeeds (configure out program l i) w
  unfolding configure call
  configure-Succeeds l i w known inv hl =
      let s = call-Succeeds out w inv (level l i.level) hl in
      let hs = IsLogger-Grows l s.grows hl in
      let patterned : M (Unit {0}) =
        if not (empty i.formatter) then Logger.set_pattern l i.formatter else pure tt in
      let t : Succeeds patterned s.after =
        if-Succeeds (not (empty i.formatter))
          (call-Succeeds out s.after s.keeps (pattern l i.formatter) hs)
          (pure-Succeeds s.after s.keeps) in
      let ht = IsLogger-Grows l t.grows hs in
      let u = clear-Succeeds out program expected l t.after t.keeps ht in
      let hu = IsLogger-Grows l u.grows ht in
      let loop : M (Unit {0}) = each i.appenders (apply_appender out program l i) in
      then-Succeeds (Logger.set_level l i.level) (patterned >> (program.clear_appenders l >> loop))
        w s
        (then-Succeeds patterned (program.clear_appenders l >> loop) s.after t (
          then-Succeeds (program.clear_appenders l) loop t.after u (
            each-Succeeds (apply_appender out program l i) i.appenders u.after u.keeps known
              (λ a v k j g. apply_appender-Succeeds l i a v k j (IsLogger-Grows l g hu)))))

  -- A configuration is applied to the logger of its name.
  named_configure-Succeeds :
      (i : LogDefine) (w : World)
      → KnownTypes i
      → Inv w
      → Succeeds (program.log_name i.name >>= λ l. configure out program l i) w
  named_configure-Succeeds i w known inv =
      let s = named-Gives out program expected i.name w inv in
      bind-Succeeds (program.log_name i.name) (λ l. configure out program l i) w s
        (configure-Succeeds s.value i s.after known s.keeps s.there)

  apply_define-Succeeds :
      (old : List LogDefine) (i : LogDefine) (w : World)
      → KnownTypes i
      → Inv w
      → Succeeds (apply_define out program old i) w
  unfolding apply_define
  apply_define-Succeeds old i w known inv = elim (Option-cases (find_define i old)) [
    | inl e ↦ rw (e, apply_define) (named_configure-Succeeds i w known inv)
    | inr (it, e) ↦
        rw (e, apply_define)
          (if-Succeeds (not (same_define i it)) (named_configure-Succeeds i w known inv)
            (pure-Succeeds w inv))
  ]

  drop_define-Succeeds :
      (new : List LogDefine) (i : LogDefine) (w : World)
      → Inv w
      → Succeeds (drop_define out program new i) w
  unfolding drop_define call
  drop_define-Succeeds new i w inv = elim (Option-cases (find_define i new)) [
    | inl e ↦
        let s = named-Gives out program expected i.name w inv in
        let t = call-Succeeds out s.after s.keeps (level s.value Level.unknow) s.there in
        let u =
          clear-Succeeds out program expected s.value t.after t.keeps
            (IsLogger-Grows s.value t.grows s.there) in
        rw (e, drop_define)
          (bind-Succeeds (program.log_name i.name)
            (λ l. Logger.set_level l Level.unknow >> program.clear_appenders l) w s
            (then-Succeeds (Logger.set_level s.value Level.unknow) (program.clear_appenders s.value)
              s.after t u))
    | inr (it, e) ↦ rw (e, drop_define) (pure-Succeeds w inv)
  ]

  -- From a store that is in order, with surroundings that do what is expected of them, the listener
  -- takes any old and new configuration whose new appenders have known types to its end: it does not
  -- wait for a lock that it holds itself, follows no null pointer and does not run out of fuel. The
  -- store is in order again and no logger and no appender is gone.
  pub on_change-Succeeds :
      (old new : List LogDefine) (w : World)
      → Each KnownTypes new
      → Inv w
      → Succeeds (on_change out program old new) w
  unfolding on_change
  on_change-Succeeds old new w known inv =
      let apply : M (Unit {0}) = each new (apply_define out program old) in
      let drop : M (Unit {0}) = each old (drop_define out program new) in
      let s = info-Succeeds out program expected (codes "on_logger_conf_changed") w inv in
      let t =
        each-Succeeds (apply_define out program old) new s.after s.keeps known
          (λ i v k j g. apply_define-Succeeds old i v k j) in
      then-Succeeds (program.log_info (codes "on_logger_conf_changed")) (apply >> drop) w s (
        then-Succeeds apply drop s.after t (
          each-Succeeds {P = λ i. Unit} (drop_define out program new) old t.after t.keeps
            (Each-any old) (λ i v k j g. drop_define-Succeeds new i v j)))
