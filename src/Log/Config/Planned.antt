-- ===== src/Log/Config/Planned.antt =====
-- The appenders that a configuration asks for, and how one of them is made and attached by the listener
-- of `LogIniter`.
use rabbit_log_db.Base.{
  ℕ, zero, suc, Bool, true, false, ◌||◌, not, List, [], ◌∷◌, ◌++◌, Option, none, some, ◌≡◌, ap, ◌∙◌,
  arith, ◌==◌, inl, inr, if◌then◌else◌, Bytes, codes, decimal, length, get_elem?, set,
  set-append_self, get_elem?-append_self, Bool-cases,
}
use rabbit_log_db.Log.Appender
use rabbit_log_db.Log.Config.Apply.{format_appender, equip}
use rabbit_log_db.Log.Config.{LogAppenderDefine, LogDefine, empty}
use rabbit_log_db.Log.Formatter.Runs.{init_total}
use rabbit_log_db.Log.Formatter.{LogFormatter, init}
use rabbit_log_db.Log.Level.{Level}
use rabbit_log_db.Log.Logger
use rabbit_log_db.Log.Logger.Attaching.{adopted, attached, with_appender, add_appender-attached}
use rabbit_log_db.Log.Logger.Making.{complaints, new_formatter-prints}
use rabbit_log_db.Log.Manager.Calls.Appenders.{with_more}
use rabbit_log_db.Log.World.{
  Appender, Logger, World, Outside, file, stdout, ok, ◌>>=◌, ◌>>◌, print, appender_at, put_appender,
  deref, with_lock, is_held,
}

-- The formatter that a configuration gives to its appender, if it is valid.
unfoldable pub own_formatter : LogAppenderDefine → Option LogFormatter
own_formatter a =
    if not (empty a.formatter)
    then elim (init a.formatter) [ none ↦ none | some f ↦ if not f.error then some f else none ]
    else none

-- A new appender with a formatter of its own, or with none.
unfoldable pub dressed : Option LogFormatter → Appender → Appender
dressed none ap = ap
dressed (some f) ap = record ap { formatter = some f; has_formatter = true }

-- The new appender, before it is attached, when its file is opened with the number `n`.
unfoldable pub planned : Outside → ℕ → LogAppenderDefine → Appender
unfolding dressed own_formatter
planned out n a = dressed (own_formatter a) (record {
  sink = if a.type == 1 then file a.file (out.open_for_write a.file n) 0 else stdout;
  level = a.level;
  has_formatter = false;
  formatter = none;
})

-- An appender to the console is left out with the flag "d".
unfoldable pub is_taken : Bool → LogAppenderDefine → Bool
is_taken d a = a.type == 1 || not d

-- The appenders that are made, for a logger with the formatter `own`.
unfoldable pub planned_all :
    Outside → Option LogFormatter → Bool → ℕ → List LogAppenderDefine → List Appender
unfolding planned is_taken adopted
planned_all out own d n [] = []
planned_all out own d n (a ∷ xs) =
    let rest = planned_all out own d (if a.type == 1 then suc n else n) xs in
    if is_taken d a then adopted own (planned out n a) ∷ rest else rest

-- Addresses in a row.
unfoldable pub row : ℕ → ℕ → List ℕ
row n zero = []
row n (suc m) = n ∷ row (suc n) m

module _ (v : World) (n : ℕ) (ap : Appender) where
  set_level-last :
      (lv : Level)
      → Appender.set_level (length v.appenders) lv [] (with_more v ap n)
        ≡ ok (tt, with_more v (record ap { level = lv }) n)
  unfolding Appender.set_level appender_at deref put_appender
  set_level-last lv = ground (
    arith,
    get_elem?-append_self v.appenders ap,
    set-append_self v.appenders ap (record ap { level = lv }),
  )

  set_formatter-last :
      (f : LogFormatter)
      → Appender.set_formatter (length v.appenders) (some f) [] (with_more v ap n)
        ≡ ok (tt, with_more v (record ap { formatter = some f; has_formatter = true }) n)
  unfolding Appender.set_formatter Appender.is_some with_lock is_held appender_at deref put_appender
  set_formatter-last f = ground (
    arith,
    get_elem?-append_self v.appenders ap,
    set-append_self v.appenders ap (record ap { formatter = some f; has_formatter = true }),
  )

-- The formatter is put in place, or something is printed, or nothing is done.
module _ (v : World) (n : ℕ) (ap : Appender) where
  format-last :
      (i : LogDefine) (a : LogAppenderDefine)
      → (text : Bytes) × (format_appender i a (length v.appenders) [] (with_more v ap n)
          ≡ ok (tt, with_more (record v { console = text }) (dressed (own_formatter a) ap) n))
  unfolding format_appender own_formatter dressed print
  format-last i a =
      let (f, e, p) = init_total a.formatter in
      elim (Bool-cases (empty a.formatter)) [
        | inl t ↦ (v.console, ground arith)
        | inr t ↦ elim (Bool-cases f.error) [
          | inl bad ↦ (
            (v.console ++ complaints a.formatter)
                ++ (codes "log.name="
                    ++ (i.name
                        ++ (codes " appender type="
                            ++ (decimal a.type
                                ++ (codes " formatter="
                                    ++ (a.formatter ++ codes " is invalid\n")))))),
            ground (arith, e, made f e),
          )
          | inr good ↦ (
            v.console ++ complaints a.formatter,
            ground (
              arith,
              e,
              made f e,
              set_formatter-last (record v { console = v.console ++ complaints a.formatter }) n ap
                  f,
            ),
          )
        ]
      ]
    where
      made :
          (f : LogFormatter)
          → init a.formatter ≡ some f
          → Logger.new_formatter a.formatter [] (with_more v ap n)
            ≡ ok (f, with_more (record v { console = v.console ++ complaints a.formatter }) ap n)
      made f e = new_formatter-prints a.formatter [] (with_more v ap n) e

-- The store once a logger has one appender more, which is new; the console may have changed.
abbrev pub extended : ℕ → Logger → Appender → Bytes → ℕ → World → World
extended l lg ap text n v = record v {
  appenders = v.appenders ++ adopted lg.formatter ap ∷ [];
  loggers = set v.loggers l (with_appender lg (length v.appenders));
  console = text;
  opens = n;
}

attach-last :
    (l : ℕ) (lg : Logger) (ap : Appender) (text : Bytes) (n : ℕ) (v : World)
    → get_elem? v.loggers l ≡ some lg
    → Logger.add_appender l (length v.appenders) [] (with_more (record v { console = text }) ap n)
      ≡ ok (tt, extended l lg ap text n v)
unfolding attached
attach-last l lg ap text n v h =
    add_appender-attached l lg (length v.appenders) ap
      (with_more (record v { console = text }) ap n) h (get_elem?-append_self v.appenders ap)
    ∙ ground (arith, set-append_self v.appenders ap (adopted lg.formatter ap))

-- The new appender gets its level and its formatter and is attached.
pub equip-extended :
    (l : ℕ) (lg : Logger) (i : LogDefine) (a : LogAppenderDefine) (ap : Appender) (n : ℕ)
    (v : World)
    → get_elem? v.loggers l ≡ some lg
    → (text : Bytes) × (equip l i a (length v.appenders) [] (with_more v ap n)
        ≡ ok (
          tt,
          extended l lg (dressed (own_formatter a) (record ap { level = a.level })) text n v,
        ))
unfolding equip
equip-extended l lg i a ap n v h =
    let ap' = record ap { level = a.level } in
    let (text, e) = format-last v n ap' i a in
    (
      text,
      rw (set_level-last v n ap a.level, ◌>>=◌, ◌>>◌)
          (rw (e, ◌>>=◌, ◌>>◌) (attach-last l lg (dressed (own_formatter a) ap') text n v h)),
    )
