-- ===== src/Log/Config/Comparing.antt =====
-- The comparisons of configurations.
use rabbit_log_db.Base.{
  ℕ, Bool, true, false, ◌&&◌, List, [], ◌∷◌, ◌≡◌, refl, arith, ◌↔◌, equal_iff, ap, ◌==◌,
  if◌then◌else◌, sym, ◌∙◌,
}
use rabbit_log_db.Log.Config.{
  LogAppenderDefine, LogDefine, same_level, same_appender, same_appenders, same_define,
}
use rabbit_log_db.Log.Level.{Level}
use rabbit_log_db.Log.Level

-- The level with a number.
of_ℕ : ℕ → Level
of_ℕ n =
    if n == 0
    then Level.unknow
    else if n == 1
    then Level.debug
    else if n == 2
    then Level.info
    else if n == 3
    then Level.warn
    else if n == 4
    then Level.error
    else Level.fatal

of_ℕ-to_ℕ : (l : Level) → of_ℕ (Level.to_ℕ l) ≡ l
unfolding of_ℕ Level.to_ℕ
of_ℕ-to_ℕ Level.unknow = refl
of_ℕ-to_ℕ Level.debug = refl
of_ℕ-to_ℕ Level.info = refl
of_ℕ-to_ℕ Level.warn = refl
of_ℕ-to_ℕ Level.error = refl
of_ℕ-to_ℕ Level.fatal = refl

same_level_iff : (a b : Level) → (same_level a b ≡ true) ↔ (a ≡ b)
unfolding same_level
same_level_iff a b = (
  λ h.
      let e : Level.to_ℕ a ≡ Level.to_ℕ b = ground arith in
      sym (of_ℕ-to_ℕ a) ∙ ap of_ℕ e ∙ of_ℕ-to_ℕ b,
  λ e. let e' : Level.to_ℕ a ≡ Level.to_ℕ b = ap Level.to_ℕ e in ground arith,
)

and_iff : (a b : Bool) → (a && b ≡ true) ↔ ((a ≡ true) × (b ≡ true))
and_iff true b = (λ h. (refl, h), λ h. h.1)
and_iff false b = (λ h. cc, λ h. h.0)

-- Two appenders are equal exactly if they agree in every field.
pub same_appender_iff :
    (a b : LogAppenderDefine)
    → (same_appender a b ≡ true)
      ↔ ((a.type ≡ b.type) × (a.level ≡ b.level) × (a.formatter ≡ b.formatter) × (a.file ≡ b.file))
unfolding same_appender
same_appender_iff a b = ground (
  arith,
  equal_iff a.formatter b.formatter,
  equal_iff a.file b.file,
  same_level_iff a.level b.level,
)

same_appenders_refl : (xs : List LogAppenderDefine) → same_appenders xs xs ≡ true
unfolding same_appenders
same_appenders_refl [] = refl
same_appenders_refl (a ∷ xs) =
    (and_iff (same_appender a a) (same_appenders xs xs)).1
      ((same_appender_iff a a).1 (refl, refl, refl, refl), same_appenders_refl xs)

-- Two configurations are equal exactly if name, level and formatter agree, whatever their appenders.
pub same_define_iff :
    (a b : LogDefine)
    → (same_define a b ≡ true)
      ↔ ((a.name ≡ b.name) × (a.level ≡ b.level) × (a.formatter ≡ b.formatter))
unfolding same_define
same_define_iff a b = ground (
  arith,
  equal_iff a.name b.name,
  equal_iff a.formatter b.formatter,
  same_level_iff a.level b.level,
  same_appenders_refl a.appenders,
)
