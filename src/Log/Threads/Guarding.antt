-- ===== src/Log/Threads/Guarding.antt =====
-- Which members of loggers, appenders and the manager of Log/Log.cpp their mutexes guard: the list of
-- appenders and the formatter of a logger, the formatter of an appender with its flag, and the map of
-- the manager.
pub mod Rules
pub mod Methods
pub mod Calls
pub mod Reached
use rabbit_log_db.Base.{
  ℕ, Bool, true, false, List, ◌∷◌, Option, none, some, ◌≡◌, ◌⊎◌, inl, inr, refl, ap, ◌∙◌, arith,
  ◌==◌, ==_iff, Bool-cases, Option-cases, get_elem?, get_elem?-set_self, get_elem?-set_ne,
  lt_of_get_elem?,
}
use rabbit_log_db.Log.Formatter.{LogFormatter}
use rabbit_log_db.Log.Threads.{
  Prog, ret, access, take, drop, crash, out_of_fuel, ◌>>=◌, modify, release,
}
use rabbit_log_db.Log.World.{
  Appender, Logger, World, Lock, logger_lock, appender_lock, manager_lock, is_held,
}

-- The guarded members.
abbrev pub logger_members : Option Logger → Option (List ℕ × Option LogFormatter)
logger_members none = none
logger_members (some lg) = some (lg.appenders, lg.formatter)

abbrev pub appender_members : Option Appender → Option (Option LogFormatter × Bool)
appender_members none = none
appender_members (some x) = some (x.formatter, x.has_formatter)

-- Nothing is changed that a mutex guards which is not among the locks held.
pub record Kept (h : List Lock) (w v : World) : Type 0 where
  pub loggers :
      (l : ℕ) (lg : Logger)
      → is_held (logger_lock l) h ≡ false
      → get_elem? w.loggers l ≡ some lg
      → logger_members (get_elem? v.loggers l) ≡ some (lg.appenders, lg.formatter)
  pub appenders :
      (a : ℕ) (x : Appender)
      → is_held (appender_lock a) h ≡ false
      → get_elem? w.appenders a ≡ some x
      → appender_members (get_elem? v.appenders a) ≡ some (x.formatter, x.has_formatter)
  pub managed : is_held manager_lock h ≡ false → v.managed ≡ w.managed

module _ (h : List Lock) (w v : World) where
  same_loggers :
      w.loggers ≡ v.loggers
      → (l : ℕ) (lg : Logger) → is_held (logger_lock l) h ≡ false
      → get_elem? w.loggers l ≡ some lg
      → logger_members (get_elem? v.loggers l) ≡ some (lg.appenders, lg.formatter)
  same_loggers e l lg free at = ap logger_members (rw e at at)

  same_appenders :
      w.appenders ≡ v.appenders
      → (a : ℕ) (x : Appender) → is_held (appender_lock a) h ≡ false
      → get_elem? w.appenders a ≡ some x
      → appender_members (get_elem? v.appenders a) ≡ some (x.formatter, x.has_formatter)
  same_appenders e a x free at = ap appender_members (rw e at at)

  -- The lists and the map are the same.
  pub Kept-same :
      w.loggers ≡ v.loggers → w.appenders ≡ v.appenders → v.managed ≡ w.managed → Kept h w v
  Kept-same e f g = record {
    loggers = same_loggers e;
    appenders = same_appenders f;
    managed = λ free. g;
  }

-- What stands at a place after a change.
modify_cases :
    {A : Type 0} (xs : List A) (i j : ℕ) (g : A → A) (a : A)
    → get_elem? xs j ≡ some a
    → ((i ≡ j) × (get_elem? (modify xs i g) j ≡ some (g a)))
      ⊎ (get_elem? (modify xs i g) j ≡ some a)
unfolding modify
modify_cases xs i j g a at = elim (Option-cases (get_elem? xs i)) [
  | inl e ↦ inr (rw (e, modify) at)
  | inr (b, e) ↦ elim (Bool-cases (i == j)) [
    | inl t ↦
        let same : i ≡ j = (==_iff i j).0 t in
        let is : b ≡ a = ground (arith, same, e, at) in
        inl (
          same,
          rw (e, modify) (rw (is, same) (get_elem?-set_self xs j (g a) (lt_of_get_elem? xs j at))),
        )
    | inr f ↦
        inr
          (rw (e, modify) (get_elem?-set_ne xs (g b) (λ s. absurd (cc ((==_iff i j).1 s, f))) ∙ at))
  ]
]

module _ (h : List Lock) (w : World) (i : ℕ) where
  -- A logger is written under its lock, or elsewhere than at the guarded members.
  pub Kept-logger :
      (g : Logger → Logger)
      → (is_held (logger_lock i) h ≡ true)
        ⊎ ((lg : Logger) → logger_members (some (g lg)) ≡ logger_members (some lg))
      → Kept h w (record w { loggers = modify w.loggers i g })
  Kept-logger g c = record {
    loggers = λ l lg free at. elim (modify_cases w.loggers i l g lg at) [
      | inr e ↦ ap logger_members e
      | inl (same, e) ↦ elim c [
        | inl busy ↦ absurd (ground (arith, same, busy, free))
        | inr untouched ↦ ap logger_members e ∙ untouched lg
      ]
    ];
    appenders = same_appenders h w w refl;
    managed = λ free. refl;
  }

  pub Kept-appender :
      (g : Appender → Appender)
      → (is_held (appender_lock i) h ≡ true)
        ⊎ ((x : Appender) → appender_members (some (g x)) ≡ appender_members (some x))
      → Kept h w (record w { appenders = modify w.appenders i g })
  Kept-appender g c = record {
    loggers = same_loggers h w w refl;
    appenders = λ a x free at. elim (modify_cases w.appenders i a g x at) [
      | inr e ↦ ap appender_members e
      | inl (same, e) ↦ elim c [
        | inl busy ↦ absurd (ground (arith, same, busy, free))
        | inr untouched ↦ ap appender_members e ∙ untouched x
      ]
    ];
    managed = λ free. refl;
  }

-- A program writes what a mutex guards only while it holds that mutex.
unfoldable pub Guarded : {A : Type 0} → List Lock → Prog A → Type 0
Guarded h (ret a) = Unit {0}
Guarded h (access f k) = ((w : World) → Kept h w (f w)) × ((w : World) → Guarded h (k w))
Guarded h (take l p) = Guarded (l ∷ h) p
Guarded h (drop l p) = Guarded (release l h) p
Guarded h crash = Unit {0}
Guarded h out_of_fuel = Unit {0}

-- A method that ends with the locks that it began with, whatever comes after it.
unfoldable pub Guards : {A : Type 0} → List Lock → Prog A → Type 0
unfolding Guarded
Guards {A} h p = (k : A → Prog (Unit {0})) → ((a : A) → Guarded h (k a)) → Guarded h (p >>= k)
