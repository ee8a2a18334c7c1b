-- ===== src/Log/Logger/Formatting.antt =====
-- `setFormatter` of a logger, and the appenders that follow it.
use rabbit_log_db.Base.{
  ℕ, Bool, false, List, [], ◌∷◌, ◌||◌, ◌==◌, Option, none, some, ◌≡◌, refl, ap, arith, get_elem?,
  set, set_same, get_elem?-set_self, get_elem?-set_ne, lt_of_get_elem?, Option-cases, Bool-cases,
  ==_iff, inl, inr, if◌then◌else◌,
}
use rabbit_log_db.Log.Formatter.{LogFormatter}
use rabbit_log_db.Log.Logger.{set_formatter, inherit}
use rabbit_log_db.Log.World.{
  Appender, Logger, World, Lock, logger_lock, appender_lock, ok, logger_at, with_lock, deref,
  is_held, appender_at, put_appender, put_logger, each,
}

-- An appender of a logger that is given the formatter `val`.
unfoldable pub inherited : Option LogFormatter → Appender → Appender
inherited val ap = if ap.has_formatter then ap else record ap { formatter = val }

unfoldable pub inherit_at : Option LogFormatter → ℕ → List Appender → List Appender
unfolding inherited
inherit_at val i xs = elim (get_elem? xs i) [ none ↦ xs | some ap ↦ set xs i (inherited val ap) ]

unfoldable pub inherit_all : Option LogFormatter → List ℕ → List Appender → List Appender
inherit_all val [] xs = xs
inherit_all val (i ∷ rest) xs = inherit_all val rest (inherit_at val i xs)

unfoldable pub contains : ℕ → List ℕ → Bool
contains b [] = false
contains b (i ∷ rest) = i == b || contains b rest

abbrev pub map_at : (Appender → Appender) → Option Appender → Option Appender
map_at f none = none
map_at f (some ap) = some (f ap)

inherited_idem :
    (val : Option LogFormatter) (ap : Appender)
    → inherited val (inherited val ap) ≡ inherited val ap
unfolding inherited
inherited_idem val ap = ground arith

get_elem?-inherit_at :
    (val : Option LogFormatter) (i b : ℕ) (xs : List Appender)
    → get_elem? (inherit_at val i xs) b
      ≡ (if i == b then map_at (inherited val) (get_elem? xs b) else get_elem? xs b)
unfolding inherit_at
get_elem?-inherit_at val i b xs = elim (Option-cases (get_elem? xs i)) [
  | inl h ↦ ground (arith, ==_iff i b)
  | inr (ap, h) ↦ elim (Bool-cases (i == b)) [
    | inl e ↦
        let e' = (==_iff i b).0 e in
        ground (arith, e', get_elem?-set_self xs i (inherited val ap) (lt_of_get_elem? xs i h))
    | inr ne ↦ ground (arith, get_elem?-set_ne xs (inherited val ap) (λ (e : i ≡ b). false_of e ne))
  ]
]
  where
    false_of : i ≡ b → (i == b) ≡ false → ⊥
    false_of e ne = ground (arith, ==_iff i b)

-- Each appender in the list has the formatter, unless it had one of its own; all others are as before.
pub get_elem?-inherit_all :
    (val : Option LogFormatter) (rest : List ℕ) (b : ℕ) (xs : List Appender)
    → get_elem? (inherit_all val rest xs) b
      ≡ (if contains b rest then map_at (inherited val) (get_elem? xs b) else get_elem? xs b)
unfolding inherit_all contains
get_elem?-inherit_all val [] b xs = refl
get_elem?-inherit_all val (i ∷ rest) b xs = elim (Option-cases (get_elem? xs b)) [
  | inl h ↦ ground (
    arith,
    get_elem?-inherit_all val rest b (inherit_at val i xs),
    get_elem?-inherit_at val i b xs,
  )
  | inr (ap, h) ↦ ground (
    arith,
    get_elem?-inherit_all val rest b (inherit_at val i xs),
    get_elem?-inherit_at val i b xs,
    inherited_idem val ap,
  )
]

-- Every address in the list is an appender's.
abbrev pub AllExist : List Appender → List ℕ → Type 0
AllExist xs [] = Unit {0}
AllExist xs (i ∷ rest) = ((ap : Appender) × (get_elem? xs i ≡ some ap)) × AllExist xs rest

exists_at :
    (val : Option LogFormatter) (i b : ℕ) (xs : List Appender) {ap : Appender}
    → get_elem? xs b ≡ some ap
    → (bp : Appender) × (get_elem? (inherit_at val i xs) b ≡ some bp)
exists_at val i b xs {ap} h = elim (Bool-cases (i == b)) [
  | inl e ↦ (inherited val ap, ground (arith, get_elem?-inherit_at val i b xs))
  | inr e ↦ (ap, ground (arith, get_elem?-inherit_at val i b xs))
]

AllExist-inherit_at :
    (val : Option LogFormatter) (i : ℕ) (rest : List ℕ) (xs : List Appender)
    → AllExist xs rest
    → AllExist (inherit_at val i xs) rest
AllExist-inherit_at val i [] xs h = tt
AllExist-inherit_at val i (b ∷ rest) xs h =
    (exists_at val i b xs h.0.1, AllExist-inherit_at val i rest xs h.1)

inherit-inherit_at :
    (val : Option LogFormatter) (i : ℕ) (held : List Lock) (w : World) {ap : Appender}
    → is_held (appender_lock i) held ≡ false
    → get_elem? w.appenders i ≡ some ap
    → inherit val i held w ≡ ok (tt, record w { appenders = inherit_at val i w.appenders })
unfolding inherit inherit_at with_lock appender_at deref put_appender
inherit-inherit_at val i held w {ap} free h = ground (arith, set_same w.appenders i h)

each-inherit_all :
    (val : Option LogFormatter) (rest : List ℕ) (held : List Lock) (w : World)
    → ((i : ℕ) → is_held (appender_lock i) held ≡ false)
    → AllExist w.appenders rest
    → each rest (inherit val) held w
      ≡ ok (tt, record w { appenders = inherit_all val rest w.appenders })
unfolding each inherit_all
each-inherit_all val [] held w free h = refl
each-inherit_all val (i ∷ rest) held w free h = ground (
  arith,
  inherit-inherit_at val i held w (free i) h.0.1,
  each-inherit_all val rest held (record w { appenders = inherit_at val i w.appenders }) free
      (AllExist-inherit_at val i rest w.appenders h.1),
)

-- The store once logger `l`, which is `lg`, has the formatter `val`.
unfoldable pub formatted : ℕ → Logger → Option LogFormatter → World → World
formatted l lg val w = record w {
  loggers = set w.loggers l (record lg { formatter = val });
  appenders = inherit_all val lg.appenders w.appenders;
}

pub set_formatter-formatted :
    (l : ℕ) (lg : Logger) (val : Option LogFormatter) (w : World)
    → get_elem? w.loggers l ≡ some lg
    → AllExist w.appenders lg.appenders
    → set_formatter l val [] w ≡ ok (tt, formatted l lg val w)
unfolding set_formatter formatted with_lock is_held logger_at deref put_logger
set_formatter-formatted l lg val w hl he = ground (
  arith,
  each-inherit_all val lg.appenders (logger_lock l ∷ [])
      (record w { loggers = set w.loggers l (record lg { formatter = val }) }) (λ i. refl) he,
)

-- With no lock held, setting the formatter of a logger whose appenders exist succeeds. The logger then
-- has the formatter, null or not. So has each of its appenders that has none of its own; the others
-- of its appenders keep theirs, and so does every appender of which it is no logger.
pub set_formatter-inherits :
    (l : ℕ) (lg : Logger) (val : Option LogFormatter) (w : World)
    → get_elem? w.loggers l ≡ some lg
    → AllExist w.appenders lg.appenders
    → (w' : World) × (set_formatter l val [] w ≡ ok (tt, w'))
      × (get_elem? w'.loggers l ≡ some (record lg { formatter = val }))
      × ((b : ℕ)
          → get_elem? w'.appenders b ≡ (
              if contains b lg.appenders
              then map_at (inherited val) (get_elem? w.appenders b)
              else get_elem? w.appenders b))
unfolding formatted
set_formatter-inherits l lg val w hl he = (
  formatted l lg val w,
  set_formatter-formatted l lg val w hl he,
  get_elem?-set_self w.loggers l _ (lt_of_get_elem? w.loggers l hl),
  λ b. get_elem?-inherit_all val lg.appenders b w.appenders,
)
