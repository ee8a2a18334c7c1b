-- ===== src/Log/Manager/History.antt =====
-- Histories of calls, from the store that the manager's constructor leaves.
use rabbit_log_db.Base.{
  false, true, ℕ, zero, [], ◌∷◌, none, some, ◌≡◌, refl, sym, ◌∙◌, arith, Bytes, equal, equal→eq,
  Bool-cases, inl, inr,
}
use rabbit_log_db.Log.Appender
use rabbit_log_db.Log.Formatter.Item.{find}
use rabbit_log_db.Log.Level
use rabbit_log_db.Log.Logger
use rabbit_log_db.Log.Logger.Attaching.{
  attached, with_appender, add_appender-attached, attached-WellFormed,
}
use rabbit_log_db.Log.Logger.Keeping.{Keeps-refl, Keeps-append, WellFormed-new, WellFormed-Keeps}
use rabbit_log_db.Log.Logger.Routing.{WellFormed}
use rabbit_log_db.Log.Manager.Calls.Steps.{call-Succeeds}
use rabbit_log_db.Log.Manager.Calls.{Call, call, Valid, Succeeds}
use rabbit_log_db.Log.Manager.Lookup.{made, new_formatter-default}
use rabbit_log_db.Log.Manager.Naming.{Inv, Managed, Entry}
use rabbit_log_db.Log.Manager.{construct, root_name, insert}
use rabbit_log_db.Log.World.{
  Appender, World, Outside, stdout, ok, logger_at, deref, alloc_logger, alloc_appender,
}

-- The store before anything is made.
abbrev pub nothing : World
nothing = record {
  appenders = [];
  loggers = [];
  console = [];
  written = [];
  opens = 0;
  managed = [];
  root = 0;
}

abbrev pub first_appender : Appender
first_appender = record {
  sink = stdout;
  level = Level.debug;
  has_formatter = false;
  formatter = none;
}

abbrev before_attaching : World
before_attaching = record nothing {
  loggers = made root_name none ∷ [];
  appenders = first_appender ∷ [];
}

-- The store that the constructor leaves: the root logger with one appender to the console.
unfoldable pub initial : World
unfolding attached made
initial = record (attached 0 (made root_name none) 0 first_appender before_attaching) {
  managed = (root_name, 0) ∷ [];
}

construct-initial : construct [] nothing ≡ ok (tt, initial)
unfolding construct initial Logger.new_logger alloc_logger Appender.new_stdout alloc_appender
    logger_at deref insert attached made
construct-initial = ground (
  arith,
  new_formatter-default [] nothing,
  add_appender-attached 0 (made root_name none) 0 first_appender before_attaching refl refl,
)

nothing-WellFormed : WellFormed nothing
nothing-WellFormed = record {
  attached = λ l lg h. cc;
  formatted = λ l lg h. cc;
  rooted = λ l lg r h hr. cc;
}

before-WellFormed : WellFormed before_attaching
unfolding made
before-WellFormed =
    WellFormed-Keeps refl (Keeps-append [] (first_appender ∷ []))
      (WellFormed-new nothing (made root_name none) refl refl (λ r h. cc) nothing-WellFormed)

find_one :
    (name : Bytes) → equal root_name name ≡ true → find name ((root_name, zero) ∷ []) ≡ some zero
unfolding find
find_one name e = rw e

find_other :
    (name : Bytes) → equal root_name name ≡ false → find name ((root_name, zero) ∷ []) ≡ none
unfolding find
find_other name e = rw e

initial-Managed : Managed initial
unfolding initial attached made
initial-Managed = record {
  root = (with_appender (made root_name none) 0, refl, refl);
  named = λ name l h. entry name l h;
}
  where
    entry : (name : Bytes) (l : ℕ) → find name ((root_name, 0) ∷ []) ≡ some l → Entry initial name l
    entry name l h = elim (Bool-cases (equal root_name name)) [
      | inl e ↦
          let e' : zero ≡ l = ground (arith, find_one name e) in
          record {
            logger = with_appender (made root_name none) 0;
            at = rw (← e') refl;
            name_is = equal→eq root_name name e;
            below = inr (sym e');
          }
      | inr e ↦ absurd (cc (sym h ∙ find_other name e))
    ]

pub initial-Inv : Inv initial
unfolding initial
initial-Inv = record {
  well = WellFormed-Keeps refl (Keeps-refl _) (
      attached-WellFormed 0 (made root_name none) 0 first_appender before_attaching refl refl
        before-WellFormed);
  managed = initial-Managed;
}

-- A history: calls with valid arguments, one after the other, each of which has returned.
pub data History (out : Outside) (w : World) : World → Type 0 where
  none_yet : History out w w
  then_call :
      {v u : World} (c : Call)
      → History out w v
      → Valid v c
      → call out c [] v ≡ ok (tt, u)
      → History out w u

same_end :
    (out : Outside) (v u : World) (c : Call)
    → (s : Succeeds (call out c) v) → call out c [] v ≡ ok (tt, u)
    → Inv u
same_end out v u c s e = let e' : s.after ≡ u = ground (arith, s.runs) in rw e' at s.keeps

History-Inv : {out : Outside} {w v : World} → Inv w → History out w v → Inv v
History-Inv i none_yet = i
History-Inv {out} {w} i (then_call {v} {u} c h valid e) =
    same_end out v u c (call-Succeeds out v (History-Inv i h) c valid) e

-- The manager's constructor succeeds, and after any history of calls whose arguments are valid every
-- further such call succeeds too. The calls are getLogger; of a logger setLevel, setFormatter with a
-- formatter and with a pattern, addAppender, delAppender and log; the making of a console or a file
-- appender; and of an appender setLevel, setFormatter, reopen and log. Valid arguments lead to loggers and
-- appenders that exist, also the logger of an event, whose file name is not null; a formatter is not
-- null, and an appender that is logged to directly has a formatter. Such a call neither waits for a lock
-- that its own thread holds nor follows a null pointer nor runs out of fuel, and takes no logger and no
-- appender away. At each moment the store is well formed, and each name of the manager's map leads to a
-- logger of that name below the manager's root.
pub History-Succeeds :
    (out : Outside) (w : World)
    → History out initial w
    → (construct [] nothing ≡ ok (tt, initial))
      × Inv w
      × ((c : Call) → Valid w c → Succeeds (call out c) w)
History-Succeeds out w h =
    let i = History-Inv initial-Inv h in (construct-initial, i, call-Succeeds out w i)
