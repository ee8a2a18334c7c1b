-- ===== src/Log/Appender/Fanout.antt =====
-- Logging to several appenders in turn.
use rabbit_log_db.Base.{
  ℕ, zero, suc, false, length, List, [], ◌∷◌, none, some, ◌≡◌, refl, ap, ◌∙◌, arith, Bytes,
  get_elem?, set,
}
use rabbit_log_db.Log.Appender.Delivery.{delivered, renewed, log-delivered}
use rabbit_log_db.Log.Appender.{name_at, log}
use rabbit_log_db.Log.Event.{LogEvent}
use rabbit_log_db.Log.Formatter.{LogFormatter}
use rabbit_log_db.Log.Formatter.Rendering.{sender}
use rabbit_log_db.Log.Level.{Level}
use rabbit_log_db.Log.World.{
  stdout, Appender, World, Outside, Lock, appender_lock, ok, is_held, each,
}

-- Appender `a` exists and has a formatter.
pub record Ready (xs : List Appender) (a : ℕ) : Type 0 where
  pub appender : Appender
  pub formatter : LogFormatter
  pub at : get_elem? xs a ≡ some appender
  pub formats : appender.formatter ≡ some formatter

abbrev pub AllReady : List Appender → List ℕ → Type 0
AllReady xs [] = Unit {0}
AllReady xs (a ∷ rest) = Ready xs a × AllReady xs rest

-- The store after the event went to the appender at address `a`, if that is ready.
unfoldable pub deliver_at : Outside → Bytes → Level → LogEvent → ℕ → World → World
unfolding delivered
deliver_at out n lv e a w = elim (get_elem? w.appenders a) [
  | none ↦ w
  | some ap ↦ elim ap.formatter [ none ↦ w | some f ↦ delivered out n a lv e ap f w ]
]

unfoldable pub deliver_all : Outside → Bytes → Level → LogEvent → List ℕ → World → World
unfolding deliver_at
deliver_all out n lv e [] w = w
deliver_all out n lv e (a ∷ rest) w = deliver_all out n lv e rest (deliver_at out n lv e a w)

-- All of an appender but its stream.
abbrev pub config : Appender → Appender
config ap = record ap { sink = stdout }

pub configs : List Appender → List Appender
configs [] = []
configs (x ∷ xs) = config x ∷ configs xs

pub length-configs : (xs : List Appender) → length (configs xs) ≡ length xs
unfolding configs
length-configs [] = refl
length-configs (x ∷ xs) = ap suc (length-configs xs)

configs-set :
    (xs : List Appender) (a : ℕ) {ap : Appender} (v : Appender)
    → get_elem? xs a ≡ some ap
    → config v ≡ config ap
    → configs (set xs a v) ≡ configs xs
unfolding configs
configs-set [] a v h c = refl
configs-set (x ∷ xs) zero v h c = ground arith
configs-set (x ∷ xs) (suc a) v h c = ap (◌∷◌ (config x)) (configs-set xs a v h c)

-- A store in which only streams and outputs differ.
pub record Unchanged (w w' : World) : Type 0 where
  pub loggers : w'.loggers ≡ w.loggers
  pub appenders : configs w'.appenders ≡ configs w.appenders
  pub managed : w'.managed ≡ w.managed
  pub root : w'.root ≡ w.root

pub Ready-configs :
    (xs ys : List Appender) (a : ℕ) → configs ys ≡ configs xs → Ready xs a → Ready ys a
unfolding configs
Ready-configs [] ys a h r = absurd (cc r.at)
Ready-configs (x ∷ xs) [] a h r = absurd (cc)
Ready-configs (x ∷ xs) (y ∷ ys) zero h r = record {
  appender = y;
  formatter = r.formatter;
  at = refl;
  formats = ground (arith, r.at, r.formats);
}
Ready-configs (x ∷ xs) (y ∷ ys) (suc a) h r =
    let s =
      Ready-configs xs ys a (ground arith) (record {
        appender = r.appender;
        formatter = r.formatter;
        at = r.at;
        formats = r.formats;
      }) in
    record { appender = s.appender; formatter = s.formatter; at = s.at; formats = s.formats }

pub AllReady-configs :
    (xs ys : List Appender) (rest : List ℕ)
    → configs ys ≡ configs xs
    → AllReady xs rest
    → AllReady ys rest
AllReady-configs xs ys [] h r = tt
AllReady-configs xs ys (a ∷ rest) h r =
    (Ready-configs xs ys a h r.0, AllReady-configs xs ys rest h r.1)

module _ (out : Outside) (n : Bytes) (lv : Level) (e : LogEvent) where
  pub deliver_at-Ready :
      (a : ℕ) (w : World) (r : Ready w.appenders a)
      → deliver_at out n lv e a w ≡ delivered out n a lv e r.appender r.formatter w
  unfolding deliver_at
  deliver_at-Ready a w r = ground (arith, r.at, r.formats)

  pub deliver_at-Unchanged :
      (a : ℕ) (w : World) → Ready w.appenders a → Unchanged w (deliver_at out n lv e a w)
  unfolding delivered
  deliver_at-Unchanged a w r = record {
    loggers = ground (arith, deliver_at-Ready a w r);
    appenders = rw (deliver_at-Ready a w r) (
        ground (
          arith,
          configs-set w.appenders a
              (record (r.appender) { sink = renewed out w.opens e.time r.appender.sink }) r.at refl,
        ));
    managed = ground (arith, deliver_at-Ready a w r);
    root = ground (arith, deliver_at-Ready a w r);
  }

  sender-Unchanged : (w w' : World) → Unchanged w w' → sender (name_at w') e ≡ sender (name_at w) e
  unfolding name_at sender
  sender-Unchanged w w' u = rw u.loggers

  -- Logging to ready appenders in turn succeeds, under locks of which none is an appender's.
  pub each-deliver_all :
      (rest : List ℕ) (held : List Lock) (w : World)
      → ((a : ℕ) → is_held (appender_lock a) held ≡ false)
      → sender (name_at w) e ≡ some n
      → AllReady w.appenders rest
      → each rest (λ i. log out i lv e) held w ≡ ok (tt, deliver_all out n lv e rest w)
  unfolding each deliver_all
  each-deliver_all [] held w free hn r = refl
  each-deliver_all (a ∷ rest) held w free hn r =
      let u = deliver_at-Unchanged a w r.0 in
      let w' = deliver_at out n lv e a w in
      ground (
        arith,
        log-delivered out held a (free a) w lv e hn r.0.at r.0.formats,
        deliver_at-Ready a w r.0,
        each-deliver_all rest held w' free (sender-Unchanged w w' u ∙ hn)
            (AllReady-configs w.appenders w'.appenders rest u.appenders r.1),
      )

  pub deliver_all-Unchanged :
      (rest : List ℕ) (w : World)
      → AllReady w.appenders rest
      → Unchanged w (deliver_all out n lv e rest w)
  unfolding deliver_all
  deliver_all-Unchanged [] w r = record {
    loggers = refl;
    appenders = refl;
    managed = refl;
    root = refl;
  }
  deliver_all-Unchanged (a ∷ rest) w r =
      let u = deliver_at-Unchanged a w r.0 in
      let w' = deliver_at out n lv e a w in
      let v =
        deliver_all-Unchanged rest w'
          (AllReady-configs w.appenders w'.appenders rest u.appenders r.1) in
      record {
        loggers = v.loggers ∙ u.loggers;
        appenders = v.appenders ∙ u.appenders;
        managed = v.managed ∙ u.managed;
        root = v.root ∙ u.root;
      }
