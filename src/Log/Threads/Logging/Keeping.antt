-- ===== src/Log/Threads/Logging/Keeping.antt =====
-- The methods of loggers that change them, and `getLogger`, take their locks in order and leave the store
-- sound.
use rabbit_log_db.Base.{
  ℕ, ◌<◌, List, [], ◌∷◌, ◌++◌, Option, none, some, ◌≡◌, inl, inr, refl, arith, ◌==◌, Bytes, not,
  Bool-cases,
}
use rabbit_log_db.Log.Appender.Fanout.{Ready, AllReady}
use rabbit_log_db.Log.Config.Running.{IsLogger-Grows, IsAppender-Grows}
use rabbit_log_db.Log.Formatter.Runs.{init_total}
use rabbit_log_db.Log.Formatter.{LogFormatter, unclosed, parse_error}
use rabbit_log_db.Log.Level.{Level}
use rabbit_log_db.Log.Logger.Attaching.{AllReady-concat}
use rabbit_log_db.Log.Logger.Keeping.{AllReady-Keeps}
use rabbit_log_db.Log.Manager.Calls.{IsLogger, IsAppender}
use rabbit_log_db.Log.Threads.Accesses.{
  Any, Does-pure, Does-locked, Does-if, Does-read_logger, Does-read_appender, Does-write_appender,
  Does-write_logger, Does-any, Does-apart,
}
use rabbit_log_db.Log.Threads.Appending
use rabbit_log_db.Log.Threads.Appending.Keeping.{get_formatter-Does, is_appender}
use rabbit_log_db.Log.Threads.Logging
use rabbit_log_db.Log.Threads.Logging.{
  new_formatter, new_logger, inherit, set_formatter, set_pattern, adopt, add_appender, del_appender,
  find_managed, put_managed, root_of, create, get_logger,
}
use rabbit_log_db.Log.Threads.Rules.{
  rank, Below, Safe-map, Does, Does-bind, Later, Later-refl, Later-trans,
}
use rabbit_log_db.Log.Threads.{Prog, print, each, read_logger, read_appender, write_logger}
use rabbit_log_db.Log.World.{World, Lock, logger_lock, appender_lock}

pub logger-appender : (r l a : ℕ) → rank r (logger_lock l) < rank r (appender_lock a)
unfolding rank
logger-appender r l a = elim (Bool-cases (l == r)) [ inl e ↦ ground arith | inr e ↦ ground arith ]

-- A loop over appenders that can be used.
pub Does-each :
    (r : ℕ) (g : ℕ → Prog (Unit {0})) (xs : List ℕ) (w : World) (h : List Lock)
    → AllReady w.appenders xs
    → ((v : World) (a : ℕ) → Later w v → Ready v.appenders a → Does r v h (g a) Any)
    → Does r w h (each xs g) Any
unfolding each
Does-each r g [] w h y body = Does-pure r w h tt Any tt
Does-each r g (a ∷ xs) w h y body =
    Does-bind r (g a) (λ u. each xs g) w h Any Any (body w a (Later-refl w) y.0)
      (λ v u n p.
        Does-each r g xs v h (AllReady-Keeps xs n.ready y.1)
          (λ v' b n' y'. body v' b (Later-trans n n') y'))

-- The lines that the constructor of a formatter prints.
complaints-Does :
    (r : ℕ) (val : Bytes) (rs : List Bytes) (w : World) (h : List Lock)
    → Does r w h (each rs (λ rest. print (parse_error val rest))) Any
unfolding each print
complaints-Does r val [] w h = Does-pure r w h tt Any tt
complaints-Does r val (x ∷ rs) w h =
    Does-bind r (print (parse_error val x)) _ w h Any Any
      (Does-apart r w h _ (λ w. tt) (λ w. (refl, refl, refl, refl)))
      (λ v u n q. complaints-Does r val rs v h)

module _ (r : ℕ) (w : World) where
  pub set_level-Does :
      (l : ℕ) (lv : Level) → IsLogger w l → Does r w [] (Logging.set_level l lv) Any
  unfolding Logging.set_level
  set_level-Does l lv i =
      Does-write_logger r w [] l (λ lg. record lg { level = lv }) i
        (λ v lg n m. record { formatted = m.formatted; attached = m.attached; rooted = m.rooted })

  pub del_appender-Does : (l a : ℕ) → IsLogger w l → Does r w [] (del_appender l a) Any
  unfolding del_appender
  del_appender-Does l a i = Does-locked r w [] (logger_lock l) _ Any tt (
      Does-write_logger r w (logger_lock l ∷ []) l (λ lg. record lg { appenders = [] }) i
        (λ v lg n m. record { formatted = m.formatted; attached = tt; rooted = m.rooted }))

module _ (r : ℕ) (w : World) (h : List Lock) where
  inherit-Does :
      (f : LogFormatter) (a : ℕ)
      → Below r h (appender_lock a)
      → IsAppender w a
      → Does r w h (inherit (some f) a) Any
  unfolding inherit
  inherit-Does f a b i =
      let hs = appender_lock a ∷ h in
      Does-locked r w h (appender_lock a) _ Any b (
        Does-bind r (read_appender a) _ w hs _ Any (Does-read_appender r w hs a i) (λ v x n p.
          Does-if r v hs (not x.has_formatter) _ _ Any
            (Does-any r v hs _ _ (
              Does-write_appender r v hs a (λ x. record x { formatter = some f })
                (IsAppender-Grows a n.grows i) (λ x. inr (f, refl))))
            (Does-pure r v hs tt Any tt)))

  pub new_formatter-Does : (val : Bytes) → Does r w h (new_formatter val) Any
  unfolding new_formatter
  new_formatter-Does val =
      let (f, e, p) = init_total val in
      rw (e, new_formatter)
        (Does-bind r (each (unclosed val) _) _ w h Any Any
          (complaints-Does r val (unclosed val) w h) (λ v u n q. Does-pure r v h f Any tt))

  adopt-Does :
      (l a : ℕ) (o : Option LogFormatter)
      → Below r h (appender_lock a)
      → IsLogger w l
      → IsAppender w a
      → ((f : LogFormatter) → o ≡ some f → Ready w.appenders a)
      → Does r w h (adopt l a o) (λ v u. Ready v.appenders a)
  unfolding adopt
  adopt-Does l a (some f) b i j y = Does-pure r w h tt (λ v u. Ready v.appenders a) (y f refl)
  adopt-Does l a none b i j y =
      let hs = appender_lock a ∷ h in
      Does-locked r w h (appender_lock a) _ _ b (
        Does-bind r (read_logger l) _ w hs _ _ (Does-read_logger r w hs l i) (λ v lg n m.
          let (f, e) = m.formatted in
          Safe-map r _ v hs _ _
            (λ u t k (same, n', (x, at)).
              (same, n', record { appender = _; formatter = f; at = at; formats = e }))
            (Does-write_appender r v hs a (λ x. record x { formatter = lg.formatter })
              (IsAppender-Grows a n.grows j) (λ x. inr (f, e)))))

module _ (r : ℕ) (w : World) where
  pub set_formatter-Does :
      (l : ℕ) (f : LogFormatter) → IsLogger w l → Does r w [] (set_formatter l (some f)) Any
  unfolding set_formatter
  set_formatter-Does l f i =
      let hs = logger_lock l ∷ [] in
      Does-locked r w [] (logger_lock l) _ Any tt (
        Does-bind r (write_logger l (λ lg. record lg { formatter = some f })) _ w hs Any Any
          (Does-write_logger r w hs l (λ lg. record lg { formatter = some f }) i
            (λ v lg n m. record {
              formatted = (f, refl);
              attached = m.attached;
              rooted = m.rooted;
            }))
          (λ v u n p.
            Does-bind r (read_logger l) _ v hs _ Any
              (Does-read_logger r v hs l (IsLogger-Grows l n.grows i))
              (λ v' lg n' m.
                Does-each r (inherit (some f)) lg.appenders v' hs m.attached (λ u a n'' y.
                  inherit-Does r u hs f a (logger-appender r l a, tt) (is_appender u a y)))))

  pub add_appender-Does :
      (l a : ℕ) → IsLogger w l → IsAppender w a → Does r w [] (add_appender l a) Any
  unfolding add_appender
  add_appender-Does l a i j =
      let hs = logger_lock l ∷ [] in
      let b : Below r hs (appender_lock a) = (logger-appender r l a, tt) in
      Does-locked r w [] (logger_lock l) _ Any tt (
        Does-bind r (Appending.get_formatter a) _ w hs _ Any (get_formatter-Does r w hs a b j)
          (λ v o n p.
            Does-bind r (adopt l a o) _ v hs _ Any
              (adopt-Does r v hs l a o b (IsLogger-Grows l n.grows i) (IsAppender-Grows a n.grows j)
                p)
              (λ v' u n' y.
                Does-write_logger r v' hs l (λ lg. record lg { appenders = lg.appenders ++ a ∷ [] })
                  (IsLogger-Grows l n'.grows (IsLogger-Grows l n.grows i))
                  (λ u lg n'' m. record {
                    formatted = m.formatted;
                    attached =
                        AllReady-concat u.appenders lg.appenders a m.attached (n''.ready.keep a y);
                    rooted = m.rooted;
                  }))))
