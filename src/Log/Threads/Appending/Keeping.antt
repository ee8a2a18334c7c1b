-- ===== src/Log/Threads/Appending/Keeping.antt =====
-- The methods of appenders take their lock last, and leave appenders usable.
use rabbit_log_db.Base.{
  ℕ, suc, ◌++◌, true, false, List, [], ◌∷◌, some, ◌≡◌, inl, inr, refl, leb, Bytes, codes,
}
use rabbit_log_db.Log.Appender.Fanout.{Ready}
use rabbit_log_db.Log.Appender.{next_reopen, with_last, with_good, file_name, name_at}
use rabbit_log_db.Log.Config.Running.{IsSender-Grows, IsAppender-Grows}
use rabbit_log_db.Log.Event.{LogEvent}
use rabbit_log_db.Log.Formatter.Item.{Env}
use rabbit_log_db.Log.Formatter.Rendering.{sender, format_on-rendering}
use rabbit_log_db.Log.Formatter.{LogFormatter}
use rabbit_log_db.Log.Level.{Level, at_least}
use rabbit_log_db.Log.Manager.Calls.{IsSender, IsAppender}
use rabbit_log_db.Log.Threads.Accesses.{
  Any, Does-pure, Does-locked, Does-if, Does-read_appender, Does-read-Ready, Does-apart,
  Does-write_appender, Does-new_appender, Does-any,
}
use rabbit_log_db.Log.Threads.Appending
use rabbit_log_db.Log.Threads.Appending.{
  new_stdout, new_file, reopen, format, refresh, put_text, emit, log_to,
}
use rabbit_log_db.Log.Threads.Rules.{Below, Safe, Does, Does-bind, Later-refl}
use rabbit_log_db.Log.Threads.{
  Prog, ◌>>=◌, pure, deref, read_appender, write_appender, new_appender_at, print, write, open_file,
}
use rabbit_log_db.Log.World.{Sink, stdout, file, World, Outside, Lock, appender_lock}

abbrev pub is_appender : (w : World) (a : ℕ) → Ready w.appenders a → IsAppender w a
is_appender w a y = (y.appender, y.at)

module _ (r : ℕ) (w : World) (h : List Lock) where
  put_text-Does : (s : Sink) (text : Bytes) → Does r w h (put_text s text) Any
  unfolding put_text print write
  put_text-Does stdout text =
      Does-apart r w h (λ w. record w { console = w.console ++ text }) (λ w. tt)
        (λ w. (refl, refl, refl, refl))
  put_text-Does (file name true last) text =
      Does-apart r w h (λ w. record w { written = w.written ++ (name, text) ∷ [] }) (λ w. tt)
        (λ w. (refl, refl, refl, refl))
  put_text-Does (file name false last) text =
      Does-apart r w h (λ w. record w { console = w.console ++ codes "error\n" }) (λ w. tt)
        (λ w. (refl, refl, refl, refl))

  format-Does :
      (out : Outside) (lv : Level) (e : LogEvent) (f : LogFormatter)
      → IsSender w e
      → Does r w h (format out lv e f) Any
  unfolding format Safe deref sender
  format-Does out lv e f i = λ v n s.
      let ((lg, at), (t, hf)) = IsSender-Grows e n.grows i in
      let named : sender (name_at v) e ≡ some lg.name = rw (hf, at, sender, name_at) refl in
      let env : Env = record { strftime = out.strftime; name_of = name_at v } in
      (
        s,
        Later-refl v,
        rw (format_on-rendering env lg.name lv e f.items named, deref, Safe) (refl, n, tt),
      )

module _ (r : ℕ) (w : World) (h : List Lock) (a : ℕ) where
  pub set_formatter-Does :
      (f : LogFormatter)
      → Below r h (appender_lock a)
      → IsAppender w a
      → Does r w h (Appending.set_formatter a (some f)) Any
  unfolding Appending.set_formatter
  set_formatter-Does f b i =
      let hs = appender_lock a ∷ h in
      let first : Prog (Unit {0}) = write_appender a (λ ap. record ap { formatter = some f }) in
      Does-locked r w h (appender_lock a) _ Any b (
        Does-bind r first _ w hs _ Any
          (Does-write_appender r w hs a (λ ap. record ap { formatter = some f }) i
            (λ x. inr (f, refl)))
          (λ v u n p. Does-any r v hs _ _ (
            Does-write_appender r v hs a (λ ap. record ap { has_formatter = true })
              (IsAppender-Grows a n.grows i) (λ x. inl refl))))

  pub get_formatter-Does :
      Below r h (appender_lock a)
      → IsAppender w a
      → Does r w h
          (Appending.get_formatter a)
          (λ v o. (f : LogFormatter) → o ≡ some f → Ready v.appenders a)
  unfolding Appending.get_formatter
  get_formatter-Does b i =
      let hs = appender_lock a ∷ h in
      Does-locked r w h (appender_lock a) _ _ b (
        Does-bind r (read_appender a) (λ ap. pure ap.formatter) w hs _ _
          (Does-read_appender r w hs a i) (λ v ap n p. Does-pure r v hs ap.formatter _ p))

  pub set_level-Does : (lv : Level) → IsAppender w a → Does r w h (Appending.set_level a lv) Any
  unfolding Appending.set_level
  set_level-Does lv i =
      Does-any r w h _ _
        (Does-write_appender r w h a (λ ap. record ap { level = lv }) i (λ x. inl refl))

  pub reopen-Does :
      (out : Outside) → Below r h (appender_lock a) → IsAppender w a → Does r w h (reopen out a) Any
  unfolding reopen open_file
  reopen-Does out b i =
      let hs = appender_lock a ∷ h in
      Does-locked r w h (appender_lock a) _ Any b (
        Does-bind r (read_appender a) _ w hs _ Any (Does-read_appender r w hs a i) (λ v ap n p.
          Does-bind r (open_file out (file_name ap.sink)) _ v hs _ Any
            (Does-apart r v hs (λ w. record w { opens = suc w.opens })
              (λ w. out.open_for_write (file_name ap.sink) w.opens) (λ w. (refl, refl, refl, refl)))
            (λ v' opened n' p'.
              Does-bind r (write_appender a (λ x. record x { sink = with_good opened x.sink })) _ v'
                hs _ Any
                (Does-write_appender r v' hs a (λ x. record x { sink = with_good opened x.sink })
                  (IsAppender-Grows a n'.grows (IsAppender-Grows a n.grows i)) (λ x. inl refl))
                (λ v'' u n'' q. Does-pure r v'' hs opened Any tt))))

  pub refresh-Does :
      (out : Outside) (last now : ℕ)
      → Below r h (appender_lock a)
      → IsAppender w a
      → Does r w h (refresh out a last now) Any
  unfolding refresh
  refresh-Does out last now b i =
      Does-if r w h (leb (next_reopen last) now) _ _ Any
        (Does-bind r (reopen out a) _ w h _ Any (reopen-Does out b i) (λ v opened n p.
          Does-any r v h _ _ (
            Does-write_appender r v h a (λ x. record x { sink = with_last now x.sink })
              (IsAppender-Grows a n.grows i) (λ x. inl refl))))
        (Does-pure r w h tt Any tt)

module _ (r : ℕ) (w : World) (h : List Lock) (a : ℕ) where
  pub emit-Does :
      (out : Outside) (lv : Level) (e : LogEvent)
      → Below r h (appender_lock a)
      → Ready w.appenders a
      → IsSender w e
      → Does r w h (emit out a lv e) Any
  unfolding emit deref ◌>>=◌
  emit-Does out lv e b y i =
      let hs = appender_lock a ∷ h in
      Does-locked r w h (appender_lock a) _ Any b (
        Does-bind r (read_appender a) _ w hs _ Any (Does-read-Ready r w hs a y)
          (λ v x n (f, formats).
            rw (formats, deref, ◌>>=◌)
              (Does-bind r (format out lv e f) (put_text x.sink) v hs Any Any
                (format-Does r v hs out lv e f (IsSender-Grows e n.grows i))
                (λ v' text n' p. put_text-Does r v' hs x.sink text))))

module _ (r : ℕ) (w : World) (h : List Lock) (a : ℕ) where
  log_to-Does :
      (out : Outside) (lv : Level) (e : LogEvent) (s : Sink)
      → Below r h (appender_lock a)
      → Ready w.appenders a
      → IsSender w e
      → Does r w h (log_to out a lv e s) Any
  unfolding log_to
  log_to-Does out lv e stdout b y i = emit-Does r w h a out lv e b y i
  log_to-Does out lv e (file name good last) b y i =
      Does-bind r (refresh out a last e.time) _ w h _ Any
        (refresh-Does r w h a out last e.time b (is_appender w a y))
        (λ v u n p. emit-Does r v h a out lv e b (n.ready.keep a y) (IsSender-Grows e n.grows i))

module _ (r : ℕ) (w : World) (h : List Lock) (a : ℕ) where
  pub log-Does :
      (out : Outside) (lv : Level) (e : LogEvent)
      → Below r h (appender_lock a)
      → Ready w.appenders a
      → IsSender w e
      → Does r w h (Appending.log out a lv e) Any
  unfolding Appending.log
  log-Does out lv e b y i =
      Does-bind r (read_appender a) _ w h _ Any (Does-read-Ready r w h a y) (λ v x n p.
        Does-if r v h (at_least lv x.level) _ _ Any
          (Does-bind r (read_appender a) _ v h _ Any (Does-read-Ready r v h a (n.ready.keep a y))
            (λ v' x' n' p'.
              log_to-Does r v' h a out lv e x'.sink b (n'.ready.keep a (n.ready.keep a y))
                (IsSender-Grows e n'.grows (IsSender-Grows e n.grows i))))
          (Does-pure r v h tt Any tt))

module _ (r : ℕ) (w : World) (h : List Lock) where
  pub new_stdout-Does : Does r w h new_stdout (λ v a. IsAppender v a)
  unfolding new_stdout
  new_stdout-Does = Does-new_appender r w h _

  -- Making a file takes the lock of the new appender.
  pub new_file-Does :
      (out : Outside) (name : Bytes)
      → ((a : ℕ) → Below r h (appender_lock a))
      → Does r w h (new_file out name) (λ v a. IsAppender v a)
  unfolding new_file
  new_file-Does out name b =
      Does-bind r (new_appender_at _) _ w h _ (λ v a. IsAppender v a) (Does-new_appender r w h _)
        (λ v a n i.
          Does-bind r (reopen out a) _ v h _ (λ v a. IsAppender v a)
            (reopen-Does r v h a out (b a) i)
            (λ v' opened n' p.
              Does-pure r v' h a (λ v a. IsAppender v a) (IsAppender-Grows a n'.grows i)))
