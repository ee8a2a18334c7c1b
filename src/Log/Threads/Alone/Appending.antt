-- ===== src/Log/Threads/Alone/Appending.antt =====
-- Appenders of Log/Log.cpp: a thread alone, and the model without threads.
use rabbit_log_db.Base.{
  List, ℕ, true, false, ◌∷◌, Option, ◌≡◌, refl, arith, inl, inr, leb, Bytes, Bool, some,
  Option-cases, get_elem?, set-set, get_elem?-set_self, lt_of_get_elem?,
}
use rabbit_log_db.Log.Appender
use rabbit_log_db.Log.Appender.{file_name, with_good, with_last, next_reopen}
use rabbit_log_db.Log.Event.{LogEvent}
use rabbit_log_db.Log.Formatter.{LogFormatter}
use rabbit_log_db.Log.Level.{Level, at_least}
use rabbit_log_db.Log.Threads.Alone.{
  Agrees, alone, resume, Agrees-bind, Agrees-ret, Agrees-locked, Agrees-if, Agrees-deref,
  Agrees-read_appender, Agrees-known_appender, Agrees-put_appender, Agrees-write_appender,
  appender_at-ok,
}
use rabbit_log_db.Log.Threads.Appending
use rabbit_log_db.Log.Threads.{
  ◌>>=◌, ◌>>◌, pure, deref, modify, found, write_appender, read_appender, open_file,
  new_appender_at, print, write,
}
use rabbit_log_db.Log.World
use rabbit_log_db.Log.World.{
  ok, Lock, Outside, Sink, stdout, file, appender_lock, appender_at, put_appender,
}

module _ (h : List Lock) (w : World.World) where
  Agrees-open_file :
      (out : Outside) (name : Bytes) → Agrees h w (open_file out name) (World.open_file out name)
  unfolding Agrees open_file World.open_file ◌>>=◌ alone resume
  Agrees-open_file out name k = refl

  open_file-appenders :
      (out : Outside) (name : Bytes) (o : Bool) (v : World.World)
      → World.open_file out name h w ≡ ok (o, v)
      → w.appenders ≡ v.appenders
  unfolding World.open_file
  open_file-appenders out name o v e = ground (arith, e)

  Agrees-new_appender :
      (x : World.Appender) → Agrees h w (new_appender_at x) (World.alloc_appender x)
  unfolding Agrees new_appender_at World.alloc_appender ◌>>=◌ alone resume
  Agrees-new_appender x k = refl

  Agrees-format :
      (out : Outside) (lv : Level) (e : LogEvent) (f : LogFormatter)
      → Agrees h w (Appending.format out lv e f) (Appender.format out lv e f)
  unfolding Agrees Appending.format Appender.format ◌>>=◌ alone resume
  Agrees-format out lv e f k = Agrees-deref h w _ k

  Agrees-put_text :
      (s : Sink) (text : Bytes) → Agrees h w (Appending.put_text s text) (Appender.put_text s text)
  unfolding Agrees Appending.put_text Appender.put_text print World.print write World.write ◌>>=◌
      alone resume
  Agrees-put_text stdout text k = refl
  Agrees-put_text (file name true last) text k = refl
  Agrees-put_text (file name false last) text k = refl

module _ (h : List Lock) (w : World.World) (a : ℕ) where
  -- Two members are written, one after the other.
  Agrees-write_two :
      (f g : World.Appender → World.Appender)
      → Agrees h w
          (write_appender a f >> write_appender a g)
          (World.◌>>=◌ (appender_at a) (λ x. put_appender a (g (f x))))
  unfolding Agrees write_appender appender_at put_appender modify found World.deref ◌>>=◌ alone
      resume
  Agrees-write_two f g k = elim (Option-cases (get_elem? w.appenders a)) [
    | inl e ↦ ground (arith, e)
    | inr (x, e) ↦
        let again = get_elem?-set_self w.appenders a (f x) (lt_of_get_elem? w.appenders a e) in
        ground (arith, e, again, set-set w.appenders a (f x) (g (f x)))
  ]

  -- The end of `reopen`, for an appender that is there.
  Agrees-opened :
      (out : Outside) (x : World.Appender)
      → get_elem? w.appenders a ≡ some x
      → Agrees h w
          (open_file out (file_name x.sink) >>= λ opened.
            write_appender a (λ x. record x { sink = with_good opened x.sink }) >> pure opened)
          (World.◌>>=◌ (World.open_file out (file_name x.sink)) (λ opened.
            World.◌>>◌
              (put_appender a (record x { sink = with_good opened x.sink }))
              (World.pure opened)))
  Agrees-opened out x is =
      Agrees-bind h (open_file out (file_name x.sink)) _ (World.open_file out (file_name x.sink)) _
        (Agrees-open_file h w out (file_name x.sink))
        (λ o v e.
          let g : World.Appender → World.Appender = λ x. record x { sink = with_good o x.sink } in
          let same = open_file-appenders h w out (file_name x.sink) o v e in
          Agrees-bind h (write_appender a g) _ (put_appender a (g x)) _
            (Agrees-put_appender h v a g (rw same at is)) (λ u v e. Agrees-ret h v o))

module _ (h : List Lock) (w : World.World) (a : ℕ) where
  pub set_formatter-Agrees :
      (val : Option LogFormatter)
      → Agrees h w (Appending.set_formatter a val) (Appender.set_formatter a val)
  unfolding Appending.set_formatter Appender.set_formatter
  set_formatter-Agrees val = Agrees-locked h w (appender_lock a) _ _ (λ e.
      Agrees-write_two (appender_lock a ∷ h) w a (λ x. record x { formatter = val })
        (λ x. record x { has_formatter = Appender.is_some val }))

  pub set_level-Agrees :
      (val : Level) → Agrees h w (Appending.set_level a val) (Appender.set_level a val)
  unfolding Appending.set_level Appender.set_level
  set_level-Agrees val = Agrees-write_appender h w a (λ x. record x { level = val })

  pub get_formatter-Agrees : Agrees h w (Appending.get_formatter a) (Appender.get_formatter a)
  unfolding Appending.get_formatter Appender.get_formatter
  get_formatter-Agrees = Agrees-locked h w (appender_lock a) _ _ (λ e.
      Agrees-bind (appender_lock a ∷ h) (read_appender a) _ (appender_at a) _
        (Agrees-read_appender (appender_lock a ∷ h) w a)
        (λ x v e. Agrees-ret (appender_lock a ∷ h) v x.formatter))

  pub reopen-Agrees : (out : Outside) → Agrees h w (Appending.reopen out a) (Appender.reopen out a)
  unfolding Appending.reopen Appender.reopen
  reopen-Agrees out = Agrees-locked h w (appender_lock a) _ _ (λ e.
      let h' = appender_lock a ∷ h in
      Agrees-bind h' (read_appender a) _ (appender_at a) _ (Agrees-read_appender h' w a)
        (λ x v known.
          let (is, same) = appender_at-ok h' w a known in
          Agrees-opened h' v a out x (rw same at is)))

  refresh-Agrees :
      (out : Outside) (last now : ℕ)
      → Agrees h w (Appending.refresh out a last now) (Appender.refresh out a last now)
  unfolding Appending.refresh Appender.refresh
  refresh-Agrees out last now =
      Agrees-if h w (leb (next_reopen last) now) _ _ _ _
        (Agrees-bind h (Appending.reopen out a) _ (Appender.reopen out a) _ (reopen-Agrees out)
          (λ o v e. Agrees-write_appender h v a (λ x. record x { sink = with_last now x.sink })))
        (Agrees-ret h w tt)

  emit-Agrees :
      (out : Outside) (lv : Level) (e : LogEvent)
      → Agrees h w (Appending.emit out a lv e) (Appender.emit out a lv e)
  unfolding Appending.emit Appender.emit
  emit-Agrees out lv e = Agrees-locked h w (appender_lock a) _ _ (λ free.
      let h' = appender_lock a ∷ h in
      Agrees-bind h' (read_appender a) _ (appender_at a) _ (Agrees-read_appender h' w a) (λ x v is.
        Agrees-bind h' (deref x.formatter) _ (World.deref x.formatter) _
          (Agrees-deref h' v x.formatter)
          (λ f v is.
            Agrees-bind h' (Appending.format out lv e f) _ (Appender.format out lv e f) _
              (Agrees-format h' v out lv e f) (λ text v is. Agrees-put_text h' v x.sink text))))

log_to-Agrees :
    (h : List Lock) (w : World.World) (a : ℕ) (out : Outside) (lv : Level) (e : LogEvent) (s : Sink)
    → Agrees h w (Appending.log_to out a lv e s) (Appender.log_to out a lv e s)
unfolding Appending.log_to Appender.log_to
log_to-Agrees h w a out lv e stdout = emit-Agrees h w a out lv e
log_to-Agrees h w a out lv e (file name good last) =
    Agrees-bind h (Appending.refresh out a last e.time) _ (Appender.refresh out a last e.time) _
      (refresh-Agrees h w a out last e.time) (λ u v is. emit-Agrees h v a out lv e)

pub log-Agrees :
    (out : Outside) (lv : Level) (e : LogEvent) (a : ℕ) (h : List Lock) (w : World.World)
    → Agrees h w (Appending.log out a lv e) (Appender.log out a lv e)
unfolding Appending.log Appender.log
log-Agrees out lv e a h w =
    Agrees-bind h (read_appender a) _ (appender_at a) _ (Agrees-read_appender h w a) (λ x v known.
      let (is, same) = appender_at-ok h w a known in
      Agrees-if h v (at_least lv x.level) _ _ _ _
        (Agrees-known_appender h v a _ _ (rw same at is) (log_to-Agrees h v a out lv e x.sink))
        (Agrees-ret h v tt))

pub new_stdout-Agrees :
    (h : List Lock) (w : World.World) → Agrees h w Appending.new_stdout Appender.new_stdout
unfolding Appending.new_stdout Appender.new_stdout
new_stdout-Agrees h w = Agrees-new_appender h w _

pub new_file-Agrees :
    (h : List Lock) (w : World.World) (out : Outside) (name : Bytes)
    → Agrees h w (Appending.new_file out name) (Appender.new_file out name)
unfolding Appending.new_file Appender.new_file
new_file-Agrees h w out name =
    Agrees-bind h (new_appender_at _) _ (World.alloc_appender _) _ (Agrees-new_appender h w _)
      (λ a v e.
        Agrees-bind h (Appending.reopen out a) _ (Appender.reopen out a) _ (reopen-Agrees h v a out)
          (λ o v e. Agrees-ret h v a))
