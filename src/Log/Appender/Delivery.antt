-- ===== src/Log/Appender/Delivery.antt =====
-- What logging to one appender does to the store, described without locks and faults.
use rabbit_log_db.Base.{
  ℕ, suc, Bool, true, false, List, [], ◌∷◌, ◌++◌, some, ◌≡◌, refl, ap, arith, leb, if◌then◌else◌,
  Bytes, codes, get_elem?, set, set_same, set-set, get_elem?-set_self, lt_of_get_elem?, Bool-cases,
  inl, inr, append-nil,
}
use rabbit_log_db.Log.Appender.{
  name_at, next_reopen, format, log, log_to, emit, refresh, reopen, put_text,
}
use rabbit_log_db.Log.Event.{LogEvent}
use rabbit_log_db.Log.Formatter.Rendering.{sender, rendering, format_on-rendering}
use rabbit_log_db.Log.Formatter.{LogFormatter}
use rabbit_log_db.Log.Level.{Level, at_least}
use rabbit_log_db.Log.World.{
  Sink, stdout, file, Appender, World, Outside, Lock, appender_lock, ok, with_lock, deref,
  appender_at, put_appender, print, write, open_file, is_held,
}

-- A file was opened at least three seconds ago, by the clock of the event.
unfoldable pub stale : ℕ → Sink → Bool
stale now stdout = false
stale now (file name good last) = leb (next_reopen last) now

-- The sink as the event finds it: a stale file is opened again.
unfoldable pub renewed : Outside → ℕ → ℕ → Sink → Sink
renewed out n now stdout = stdout
renewed out n now (file name good last) =
    if leb (next_reopen last) now
    then file name (out.open_for_write name n) now
    else file name good last

-- What goes to the console, and what to a file.
unfoldable pub to_console : Sink → Bytes → Bytes
to_console stdout text = text
to_console (file name true last) text = []
to_console (file name false last) text = codes "error\n"

unfoldable pub to_file : Sink → Bytes → List (Bytes × Bytes)
to_file stdout text = []
to_file (file name true last) text = (name, text) ∷ []
to_file (file name false last) text = []

-- The store after the text went to appender `a`, which is `ap`.
unfoldable pub put_out : Outside → ℕ → ℕ → Bytes → Appender → World → World
unfolding stale renewed to_console to_file
put_out out a now text ap w = record w {
  appenders = set w.appenders a (record ap { sink = renewed out w.opens now ap.sink });
  console = w.console ++ to_console (renewed out w.opens now ap.sink) text;
  written = w.written ++ to_file (renewed out w.opens now ap.sink) text;
  opens = if stale now ap.sink then suc w.opens else w.opens;
}

-- The store after the event went to appender `a`, which is `ap` and formats by `f`.
unfoldable pub delivered :
    Outside → Bytes → ℕ → Level → LogEvent → Appender → LogFormatter → World → World
unfolding put_out
delivered out n a lv e ap f w =
    if at_least lv ap.level
    then put_out out a e.time (rendering out.strftime n lv e f.items) ap w
    else w

module _ (out : Outside) (held : List Lock) (a : ℕ)
    (free : is_held (appender_lock a) held ≡ false) where
  emit-put_text :
      (w : World) {n : Bytes} {ap : Appender} {f : LogFormatter} (lv : Level) (e : LogEvent)
      → sender (name_at w) e ≡ some n
      → get_elem? w.appenders a ≡ some ap
      → ap.formatter ≡ some f
      → emit out a lv e held w
        ≡ put_text ap.sink (rendering out.strftime n lv e f.items) (appender_lock a ∷ held) w
  unfolding emit with_lock deref appender_at format
  emit-put_text w {n} {ap} {f} lv e hn ha hf = ground (
    arith,
    format_on-rendering (record { strftime = out.strftime; name_of = name_at w }) n lv e f.items hn,
  )

  -- The store once a stale file is open again.
  reopened : World → Appender → Bytes → ℕ → World
  reopened w ap name now = record w {
    appenders =
        set w.appenders a (record ap { sink = file name (out.open_for_write name w.opens) now });
    opens = suc w.opens;
  }

  refresh-reopened :
      (w : World) {ap : Appender} {name : Bytes} {good : Bool} {last : ℕ} (now : ℕ)
      → get_elem? w.appenders a ≡ some ap
      → ap.sink ≡ file name good last
      → leb (next_reopen last) now ≡ true
      → refresh out a last now held w ≡ ok (tt, reopened w ap name now)
  unfolding refresh reopen with_lock deref appender_at put_appender open_file reopened
  refresh-reopened w {ap} {name} {good} {last} now ha hs ht = ground (
    arith,
    get_elem?-set_self w.appenders a
        (record ap { sink = file name (out.open_for_write name w.opens) last })
        (lt_of_get_elem? w.appenders a ha),
    set-set w.appenders a (record ap { sink = file name (out.open_for_write name w.opens) last })
        (record ap { sink = file name (out.open_for_write name w.opens) now }),
  )

  log_stdout :
      (w : World) {n : Bytes} {ap : Appender} {f : LogFormatter} (lv : Level) (e : LogEvent)
      → sender (name_at w) e ≡ some n
      → get_elem? w.appenders a ≡ some ap
      → ap.formatter ≡ some f
      → ap.sink ≡ stdout
      → log out a lv e held w ≡ ok (tt, delivered out n a lv e ap f w)
  unfolding log log_to appender_at deref delivered put_text print
  log_stdout w {n} {ap} {f} lv e hn ha hf hs =
      ground (arith, emit-put_text w lv e hn ha hf, set_same w.appenders a ha, append-nil w.written)

  -- A file that is not stale.
  log_fresh :
      (w : World) {n : Bytes} {ap : Appender} {f : LogFormatter} (lv : Level) (e : LogEvent)
      {name : Bytes} (good : Bool) {last : ℕ}
      → sender (name_at w) e ≡ some n
      → get_elem? w.appenders a ≡ some ap
      → ap.formatter ≡ some f
      → ap.sink ≡ file name good last
      → leb (next_reopen last) e.time ≡ false
      → log out a lv e held w ≡ ok (tt, delivered out n a lv e ap f w)
  unfolding log log_to appender_at deref refresh delivered put_text print write
  log_fresh w {n} {ap} {f} lv e true hn ha hf hs ht =
      ground (arith, emit-put_text w lv e hn ha hf, set_same w.appenders a ha, append-nil w.console)
  log_fresh w {n} {ap} {f} lv e false hn ha hf hs ht =
      ground (arith, emit-put_text w lv e hn ha hf, set_same w.appenders a ha, append-nil w.written)

  -- A stale file, whatever the attempt to open it gives.
  log_stale :
      (w : World) {n : Bytes} {ap : Appender} {f : LogFormatter} (lv : Level) (e : LogEvent)
      {name : Bytes} {good : Bool} {last : ℕ} (opened : Bool)
      → sender (name_at w) e ≡ some n
      → get_elem? w.appenders a ≡ some ap
      → ap.formatter ≡ some f
      → ap.sink ≡ file name good last
      → leb (next_reopen last) e.time ≡ true
      → out.open_for_write name w.opens ≡ opened
      → log out a lv e held w ≡ ok (tt, delivered out n a lv e ap f w)
  unfolding log log_to appender_at deref delivered put_text print write reopened name_at
  log_stale w {n} {ap} {f} lv e {name} opened hn ha hf hs ht ho = ground (
    arith,
    refresh-reopened w e.time ha hs ht,
    emit-put_text (reopened w ap name e.time) lv e hn
        (get_elem?-set_self w.appenders a
          (record ap { sink = file name (out.open_for_write name w.opens) e.time })
          (lt_of_get_elem? w.appenders a ha))
        hf,
    append-nil w.console,
    append-nil w.written,
  )

  -- Logging an event that has a file name and whose logger exists, to an appender that exists and has
  -- a formatter, while the lock of the appender is not held, succeeds and does what `delivered` says:
  -- below the level nothing; else a file last opened three or more seconds ago is opened again, and
  -- the rendered text goes to the console or to the file, and is dropped with an error line if the
  -- file is not open.
  pub log-delivered :
      (w : World) {n : Bytes} {ap : Appender} {f : LogFormatter} (lv : Level) (e : LogEvent)
      → sender (name_at w) e ≡ some n
      → get_elem? w.appenders a ≡ some ap
      → ap.formatter ≡ some f
      → log out a lv e held w ≡ ok (tt, delivered out n a lv e ap f w)
  log-delivered w {n} {ap} {f} lv e hn ha hf = by_sink ap.sink refl
    where
      by_sink :
          (s : Sink) → ap.sink ≡ s → log out a lv e held w ≡ ok (tt, delivered out n a lv e ap f w)
      by_sink stdout hs = log_stdout w lv e hn ha hf hs
      by_sink (file name good last) hs = elim (Bool-cases (leb (next_reopen last) e.time)) [
        | inl ht ↦ log_stale w lv e (out.open_for_write name w.opens) hn ha hf hs ht refl
        | inr ht ↦ log_fresh w lv e good hn ha hf hs ht
      ]
