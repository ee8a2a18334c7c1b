-- ===== src/Log/Appender/Recovery.antt =====
-- A file appender of Log/Log.cpp whose file could not be opened: it is opened again with an event that
-- comes three seconds later.
use rabbit_log_db.Base.{
  ℕ, suc, set_same, ◌+◌, ◌≤◌, ◌<◌, Bool, true, false, List, [], ◌∷◌, ◌++◌, some, ◌≡◌, refl, sym, ap,
  ◌∙◌, arith, leb, Bytes, length, get_elem?, get_elem?-set_self, lt_of_get_elem?, Bool-cases, inl,
  inr, append-nil, append_assoc,
}
use rabbit_log_db.Log.Appender.Delivery.{delivered, put_out, renewed, stale, to_file, log-delivered}
use rabbit_log_db.Log.Appender.{name_at, next_reopen, log}
use rabbit_log_db.Log.Event.{LogEvent}
use rabbit_log_db.Log.Formatter.Rendering.{sender, rendering}
use rabbit_log_db.Log.Formatter.{LogFormatter}
use rabbit_log_db.Log.Level.{Level, at_least}
use rabbit_log_db.Log.World.{file, Appender, is_held, World, Outside, ok, ◌>>=◌, ◌>>◌, each}

-- Each event comes three seconds or more after the file was last opened, by the test of the code.
abbrev pub Spaced : ℕ → List LogEvent → Type 0
Spaced last [] = Unit
Spaced last (e ∷ es) = (leb (next_reopen last) e.time ≡ true) × Spaced e.time es

-- The events have file names, and their loggers exist and have the name.
abbrev pub Named : World → Bytes → List LogEvent → Type 0
Named w n [] = Unit
Named w n (e ∷ es) = (sender (name_at w) e ≡ some n) × Named w n es

-- What is written for each event, to the file of this name.
unfoldable pub lines_of :
    Outside → Bytes → Bytes → Level → LogFormatter → List LogEvent → List (Bytes × Bytes)
lines_of out name n lv f [] = []
lines_of out name n lv f (e ∷ es) =
    (name, rendering out.strftime n lv e f.items) ∷ lines_of out name n lv f es

-- The appender at an address, which lets the level pass: a file, whether its stream is good, and when
-- it was last opened.
pub record FileAt (a : ℕ) (name : Bytes) (lv : Level) (f : LogFormatter) (w : World) (good : Bool)
    (last : ℕ) : Type 0 where
  pub appender : Appender
  pub at : get_elem? w.appenders a ≡ some appender
  pub formats : appender.formatter ≡ some f
  pub passes : at_least lv appender.level ≡ true
  pub sink : appender.sink ≡ file name good last

-- From its k-th opening on, the file can be opened.
abbrev pub OpensFrom : Outside → Bytes → ℕ → Type 0
OpensFrom out name k = (n : ℕ) → k ≤ n → out.open_for_write name n ≡ true

Named-same :
    (w w' : World) (n : Bytes) (es : List LogEvent)
    → w'.loggers ≡ w.loggers
    → Named w n es
    → Named w' n es
unfolding name_at
Named-same w w' n [] h k = tt
Named-same w w' n (e ∷ es) h k = (rw (h, name_at) k.0, Named-same w w' n es h k.1)

module _ (out : Outside) (a : ℕ) (name n : Bytes) (lv : Level) (f : LogFormatter) where
  -- What one event does.
  record Logged (e : LogEvent) (w : World) (good : Bool) (last opens : ℕ) : Type 0 where
    after : World
    runs : log out a lv e [] w ≡ ok (tt, after)
    loggers : after.loggers ≡ w.loggers
    opened : after.opens ≡ opens
    state : FileAt a name lv f after good last
    wrote :
        after.written
        ≡ w.written ++ to_file (file name good last) (rendering out.strftime n lv e f.items)

  Logged-stale :
      (e : LogEvent) (w : World) (good : Bool) (last : ℕ)
      → FileAt a name lv f w good last
      → sender (name_at w) e ≡ some n
      → leb (next_reopen last) e.time ≡ true
      → Logged e w (out.open_for_write name w.opens) e.time (suc w.opens)
  unfolding delivered put_out renewed stale is_held
  Logged-stale e w good last s h t =
      let ap' = record s.appender { sink = file name (out.open_for_write name w.opens) e.time } in
      record {
        after = delivered out n a lv e s.appender f w;
        runs = log-delivered out [] a refl w lv e h s.at s.formats;
        loggers = ground (arith, s.passes);
        opened = ground (arith, s.passes, s.sink);
        state = record {
          appender = ap';
          at = ground (
            arith,
            s.passes,
            s.sink,
            get_elem?-set_self w.appenders a ap' (lt_of_get_elem? w.appenders a s.at),
          );
          formats = s.formats;
          passes = s.passes;
          sink = refl;
        };
        wrote = ground (arith, s.passes, s.sink);
      }

  Logged-fresh :
      (e : LogEvent) (w : World) (good : Bool) (last : ℕ)
      → FileAt a name lv f w good last
      → sender (name_at w) e ≡ some n
      → leb (next_reopen last) e.time ≡ false
      → Logged e w good last w.opens
  unfolding delivered put_out renewed stale is_held
  Logged-fresh e w good last s h t = record {
    after = delivered out n a lv e s.appender f w;
    runs = log-delivered out [] a refl w lv e h s.at s.formats;
    loggers = ground (arith, s.passes);
    opened = ground (arith, s.passes, s.sink);
    state = record {
      appender = s.appender;
      at = ground (arith, s.passes, s.sink, s.at, set_same w.appenders a s.at);
      formats = s.formats;
      passes = s.passes;
      sink = s.sink;
    };
    wrote = ground (arith, s.passes, s.sink);
  }

  -- Several events, one after the other.
  record Ran (es : List LogEvent) (w : World) (P : World → Type 0) : Type 0 where
    end : World
    runs : each es (log out a lv) [] w ≡ ok (tt, end)
    loggers : end.loggers ≡ w.loggers
    holds : P end

  Ran-cons :
      (e : LogEvent) (es : List LogEvent) (w v : World) {P : World → Type 0}
      → log out a lv e [] w ≡ ok (tt, v)
      → v.loggers ≡ w.loggers
      → Ran es v P
      → Ran (e ∷ es) w P
  unfolding each
  Ran-cons e es w v h l r = record {
    end = r.end;
    runs = rw (h, ◌>>=◌, ◌>>◌) r.runs;
    loggers = r.loggers ∙ l;
    holds = r.holds;
  }

  module _ (k : ℕ) (opens : OpensFrom out name k) where
    -- The state of the appender from the k-th opening on: the stream is good.
    Good : World → Type 0
    Good w = (last : ℕ) × FileAt a name lv f w true last × (k ≤ w.opens)

    -- One event then, which is written.
    record Kept (e : LogEvent) (w : World) : Type 0 where
      after : World
      runs : log out a lv e [] w ≡ ok (tt, after)
      loggers : after.loggers ≡ w.loggers
      good : Good after
      wrote : after.written ≡ w.written ++ lines_of out name n lv f (e ∷ [])

    Kept-Good : (e : LogEvent) (w : World) → Good w → sender (name_at w) e ≡ some n → Kept e w
    unfolding Good lines_of to_file
    Kept-Good e w (last, s, le) h = elim (Bool-cases (leb (next_reopen last) e.time)) [
      | inl t ↦
          let r = Logged-stale e w true last s h t in
          let r' : Logged e w true e.time (suc w.opens) = rw (← opens w.opens le) r in
          record {
            after = r'.after;
            runs = r'.runs;
            loggers = r'.loggers;
            good = (e.time, r'.state, omega (arith, r'.opened));
            wrote = r'.wrote;
          }
      | inr t ↦
          let r = Logged-fresh e w true last s h t in
          record {
            after = r.after;
            runs = r.runs;
            loggers = r.loggers;
            good = (last, r.state, omega (arith, r.opened));
            wrote = r.wrote;
          }
    ]

    -- Every event is written then.
    all_written :
        (es : List LogEvent) (w : World)
        → Good w
        → Named w n es
        → Ran es w (λ u. u.written ≡ w.written ++ lines_of out name n lv f es)
    unfolding each lines_of
    all_written [] w g h = record {
      end = w;
      runs = refl;
      loggers = refl;
      holds = sym (append-nil w.written);
    }
    all_written (e ∷ es) w g h =
        let r = Kept-Good e w g h.0 in
        let t = all_written es r.after r.good (Named-same w r.after n es r.loggers h.1) in
        Ran-cons e es w r.after r.runs r.loggers (record {
          end = t.end;
          runs = t.runs;
          loggers = t.loggers;
          holds =
              t.holds
              ∙ ap (λ xs. xs ++ lines_of out name n lv f es) r.wrote
              ∙ append_assoc w.written _ _;
        })

    -- Spaced events: each makes an attempt, the last of which opens the file.
    attempts :
        (es : List LogEvent) (w : World) (good : Bool) (last : ℕ)
        → FileAt a name lv f w good last
        → (k < w.opens → good ≡ true)
        → Spaced last es
        → Named w n es
        → k < w.opens + length es
        → Ran es w Good
    unfolding each Good
    attempts [] w good last s b sp h le =
        let t : good ≡ true = b (omega arith) in
        record { end = w; runs = refl; loggers = refl; holds = (last, rw t at s, omega arith) }
    attempts (e ∷ es) w good last s b sp h le =
        let r = Logged-stale e w good last s h.0 sp.0 in
        Ran-cons e es w r.after r.runs r.loggers (
          attempts es r.after (out.open_for_write name w.opens) e.time r.state
            (λ lt. opens w.opens (omega (arith, r.opened))) sp.1
            (Named-same w r.after n es r.loggers h.1) (omega (arith, r.opened)))

    -- If from its k-th opening on the file of an appender can be opened, then events that have file
    -- names, whose loggers exist and that the appender's level lets pass, each three seconds or more
    -- after the opening before, as many as it takes to come to the k-th opening, are taken without a
    -- fault, whether the stream was good before or not; after them every event of that level is
    -- written to the file, however close they come.
    pub file_recovers :
        (e : LogEvent) (es more : List LogEvent) (w : World) (good : Bool) (last : ℕ)
        → FileAt a name lv f w good last
        → Spaced last (e ∷ es)
        → Named w n (e ∷ es)
        → Named w n more
        → k ≤ w.opens + length es
        → (v : World) × (each (e ∷ es) (log out a lv) [] w ≡ ok (tt, v))
          × ((u : World) × (each more (log out a lv) [] v ≡ ok (tt, u))
              × (u.written ≡ v.written ++ lines_of out name n lv f more))
    file_recovers e es more w good last s sp h hm le =
        let r = Logged-stale e w good last s h.0 sp.0 in
        let t = Ran-cons e es w r.after r.runs r.loggers (
          attempts es r.after (out.open_for_write name w.opens) e.time r.state
            (λ lt. opens w.opens (omega (arith, r.opened))) sp.1
            (Named-same w r.after n es r.loggers h.1) (omega (arith, r.opened))) in
        let u = all_written more t.end t.holds (Named-same w t.end n more t.loggers hm) in
        (t.end, t.runs, (u.end, u.runs, u.holds))
