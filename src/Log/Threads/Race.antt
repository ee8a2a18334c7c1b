-- ===== src/Log/Threads/Race.antt =====
-- `Logger::addAppender` looks at the formatter of the appender and sets it under two locks of the
-- appender's mutex, between which another thread may set it.
use rabbit_log_db.Base.{
  ap, ◌∙◌, Option-cases, inl, inr, ℕ, zero, suc, true, List, [], ◌∷◌, ◌++◌, Option, none, some, ◌≡◌,
  refl, arith, ◌==◌, ==_iff, get_elem?, set, set-set, get_elem?-set_self, lt_of_get_elem?,
}
use rabbit_log_db.Log.Appender.{is_some}
use rabbit_log_db.Log.Logger.Attaching.{with_appender, adopted, attached, add_appender-attached}
use rabbit_log_db.Log.Formatter.{LogFormatter}
use rabbit_log_db.Log.Manager.Calls.{Call, call, add, appender_formatter}
use rabbit_log_db.Log.Threads.Appending
use rabbit_log_db.Log.Threads.Finishing.{ended, AllEnded}
use rabbit_log_db.Log.Threads.Logging
use rabbit_log_db.Log.Threads.System.{
  Thread, System, start, run_calls, thread_call, nobody_holds, next, move, Reach, here, moved,
}
use rabbit_log_db.Log.Threads.{
  ret, drop, pure, ◌>>=◌, ◌>>◌, locked, deref, modify, found, read_logger, read_appender,
  write_logger, write_appender, release,
}
use rabbit_log_db.Log.World
use rabbit_log_db.Log.Appender
use rabbit_log_db.Log.World.{
  ok, with_lock, appender_at, put_appender, Appender, Logger, World, Outside, logger_lock,
  appender_lock, is_held, same_lock,
}

-- The threads move in the given order.
unfoldable pub run_moves : List ℕ → System → Option System
unfolding move
run_moves [] s = some s
run_moves (i ∷ is) s = elim (move i s) [ none ↦ none | some u ↦ run_moves is u ]

run_moves-append :
    (is js : List ℕ) (s u v : System)
    → run_moves is s ≡ some u
    → run_moves js u ≡ some v
    → run_moves (is ++ js) s ≡ some v
unfolding run_moves
run_moves-append [] js s u v h k = let e : s ≡ u = ground (arith, h) in rw e k
run_moves-append (i ∷ is) js s u v h k = elim (Option-cases (move i s)) [
  | inl e ↦ absurd (ground (arith, e, h))
  | inr (t, e) ↦ rw (e, run_moves) (run_moves-append is js t u v (ground (arith, e, h)) k)
]

run_moves-Reach : (is : List ℕ) (s t u : System) → Reach s t → run_moves is t ≡ some u → Reach s u
unfolding run_moves
run_moves-Reach [] s t u r h = let e : t ≡ u = ground (arith, h) in rw e at r
run_moves-Reach (i ∷ is) s t u r h = elim (Option-cases (move i t)) [
  | inl e ↦ absurd (ground (arith, e, h))
  | inr (v, e) ↦ run_moves-Reach is s v u (moved i r e) (ground (arith, e, h))
]

module _ (out : Outside) (l : ℕ) (lg : Logger) (a : ℕ) (x : Appender) (f : LogFormatter)
    (w : World) where
  abbrev before : System
  before = start out w ((add l a ∷ []) ∷ (appender_formatter a f ∷ []) ∷ [])

  -- The first thread has found no formatter, and is about to set one.
  abbrev between : System
  between = record {
    mem = w;
    threads =
        record {
          held = logger_lock l ∷ [];
          todo =
              (Logging.adopt l a none
                >> write_logger l (λ lg. record lg { appenders = lg.appenders ++ a ∷ [] }))
              >>= (λ u. drop (logger_lock l) (ret u))
              >> pure tt;
        }
        ∷ record { held = []; todo = run_calls out (appender_formatter a f ∷ []) }
        ∷ [];
  }

  looked :
      get_elem? w.appenders a ≡ some x
      → x.formatter ≡ none
      → run_moves (0 ∷ 0 ∷ 0 ∷ 0 ∷ []) before ≡ some between
  unfolding run_moves start run_calls thread_call Logging.add_appender Logging.adopt
      Appending.get_formatter Appending.set_formatter locked ◌>>=◌ read_logger read_appender
      write_logger write_appender deref found modify release nobody_holds is_held same_lock move
      next
  looked ha hf =
      let same : (a == a) ≡ true = (==_iff a a).1 refl in rw (ha, deref) (rw (hf, same) refl)

  -- The second thread has set the formatter, and has ended.
  abbrev pub dressed : Appender
  dressed = record x { formatter = some f; has_formatter = true }

  abbrev set_between : System
  set_between = record {
    mem = record w { appenders = set w.appenders a dressed };
    threads =
        record {
          held = logger_lock l ∷ [];
          todo =
              (Logging.adopt l a none
                >> write_logger l (λ lg. record lg { appenders = lg.appenders ++ a ∷ [] }))
              >>= (λ u. drop (logger_lock l) (ret u))
              >> pure tt;
        }
        ∷ ended
        ∷ [];
  }

  was_set :
      get_elem? w.appenders a ≡ some x → run_moves (1 ∷ 1 ∷ 1 ∷ 1 ∷ []) between ≡ some set_between
  unfolding run_moves run_calls thread_call Logging.adopt Appending.set_formatter is_some locked
      ◌>>=◌ read_logger write_logger write_appender found modify release nobody_holds is_held
      same_lock move next
  was_set ha =
      let same : (a == a) ≡ true = (==_iff a a).1 refl in
      let first = record x { formatter = some f } in
      let again = get_elem?-set_self w.appenders a first (lt_of_get_elem? w.appenders a ha) in
      ground (arith, ha, again, same, set-set w.appenders a first dressed)

  -- The first thread goes on.
  abbrev lost : System
  lost = record {
    mem = record w {
      appenders = set w.appenders a (record dressed { formatter = lg.formatter });
      loggers = set w.loggers l (with_appender lg a);
    };
    threads = ended ∷ ended ∷ [];
  }

  was_lost :
      get_elem? w.loggers l ≡ some lg
      → get_elem? w.appenders a ≡ some x
      → run_moves (0 ∷ 0 ∷ 0 ∷ 0 ∷ 0 ∷ 0 ∷ []) set_between ≡ some lost
  unfolding run_moves Logging.adopt locked ◌>>=◌ read_logger write_logger write_appender deref found
      modify release nobody_holds is_held same_lock move next
  was_lost hl ha =
      let same : (a == a) ≡ true = (==_iff a a).1 refl in
      let same' : (l == l) ≡ true = (==_iff l l).1 refl in
      let again = get_elem?-set_self w.appenders a dressed (lt_of_get_elem? w.appenders a ha) in
      ground (
        arith,
        hl,
        again,
        same,
        same',
        set-set w.appenders a dressed (record dressed { formatter = lg.formatter }),
      )

  lost-Reach :
      get_elem? w.loggers l ≡ some lg
      → get_elem? w.appenders a ≡ some x
      → x.formatter ≡ none
      → Reach before lost
  lost-Reach hl ha hf =
      run_moves-Reach (0 ∷ 0 ∷ 0 ∷ 0 ∷ 1 ∷ 1 ∷ 1 ∷ 1 ∷ 0 ∷ 0 ∷ 0 ∷ 0 ∷ 0 ∷ 0 ∷ []) before before
        lost here
        (run_moves-append (0 ∷ 0 ∷ 0 ∷ 0 ∷ []) _ before between lost (looked ha hf) (
          run_moves-append (1 ∷ 1 ∷ 1 ∷ 1 ∷ []) _ between set_between lost (was_set ha)
            (was_lost hl ha)))

  -- One call after the other, in one thread.
  abbrev pub InTurn : Call → Call → Type 0
  InTurn c d =
      (u : World) × (v : World) × (call out c [] w ≡ ok (tt, u))
      × (call out d [] u ≡ ok (tt, v))
      × (get_elem? v.appenders a ≡ some dressed)

  add_first :
      get_elem? w.loggers l ≡ some lg
      → get_elem? w.appenders a ≡ some x
      → x.formatter ≡ none
      → InTurn (add l a) (appender_formatter a f)
  unfolding call attached Appender.set_formatter Appender.is_some with_lock appender_at World.deref
      put_appender is_held
  add_first hl ha hf =
      let taken : adopted lg.formatter x ≡ record x { formatter = lg.formatter } =
        rw (hf, adopted) refl in
      let at =
        get_elem?-set_self w.appenders a (adopted lg.formatter x)
          (lt_of_get_elem? w.appenders a ha) in
      (
        attached l lg a x w,
        record (attached l lg a x w) {
          appenders =
              set (set w.appenders a (adopted lg.formatter x)) a
                (record (adopted lg.formatter x) { formatter = some f; has_formatter = true });
        },
        add_appender-attached l lg a x w hl ha,
        ground (arith, at),
        get_elem?-set_self (set w.appenders a (adopted lg.formatter x)) a _
              (lt_of_get_elem? (set w.appenders a (adopted lg.formatter x)) a at)
            ∙ ap (λ (x : Appender). some (record x { formatter = some f; has_formatter = true }))
                taken,
      )

  set_first :
      get_elem? w.loggers l ≡ some lg
      → get_elem? w.appenders a ≡ some x
      → InTurn (appender_formatter a f) (add l a)
  unfolding call attached adopted Appender.set_formatter Appender.is_some with_lock appender_at
      World.deref put_appender is_held
  set_first hl ha =
      let w1 = record w { appenders = set w.appenders a dressed } in
      let at = get_elem?-set_self w.appenders a dressed (lt_of_get_elem? w.appenders a ha) in
      (
        w1,
        attached l lg a dressed w1,
        ground (arith, ha),
        add_appender-attached l lg a dressed w1 hl at,
        get_elem?-set_self (set w.appenders a dressed) a dressed
            (lt_of_get_elem? (set w.appenders a dressed) a at),
      )

-- An appender with no formatter is attached by one thread while another gives it a formatter. In one
-- order of their accesses both threads come to their ends and the appender has the logger's formatter,
-- marked as its own: the formatter given is lost. If the two calls come one after the other, in either
-- order, the appender ends up with the formatter given.
pub add_appender-loses :
    (out : Outside) (l : ℕ) (lg : Logger) (a : ℕ) (x : Appender) (f : LogFormatter) (w : World)
    → get_elem? w.loggers l ≡ some lg
    → get_elem? w.appenders a ≡ some x
    → x.formatter ≡ none
    → ((s : System) × Reach (start out w ((add l a ∷ []) ∷ (appender_formatter a f ∷ []) ∷ [])) s
        × AllEnded s
        × (get_elem? s.mem.appenders a
            ≡ some (record x { formatter = lg.formatter; has_formatter = true })))
      × InTurn out l lg a x f w (add l a) (appender_formatter a f)
      × InTurn out l lg a x f w (appender_formatter a f) (add l a)
add_appender-loses out l lg a x f w hl ha hf = (
  (
    lost out l lg a x f w,
    lost-Reach out l lg a x f w hl ha hf,
    all_ended,
    get_elem?-set_self w.appenders a _ (lt_of_get_elem? w.appenders a ha),
  ),
  add_first out l lg a x f w hl ha hf,
  set_first out l lg a x f w hl ha,
)
  where
    all_ended : (i : ℕ) (t : Thread) → get_elem? (ended ∷ ended ∷ []) i ≡ some t → t ≡ ended
    all_ended zero t e = ground (arith, e)
    all_ended (suc zero) t e = ground (arith, e)
    all_ended (suc (suc i)) t e = cc e
