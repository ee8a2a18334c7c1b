-- ===== src/Log/Manager/Calls/Steps.antt =====
-- Each call with valid arguments succeeds and keeps the store in order.
use rabbit_log_db.Base.{
  ap, ℕ, [], some, refl, arith, Bytes, set, length-set, Option-cases, inl, inr,
}
use rabbit_log_db.Log.Appender
use rabbit_log_db.Log.Appender.Fanout.{deliver_all, deliver_all-Unchanged}
use rabbit_log_db.Log.Event.{LogEvent}
use rabbit_log_db.Log.Formatter.Item.{find}
use rabbit_log_db.Log.Formatter.Runs.{init_total}
use rabbit_log_db.Log.Formatter.Rendering.{sender}
use rabbit_log_db.Log.Formatter.{LogFormatter}
use rabbit_log_db.Log.Level.{Level}
use rabbit_log_db.Log.Logger
use rabbit_log_db.Log.Logger.Attaching.{
  attached, with_appender, add_appender-attached, attached-WellFormed,
}
use rabbit_log_db.Log.Logger.Formatting.{formatted, set_formatter-formatted}
use rabbit_log_db.Log.Logger.Keeping.{
  Keeps-refl, WellFormed-Keeps, WellFormed-set, deliver_all-WellFormed, targets-AllReady,
}
use rabbit_log_db.Log.Logger.Pattern.{
  AllReady-AllExist, set_pattern-formatted, formatted-WellFormed, said,
}
use rabbit_log_db.Log.Logger.Routing.{targets, log-targets}
use rabbit_log_db.Log.Manager.Growth.{
  Grows-refl, Grows-trans, Grows-eq, Unchanged-Grows, formatted-Grows, attached-Grows,
  with_logger-Grows,
}
use rabbit_log_db.Log.Manager.Lookup.{get_logger-known, create-with_logger}
use rabbit_log_db.Log.Manager.Naming.{
  Inv, SameNames-loggers, SameNames-set, Managed-SameNames, with_logger-Inv,
}
use rabbit_log_db.Log.World.{World, Outside, with_lock, is_held, logger_at, deref, put_logger}
use rabbit_log_db.Log.Manager.Calls.{
  Call, get, level, pattern, add, remove, log, new_stdout, new_file, appender_level,
  appender_formatter, logger_formatter, appender_reopen, appender_log, call, IsSender, IsLogger,
  IsAppender, Valid, Succeeds,
}
use rabbit_log_db.Log.Manager.Calls.Appenders.{
  new_stdout-Succeeds, new_file-Succeeds, appender_level-Succeeds, appender_formatter-Succeeds,
  appender_reopen-Succeeds, appender_log-Succeeds,
}

module _ (out : Outside) (w : World) (i : Inv w) where
  get-Succeeds : (name : Bytes) → Succeeds (call out (get name)) w
  unfolding call
  get-Succeeds name = elim (Option-cases (find name w.managed)) [
    | inl h ↦ record {
      after = _;
      runs = ground (arith, create-with_logger name w h);
      keeps = with_logger-Inv name w i;
      grows = with_logger-Grows name w;
    }
    | inr (l, h) ↦ record {
      after = w;
      runs = ground (arith, get_logger-known name l w h);
      keeps = i;
      grows = Grows-refl w;
    }
  ]

  level-Succeeds : (l : ℕ) (lv : Level) → IsLogger w l → Succeeds (call out (level l lv)) w
  unfolding call Logger.set_level logger_at deref put_logger
  level-Succeeds l lv (lg, hl) =
      let lg' = record lg { level = lv } in
      let w' = record w { loggers = set w.loggers l lg' } in
      let (f, hf) = i.well.formatted l lg hl in
      record {
        after = w';
        runs = ground arith;
        keeps = record {
          well = WellFormed-set w l lg lg' hl (i.well.attached l lg hl) hf refl i.well;
          managed =
              Managed-SameNames w w' (SameNames-set w w' l lg lg' hl refl refl refl refl refl)
                i.managed;
        };
        grows = Grows-eq w w' (length-set w.loggers l lg') refl;
      }

  pattern-Succeeds : (l : ℕ) (val : Bytes) → IsLogger w l → Succeeds (call out (pattern l val)) w
  unfolding call formatted said
  pattern-Succeeds l val (lg, hl) =
      let (f, hf, hp) = init_total val in
      let w' = formatted l lg (some f) (said lg val f w) in
      record {
        after = w';
        runs = set_pattern-formatted l lg val w i.well hl hf;
        keeps = record {
          well =
              formatted-WellFormed l lg f (said lg val f w) hl
                (WellFormed-Keeps refl (Keeps-refl w.appenders) i.well);
          managed =
              Managed-SameNames w w'
                (SameNames-set w w' l lg (record lg { formatter = some f }) hl refl refl refl refl
                  refl)
                i.managed;
        };
        grows =
            Grows-trans (Grows-eq w (said lg val f w) refl refl)
              (formatted-Grows l lg (some f) (said lg val f w));
      }

  logger_formatter-Succeeds :
      (l : ℕ) (f : LogFormatter) → IsLogger w l → Succeeds (call out (logger_formatter l f)) w
  unfolding call formatted
  logger_formatter-Succeeds l f (lg, hl) =
      let w' = formatted l lg (some f) w in
      record {
        after = w';
        runs =
            set_formatter-formatted l lg (some f) w hl
              (AllReady-AllExist w.appenders lg.appenders (i.well.attached l lg hl));
        keeps = record {
          well = formatted-WellFormed l lg f w hl i.well;
          managed =
              Managed-SameNames w w'
                (SameNames-set w w' l lg (record lg { formatter = some f }) hl refl refl refl refl
                  refl)
                i.managed;
        };
        grows = formatted-Grows l lg (some f) w;
      }

  add-Succeeds : (l a : ℕ) → IsLogger w l → IsAppender w a → Succeeds (call out (add l a)) w
  unfolding call attached
  add-Succeeds l a (lg, hl) (ap, ha) =
      let w' = attached l lg a ap w in
      record {
        after = w';
        runs = add_appender-attached l lg a ap w hl ha;
        keeps = record {
          well = attached-WellFormed l lg a ap w hl ha i.well;
          managed =
              Managed-SameNames w w'
                (SameNames-set w w' l lg (with_appender lg a) hl refl refl refl refl refl)
                i.managed;
        };
        grows = attached-Grows l lg a ap w;
      }

  remove-Succeeds : (l a : ℕ) → IsLogger w l → Succeeds (call out (remove l a)) w
  unfolding call Logger.del_appender with_lock is_held logger_at deref put_logger
  remove-Succeeds l a (lg, hl) =
      let lg' = record lg { appenders = [] } in
      let w' = record w { loggers = set w.loggers l lg' } in
      let (f, hf) = i.well.formatted l lg hl in
      record {
        after = w';
        runs = ground arith;
        keeps = record {
          well = WellFormed-set w l lg lg' hl tt hf refl i.well;
          managed =
              Managed-SameNames w w' (SameNames-set w w' l lg lg' hl refl refl refl refl refl)
                i.managed;
        };
        grows = Grows-eq w w' (length-set w.loggers l lg') refl;
      }

  log-Succeeds :
      (l : ℕ) (lv : Level) (e : LogEvent)
      → IsLogger w l
      → IsSender w e
      → Succeeds (call out (log l lv e)) w
  unfolding call sender Appender.name_at
  log-Succeeds l lv e (lg, hl) ((eg, he), (t, hf)) =
      let u =
        deliver_all-Unchanged out eg.name lv e (targets w lv lg) w
          (targets-AllReady out lv e eg.name l lg w i.well hl) in
      record {
        after = deliver_all out eg.name lv e (targets w lv lg) w;
        runs = log-targets out lv e 0 l lg w i.well (rw (hf, he, sender, Appender.name_at)) hl;
        keeps = record {
          well = deliver_all-WellFormed out lv e eg.name l lg w i.well hl;
          managed =
              Managed-SameNames w _ (SameNames-loggers w _ u.loggers u.managed u.root) i.managed;
        };
        grows = Unchanged-Grows w _ u;
      }

  -- Every call whose arguments are valid succeeds, with no deadlock, null pointer or lack of fuel,
  -- and leaves the store in order.
  pub call-Succeeds : (c : Call) → Valid w c → Succeeds (call out c) w
  call-Succeeds (get name) v = get-Succeeds name
  call-Succeeds (level l lv) v = level-Succeeds l lv v
  call-Succeeds (pattern l val) v = pattern-Succeeds l val v
  call-Succeeds (add l a) v = add-Succeeds l a v.0 v.1
  call-Succeeds (remove l a) v = remove-Succeeds l a v
  call-Succeeds (log l lv e) v = log-Succeeds l lv e v.0 v.1
  call-Succeeds new_stdout v = new_stdout-Succeeds out w i
  call-Succeeds (new_file name) v = new_file-Succeeds out w i name
  call-Succeeds (appender_level a lv) v = appender_level-Succeeds out w i a lv v
  call-Succeeds (appender_formatter a f) v = appender_formatter-Succeeds out w i a f v
  call-Succeeds (logger_formatter l f) v = logger_formatter-Succeeds l f v
  call-Succeeds (appender_reopen a) v = appender_reopen-Succeeds out w i a v
  call-Succeeds (appender_log a lv e) v = appender_log-Succeeds out w i a lv e v.0 v.1
