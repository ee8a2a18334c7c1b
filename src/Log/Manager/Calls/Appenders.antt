-- ===== src/Log/Manager/Calls/Appenders.antt =====
-- The calls that make appenders or change one.
use rabbit_log_db.Base.{
  length, ◌≡◌, ap, ℕ, suc, Bool, true, false, List, [], ◌∷◌, ◌++◌, none, some, refl, arith, Bytes,
  set, length-set, length-append, set-append_self, get_elem?-append_self,
}
use rabbit_log_db.Log.Appender
use rabbit_log_db.Log.Appender.Delivery.{delivered, log-delivered}
use rabbit_log_db.Log.Appender.Fanout.{Ready, Ready-configs, deliver_at-Ready, deliver_at-Unchanged}
use rabbit_log_db.Log.Event.{LogEvent}
use rabbit_log_db.Log.Formatter.Rendering.{sender}
use rabbit_log_db.Log.Formatter.{LogFormatter}
use rabbit_log_db.Log.Level.{Level}
use rabbit_log_db.Log.Logger.Keeping.{
  Keeps, Keeps-set, Keeps-set_same, Keeps-append, WellFormed-Keeps,
}
use rabbit_log_db.Log.Manager.Growth.{Grows, Grows-eq, Unchanged-Grows}
use rabbit_log_db.Log.Manager.Naming.{Inv, SameNames-loggers, Managed-SameNames}
use rabbit_log_db.Log.World.{
  Appender, World, Outside, with_lock, is_held, appender_at, deref, put_appender, alloc_appender,
  open_file, file, stdout, fault, ok,
}
use rabbit_log_db.Log.Manager.Calls.{
  new_stdout, new_file, appender_level, appender_formatter, appender_reopen, appender_log, call,
  IsSender, IsAppender, Succeeds,
}

-- What a new file appender and a new console appender are.
abbrev pub fresh_file : Bytes → Bool → Appender
fresh_file name good = record {
  sink = file name good 0;
  level = Level.debug;
  has_formatter = false;
  formatter = none;
}

abbrev pub fresh_stdout : Appender
fresh_stdout = record {
  sink = stdout;
  level = Level.debug;
  has_formatter = false;
  formatter = none;
}

-- The store with one appender more.
abbrev pub with_more : World → Appender → ℕ → World
with_more w ap n = record w { appenders = w.appenders ++ ap ∷ []; opens = n }

pub new_file-runs :
    (out : Outside) (name : Bytes) (w : World)
    → Appender.new_file out name [] w
      ≡ ok (
        length w.appenders,
        with_more w (fresh_file name (out.open_for_write name w.opens)) (suc w.opens),
      )
unfolding Appender.new_file Appender.reopen alloc_appender with_lock is_held appender_at deref
    open_file put_appender
new_file-runs out name w = ground (
  arith,
  get_elem?-append_self w.appenders (fresh_file name true),
  set-append_self w.appenders (fresh_file name true)
      (fresh_file name (out.open_for_write name w.opens)),
)

pub with_more-Grows : (w : World) (ap : Appender) (n : ℕ) → Grows w (with_more w ap n)
with_more-Grows w ap n = record {
  loggers = omega arith;
  appenders = omega (arith, length-append {0} w.appenders (ap ∷ []));
}

module _ (out : Outside) (w : World) (i : Inv w) where
  -- The loggers stay, and so does every ready appender.
  Inv-Keeps :
      (xs : List Appender) (n : ℕ)
      → Keeps w.appenders xs
      → Inv (record w { appenders = xs; opens = n })
  Inv-Keeps xs n k = record {
    well = WellFormed-Keeps refl k i.well;
    managed = Managed-SameNames w _ (SameNames-loggers w _ refl refl refl) i.managed;
  }

  -- One appender more keeps the store in order.
  pub with_more-Inv : (ap : Appender) (n : ℕ) → Inv (with_more w ap n)
  with_more-Inv ap n = Inv-Keeps _ n (Keeps-append w.appenders (ap ∷ []))

  pub new_stdout-Succeeds : Succeeds (call out new_stdout) w
  unfolding call Appender.new_stdout alloc_appender
  new_stdout-Succeeds = record {
    after = with_more w fresh_stdout w.opens;
    runs = refl;
    keeps = with_more-Inv fresh_stdout w.opens;
    grows = with_more-Grows w fresh_stdout w.opens;
  }

  pub new_file-Succeeds : (name : Bytes) → Succeeds (call out (new_file name)) w
  unfolding call
  new_file-Succeeds name =
      let fresh = fresh_file name (out.open_for_write name w.opens) in
      record {
        after = with_more w fresh (suc w.opens);
        runs =
            ap (λ r. elim r [ fault e ↦ fault e | ok (a, v) ↦ ok (tt, v) ])
              (new_file-runs out name w);
        keeps = with_more-Inv fresh (suc w.opens);
        grows = with_more-Grows w fresh (suc w.opens);
      }

  pub appender_level-Succeeds :
      (a : ℕ) (lv : Level) → IsAppender w a → Succeeds (call out (appender_level a lv)) w
  unfolding call Appender.set_level appender_at deref put_appender
  appender_level-Succeeds a lv (ap, ha) = record {
    after = record w { appenders = set w.appenders a (record ap { level = lv }) };
    runs = ground arith;
    keeps =
        Inv-Keeps _ w.opens (Keeps-set_same w.appenders a ap (record ap { level = lv }) ha refl);
    grows = Grows-eq w _ refl (length-set w.appenders a _);
  }

  pub appender_formatter-Succeeds :
      (a : ℕ) (f : LogFormatter) → IsAppender w a → Succeeds (call out (appender_formatter a f)) w
  unfolding call Appender.set_formatter with_lock is_held appender_at deref put_appender
  appender_formatter-Succeeds a f (ap, ha) = record {
    after = record w {
      appenders = set w.appenders a (record ap { formatter = some f; has_formatter = true });
    };
    runs = ground arith;
    keeps =
        Inv-Keeps _ w.opens
          (Keeps-set w.appenders a (record ap { formatter = some f; has_formatter = true }) refl);
    grows = Grows-eq w _ refl (length-set w.appenders a _);
  }

  pub appender_reopen-Succeeds :
      (a : ℕ) → IsAppender w a → Succeeds (call out (appender_reopen a)) w
  unfolding call Appender.reopen with_lock is_held appender_at deref put_appender open_file
  appender_reopen-Succeeds a (ap, ha) =
      let good = out.open_for_write (Appender.file_name ap.sink) w.opens in
      let ap' = record ap { sink = Appender.with_good good ap.sink } in
      record {
        after = record w { appenders = set w.appenders a ap'; opens = suc w.opens };
        runs = ground arith;
        keeps = Inv-Keeps _ (suc w.opens) (Keeps-set_same w.appenders a ap ap' ha refl);
        grows = Grows-eq w _ refl (length-set w.appenders a _);
      }

  -- Logging to an appender that has a formatter.
  pub appender_log-Succeeds :
      (a : ℕ) (lv : Level) (e : LogEvent)
      → Ready w.appenders a
      → IsSender w e
      → Succeeds (call out (appender_log a lv e)) w
  unfolding call sender Appender.name_at is_held
  appender_log-Succeeds a lv e r ((eg, he), (t, hf)) =
      let u =
        rw (deliver_at-Ready out eg.name lv e a w r) at
          (deliver_at-Unchanged out eg.name lv e a w r) in
      record {
        after = delivered out eg.name a lv e r.appender r.formatter w;
        runs =
            log-delivered out [] a refl w lv e (rw (hf, he, sender, Appender.name_at) refl) r.at
              r.formats;
        keeps = record {
          well =
              WellFormed-Keeps u.loggers
                (record { keep = λ b s. Ready-configs w.appenders _ b u.appenders s }) i.well;
          managed =
              Managed-SameNames w _ (SameNames-loggers w _ u.loggers u.managed u.root) i.managed;
        };
        grows = Unchanged-Grows w _ u;
      }
