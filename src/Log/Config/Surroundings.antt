-- ===== src/Log/Config/Surroundings.antt =====
-- What the surroundings of the listener do for it, and the calls of theirs that it makes.
use rabbit_log_db.Base.{
  suc, ℕ, [], ◌++◌, some, ◌≡◌, ◌⊎◌, inl, inr, refl, ◌∙◌, arith, Bytes, length, Option-cases,
  get_elem?-append_self,
}
use rabbit_log_db.Log.Appender
use rabbit_log_db.Log.Config.Apply.{Program, Clears}
use rabbit_log_db.Log.Config.Running.{Gives, pure-Succeeds, same-Succeeds, Each}
use rabbit_log_db.Log.Config.Single.{IsKnown}
use rabbit_log_db.Log.Config.{LogDefine}
use rabbit_log_db.Log.Event.{LogEvent}
use rabbit_log_db.Log.Formatter.Item.{find}
use rabbit_log_db.Log.Level.{Level}
use rabbit_log_db.Log.Logger
use rabbit_log_db.Log.Logger.Keeping.{Keeps-refl, WellFormed-Keeps}
use rabbit_log_db.Log.Manager.Calls.Steps.{call-Succeeds}
use rabbit_log_db.Log.Manager.Calls.Appenders.{
  new_file-runs, with_more, with_more-Inv, with_more-Grows, fresh_file, fresh_stdout,
}
use rabbit_log_db.Log.Manager.Calls.{remove, log, call, IsLogger, IsAppender, Succeeds}
use rabbit_log_db.Log.Manager.Growth.{Grows-eq, Grows-refl, with_logger-Grows}
use rabbit_log_db.Log.Manager.Lookup.{made, with_logger, get_logger-known, create-with_logger}
use rabbit_log_db.Log.Manager.Naming.{Inv, SameNames-loggers, Managed-SameNames, with_logger-Inv}
use rabbit_log_db.Log.Manager.{get_logger}
use rabbit_log_db.Log.World.{
  World, Outside, ok, pure, print, logger_at, deref, put_logger, with_lock, is_held, alloc_appender,
}

-- What the listener's surroundings do: SYLAR_LOG_NAME asks the manager, SYLAR_LOG_INFO does nothing or
-- logs an event of the root logger, with a file name, at the level info, and `clearAppenders` empties
-- the list.
pub record Expected (out : Outside) (program : Program) : Type 0 where
  pub named : (name : Bytes) (w : World) → program.log_name name [] w ≡ get_logger name [] w
  pub logs :
      (text : Bytes) (w : World)
      → (program.log_info text [] w ≡ ok (tt, w))
        ⊎ ((e : LogEvent) × (e.logger ≡ w.root)
            × ((t : Bytes) × (e.file ≡ some t))
            × (program.log_info text [] w ≡ Logger.log out 2 w.root Level.info e [] w))
  pub clears : Clears program

-- Every appender of the configuration has a known type.
abbrev pub KnownTypes : LogDefine → Type 0
KnownTypes i = Each IsKnown i.appenders

-- Printing keeps the store in order.
pub print-Succeeds : (text : Bytes) (w : World) → Inv w → Succeeds (print text) w
unfolding print
print-Succeeds text w i = record {
  after = record w { console = w.console ++ text };
  runs = refl;
  keeps = record {
    well = WellFormed-Keeps refl (Keeps-refl w.appenders) i.well;
    managed = Managed-SameNames w _ (SameNames-loggers w _ refl refl refl) i.managed;
  };
  grows = Grows-eq w _ refl refl;
}

module _ (out : Outside) (program : Program) (expected : Expected out program) where
  pub named-Gives : (name : Bytes) (w : World) → Inv w → Gives (program.log_name name) w IsLogger
  unfolding with_logger
  named-Gives name w i = elim (Option-cases (find name w.managed)) [
    | inl h ↦ record {
      value = length w.loggers;
      after = with_logger name w;
      runs = expected.named name w ∙ create-with_logger name w h;
      keeps = with_logger-Inv name w i;
      grows = with_logger-Grows name w;
      there = (made name (some w.root), get_elem?-append_self w.loggers (made name (some w.root)));
    }
    | inr (l, h) ↦
        let en = i.managed.named name l h in
        record {
          value = l;
          after = w;
          runs = expected.named name w ∙ get_logger-known name l w h;
          keeps = i;
          grows = Grows-refl w;
          there = (en.logger, en.at);
        }
  ]

  pub file-Gives :
      (name : Bytes) (w : World) → Inv w → Gives (Appender.new_file out name) w IsAppender
  file-Gives name w i =
      let ap = fresh_file name (out.open_for_write name w.opens) in
      record {
        value = length w.appenders;
        after = with_more w ap (suc w.opens);
        runs = new_file-runs out name w;
        keeps = with_more-Inv out w i ap (suc w.opens);
        grows = with_more-Grows w ap (suc w.opens);
        there = (ap, get_elem?-append_self w.appenders ap);
      }

  pub stdout-Gives : (w : World) → Inv w → Gives Appender.new_stdout w IsAppender
  unfolding Appender.new_stdout alloc_appender
  stdout-Gives w i = record {
    value = length w.appenders;
    after = with_more w fresh_stdout w.opens;
    runs = refl;
    keeps = with_more-Inv out w i fresh_stdout w.opens;
    grows = with_more-Grows w fresh_stdout w.opens;
    there = (fresh_stdout, get_elem?-append_self w.appenders fresh_stdout);
  }

  -- `clearAppenders` does what `delAppender` does.
  pub clear-Succeeds :
      (l : ℕ) (w : World) → Inv w → IsLogger w l → Succeeds (program.clear_appenders l) w
  unfolding call Logger.del_appender with_lock is_held logger_at deref put_logger
  clear-Succeeds l w i (lg, h) =
      same-Succeeds {m' = Logger.del_appender l 0} (expected.clears l lg w h ∙ ground (arith, h))
        (call-Succeeds out w i (remove l 0) (lg, h))

  pub info-Succeeds : (text : Bytes) (w : World) → Inv w → Succeeds (program.log_info text) w
  unfolding call
  info-Succeeds text w i = elim (expected.logs text w) [
    | inl e ↦ same-Succeeds {m' = pure tt} e (pure-Succeeds w i)
    | inr (e, at, named, same) ↦
        let (rg, h, none_above) = i.managed.root in
        same-Succeeds {m' = Logger.log out 2 w.root Level.info e} same
          (call-Succeeds out w i (log w.root Level.info e) ((rg, h), ((rg, rw at h), named)))
  ]
