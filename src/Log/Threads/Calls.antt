-- ===== src/Log/Threads/Calls.antt =====
-- Each call with valid arguments keeps to the rules, and so do several.
use rabbit_log_db.Base.{ℕ, List, [], ◌∷◌}
use rabbit_log_db.Log.Config.Running.{IsSender-Grows, IsLogger-Grows, IsAppender-Grows, Each}
use rabbit_log_db.Log.Manager.Calls.{
  Call, get, level, pattern, add, remove, log, new_stdout, new_file, appender_level,
  appender_formatter, logger_formatter, appender_reopen, appender_log, IsLogger, Valid,
}
use rabbit_log_db.Log.Threads.Accesses.{Any, Does-pure}
use rabbit_log_db.Log.Threads.Appending
use rabbit_log_db.Log.Threads.Appending.Keeping
use rabbit_log_db.Log.Threads.Logging
use rabbit_log_db.Log.Threads.Logging.Keeping.{
  set_formatter-Does, set_level-Does, del_appender-Does, add_appender-Does,
}
use rabbit_log_db.Log.Threads.Logging.Logs.{log-Does, set_pattern-Does, get_logger-Does}
use rabbit_log_db.Log.Threads.Rules.{Does, Does-bind, Later}
use rabbit_log_db.Log.Threads.System.{thread_call, run_calls}
use rabbit_log_db.Log.Threads.{Prog, ◌>>=◌, pure}
use rabbit_log_db.Log.World.{World, Outside}

Valid-Later : {w v : World} (c : Call) → Later w v → Valid w c → Valid v c
Valid-Later (get name) n i = tt
Valid-Later (level l lv) n i = IsLogger-Grows l n.grows i
Valid-Later (pattern l val) n i = IsLogger-Grows l n.grows i
Valid-Later (add l a) n i = (IsLogger-Grows l n.grows i.0, IsAppender-Grows a n.grows i.1)
Valid-Later (remove l a) n i = IsLogger-Grows l n.grows i
Valid-Later (log l lv e) n i = (IsLogger-Grows l n.grows i.0, IsSender-Grows e n.grows i.1)
Valid-Later new_stdout n i = tt
Valid-Later (new_file name) n i = tt
Valid-Later (appender_level a lv) n i = IsAppender-Grows a n.grows i
Valid-Later (appender_formatter a f) n i = IsAppender-Grows a n.grows i
Valid-Later (logger_formatter l f) n i = IsLogger-Grows l n.grows i
Valid-Later (appender_reopen a) n i = IsAppender-Grows a n.grows i
Valid-Later (appender_log a lv e) n i = (n.ready.keep a i.0, IsSender-Grows e n.grows i.1)

AllValid-Later : {w v : World} (cs : List Call) → Later w v → Each (Valid w) cs → Each (Valid v) cs
AllValid-Later [] n i = tt
AllValid-Later (c ∷ cs) n i = (Valid-Later c n i.0, AllValid-Later cs n i.1)

module _ (r : ℕ) (w : World) (out : Outside) where
  forget-Does :
      {A : Type 0} (p : Prog A) (P : World → A → Type 0)
      → Does r w [] p P
      → Does r w [] (p >>= λ _. pure tt) Any
  forget-Does p P s = Does-bind r p _ w [] P Any s (λ v a n q. Does-pure r v [] tt Any tt)

  thread_call-Does : (c : Call) → IsLogger w r → Valid w c → Does r w [] (thread_call out c) Any
  unfolding thread_call
  thread_call-Does (get name) ri i =
      forget-Does (Logging.get_logger name) _ (get_logger-Does r w name)
  thread_call-Does (level l lv) ri i = set_level-Does r w l lv i
  thread_call-Does (pattern l val) ri i = set_pattern-Does r w l val i
  thread_call-Does (add l a) ri i = add_appender-Does r w l a i.0 i.1
  thread_call-Does (remove l a) ri i = del_appender-Does r w l a i
  thread_call-Does (log l lv e) ri i = log-Does r w out l lv e i.0 ri i.1
  thread_call-Does new_stdout ri i =
      forget-Does Appending.new_stdout _ (Keeping.new_stdout-Does r w [])
  thread_call-Does (new_file name) ri i =
      forget-Does (Appending.new_file out name) _ (Keeping.new_file-Does r w [] out name (λ a. tt))
  thread_call-Does (appender_level a lv) ri i = Keeping.set_level-Does r w [] a lv i
  thread_call-Does (appender_formatter a f) ri i = Keeping.set_formatter-Does r w [] a f tt i
  thread_call-Does (logger_formatter l f) ri i = set_formatter-Does r w l f i
  thread_call-Does (appender_reopen a) ri i =
      forget-Does (Appending.reopen out a) _ (Keeping.reopen-Does r w [] a out tt i)
  thread_call-Does (appender_log a lv e) ri i = Keeping.log-Does r w [] a out lv e tt i.0 i.1

pub run_calls-Does :
    (r : ℕ) (out : Outside) (cs : List Call) (w : World)
    → IsLogger w r
    → Each (Valid w) cs
    → Does r w [] (run_calls out cs) Any
unfolding run_calls
run_calls-Does r out [] w ri i = Does-pure r w [] tt Any tt
run_calls-Does r out (c ∷ cs) w ri i =
    Does-bind r (thread_call out c) _ w [] Any Any (thread_call-Does r w out c ri i.0)
      (λ v u n p. run_calls-Does r out cs v (IsLogger-Grows r n.grows ri) (AllValid-Later cs n i.1))
