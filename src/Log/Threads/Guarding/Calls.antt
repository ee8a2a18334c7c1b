-- ===== src/Log/Threads/Guarding/Calls.antt =====
-- Each call of a thread, logging and asking for a logger among them, writes what a mutex of Log/Log.cpp
-- guards under that mutex.
use rabbit_log_db.Base.{ℕ, zero, suc, true, List, [], ◌∷◌, none, some, ◌≡◌, refl, arith, Bytes}
use rabbit_log_db.Log.Event.{LogEvent}
use rabbit_log_db.Log.Level.{Level, at_least}
use rabbit_log_db.Log.Manager.Calls.{
  Call, get, level, pattern, add, remove, log, new_stdout, new_file, appender_level,
  appender_formatter, logger_formatter, appender_reopen, appender_log,
}
use rabbit_log_db.Log.Threads.Appending
use rabbit_log_db.Log.Threads.Guarding.Methods.{
  set_formatter-Guards, reopen-Guards, appender_formatter-Guards, appender_level-Guards,
  appender_log-Guards, new_file-Guards, new_formatter-Guards, set_pattern-Guards,
  add_appender-Guards, del_appender-Guards,
}
use rabbit_log_db.Log.Threads.Guarding.Rules.{
  Guards-ret, Guards-bind, Guards-locked, Guards-access, Guards-no_fuel, Guards-if, Guards-option,
  Guards-each, Guards-read_logger, Guards-other_logger, Guards-new_logger_at,
  Guards-new_appender_at,
}
use rabbit_log_db.Log.Threads.Guarding.{Kept-same, Guards}
use rabbit_log_db.Log.Threads.Invariant.{held_on_top}
use rabbit_log_db.Log.Threads.Logging
use rabbit_log_db.Log.Threads.System.{thread_call, run_calls}
use rabbit_log_db.Log.Threads.{Prog, ◌>>=◌, pure, each, read_logger, write_logger}
use rabbit_log_db.Log.World.{Outside, Lock, logger_lock, manager_lock, is_held}

log-Guards :
    (out : Outside) (f l : ℕ) (lv : Level) (e : LogEvent) (h : List Lock)
    → Guards h (Logging.log out f l lv e)
unfolding Logging.log
log-Guards out zero l lv e h = Guards-no_fuel _ h
log-Guards out (suc f) l lv e h =
    let own = logger_lock l ∷ h in
    Guards-bind h (read_logger l) _ (Guards-read_logger h l) (λ lg.
      Guards-if h (at_least lv lg.level) _ _
        (Guards-locked h (logger_lock l) _ (
          Guards-bind own (read_logger l) _ (Guards-read_logger own l) (λ now.
            elim now.appenders
              as (λ xs. Guards own (elim xs as (λ x. Prog (Unit {0})) [
                | a ∷ rest ↦ each (a ∷ rest) (λ i. Appending.log out i lv e)
                | [] ↦ elim now.root [ none ↦ pure tt | some r ↦ Logging.log out f r lv e ]
              ])) [
                | a ∷ rest ↦
                    Guards-each own (a ∷ rest) (λ i. Appending.log out i lv e)
                      (λ i. appender_log-Guards out own i lv e)
                | [] ↦
                    Guards-option own now.root (pure tt) (λ r. Logging.log out f r lv e)
                      (Guards-ret own tt) (λ r. log-Guards out f r lv e own)
              ])))
        (Guards-ret h tt))

module _ (h : List Lock) (name : Bytes) where
  find-Guards : Guards h (Logging.find_managed name)
  unfolding Logging.find_managed
  find-Guards = Guards-access h _ _ (λ w. Kept-same h w w refl refl refl) (λ w. Guards-ret h _)

  root_of-Guards : Guards h Logging.root_of
  unfolding Logging.root_of
  root_of-Guards = Guards-access h _ _ (λ w. Kept-same h w w refl refl refl) (λ w. Guards-ret h _)

  put_managed-Guards :
      (l : ℕ) → is_held manager_lock h ≡ true → Guards h (Logging.put_managed name l)
  unfolding Logging.put_managed
  put_managed-Guards l held =
      Guards-access h _ _
        (λ w. record {
          loggers = (Kept-same h w w refl refl refl).loggers;
          appenders = (Kept-same h w w refl refl refl).appenders;
          managed = λ free. absurd (ground (arith, held, free));
        })
        (λ w. Guards-ret h _)

  new_logger-Guards : Guards h (Logging.new_logger name)
  unfolding Logging.new_logger
  new_logger-Guards =
      Guards-bind h (Logging.new_formatter _) _ (new_formatter-Guards h _)
        (λ f. Guards-new_logger_at h _)

create-Guards :
    (h : List Lock) (name : Bytes) → is_held manager_lock h ≡ true → Guards h (Logging.create name)
unfolding Logging.create
create-Guards h name held =
    Guards-bind h (Logging.new_logger name) _ (new_logger-Guards h name) (λ l.
      Guards-bind h Logging.root_of _ (root_of-Guards h name) (λ r.
        Guards-bind h (write_logger l (λ lg. record lg { root = some r })) _
          (Guards-other_logger h l _ (λ lg. refl))
          (λ u.
            Guards-bind h (Logging.put_managed name l) _ (put_managed-Guards h name l held)
              (λ u. Guards-ret h l))))

get_logger-Guards : (h : List Lock) (name : Bytes) → Guards h (Logging.get_logger name)
unfolding Logging.get_logger
get_logger-Guards h name =
    let own = manager_lock ∷ h in
    Guards-locked h manager_lock _ (
      Guards-bind own (Logging.find_managed name) _ (find-Guards own name) (λ o.
        Guards-option own o (Logging.create name) pure
          (create-Guards own name (held_on_top manager_lock h)) (Guards-ret own)))

set_level-Guards : (h : List Lock) (l : ℕ) (val : Level) → Guards h (Logging.set_level l val)
unfolding Logging.set_level
set_level-Guards h l val = Guards-other_logger h l _ (λ lg. refl)

new_stdout-Guards : (h : List Lock) → Guards h Appending.new_stdout
unfolding Appending.new_stdout
new_stdout-Guards h = Guards-new_appender_at h _

forget-Guards :
    (h : List Lock) {A : Type 0} (p : Prog A) → Guards h p → Guards h (p >>= λ _. pure tt)
forget-Guards h p s = Guards-bind h p _ s (λ _. Guards-ret h tt)

thread_call-Guards : (out : Outside) (h : List Lock) (c : Call) → Guards h (thread_call out c)
unfolding thread_call
thread_call-Guards out h (get name) =
    forget-Guards h (Logging.get_logger name) (get_logger-Guards h name)
thread_call-Guards out h (level l lv) = set_level-Guards h l lv
thread_call-Guards out h (pattern l val) = set_pattern-Guards out h l val
thread_call-Guards out h (add l a) = add_appender-Guards out h l a
thread_call-Guards out h (remove l a) = del_appender-Guards out h l a
thread_call-Guards out h (log l lv e) = log-Guards out 2 l lv e h
thread_call-Guards out h new_stdout = forget-Guards h Appending.new_stdout (new_stdout-Guards h)
thread_call-Guards out h (new_file name) =
    forget-Guards h (Appending.new_file out name) (new_file-Guards out h name)
thread_call-Guards out h (appender_level a lv) = appender_level-Guards out h a lv
thread_call-Guards out h (appender_formatter a f) = appender_formatter-Guards out h a (some f)
thread_call-Guards out h (logger_formatter l f) = set_formatter-Guards out h l (some f)
thread_call-Guards out h (appender_reopen a) =
    forget-Guards h (Appending.reopen out a) (reopen-Guards out h a)
thread_call-Guards out h (appender_log a lv e) = appender_log-Guards out h a lv e

pub run_calls-Guards :
    (out : Outside) (h : List Lock) (cs : List Call) → Guards h (run_calls out cs)
unfolding run_calls
run_calls-Guards out h [] = Guards-ret h tt
run_calls-Guards out h (c ∷ cs) =
    Guards-bind h (thread_call out c) _ (thread_call-Guards out h c)
      (λ u. run_calls-Guards out h cs)
