-- ===== src/Log/Threads/System.antt =====
-- Threads that make calls of the logging library, interleaved in any order.
use rabbit_log_db.Base.{
  ℕ, Bool, true, List, [], ◌∷◌, Option, none, some, ◌≡◌, not, ◌&&◌, if◌then◌else◌, map, get_elem?,
  set,
}
use rabbit_log_db.Log.Manager.Calls.{
  Call, get, level, pattern, add, remove, log, new_stdout, new_file, appender_level,
  appender_formatter, logger_formatter, appender_reopen, appender_log,
}
use rabbit_log_db.Log.Threads.Appending
use rabbit_log_db.Log.Threads.Logging
use rabbit_log_db.Log.Threads.{
  Prog, ret, access, take, drop, crash, out_of_fuel, ◌>>=◌, ◌>>◌, pure, release,
}
use rabbit_log_db.Log.World.{World, Outside, Lock, is_held}

abbrev pub forget : {A : Type 0} → Prog A → Prog (Unit {0})
forget p = p >>= λ _. pure tt

-- A call, one access at a time.
unfoldable pub thread_call : Outside → Call → Prog (Unit {0})
unfolding ◌>>=◌
thread_call out (get name) = forget (Logging.get_logger name)
thread_call out (level l lv) = Logging.set_level l lv
thread_call out (pattern l val) = Logging.set_pattern l val
thread_call out (add l a) = Logging.add_appender l a
thread_call out (remove l a) = Logging.del_appender l a
thread_call out (log l lv e) = Logging.log out 2 l lv e
thread_call out new_stdout = forget Appending.new_stdout
thread_call out (new_file name) = forget (Appending.new_file out name)
thread_call out (appender_level a lv) = Appending.set_level a lv
thread_call out (appender_formatter a f) = Appending.set_formatter a (some f)
thread_call out (logger_formatter l f) = Logging.set_formatter l (some f)
thread_call out (appender_reopen a) = forget (Appending.reopen out a)
thread_call out (appender_log a lv e) = Appending.log out a lv e

-- The calls of one thread, one after the other.
unfoldable pub run_calls : Outside → List Call → Prog (Unit {0})
unfolding thread_call ◌>>=◌
run_calls out [] = pure tt
run_calls out (c ∷ cs) = thread_call out c >> run_calls out cs

pub record Thread : Type 0 where
  pub held : List Lock
  pub todo : Prog (Unit {0})

pub record System : Type 0 where
  pub mem : World
  pub threads : List Thread

-- The threads before they have done anything.
unfoldable pub start : Outside → World → List (List Call) → System
unfolding run_calls
start out w css = record {
  mem = w;
  threads = map (λ cs. record { held = []; todo = run_calls out cs }) css;
}

unfoldable pub nobody_holds : Lock → List Thread → Bool
unfolding is_held
nobody_holds l [] = true
nobody_holds l (t ∷ ts) = not (is_held l t.held) && nobody_holds l ts

-- Thread `i` goes on.
abbrev pub put : System → ℕ → World → List Lock → Prog (Unit {0}) → System
put s i w h p = record { mem = w; threads = set s.threads i (record { held = h; todo = p }) }

-- `pthread_mutex_lock` waits while a thread holds the mutex.
unfoldable pub next : System → ℕ → List Lock → Prog (Unit {0}) → Option System
unfolding nobody_holds release
next s i h (ret a) = none
next s i h (access f k) = some (put s i (f s.mem) h (k s.mem))
next s i h (take l p) = if nobody_holds l s.threads then some (put s i s.mem (l ∷ h) p) else none
next s i h (drop l p) = some (put s i s.mem (release l h) p)
next s i h crash = none
next s i h out_of_fuel = none

-- One move of thread `i`; `none` if it has ended or waits.
unfoldable pub move : ℕ → System → Option System
unfolding next
move i s = elim (get_elem? s.threads i) [ none ↦ none | some t ↦ next s i t.held t.todo ]

pub data Reach (s : System) : System → Type 0 where
  here : Reach s s
  moved : {t u : System} (i : ℕ) → Reach s t → move i t ≡ some u → Reach s u
