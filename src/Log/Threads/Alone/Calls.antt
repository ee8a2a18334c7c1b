-- ===== src/Log/Threads/Alone/Calls.antt =====
-- The calls of a thread that runs alone, and of the only thread of a system.
use rabbit_log_db.Base.{
  ℕ, zero, suc, List, [], ◌∷◌, some, ◌≡◌, refl, sym, ap, ◌∙◌, arith, inl, inr, Bool-cases,
}
use rabbit_log_db.Log.Config.Running.{Each}
use rabbit_log_db.Log.Manager.Calls.{
  Call, Valid, call, get, level, pattern, add, remove, log, new_stdout, new_file, appender_level,
  appender_formatter, logger_formatter, appender_reopen, appender_log,
}
use rabbit_log_db.Log.Manager
use rabbit_log_db.Log.Appender
use rabbit_log_db.Log.Threads.Alone.Appending as Appenders
use rabbit_log_db.Log.Threads.Alone.Logging as Loggers
use rabbit_log_db.Log.Threads.Alone.Attaching.{add_appender-Agrees}
use rabbit_log_db.Log.Threads.Alone.Managing.{get_logger-Agrees}
use rabbit_log_db.Log.Threads.Alone.{alone, resume, Agrees, Agrees-bind, Agrees-ret}
use rabbit_log_db.Log.Threads.Appending
use rabbit_log_db.Log.Threads.Finishing.{AllEnded, Reach-ends}
use rabbit_log_db.Log.Threads.Logging
use rabbit_log_db.Log.Threads.Rules.{Sound}
use rabbit_log_db.Log.Threads.System.{
  Thread, System, start, put, nobody_holds, next, move, Reach, here, moved, run_calls, thread_call,
}
use rabbit_log_db.Log.Threads.{
  Prog, ret, access, take, drop, crash, out_of_fuel, ◌>>=◌, release, pure,
}
use rabbit_log_db.Log.World
use rabbit_log_db.Log.World.{World, Outside, Lock, Result, ok, fault, M, is_held}

forget-Agrees :
    {A : Type 0} (h : List Lock) (w : World) (p : Prog A) (m : M A)
    → Agrees h w p m
    → Agrees h w (p >>= λ _. pure tt) (World.◌>>=◌ m (λ _. World.pure tt))
forget-Agrees h w p m a = Agrees-bind h p _ m _ a (λ l v e. Agrees-ret h v tt)

thread_call-Agrees :
    (out : Outside) (c : Call) (h : List Lock) (w : World)
    → Agrees h w (thread_call out c) (call out c)
unfolding thread_call call
thread_call-Agrees out (get name) h w =
    forget-Agrees h w (Logging.get_logger name) (Manager.get_logger name)
      (get_logger-Agrees h w name)
thread_call-Agrees out (level l lv) h w = Loggers.set_level-Agrees h w l lv
thread_call-Agrees out (pattern l val) h w = Loggers.set_pattern-Agrees h w l val
thread_call-Agrees out (add l a) h w = add_appender-Agrees h w l a
thread_call-Agrees out (remove l a) h w = Loggers.del_appender-Agrees h w l a
thread_call-Agrees out (log l lv e) h w = Loggers.log-Agrees out 2 l lv e h w
thread_call-Agrees out new_stdout h w =
    forget-Agrees h w Appending.new_stdout Appender.new_stdout (Appenders.new_stdout-Agrees h w)
thread_call-Agrees out (new_file name) h w =
    forget-Agrees h w (Appending.new_file out name) (Appender.new_file out name)
      (Appenders.new_file-Agrees h w out name)
thread_call-Agrees out (appender_level a lv) h w = Appenders.set_level-Agrees h w a lv
thread_call-Agrees out (appender_formatter a f) h w = Appenders.set_formatter-Agrees h w a (some f)
thread_call-Agrees out (logger_formatter l f) h w = Loggers.set_formatter-Agrees h w l (some f)
thread_call-Agrees out (appender_reopen a) h w =
    forget-Agrees h w (Appending.reopen out a) (Appender.reopen out a)
      (Appenders.reopen-Agrees h w a out)
thread_call-Agrees out (appender_log a lv e) h w = Appenders.log-Agrees out lv e a h w

pub >>=-ret : (p : Prog (Unit {0})) → p >>= ret ≡ p
unfolding ◌>>=◌
>>=-ret (ret a) = refl
>>=-ret (access f p) = λ i. access f (λ w. >>=-ret (p w) i)
>>=-ret (take l p) = ap (take l) (>>=-ret p)
>>=-ret (drop l p) = ap (drop l) (>>=-ret p)
>>=-ret crash = refl
>>=-ret out_of_fuel = refl

resume-ret : (h : List Lock) (x : Result (Unit {0} × World)) → resume ret h x ≡ x
unfolding resume alone
resume-ret h (fault e) = refl
resume-ret h (ok (a, w)) = refl

Agrees→alone :
    (h : List Lock) (w : World) (p : Prog (Unit {0})) (m : M (Unit {0}))
    → Agrees h w p m
    → alone p h w ≡ m h w
unfolding Agrees
Agrees→alone h w p m a = sym (ap (λ q. alone q h w) (>>=-ret p)) ∙ a ret ∙ resume-ret h (m h w)

-- A call made by a thread while no other thread does anything has the outcome that the model without
-- threads gives it, whatever the store and whatever locks the thread holds: the same store afterwards, or
-- the same fault, be it the wait for a lock that the thread itself holds, a null pointer or the end of
-- the fuel.
pub thread_call-alone :
    (out : Outside) (c : Call) (h : List Lock) (w : World)
    → alone (thread_call out c) h w ≡ call out c h w
thread_call-alone out c h w =
    Agrees→alone h w (thread_call out c) (call out c) (thread_call-Agrees out c h w)

run_calls-Agrees :
    (out : Outside) (cs : List Call) (h : List Lock) (w : World)
    → Agrees h w (run_calls out cs) (World.each cs (call out))
unfolding run_calls World.each
run_calls-Agrees out [] h w = Agrees-ret h w tt
run_calls-Agrees out (c ∷ cs) h w =
    Agrees-bind h (thread_call out c) _ (call out c) _ (thread_call-Agrees out c h w)
      (λ u v e. run_calls-Agrees out cs h v)

-- The only thread of a system, and what will come of it.
record Only (x : Result (Unit {0} × World)) (s : System) : Type 0 where
  held : List Lock
  todo : Prog (Unit {0})
  only : s.threads ≡ record { held = held; todo = todo } ∷ []
  outcome : alone todo held s.mem ≡ x

module _ (x : Result (Unit {0} × World)) (s : System) where
  Only-put :
      (u : System) (w : World) (h' h : List Lock) (q p : Prog (Unit {0}))
      → s.threads ≡ record { held = h; todo = p } ∷ []
      → put s 0 w h' q ≡ u
      → alone q h' w ≡ x
      → Only x u
  Only-put u w h' h q p is e a =
      rw (← e) (record { held = h'; todo = q; only = rw is refl; outcome = a })

  Only-next :
      (u : System) (h : List Lock) (p : Prog (Unit {0}))
      → s.threads ≡ record { held = h; todo = p } ∷ []
      → alone p h s.mem ≡ x
      → next s 0 h p ≡ some u
      → Only x u
  unfolding next alone nobody_holds
  Only-next u h (ret a) is o e = absurd (cc e)
  Only-next u h (access f k) is o e = Only-put u _ h h (k s.mem) _ is (ground (arith, e)) o
  Only-next u h (take l p) is o e = elim (Bool-cases (is_held l h)) [
    | inl busy ↦ absurd (ground (arith, is, busy, e))
    | inr free ↦
        Only-put u s.mem (l ∷ h) h p _ is (ground (arith, is, free, e)) (ground (arith, free, o))
  ]
  Only-next u h (drop l p) is o e = Only-put u s.mem (release l h) h p _ is (ground (arith, e)) o
  Only-next u h crash is o e = absurd (cc e)
  Only-next u h out_of_fuel is o e = absurd (cc e)

  Only-move : (u : System) (i : ℕ) → Only x s → move i s ≡ some u → Only x u
  unfolding move
  Only-move u zero o e = Only-next u o.held o.todo o.only o.outcome (ground (arith, o.only, e))
  Only-move u (suc i) o e = absurd (ground (arith, o.only, e))

Only-Reach : {s u : System} (x : Result (Unit {0} × World)) → Only x s → Reach s u → Only x u
Only-Reach x o here = o
Only-Reach x o (moved {t} {u} i r e) = Only-move x t u i (Only-Reach x o r) e

Only-ended :
    (x : Result (Unit {0} × World)) (s : System) → Only x s → AllEnded s → x ≡ ok (tt, s.mem)
unfolding alone
Only-ended x s o done =
    let is = done 0 (record { held = o.held; todo = o.todo }) (rw o.only refl) in
    sym o.outcome ∙ ap (λ (t : Thread). alone t.todo t.held s.mem) is

start-Only :
    (out : Outside) (w : World) (cs : List Call)
    → Only (World.each cs (call out) [] w) (start out w (cs ∷ []))
unfolding start
start-Only out w cs = record {
  held = [];
  todo = run_calls out cs;
  only = refl;
  outcome = Agrees→alone [] w _ _ (run_calls-Agrees out cs [] w);
}

-- The only thread of a system, whose calls are valid at the start, comes to its end, always with the
-- same store: the one that the model without threads has after the calls, all of which succeed there.
pub Reach-alone :
    (r : ℕ) (out : Outside) (w : World) (cs : List Call)
    → Sound r w
    → Each (Valid w) cs
    → (u : System) × Reach (start out w (cs ∷ [])) u
      × AllEnded u
      × (World.each cs (call out) [] w ≡ ok (tt, u.mem))
      × ((s : System) → Reach (start out w (cs ∷ [])) s → AllEnded s → s.mem ≡ u.mem)
Reach-alone r out w cs sound valid =
    let (u, reach, done) =
      (Reach-ends r out w (cs ∷ []) (start out w (cs ∷ [])) sound (valid, tt) here).2 in
    let x = World.each cs (call out) [] w in
    let o = start-Only out w cs in
    let end = Only-ended x u (Only-Reach x o reach) done in
    (
      u,
      reach,
      done,
      end,
      λ s reach' done'.
          let end' = Only-ended x s (Only-Reach x o reach') done' in ground (arith, end, end'),
    )
