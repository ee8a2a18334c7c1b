-- ===== src/Log/Threads/Guarding/Reached.antt =====
-- In every state that threads reach, what a mutex of Log/Log.cpp guards is written under that mutex.
use rabbit_log_db.Base.{
  ℕ, zero, suc, List, [], ◌∷◌, some, ◌≡◌, inl, inr, refl, sym, subst, arith, Bool-cases,
  Option-cases, get_elem?, get_elem?-set_cases,
}
use rabbit_log_db.Log.Manager.Calls.{Call}
use rabbit_log_db.Log.Threads.Alone.Calls.{>>=-ret}
use rabbit_log_db.Log.Threads.Guarding.Calls.{run_calls-Guards}
use rabbit_log_db.Log.Threads.Guarding.{Kept, Kept-same, Guarded, Guards}
use rabbit_log_db.Log.Threads.System.{
  Thread, System, start, put, nobody_holds, next, move, Reach, here, moved, run_calls,
}
use rabbit_log_db.Log.Threads.{Prog, ret, access, take, drop, crash, out_of_fuel, release}
use rabbit_log_db.Log.World.{World, Outside, Lock}

begun : (out : Outside) (cs : List Call) → Guarded [] (run_calls out cs)
unfolding Guards Guarded
begun out cs =
    subst (λ p. Guarded [] p) (>>=-ret (run_calls out cs))
      (run_calls-Guards out [] cs ret (λ a. tt))

-- What each thread has still to do.
AllGuarded : System → Type 0
AllGuarded s = (i : ℕ) (t : Thread) → get_elem? s.threads i ≡ some t → Guarded t.held t.todo

AllGuarded-put :
    (s : System) (i : ℕ) (w : World) (h : List Lock) (p : Prog (Unit {0}))
    → AllGuarded s
    → Guarded h p
    → AllGuarded (put s i w h p)
unfolding AllGuarded
AllGuarded-put s i w h p old new j t e =
    elim (get_elem?-set_cases s.threads i (record { held = h; todo = p }) j e) [
      | inl (same, is) ↦ subst (λ (x : Thread). Guarded x.held x.todo) (sym is) new
      | inr e' ↦ old j t e'
    ]

-- What one move does.
next-Guarded :
    (s u : System) (i : ℕ) (h : List Lock) (p : Prog (Unit {0}))
    → AllGuarded s
    → Guarded h p
    → next s i h p ≡ some u
    → Kept h s.mem u.mem × AllGuarded u
unfolding next Guarded
next-Guarded s u i h (ret a) all g e = absurd (cc e)
next-Guarded s u i h (access f k) all g e =
    let is : put s i (f s.mem) h (k s.mem) ≡ u = ground (arith, e) in
    rw (← is) (g.0 s.mem, AllGuarded-put s i (f s.mem) h (k s.mem) all (g.1 s.mem))
next-Guarded s u i h (take l p) all g e = elim (Bool-cases (nobody_holds l s.threads)) [
  | inl free ↦
      let is : put s i s.mem (l ∷ h) p ≡ u = ground (arith, e) in
      rw (← is) (Kept-same h s.mem s.mem refl refl refl, AllGuarded-put s i s.mem (l ∷ h) p all g)
  | inr busy ↦ absurd (ground (arith, e))
]
next-Guarded s u i h (drop l p) all g e =
    let is : put s i s.mem (release l h) p ≡ u = ground (arith, e) in
    rw (← is)
      (Kept-same h s.mem s.mem refl refl refl, AllGuarded-put s i s.mem (release l h) p all g)
next-Guarded s u i h crash all g e = absurd (cc e)
next-Guarded s u i h out_of_fuel all g e = absurd (cc e)

move-Guarded :
    (s u : System) (i : ℕ)
    → AllGuarded s
    → move i s ≡ some u
    → ((t : Thread) × (get_elem? s.threads i ≡ some t) × Kept t.held s.mem u.mem) × AllGuarded u
unfolding move AllGuarded
move-Guarded s u i all e = elim (Option-cases (get_elem? s.threads i)) [
  | inl none_there ↦ absurd (ground (arith, e))
  | inr (t, at) ↦
      let (kept, all') = next-Guarded s u i t.held t.todo all (all i t at) (ground (arith, e)) in
      ((t, at, kept), all')
]

start-Guarded : (out : Outside) (w : World) (css : List (List Call)) → AllGuarded (start out w css)
unfolding AllGuarded start
start-Guarded out w [] i t e = cc e
start-Guarded out w (cs ∷ css) zero t e =
    let first : Thread = record { held = []; todo = run_calls out cs } in
    let is : first ≡ t = ground (arith, e) in
    subst (λ (x : Thread). Guarded x.held x.todo) is (begun out cs)
start-Guarded out w (cs ∷ css) (suc i) t e = start-Guarded out w css i t e

Reach-Guarded : {s u : System} → AllGuarded s → Reach s u → AllGuarded u
Reach-Guarded all here = all
Reach-Guarded all (moved {t} {u} i r e) = (move-Guarded t u i (Reach-Guarded all r) e).1

-- Any number of threads, each with its calls, valid or not, in any order of their accesses: a move of a
-- thread changes the appenders or the formatter of a logger, the formatter of an appender or its flag, or
-- the map of the manager only while that thread holds the mutex of the logger, of the appender or of the
-- manager.
pub Reach-guarded :
    (out : Outside) (w : World) (css : List (List Call)) (s u : System) (i : ℕ)
    → Reach (start out w css) s
    → move i s ≡ some u
    → (t : Thread) × (get_elem? s.threads i ≡ some t) × Kept t.held s.mem u.mem
Reach-guarded out w css s u i reach e =
    (move-Guarded s u i (Reach-Guarded (start-Guarded out w css) reach) e).0
