-- ===== src/Log/Threads/Invariant.antt =====
-- What holds of threads and store in every reachable state.
use rabbit_log_db.Base.{
  subst, ℕ, zero, suc, true, false, List, [], ◌∷◌, some, ◌≡◌, ◌⊎◌, inl, inr, refl, sym, ap, ◌∙◌,
  arith, ==_iff, get_elem?, set, get_elem?-set_cases, Option-cases, Bool-cases,
}
use rabbit_log_db.Log.Manager.Calls.{Call, Valid}
use rabbit_log_db.Log.Config.Running.{Each}
use rabbit_log_db.Log.Threads.Calls.{run_calls-Does}
use rabbit_log_db.Log.Threads.Rules.{Sound, Later, Later-refl, Later-trans, Safe, Safe-map}
use rabbit_log_db.Log.Threads.System.{
  Thread, System, start, nobody_holds, put, next, move, Reach, here, moved, run_calls,
}
use rabbit_log_db.Log.Threads.{Prog, ret, access, take, drop, crash, out_of_fuel, release}
use rabbit_log_db.Log.World.{
  World, Outside, Lock, logger_lock, appender_lock, manager_lock, same_lock, is_held,
}

pub same_lock_refl : (l : Lock) → same_lock l l ≡ true
unfolding same_lock
same_lock_refl (logger_lock a) = (==_iff a a).1 refl
same_lock_refl (appender_lock a) = (==_iff a a).1 refl
same_lock_refl manager_lock = refl

pub same_lock→eq : (x l : Lock) → same_lock x l ≡ true → x ≡ l
unfolding same_lock
same_lock→eq (logger_lock a) (logger_lock b) h = ap logger_lock ((==_iff a b).0 h)
same_lock→eq (logger_lock a) (appender_lock b) h = cc
same_lock→eq (logger_lock a) manager_lock h = cc
same_lock→eq (appender_lock a) (logger_lock b) h = cc
same_lock→eq (appender_lock a) (appender_lock b) h = ap appender_lock ((==_iff a b).0 h)
same_lock→eq (appender_lock a) manager_lock h = cc
same_lock→eq manager_lock (logger_lock b) h = cc
same_lock→eq manager_lock (appender_lock b) h = cc
same_lock→eq manager_lock manager_lock h = refl

-- A lock that is held is the last one taken, or one taken before.
pub held_cases :
    (x l : Lock) (h : List Lock) → is_held x (l ∷ h) ≡ true → (x ≡ l) ⊎ (is_held x h ≡ true)
unfolding is_held
held_cases x l h e = elim (Bool-cases (same_lock x l)) [
  | inl same ↦ inl (same_lock→eq x l same)
  | inr other ↦ inr (ground arith)
]

pub held_on_top : (l : Lock) (h : List Lock) → is_held l (l ∷ h) ≡ true
unfolding is_held
held_on_top l h = rw (same_lock_refl l) refl

pub held_below : (x l : Lock) (h : List Lock) → is_held x h ≡ true → is_held x (l ∷ h) ≡ true
unfolding is_held
held_below x l h e = ground arith

pub release-top : (l : Lock) (h : List Lock) → release l (l ∷ h) ≡ h
unfolding release
release-top l h = rw (same_lock_refl l) refl

pub nobody_holds→not :
    (l : Lock) (ts : List Thread) (j : ℕ) (u : Thread)
    → nobody_holds l ts ≡ true
    → get_elem? ts j ≡ some u
    → is_held l u.held ≡ false
unfolding nobody_holds
nobody_holds→not l [] j u h e = cc
nobody_holds→not l (t ∷ ts) zero u h e = ground arith
nobody_holds→not l (t ∷ ts) (suc j) u h e = nobody_holds→not l ts j u (ground arith) e

-- No two threads hold one lock.
unfoldable pub Exclusive : List Thread → Type 0
Exclusive ts =
    (i j : ℕ) (t u : Thread) (l : Lock)
    → get_elem? ts i ≡ some t
    → get_elem? ts j ≡ some u
    → is_held l t.held ≡ true
    → is_held l u.held ≡ true
    → i ≡ j

-- What a thread has still to do keeps to the rules, from a store that the present one is later than.
abbrev pub Rest : ℕ → World → Thread → Type 0
Rest r v t = (w : World) × Later w v × Safe r w t.held t.todo (λ u a h. h ≡ [])

pub record Orderly (r : ℕ) (s : System) : Type 0 where
  pub sound : Sound r s.mem
  pub rest : (i : ℕ) (t : Thread) → get_elem? s.threads i ≡ some t → Rest r s.mem t
  pub exclusive : Exclusive s.threads

-- Thread `i` has come to `p` under the locks `h`, of which it held all before, or all but one, which
-- was free.
module _ (s : System) (i : ℕ) (t : Thread) (h : List Lock) (p : Prog (Unit {0})) where
  Exclusive-put :
      get_elem? s.threads i ≡ some t
      → Exclusive s.threads
      → ((x : Lock)
          → is_held x h ≡ true
          → (is_held x t.held ≡ true) ⊎ (nobody_holds x s.threads ≡ true))
      → Exclusive (set s.threads i (record { held = h; todo = p }))
  unfolding Exclusive
  Exclusive-put at ex old = λ j k u v x ej ek hj hk.
      let new : Thread = record { held = h; todo = p } in
      elim (get_elem?-set_cases s.threads i new j ej) [
        | inl (ji, ju) ↦ elim (get_elem?-set_cases s.threads i new k ek) [
          | inl (ki, kv) ↦ ji ∙ sym ki
          | inr ek' ↦ elim (old x (ground (arith, ju, hj))) [
            | inl mine ↦ ji ∙ ex i k t v x at ek' mine hk
            | inr free ↦ cc (nobody_holds→not x s.threads k v free ek')
          ]
        ]
        | inr ej' ↦ elim (get_elem?-set_cases s.threads i new k ek) [
          | inl (ki, kv) ↦ elim (old x (ground (arith, kv, hk))) [
            | inl mine ↦ ex j i u t x ej' at hj mine ∙ sym ki
            | inr free ↦ cc (nobody_holds→not x s.threads j u free ej')
          ]
          | inr ek' ↦ ex j k u v x ej' ek' hj hk
        ]
      ]

  Orderly-put :
      (r : ℕ) (w : World)
      → get_elem? s.threads i ≡ some t
      → Orderly r s
      → Sound r w
      → Later s.mem w
      → Rest r w (record { held = h; todo = p })
      → ((x : Lock)
          → is_held x h ≡ true
          → (is_held x t.held ≡ true) ⊎ (nobody_holds x s.threads ≡ true))
      → Orderly r (put s i w h p)
  Orderly-put r w at o sound n rest old = record {
    sound = sound;
    rest = λ j u e. elim (get_elem?-set_cases s.threads i (record { held = h; todo = p }) j e) [
      | inl (same, is) ↦ rw is rest
      | inr e' ↦ let (v, l, safe) = o.rest j u e' in (v, Later-trans l n, safe)
    ];
    exclusive = Exclusive-put at o.exclusive old;
  }

-- What one move of a thread with something to do leads to.
next-Orderly :
    (r : ℕ) (s u : System) (i : ℕ) (t : Thread) (p : Prog (Unit {0})) (w : World)
    → get_elem? s.threads i ≡ some t
    → Orderly r s
    → Later w s.mem
    → Safe r w t.held p (λ u a h. h ≡ [])
    → next s i t.held p ≡ some u
    → Orderly r u
unfolding next Safe
next-Orderly r s u i t (ret a) w at o n safe e = cc
next-Orderly r s u i t (access f k) w at o n safe e =
    let (sound, later, rest) = safe s.mem n o.sound in
    let is : put s i (f s.mem) t.held (k s.mem) ≡ u = ground (arith, e) in
    rw is at (
      Orderly-put s i t t.held (k s.mem) r (f s.mem) at o sound later
        (f s.mem, Later-refl (f s.mem), rest) (λ x h. inl h))
next-Orderly r s u i t (take l p) w at o n safe e = elim (Bool-cases (nobody_holds l s.threads)) [
  | inl free ↦
      let is : put s i s.mem (l ∷ t.held) p ≡ u = ground (arith, e) in
      rw is at (
        Orderly-put s i t (l ∷ t.held) p r s.mem at o o.sound (Later-refl s.mem) (w, n, safe.1)
          (λ x h. elim (held_cases x l t.held h) [
            | inl same ↦ inr (rw same free)
            | inr mine ↦ inl mine
          ]))
  | inr busy ↦ absurd (ground (arith, e))
]
next-Orderly r s u i t (drop l p) w at o n safe e =
    let (rest, top, safe') = safe in
    let left : release l t.held ≡ rest = rw top (release-top l rest) in
    let is : put s i s.mem rest p ≡ u = rw (← left) (ground (arith, e)) in
    rw is at (
      Orderly-put s i t rest p r s.mem at o o.sound (Later-refl s.mem) (w, n, safe')
        (λ x h. inl (rw top (held_below x l rest h))))
next-Orderly r s u i t crash w at o n safe e = cc
next-Orderly r s u i t out_of_fuel w at o n safe e = cc

move-Orderly : (r : ℕ) (s u : System) (i : ℕ) → Orderly r s → move i s ≡ some u → Orderly r u
unfolding move
move-Orderly r s u i o e = elim (Option-cases (get_elem? s.threads i)) [
  | inl none_there ↦ absurd (ground (arith, e))
  | inr (t, at) ↦
      let (w, n, safe) = o.rest i t at in
      next-Orderly r s u i t t.todo w at o n safe (ground (arith, e))
]

pub Reach-Orderly : {r : ℕ} {s u : System} → Orderly r s → Reach s u → Orderly r u
Reach-Orderly o here = o
Reach-Orderly {r} o (moved {t} {u} i reach e) = move-Orderly r t u i (Reach-Orderly o reach) e

module _ (r : ℕ) (out : Outside) (w : World) (sound : Sound r w) where
  threads-Rest :
      (css : List (List Call))
      → Each (λ cs. Each (Valid w) cs) css
      → (i : ℕ) (t : Thread) → get_elem? (start out w css).threads i ≡ some t
      → (t.held ≡ []) × Rest r w t
  unfolding start
  threads-Rest [] valid i t e = cc
  threads-Rest (cs ∷ css) valid zero t e =
      let first : Thread = record { held = []; todo = run_calls out cs } in
      let is : first ≡ t = ground (arith, e) in
      let safe = run_calls-Does r out cs w sound.root valid.0 in
      let fine : (first.held ≡ []) × Rest r w first =
        (refl, (w, Later-refl w, Safe-map r (run_calls out cs) w [] _ _ (λ v a h x. x.0) safe)) in
      subst (λ (x : Thread). (x.held ≡ []) × Rest r w x) is fine
  threads-Rest (cs ∷ css) valid (suc i) t e = threads-Rest css valid.1 i t e

  pub start-Orderly :
      (css : List (List Call)) → Each (λ cs. Each (Valid w) cs) css → Orderly r (start out w css)
  unfolding Exclusive is_held start
  start-Orderly css valid = record {
    sound = sound;
    rest = λ i t e. (threads-Rest css valid i t e).1;
    exclusive = λ i j t u l ei ej hi hj.
        let no_lock = (threads-Rest css valid i t ei).0 in absurd (ground (arith, no_lock, hi));
  }
