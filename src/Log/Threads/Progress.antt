-- ===== src/Log/Threads/Progress.antt =====
-- Threads do not wait for one another for ever.
use rabbit_log_db.Base.{
  ℕ, zero, suc, ◌+◌, ◌<◌, ◌≤◌, true, false, List, [], ◌∷◌, some, ◌≡◌, ◌≢◌, ◌⊎◌, inl, inr, refl,
  arith, ◌==◌, get_elem?, Bool-cases,
}
use rabbit_log_db.Log.Config.Running.{Each}
use rabbit_log_db.Log.Manager.Calls.{Call, Valid}
use rabbit_log_db.Log.Threads.Invariant.{
  held_cases, Exclusive, Orderly, Reach-Orderly, start-Orderly,
}
use rabbit_log_db.Log.Threads.Rules.{rank, Below, Sound, Safe}
use rabbit_log_db.Log.Threads.System.{Thread, System, start, nobody_holds, put, next, move, Reach}
use rabbit_log_db.Log.Threads.{Prog, ret, access, take, drop, crash, out_of_fuel, release}
use rabbit_log_db.Log.World.{
  World, Outside, Lock, logger_lock, appender_lock, manager_lock, is_held,
}

rank-small : (r : ℕ) (l : Lock) → rank r l ≤ 3
unfolding rank
rank-small r manager_lock = omega arith
rank-small r (appender_lock a) = omega arith
rank-small r (logger_lock l) = elim (Bool-cases (l == r)) [
  | inl e ↦ ground arith
  | inr e ↦ ground arith
]

rank-Below :
    (r : ℕ) (x l : Lock) (h : List Lock) → is_held x h ≡ true → Below r h l → rank r x < rank r l
unfolding is_held
rank-Below r x l [] e b = cc
rank-Below r x l (y ∷ h) e b = elim (held_cases x y h e) [
  | inl same ↦ rw same b.0
  | inr old ↦ rank-Below r x l h old b.1
]

holder :
    (l : Lock) (ts : List Thread)
    → nobody_holds l ts ≡ false
    → (j : ℕ) × (u : Thread) × (get_elem? ts j ≡ some u) × (is_held l u.held ≡ true)
unfolding nobody_holds
holder l [] e = cc
holder l (t ∷ ts) e = elim (Bool-cases (is_held l t.held)) [
  | inl mine ↦ (zero, t, refl, mine)
  | inr other ↦ let (j, u, at, held) = holder l ts (ground arith) in (suc j, u, at, held)
]

-- Some thread can move.
abbrev pub Moves : System → Type 0
Moves s = (j : ℕ) × (u : System) × (move j s ≡ some u)

module _ (r : ℕ) (s : System) (o : Orderly r s) where
  next-Moves :
      (j : ℕ) (t : Thread) (u : System)
      → get_elem? s.threads j ≡ some t
      → next s j t.held t.todo ≡ some u
      → Moves s
  unfolding move
  next-Moves j t u at e = (j, u, ground (arith, at, e))

  -- The holder of a lock can move, or waits for a lock that comes later: at most four times in a row.
  holder-Moves :
      (n : ℕ) (l : Lock) (j : ℕ) (t : Thread) (w : World) (p : Prog (Unit {0}))
      → 3 < rank r l + n
      → get_elem? s.threads j ≡ some t
      → is_held l t.held ≡ true
      → t.todo ≡ p
      → Safe r w t.held p (λ u a h. h ≡ [])
      → Moves s
  unfolding next Safe is_held
  holder-Moves zero l j t w p lt at held e safe = absurd (let b = rank-small r l in omega arith)
  holder-Moves (suc n) l j t w (ret a) lt at held e safe = absurd (ground (arith, safe, held))
  holder-Moves (suc n) l j t w (access f k) lt at held e safe =
      next-Moves j t (put s j (f s.mem) t.held (k s.mem)) at (rw e refl)
  holder-Moves (suc n) l j t w (take x p) lt at held e safe =
      elim (Bool-cases (nobody_holds x s.threads)) [
        | inl free ↦ next-Moves j t (put s j s.mem (x ∷ t.held) p) at (rw (e, next) (rw free refl))
        | inr busy ↦
            let (k, u, at', held') = holder x s.threads busy in
            let (v, later, safe') = o.rest k u at' in
            let up = rank-Below r l x t.held held safe.0 in
            holder-Moves n x k u v u.todo (omega arith) at' held' refl safe'
      ]
  holder-Moves (suc n) l j t w (drop x p) lt at held e safe =
      next-Moves j t (put s j s.mem (release x t.held) p) at (rw (e, next) refl)
  holder-Moves (suc n) l j t w crash lt at held e safe = absurd safe
  holder-Moves (suc n) l j t w out_of_fuel lt at held e safe = absurd safe

  -- Each thread has ended, or some thread can move.
  pub ended_or_Moves :
      (i : ℕ) (t : Thread) (w : World) (p : Prog (Unit {0}))
      → get_elem? s.threads i ≡ some t
      → t.todo ≡ p
      → Safe r w t.held p (λ u a h. h ≡ [])
      → (t ≡ record { held = []; todo = ret tt }) ⊎ Moves s
  unfolding next Safe
  ended_or_Moves i t w (ret a) at e safe = inl (λ j. record { held = safe j; todo = e j })
  ended_or_Moves i t w (access f k) at e safe =
      inr (next-Moves i t (put s i (f s.mem) t.held (k s.mem)) at (rw e refl))
  ended_or_Moves i t w (take l p) at e safe = inr (elim (Bool-cases (nobody_holds l s.threads)) [
    | inl free ↦ next-Moves i t (put s i s.mem (l ∷ t.held) p) at (rw (e, next) (rw free refl))
    | inr busy ↦
        let (k, u, at', held) = holder l s.threads busy in
        let (v, later, safe') = o.rest k u at' in
        holder-Moves 4 l k u v u.todo (omega arith) at' held refl safe'
  ])
  ended_or_Moves i t w (drop l p) at e safe =
      inr (next-Moves i t (put s i s.mem (release l t.held) p) at (rw (e, next) refl))
  ended_or_Moves i t w crash at e safe = absurd safe
  ended_or_Moves i t w out_of_fuel at e safe = absurd safe

  no_crash :
      (i : ℕ) (t : Thread)
      → get_elem? s.threads i ≡ some t
      → (t.todo ≢ crash) × (t.todo ≢ out_of_fuel)
  unfolding Safe
  no_crash i t at = let (w, n, safe) = o.rest i t at in ((λ e. rw e at safe), λ e. rw e at safe)

-- Any number of threads, each with its calls, whose pointers are valid at the start, in any order of
-- their accesses: at every moment no two threads hold one lock, no thread has followed a null pointer or
-- run out of fuel, and each thread has ended, with every lock given back, or some thread can move.
pub Reach-Moves :
    (r : ℕ) (out : Outside) (w : World) (css : List (List Call)) (s : System)
    → Sound r w
    → Each (λ cs. Each (Valid w) cs) css
    → Reach (start out w css) s
    → Exclusive s.threads
      × ((i : ℕ) (t : Thread)
          → get_elem? s.threads i ≡ some t
          → ((t.todo ≢ crash) × (t.todo ≢ out_of_fuel))
            × ((t ≡ record { held = []; todo = ret tt }) ⊎ Moves s))
Reach-Moves r out w css s sound valid reach =
    let o = Reach-Orderly (start-Orderly r out w sound css valid) reach in
    (
      o.exclusive,
      λ i t at.
          let (v, n, safe) = o.rest i t at in
          (no_crash r s o i t at, ended_or_Moves r s o i t v t.todo at refl safe),
    )
