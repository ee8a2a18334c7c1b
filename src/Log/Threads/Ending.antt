-- ===== src/Log/Threads/Ending.antt =====
-- No execution of the threads goes on for ever.

use mathlib.Core.WellFounded.{Acc}
use rabbit_log_db.Base.{
  subst, ℕ, zero, suc, List, [], ◌∷◌, some, ◌≡◌, ◌⊎◌, inl, inr, refl, sym, arith, get_elem?, set,
  Option-cases, Bool-cases,
}
use rabbit_log_db.Log.Threads.System.{Thread, System, nobody_holds, put, next, move}
use rabbit_log_db.Log.Threads.{Prog, ret, access, take, drop, crash, out_of_fuel, release}
use rabbit_log_db.Log.World.{World}

-- What may be left of a method after one more step.
abbrev Child : Prog (Unit {0}) → Prog (Unit {0}) → Type 0
Child q (ret a) = ⊥
Child q (access f k) = (w : World) × (q ≡ k w)
Child q (take l p) = q ≡ p
Child q (drop l p) = q ≡ p
Child q crash = ⊥
Child q out_of_fuel = ⊥

-- One of several methods has made a step.
abbrev OneStep : List (Prog (Unit {0})) → List (Prog (Unit {0})) → Type 0
OneStep qs [] = ⊥
OneStep qs (p ∷ ps) =
    ((q : Prog (Unit {0})) × Child q p × (qs ≡ q ∷ ps))
    ⊎ ((rest : List (Prog (Unit {0}))) × OneStep rest ps × (qs ≡ p ∷ rest))

-- With the methods behind it, a method ends: by the method, and then by the others.
Acc-cons :
    (p : Prog (Unit {0})) (ps : List (Prog (Unit {0}))) → Acc OneStep ps → Acc OneStep (p ∷ ps)
Acc-cons (ret a) ps (Acc.intro _ less) = Acc.intro (ret a ∷ ps) (λ qs st. elim st [
  | inl (q, c, e) ↦ absurd c
  | inr (rest, one, e) ↦ rw e (Acc-cons (ret a) rest (less rest one))
])
Acc-cons (access f k) ps (Acc.intro _ less) = Acc.intro (access f k ∷ ps) (λ qs st. elim st [
  | inl (q, (w, c), e) ↦ rw (e, c) (Acc-cons (k w) ps (Acc.intro ps less))
  | inr (rest, one, e) ↦ rw e (Acc-cons (access f k) rest (less rest one))
])
Acc-cons (take l p) ps (Acc.intro _ less) = Acc.intro (take l p ∷ ps) (λ qs st. elim st [
  | inl (q, c, e) ↦ rw (e, c) (Acc-cons p ps (Acc.intro ps less))
  | inr (rest, one, e) ↦ rw e (Acc-cons (take l p) rest (less rest one))
])
Acc-cons (drop l p) ps (Acc.intro _ less) = Acc.intro (drop l p ∷ ps) (λ qs st. elim st [
  | inl (q, c, e) ↦ rw (e, c) (Acc-cons p ps (Acc.intro ps less))
  | inr (rest, one, e) ↦ rw e (Acc-cons (drop l p) rest (less rest one))
])
Acc-cons crash ps (Acc.intro _ less) = Acc.intro (crash ∷ ps) (λ qs st. elim st [
  | inl (q, c, e) ↦ absurd c
  | inr (rest, one, e) ↦ rw e (Acc-cons crash rest (less rest one))
])
Acc-cons out_of_fuel ps (Acc.intro _ less) = Acc.intro (out_of_fuel ∷ ps) (λ qs st. elim st [
  | inl (q, c, e) ↦ absurd c
  | inr (rest, one, e) ↦ rw e (Acc-cons out_of_fuel rest (less rest one))
])

Acc-OneStep : (ps : List (Prog (Unit {0}))) → Acc OneStep ps
Acc-OneStep [] = Acc.intro [] (λ qs st. absurd st)
Acc-OneStep (p ∷ ps) = Acc-cons p ps (Acc-OneStep ps)

todos : List Thread → List (Prog (Unit {0}))
todos [] = []
todos (t ∷ ts) = t.todo ∷ todos ts

-- Thread `i` makes a step.
OneStep-set :
    (ts : List Thread) (i : ℕ) (t u : Thread)
    → get_elem? ts i ≡ some t
    → Child u.todo t.todo
    → OneStep (todos (set ts i u)) (todos ts)
unfolding todos
OneStep-set [] i t u e c = absurd (cc e)
OneStep-set (x ∷ ts) zero t u e c =
    let is : x ≡ t = ground (arith, e) in
    inl (u.todo, subst (λ (y : Thread). Child u.todo y.todo) (sym is) c, refl)
OneStep-set (x ∷ ts) (suc i) t u e c = inr (todos (set ts i u), OneStep-set ts i t u e c, refl)

-- `u` comes from `s` by one move.
abbrev pub Follows : System → System → Type 0
Follows u s = (i : ℕ) × (move i s ≡ some u)

next-OneStep :
    (s u : System) (i : ℕ) (t : Thread) (p : Prog (Unit {0}))
    → get_elem? s.threads i ≡ some t
    → t.todo ≡ p
    → next s i t.held p ≡ some u
    → OneStep (todos u.threads) (todos s.threads)
unfolding next
next-OneStep s u i t (ret a) at is e = absurd (cc e)
next-OneStep s u i t (access f k) at is e =
    let e' : put s i (f s.mem) t.held (k s.mem) ≡ u = ground (arith, e) in
    rw (← e') (
      OneStep-set s.threads i t (record { held = t.held; todo = k s.mem }) at
        (subst (λ (p : Prog (Unit {0})). Child (k s.mem) p) (sym is) (s.mem, refl)))
next-OneStep s u i t (take l p) at is e = elim (Bool-cases (nobody_holds l s.threads)) [
  | inl free ↦
      let e' : put s i s.mem (l ∷ t.held) p ≡ u = ground (arith, e) in
      rw (← e') (
        OneStep-set s.threads i t (record { held = l ∷ t.held; todo = p }) at
          (subst (λ (q : Prog (Unit {0})). Child p q) (sym is) refl))
  | inr busy ↦ absurd (ground (arith, e))
]
next-OneStep s u i t (drop l p) at is e =
    let e' : put s i s.mem (release l t.held) p ≡ u = ground (arith, e) in
    rw (← e') (
      OneStep-set s.threads i t (record { held = release l t.held; todo = p }) at
        (subst (λ (q : Prog (Unit {0})). Child p q) (sym is) refl))
next-OneStep s u i t crash at is e = absurd (cc e)
next-OneStep s u i t out_of_fuel at is e = absurd (cc e)

Follows-OneStep : (s u : System) → Follows u s → OneStep (todos u.threads) (todos s.threads)
unfolding move
Follows-OneStep s u (i, e) = elim (Option-cases (get_elem? s.threads i)) [
  | inl none_there ↦ absurd (ground (arith, e))
  | inr (t, at) ↦ next-OneStep s u i t t.todo at refl (ground (arith, e))
]

Acc-todos :
    (ps : List (Prog (Unit {0})))
    → Acc OneStep ps
    → (s : System) → todos s.threads ≡ ps
    → Acc Follows s
Acc-todos ps (Acc.intro _ less) s e = Acc.intro s (λ u f.
    Acc-todos (todos u.threads)
      (less (todos u.threads) (
        subst (λ (qs : List (Prog (Unit {0}))). OneStep (todos u.threads) qs) e
          (Follows-OneStep s u f)))
      u refl)

pub Acc-Follows : (s : System) → Acc Follows s
Acc-Follows s = Acc-todos (todos s.threads) (Acc-OneStep (todos s.threads)) s refl
