-- ===== src/Log/Threads/Finishing.antt =====
-- Every execution of the threads comes to its end, where all calls have returned.

use mathlib.Core.WellFounded.{Acc}
use rabbit_log_db.Base.{
  ℕ, zero, suc, List, [], ◌∷◌, some, ◌≡◌, ◌⊎◌, inl, inr, refl, arith, get_elem?,
}
use rabbit_log_db.Log.Config.Running.{Each}
use rabbit_log_db.Log.Manager.Calls.{Call, Valid}
use rabbit_log_db.Log.Threads.Ending.{Follows, Acc-Follows}
use rabbit_log_db.Log.Threads.Invariant.{Orderly, Reach-Orderly, start-Orderly}
use rabbit_log_db.Log.Threads.Progress.{Moves, ended_or_Moves}
use rabbit_log_db.Log.Threads.Rules.{Sound}
use rabbit_log_db.Log.Threads.System.{Thread, System, start, Reach, here, moved}
use rabbit_log_db.Log.Threads.{ret}
use rabbit_log_db.Log.World.{World, Outside}

-- A thread that has made all its calls and holds no lock.
abbrev pub ended : Thread
ended = record { held = []; todo = ret tt }

abbrev pub AllEnded : System → Type 0
AllEnded s = (i : ℕ) (t : Thread) → get_elem? s.threads i ≡ some t → t ≡ ended

all_ended_or :
    {P : Type 0} (ts : List Thread)
    → ((i : ℕ) (t : Thread) → get_elem? ts i ≡ some t → (t ≡ ended) ⊎ P)
    → ((i : ℕ) (t : Thread) → get_elem? ts i ≡ some t → t ≡ ended) ⊎ P
all_ended_or [] each = inl (λ i t e. absurd (cc e))
all_ended_or (x ∷ ts) each = elim (each zero x refl) [
  | inr p ↦ inr p
  | inl first ↦ elim (all_ended_or ts (λ i t e. each (suc i) t e)) [
    | inr p ↦ inr p
    | inl others ↦ inl (all_of first others)
  ]
]
  where
    all_of :
        x ≡ ended
        → ((i : ℕ) (t : Thread) → get_elem? ts i ≡ some t → t ≡ ended)
        → (i : ℕ) (t : Thread) → get_elem? (x ∷ ts) i ≡ some t
        → t ≡ ended
    all_of first others zero t e = ground (arith, first, e)
    all_of first others (suc i) t e = others i t e

Reach-trans : {s t u : System} → Reach s t → Reach t u → Reach s u
Reach-trans r here = r
Reach-trans r (moved i q e) = moved i (Reach-trans r q) e

Orderly-ends :
    (r : ℕ) (s : System) → Acc Follows s → Orderly r s → (u : System) × Reach s u × AllEnded u
Orderly-ends r s (Acc.intro _ less) o =
    elim (all_ended_or s.threads (λ i t at.
      let (w, n, safe) = o.rest i t at in ended_or_Moves r s o i t w t.todo at refl safe)) [
        | inl done ↦ (s, here, done)
        | inr (j, v, e) ↦
            let one : Reach s v = moved j here e in
            let (u, reach, done) = Orderly-ends r v (less v (j, e)) (Reach-Orderly o one) in
            (u, Reach-trans one reach, done)
      ]

-- Any number of threads, each with its calls, whose pointers are valid at the start: from every state
-- that they reach, no execution goes on for ever, and where none of them can move any more, as comes about
-- in the end, all have made all their calls and given back all locks.
pub Reach-ends :
    (r : ℕ) (out : Outside) (w : World) (css : List (List Call)) (s : System)
    → Sound r w
    → Each (λ cs. Each (Valid w) cs) css
    → Reach (start out w css) s
    → Acc Follows s × (¬ Moves s → AllEnded s) × ((u : System) × Reach s u × AllEnded u)
Reach-ends r out w css s sound valid reach =
    let o = Reach-Orderly (start-Orderly r out w sound css valid) reach in
    (
      Acc-Follows s,
      (λ stuck i t at.
          let (v, n, safe) = o.rest i t at in
          elim (ended_or_Moves r s o i t v t.todo at refl safe) [
            | inl done ↦ done
            | inr m ↦ absurd (stuck m)
          ]),
      Orderly-ends r s (Acc-Follows s) o,
    )
