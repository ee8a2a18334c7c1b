-- ===== src/Log/Config/Running.antt =====
-- Methods that run under no lock, one after the other: the next starts in the store that the one before
-- has left, in which everything is still there.
use rabbit_log_db.Base.{
  ℕ, ◌<◌, Bool, true, false, List, [], ◌∷◌, ◌≡◌, refl, ◌∙◌, arith, length, get_elem?-lt,
  lt_of_get_elem?, if◌then◌else◌,
}
use rabbit_log_db.Log.Event.{LogEvent}
use rabbit_log_db.Log.Manager.Calls.{IsSender, IsLogger, IsAppender, Succeeds}
use rabbit_log_db.Log.Manager.Growth.{Grows, Grows-refl, Grows-trans}
use rabbit_log_db.Log.Manager.Naming.{Inv}
use rabbit_log_db.Log.World.{World, ok, M, pure, ◌>>=◌, ◌>>◌, each}

pub IsLogger-Grows : {w v : World} (l : ℕ) → Grows w v → IsLogger w l → IsLogger v l
IsLogger-Grows {w} {v} l g (lg, h) =
    let at : l < length w.loggers = lt_of_get_elem? w.loggers l h in
    get_elem?-lt v.loggers l (omega arith)

pub IsSender-Grows : {w v : World} (e : LogEvent) → Grows w v → IsSender w e → IsSender v e
IsSender-Grows e g (at, named) = (IsLogger-Grows e.logger g at, named)

pub IsAppender-Grows : {w v : World} (a : ℕ) → Grows w v → IsAppender w a → IsAppender v a
IsAppender-Grows {w} {v} a g (ap, h) =
    let at : a < length w.appenders = lt_of_get_elem? w.appenders a h in
    get_elem?-lt v.appenders a (omega arith)

-- A method that returns an address of the kind `P`.
pub record Gives (m : M ℕ) (w : World) (P : World → ℕ → Type 0) : Type 0 where
  pub value : ℕ
  pub after : World
  pub runs : m [] w ≡ ok (value, after)
  pub keeps : Inv after
  pub grows : Grows w after
  pub there : P after value

pub pure-Succeeds : (w : World) → Inv w → Succeeds (pure tt) w
pure-Succeeds w i = record { after = w; runs = refl; keeps = i; grows = Grows-refl w }

-- Two methods that do the same here.
pub same-Succeeds :
    {m m' : M (Unit {0})} {w : World} → m [] w ≡ m' [] w → Succeeds m' w → Succeeds m w
same-Succeeds e s = record { after = s.after; runs = e ∙ s.runs; keeps = s.keeps; grows = s.grows }

pub then-Succeeds :
    (m k : M (Unit {0})) (w : World) (s : Succeeds m w) → Succeeds k s.after → Succeeds (m >> k) w
then-Succeeds m k w s t = record {
  after = t.after;
  runs = rw (s.runs, ◌>>=◌, ◌>>◌) t.runs;
  keeps = t.keeps;
  grows = Grows-trans s.grows t.grows;
}

pub bind-Succeeds :
    {P : World → ℕ → Type 0} (m : M ℕ) (f : ℕ → M (Unit {0})) (w : World) (s : Gives m w P)
    → Succeeds (f s.value) s.after
    → Succeeds (m >>= f) w
bind-Succeeds m f w s t = record {
  after = t.after;
  runs = rw (s.runs, ◌>>=◌) t.runs;
  keeps = t.keeps;
  grows = Grows-trans s.grows t.grows;
}

pub if-Succeeds :
    (b : Bool) {m k : M (Unit {0})} {w : World}
    → Succeeds m w
    → Succeeds k w
    → Succeeds (if b then m else k) w
if-Succeeds true s t = s
if-Succeeds false s t = t

abbrev pub Each : {A : Type 0} → (A → Type 0) → List A → Type 0
Each P [] = Unit
Each P (x ∷ xs) = P x × Each P xs

pub Each-any : {A : Type 0} (xs : List A) → Each (λ x. Unit) xs
Each-any [] = tt
Each-any (x ∷ xs) = (tt, Each-any xs)

-- A loop whose body succeeds from every store that has grown from this one.
pub each-Succeeds :
    {A : Type 0} {P : A → Type 0} (f : A → M (Unit {0})) (xs : List A) (w : World)
    → Inv w
    → Each P xs
    → ((x : A) (v : World) → P x → Inv v → Grows w v → Succeeds (f x) v)
    → Succeeds (each xs f) w
unfolding each
each-Succeeds f [] w i p body = pure-Succeeds w i
each-Succeeds f (x ∷ xs) w i p body =
    let s = body x w p.0 i (Grows-refl w) in
    then-Succeeds (f x) (each xs f) w s
      (each-Succeeds f xs s.after s.keeps p.1 (λ y v q j g. body y v q j (Grows-trans s.grows g)))
