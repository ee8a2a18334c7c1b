-- ===== src/Log/Threads/Alone.antt =====
-- A thread that runs alone, and when a method is the same for it as in the model without threads.
pub mod Appending
pub mod Logging
pub mod Attaching
pub mod Managing
pub mod Calls
use rabbit_log_db.Base.{
  ℕ, Bool, true, false, List, [], ◌∷◌, Option, none, some, ◌≡◌, refl, ap, ◌∙◌, arith, inl, inr,
  if◌then◌else◌, Bool-cases, Option-cases, get_elem?,
}
use rabbit_log_db.Log.Threads.Invariant.{release-top}
use rabbit_log_db.Log.Threads.{
  Prog, ret, access, take, drop, crash, out_of_fuel, ◌>>=◌, locked, deref, modify, found, each,
  read_logger, read_appender, write_logger, write_appender, release,
}
use rabbit_log_db.Log.World
use rabbit_log_db.Log.World.{
  Appender, Logger, World, Lock, Result, ok, fault, deadlock, bad_pointer, no_fuel, M, with_lock,
  is_held, logger_at, appender_at, put_logger, put_appender,
}

-- A mutex that the thread holds itself is waited for without end.
unfoldable pub alone : {A : Type 0} → Prog A → List Lock → World → Result (A × World)
unfolding is_held release
alone (ret a) h w = ok (a, w)
alone (access f k) h w = alone (k w) h (f w)
alone (take l p) h w =
    let rest = alone p (l ∷ h) w in if is_held l h then fault (deadlock l) else rest
alone (drop l p) h w = alone p (release l h) w
alone crash h w = fault bad_pointer
alone out_of_fuel h w = fault no_fuel

-- What comes after a method.
unfoldable pub resume :
    {A : Type 0}
    → (A → Prog (Unit {0}))
    → List Lock
    → Result (A × World)
    → Result (Unit {0} × World)
unfolding alone
resume k h (fault e) = fault e
resume k h (ok (a, w)) = alone (k a) h w

-- The two models of a method agree, whatever comes after it.
unfoldable pub Agrees : {A : Type 0} → List Lock → World → Prog A → M A → Type 0
unfolding alone resume
Agrees {A} h w p m = (k : A → Prog (Unit {0})) → alone (p >>= k) h w ≡ resume k h (m h w)

pub >>=-assoc :
    {A B C : Type 0} (p : Prog A) (g : A → Prog B) (k : B → Prog C)
    → (p >>= g) >>= k ≡ p >>= (λ a. g a >>= k)
unfolding ◌>>=◌
>>=-assoc (ret a) g k = refl
>>=-assoc (access f p) g k = λ i. access f (λ w. >>=-assoc (p w) g k i)
>>=-assoc (take l p) g k = ap (take l) (>>=-assoc p g k)
>>=-assoc (drop l p) g k = ap (drop l) (>>=-assoc p g k)
>>=-assoc crash g k = refl
>>=-assoc out_of_fuel g k = refl

module _ {A B : Type 0} (h : List Lock) (p : Prog A) (g : A → Prog B) (m : M A) (n : A → M B) where
  resume-bind :
      (x : Result (A × World))
      → ((a : A) (v : World) → x ≡ ok (a, v) → Agrees h v (g a) (n a))
      → (k : B → Prog (Unit {0}))
      → resume (λ a. g a >>= k) h x
        ≡ resume k h (elim x [ fault e ↦ fault e | ok (a, v) ↦ n a h v ])
  unfolding resume Agrees
  resume-bind (fault e) b k = refl
  resume-bind (ok (a, v)) b k = b a v refl k

  pub Agrees-bind :
      {w : World}
      → Agrees h w p m
      → ((a : A) (v : World) → m h w ≡ ok (a, v) → Agrees h v (g a) (n a))
      → Agrees h w (p >>= g) (World.◌>>=◌ m n)
  unfolding Agrees
  Agrees-bind {w = w} a b k =
      ap (λ q. alone q h w) (>>=-assoc p g k) ∙ a (λ x. g x >>= k) ∙ resume-bind (m h w) b k

pub Agrees-ret :
    {A : Type 0} (h : List Lock) (w : World) (a : A) → Agrees h w (ret a) (World.pure a)
unfolding Agrees ◌>>=◌
Agrees-ret h w a k = refl

-- A scope that holds a mutex.
pub Agrees-locked :
    {A : Type 0} (h : List Lock) (w : World) (l : Lock) (p : Prog A) (m : M A)
    → (is_held l h ≡ false → Agrees (l ∷ h) w p m)
    → Agrees h w (locked l p) (with_lock l m)
unfolding Agrees locked with_lock ◌>>=◌ resume alone release
Agrees-locked {A = A} h w l p m a k = elim (Bool-cases (is_held l h)) [
  | inl e ↦ rw e refl
  | inr e ↦ rw e (
      ap (λ q. alone q (l ∷ h) w) (>>=-assoc p (λ x. drop l (ret x)) k)
      ∙ a e (λ x. drop l (ret x) >>= k)
      ∙ left (m (l ∷ h) w))
]
  where
    left : (x : Result (A × World)) → resume (λ a. drop l (ret a) >>= k) (l ∷ h) x ≡ resume k h x
    left (fault e) = refl
    left (ok (a, v)) = ap (λ q. alone (k a) q v) (release-top l h)

pub Agrees-if :
    {A : Type 0} (h : List Lock) (w : World) (b : Bool) (p q : Prog A) (m n : M A)
    → Agrees h w p m
    → Agrees h w q n
    → Agrees h w (if b then p else q) (if b then m else n)
Agrees-if h w true p q m n a b = a
Agrees-if h w false p q m n a b = b

pub Agrees-option :
    {A B : Type 0} (h : List Lock) (w : World) (o : Option A) (p : Prog B) (f : A → Prog B)
    (m : M B) (n : A → M B)
    → Agrees h w p m
    → ((a : A) → Agrees h w (f a) (n a))
    → Agrees h w (elim o [ none ↦ p | some a ↦ f a ]) (elim o [ none ↦ m | some a ↦ n a ])
Agrees-option h w none p f m n a b = a
Agrees-option h w (some x) p f m n a b = b x

pub Agrees-each :
    {A : Type 0} (xs : List A) (f : A → Prog (Unit {0})) (g : A → M (Unit {0}))
    → ((x : A) (h : List Lock) (w : World) → Agrees h w (f x) (g x))
    → (h : List Lock) (w : World) → Agrees h w (each xs f) (World.each xs g)
unfolding each World.each
Agrees-each [] f g a h w = Agrees-ret h w tt
Agrees-each (x ∷ xs) f g a h w =
    Agrees-bind h (f x) _ (g x) _ (a x h w) (λ u v e. Agrees-each xs f g a h v)

-- A pointer that may be null.
pub Agrees-deref :
    {A : Type 0} (h : List Lock) (w : World) (o : Option A) → Agrees h w (deref o) (World.deref o)
unfolding Agrees deref World.deref ◌>>=◌ alone resume
Agrees-deref h w none k = refl
Agrees-deref h w (some a) k = refl

module _ (h : List Lock) (w : World) (l : ℕ) where
  pub Agrees-read_logger : Agrees h w (read_logger l) (logger_at l)
  unfolding Agrees read_logger logger_at ◌>>=◌ alone
  Agrees-read_logger k = Agrees-deref h w (get_elem? w.loggers l) k

  pub Agrees-read_appender : Agrees h w (read_appender l) (appender_at l)
  unfolding Agrees read_appender appender_at ◌>>=◌ alone
  Agrees-read_appender k = Agrees-deref h w (get_elem? w.appenders l) k

  -- What is read is there, and nothing is changed by it.
  pub logger_at-ok :
      {lg : Logger} {v : World}
      → logger_at l h w ≡ ok (lg, v)
      → (get_elem? w.loggers l ≡ some lg) × (w ≡ v)
  unfolding logger_at World.deref
  logger_at-ok e = elim (Option-cases (get_elem? w.loggers l)) [
    | inl gone ↦ absurd (ground (arith, gone, e))
    | inr (a, is) ↦ (ground (arith, is, e), ground (arith, is, e))
  ]

  pub appender_at-ok :
      {x : Appender} {v : World}
      → appender_at l h w ≡ ok (x, v)
      → (get_elem? w.appenders l ≡ some x) × (w ≡ v)
  unfolding appender_at World.deref
  appender_at-ok e = elim (Option-cases (get_elem? w.appenders l)) [
    | inl gone ↦ absurd (ground (arith, gone, e))
    | inr (a, is) ↦ (ground (arith, is, e), ground (arith, is, e))
  ]

  -- A logger that is known to be there is read or written.
  pub Agrees-known_logger :
      {A : Type 0} {lg : Logger} (g : Logger → Prog A) (m : M A)
      → get_elem? w.loggers l ≡ some lg
      → Agrees h w (g lg) m
      → Agrees h w (read_logger l >>= g) m
  unfolding Agrees read_logger ◌>>=◌ alone deref
  Agrees-known_logger g m e a k = rw (alone, e, deref) (a k)

  pub Agrees-known_appender :
      {A : Type 0} {x : Appender} (g : Appender → Prog A) (m : M A)
      → get_elem? w.appenders l ≡ some x
      → Agrees h w (g x) m
      → Agrees h w (read_appender l >>= g) m
  unfolding Agrees read_appender ◌>>=◌ alone deref
  Agrees-known_appender g m e a k = rw (alone, e, deref) (a k)

  pub Agrees-put_logger :
      {lg : Logger} (g : Logger → Logger)
      → get_elem? w.loggers l ≡ some lg
      → Agrees h w (write_logger l g) (put_logger l (g lg))
  unfolding Agrees write_logger put_logger modify found ◌>>=◌ alone resume
  Agrees-put_logger g e k = ground (arith, e)

  pub Agrees-put_appender :
      {x : Appender} (g : Appender → Appender)
      → get_elem? w.appenders l ≡ some x
      → Agrees h w (write_appender l g) (put_appender l (g x))
  unfolding Agrees write_appender put_appender modify found ◌>>=◌ alone resume
  Agrees-put_appender g e k = ground (arith, e)

  pub Agrees-write_logger :
      (g : Logger → Logger)
      → Agrees h w (write_logger l g) (World.◌>>=◌ (logger_at l) (λ lg. put_logger l (g lg)))
  unfolding Agrees write_logger logger_at put_logger modify found World.deref ◌>>=◌ alone resume
  Agrees-write_logger g k = elim (Option-cases (get_elem? w.loggers l)) [
    | inl e ↦ ground (arith, e)
    | inr (a, e) ↦ ground (arith, e)
  ]

  pub Agrees-write_appender :
      (g : Appender → Appender)
      → Agrees h w (write_appender l g) (World.◌>>=◌ (appender_at l) (λ x. put_appender l (g x)))
  unfolding Agrees write_appender appender_at put_appender modify found World.deref ◌>>=◌ alone
      resume
  Agrees-write_appender g k = elim (Option-cases (get_elem? w.appenders l)) [
    | inl e ↦ ground (arith, e)
    | inr (a, e) ↦ ground (arith, e)
  ]
