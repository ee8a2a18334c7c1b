-- ===== src/Log/Threads/Guarding/Rules.antt =====
-- Rules by which a method writes what a mutex guards only under that mutex.
use rabbit_log_db.Base.{
  ℕ, Bool, true, false, List, [], ◌∷◌, Option, none, some, ◌≡◌, inl, inr, refl, sym, subst, ap,
  Bytes, if◌then◌else◌, get_elem?-append_some,
}
use rabbit_log_db.Log.Threads.Alone.{>>=-assoc}
use rabbit_log_db.Log.Threads.Guarding.{
  logger_members, appender_members, Kept, Kept-same, Kept-logger, Kept-appender, Guarded, Guards,
}
use rabbit_log_db.Log.Threads.Invariant.{release-top}
use rabbit_log_db.Log.Threads.{
  Prog, ret, access, drop, crash, out_of_fuel, ◌>>=◌, locked, deref, found, each, read_logger,
  read_appender, write_logger, write_appender, new_logger_at, new_appender_at, print, write,
  open_file,
}
use rabbit_log_db.Log.World.{
  Appender, Logger, World, Outside, Lock, logger_lock, appender_lock, is_held,
}

pub Guards-ret : {A : Type 0} (h : List Lock) (a : A) → Guards h (ret a)
unfolding Guards ◌>>=◌
Guards-ret h a k r = r a

pub Guards-bind :
    {A B : Type 0} (h : List Lock) (p : Prog A) (g : A → Prog B)
    → Guards h p
    → ((a : A) → Guards h (g a))
    → Guards h (p >>= g)
unfolding Guards
Guards-bind h p g s t k r =
    subst (λ q. Guarded h q) (sym (>>=-assoc p g k)) (s (λ a. g a >>= k) (λ a. t a k r))

pub Guards-locked :
    {A : Type 0} (h : List Lock) (l : Lock) (p : Prog A) → Guards (l ∷ h) p → Guards h (locked l p)
unfolding Guards Guarded locked ◌>>=◌
Guards-locked h l p s k r =
    subst (λ q. Guarded (l ∷ h) q) (sym (>>=-assoc p (λ a. drop l (ret a)) k))
      (s (λ a. drop l (ret a) >>= k)
        (λ a. subst (λ (x : List Lock). Guarded x (k a)) (sym (release-top l h)) (r a)))

pub Guards-access :
    {A : Type 0} (h : List Lock) (f : World → World) (p : World → Prog A)
    → ((w : World) → Kept h w (f w))
    → ((w : World) → Guards h (p w))
    → Guards h (access f p)
unfolding Guards Guarded ◌>>=◌
Guards-access h f p s t k r = (s, λ w. t w k r)

pub Guards-crash : (A : Type 0) (h : List Lock) → Guards {A = A} h crash
unfolding Guards Guarded ◌>>=◌
Guards-crash A h k r = tt

pub Guards-no_fuel : (A : Type 0) (h : List Lock) → Guards {A = A} h out_of_fuel
unfolding Guards Guarded ◌>>=◌
Guards-no_fuel A h k r = tt

pub Guards-if :
    {A : Type 0} (h : List Lock) (b : Bool) (p q : Prog A)
    → Guards h p
    → Guards h q
    → Guards h (if b then p else q)
Guards-if h true p q s t = s
Guards-if h false p q s t = t

pub Guards-option :
    {A B : Type 0} (h : List Lock) (o : Option A) (p : Prog B) (f : A → Prog B)
    → Guards h p
    → ((a : A) → Guards h (f a))
    → Guards h (elim o as (λ x. Prog B) [ none ↦ p | some a ↦ f a ])
Guards-option h none p f s t = s
Guards-option h (some a) p f s t = t a

pub Guards-each :
    {A : Type 0} (h : List Lock) (xs : List A) (f : A → Prog (Unit {0}))
    → ((x : A) → Guards h (f x))
    → Guards h (each xs f)
unfolding each
Guards-each h [] f s = Guards-ret h tt
Guards-each h (x ∷ xs) f s = Guards-bind h (f x) _ (s x) (λ u. Guards-each h xs f s)

pub Guards-deref : {A : Type 0} (h : List Lock) (o : Option A) → Guards h (deref o)
unfolding deref
Guards-deref h none = Guards-crash _ h
Guards-deref h (some a) = Guards-ret h a

pub Guards-found : {A : Type 0} (h : List Lock) (o : Option A) → Guards h (found o)
unfolding found
Guards-found h none = Guards-crash _ h
Guards-found h (some a) = Guards-ret h tt

module _ (h : List Lock) where
  pub Guards-read_logger : (l : ℕ) → Guards h (read_logger l)
  unfolding read_logger
  Guards-read_logger l =
      Guards-access h _ _ (λ w. Kept-same h w w refl refl refl) (λ w. Guards-deref h _)

  pub Guards-read_appender : (a : ℕ) → Guards h (read_appender a)
  unfolding read_appender
  Guards-read_appender a =
      Guards-access h _ _ (λ w. Kept-same h w w refl refl refl) (λ w. Guards-deref h _)

  -- A write under the mutex.
  pub Guards-logger :
      (l : ℕ) (g : Logger → Logger) → is_held (logger_lock l) h ≡ true → Guards h (write_logger l g)
  unfolding write_logger
  Guards-logger l g held =
      Guards-access h _ _ (λ w. Kept-logger h w l g (inl held)) (λ w. Guards-found h _)

  pub Guards-appender :
      (a : ℕ) (g : Appender → Appender)
      → is_held (appender_lock a) h ≡ true
      → Guards h (write_appender a g)
  unfolding write_appender
  Guards-appender a g held =
      Guards-access h _ _ (λ w. Kept-appender h w a g (inl held)) (λ w. Guards-found h _)

  -- A write of another member.
  pub Guards-other_logger :
      (l : ℕ) (g : Logger → Logger)
      → ((lg : Logger) → logger_members (some (g lg)) ≡ logger_members (some lg))
      → Guards h (write_logger l g)
  unfolding write_logger
  Guards-other_logger l g e =
      Guards-access h _ _ (λ w. Kept-logger h w l g (inr e)) (λ w. Guards-found h _)

  pub Guards-other_appender :
      (a : ℕ) (g : Appender → Appender)
      → ((x : Appender) → appender_members (some (g x)) ≡ appender_members (some x))
      → Guards h (write_appender a g)
  unfolding write_appender
  Guards-other_appender a g e =
      Guards-access h _ _ (λ w. Kept-appender h w a g (inr e)) (λ w. Guards-found h _)

  -- What is made is new.
  pub Guards-new_logger_at : (lg : Logger) → Guards h (new_logger_at lg)
  unfolding new_logger_at
  Guards-new_logger_at lg =
      Guards-access h _ _
        (λ w. record {
          loggers =
              λ l x free at. ap logger_members (get_elem?-append_some w.loggers (lg ∷ []) l at);
          appenders = λ a x free at. ap appender_members at;
          managed = λ free. refl;
        })
        (λ w. Guards-ret h _)

  pub Guards-new_appender_at : (x : Appender) → Guards h (new_appender_at x)
  unfolding new_appender_at
  Guards-new_appender_at x =
      Guards-access h _ _
        (λ w. record {
          loggers = λ l y free at. ap logger_members at;
          appenders =
              λ a y free at. ap appender_members (get_elem?-append_some w.appenders (x ∷ []) a at);
          managed = λ free. refl;
        })
        (λ w. Guards-ret h _)

  pub Guards-print : (text : Bytes) → Guards h (print text)
  unfolding print
  Guards-print text =
      Guards-access h _ _ (λ w. Kept-same h w _ refl refl refl) (λ w. Guards-ret h _)

  pub Guards-write : (name text : Bytes) → Guards h (write name text)
  unfolding write
  Guards-write name text =
      Guards-access h _ _ (λ w. Kept-same h w _ refl refl refl) (λ w. Guards-ret h _)

  pub Guards-open_file : (out : Outside) (name : Bytes) → Guards h (open_file out name)
  unfolding open_file
  Guards-open_file out name =
      Guards-access h _ _ (λ w. Kept-same h w _ refl refl refl) (λ w. Guards-ret h _)
