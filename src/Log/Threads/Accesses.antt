-- ===== src/Log/Threads/Accesses.antt =====
-- The rules for single accesses.
use rabbit_log_db.Base.{
  ℕ, ◌≤◌, Bool, true, false, List, [], ◌∷◌, ◌++◌, some, ◌≡◌, ◌⊎◌, inl, inr, refl, ap, ◌∙◌, arith,
  if◌then◌else◌, length, get_elem?, set, length-set, length-append, lt_of_get_elem?,
  get_elem?-set_self, get_elem?-set_cases, get_elem?-append_self,
}
use rabbit_log_db.Log.Appender.Fanout.{Ready}
use rabbit_log_db.Log.Config.Running.{IsLogger-Grows, IsAppender-Grows}
use rabbit_log_db.Log.Formatter.{LogFormatter}
use rabbit_log_db.Log.Logger.Keeping.{
  Keeps, Keeps-refl, Keeps-set, Keeps-set_same, Keeps-append, AllReady-Keeps,
}
use rabbit_log_db.Log.Manager.Calls.{IsLogger, IsAppender}
use rabbit_log_db.Log.Manager.Growth.{Grows, Grows-eq}
use rabbit_log_db.Log.Threads.Rules.{
  Below, Member, Sound, Later, Later-refl, Later-trans, Safe, Does, Safe-map, Safe-bind,
}
use rabbit_log_db.Log.Threads.{
  Prog, ret, access, drop, pure, locked, deref, modify, found, read_logger, read_appender,
  write_logger, write_appender, new_appender_at,
}
use rabbit_log_db.Log.World.{Appender, Logger, World, Lock}

modify-some :
    {A : Type 0} (xs : List A) (i : ℕ) (g : A → A) {a : A}
    → get_elem? xs i ≡ some a
    → modify xs i g ≡ set xs i (g a)
unfolding modify
modify-some xs i g h = rw (h, modify) refl

pub Member-Keeps :
    {r l : ℕ} {v v' : World} {lg : Logger}
    → Keeps v.appenders v'.appenders
    → Member r v l lg
    → Member r v' l lg
Member-Keeps {lg} k m = record {
  formatted = m.formatted;
  attached = AllReady-Keeps lg.appenders k m.attached;
  rooted = m.rooted;
}

-- Nothing more is said of what a method ends with.
abbrev pub Any : {A : Type 0} → World → A → Type 0
Any w a = Unit

-- An access that leaves the loggers and the manager alone.
pub Sound-appenders :
    (r : ℕ) (v v' : World)
    → v'.loggers ≡ v.loggers
    → v'.managed ≡ v.managed
    → v'.root ≡ v.root
    → Keeps v.appenders v'.appenders
    → Sound r v
    → Sound r v'
Sound-appenders r v v' el em er k s = record {
  root_is = er ∙ s.root_is;
  root = rw el s.root;
  member = λ l lg h. Member-Keeps k (s.member l lg (rw el at h));
  managed = λ name l h. rw el (s.managed name l (rw em at h));
}

-- Loggers that are written, each still a sound one.
pub Sound-loggers :
    (r : ℕ) (v : World) (ls : List Logger)
    → length v.loggers ≤ length ls
    → ((l : ℕ) (lg : Logger) → get_elem? ls l ≡ some lg → Member r v l lg)
    → Sound r v
    → Sound r (record v { loggers = ls })
Sound-loggers r v ls le m s =
    let g : Grows v (record v { loggers = ls }) = record {
      loggers = le;
      appenders = omega arith;
    } in
    record {
      root_is = s.root_is;
      root = IsLogger-Grows r g s.root;
      member = λ l lg h. Member-Keeps (Keeps-refl v.appenders) (m l lg h);
      managed = λ name l h. IsLogger-Grows l g (s.managed name l h);
    }

module _ (r : ℕ) (w : World) (h : List Lock) where
  pub Does-pure : {A : Type 0} (a : A) (Q : World → A → Type 0) → Q w a → Does r w h (pure a) Q
  unfolding Safe
  Does-pure a Q q = (refl, Later-refl w, q)

  pub Does-locked :
      {A : Type 0} (l : Lock) (p : Prog A) (Q : World → A → Type 0)
      → Below r h l
      → Does r w (l ∷ h) p Q
      → Does r w h (locked l p) Q
  unfolding locked Safe
  Does-locked {A} l p Q b s = (
    b,
    Safe-bind r p (λ a. drop l (ret a)) w (l ∷ h) (λ v a k. (k ≡ h) × Later w v × Q v a)
        (Safe-map r p w (l ∷ h) (λ v a k. (k ≡ l ∷ h) × Later w v × Q v a)
          (λ v a k. (rest : List Lock) × (k ≡ l ∷ rest) × ((rest ≡ h) × Later w v × Q v a))
          (λ v a k (e, n, q). (h, e, (refl, n, q))) s),
  )

  pub Does-if :
      {A : Type 0} (b : Bool) (p q : Prog A) (Q : World → A → Type 0)
      → Does r w h p Q
      → Does r w h q Q
      → Does r w h (if b then p else q) Q
  Does-if true p q Q s t = s
  Does-if false p q Q s t = t

  pub Does-read_logger :
      (l : ℕ) → IsLogger w l → Does r w h (read_logger l) (λ v lg. Member r v l lg)
  unfolding read_logger deref Safe
  Does-read_logger l i = λ v n s.
      let (lg, e) = IsLogger-Grows l n.grows i in
      (s, Later-refl v, rw (e, deref, Safe) (refl, n, s.member l lg e))

  pub Does-read_appender :
      (a : ℕ)
      → IsAppender w a
      → Does r w h
          (read_appender a)
          (λ v ap. (f : LogFormatter) → ap.formatter ≡ some f → Ready v.appenders a)
  unfolding read_appender deref Safe
  Does-read_appender a i = λ v n s.
      let (ap, e) = IsAppender-Grows a n.grows i in
      (
        s,
        Later-refl v,
        rw (e, deref, Safe)
            (refl, n, λ f e'. record { appender = ap; formatter = f; at = e; formats = e' }),
      )

  -- An appender that can be used.
  pub Does-read-Ready :
      (a : ℕ)
      → Ready w.appenders a
      → Does r w h (read_appender a) (λ v ap. (f : LogFormatter) × (ap.formatter ≡ some f))
  unfolding read_appender deref Safe
  Does-read-Ready a i = λ v n s.
      let y = n.ready.keep a i in
      (s, Later-refl v, rw (y.at, deref, Safe) (refl, n, (y.formatter, y.formats)))

  -- An access after which the loggers, the appenders and the manager are as before.
  pub Does-apart :
      {A : Type 0} (f : World → World) (g : World → A)
      → ((v : World)
          → ((f v).loggers ≡ v.loggers)
            × ((f v).appenders ≡ v.appenders)
            × ((f v).managed ≡ v.managed)
            × ((f v).root ≡ v.root))
      → Does r w h (access f (λ v. ret (g v))) (λ v a. Unit)
  unfolding Safe
  Does-apart f g same = λ v n s.
      let (el, ea, em, er) = same v in
      let k : Keeps v.appenders (f v).appenders = rw ea (Keeps-refl v.appenders) in
      let l : Later v (f v) = record {
        grows = Grows-eq v (f v) (ap length el) (ap length ea);
        ready = k;
      } in
      (Sound-appenders r v (f v) el em er k s, l, (refl, Later-trans n l, tt))

  -- A member of an appender is written: the formatter stays, or becomes another one.
  write_appender-Keeps :
      (a : ℕ) (g : Appender → Appender) (v : World) (x : Appender)
      → get_elem? v.appenders a ≡ some x
      → (((g x).formatter ≡ x.formatter) ⊎ ((f : LogFormatter) × ((g x).formatter ≡ some f)))
      → Keeps v.appenders (modify v.appenders a g)
  write_appender-Keeps a g v x e (inl same) =
      rw (modify-some v.appenders a g e) (Keeps-set_same v.appenders a x (g x) e same)
  write_appender-Keeps a g v x e (inr (f, set_to)) =
      rw (modify-some v.appenders a g e) (Keeps-set v.appenders a (g x) set_to)

  pub Does-write_appender :
      (a : ℕ) (g : Appender → Appender)
      → IsAppender w a
      → ((x : Appender)
          → ((g x).formatter ≡ x.formatter) ⊎ ((f : LogFormatter) × ((g x).formatter ≡ some f)))
      → Does r w h
          (write_appender a g)
          (λ v u. (x : Appender) × (get_elem? v.appenders a ≡ some (g x)))
  unfolding write_appender found Safe
  Does-write_appender a g i fine = λ v n s.
      let (x, e) = IsAppender-Grows a n.grows i in
      let v' = record v { appenders = modify v.appenders a g } in
      let k = write_appender-Keeps a g v x e (fine x) in
      let size : length v'.appenders ≡ length v.appenders =
        rw (modify-some v.appenders a g e) (length-set v.appenders a (g x)) in
      let at : get_elem? v'.appenders a ≡ some (g x) =
        rw (modify-some v.appenders a g e)
          (get_elem?-set_self v.appenders a (g x) (lt_of_get_elem? v.appenders a e)) in
      let l : Later v v' = record { grows = Grows-eq v v' refl size; ready = k } in
      (
        Sound-appenders r v v' refl refl refl k s,
        l,
        rw (e, found, Safe) (refl, Later-trans n l, (x, at)),
      )

  -- A member of a logger is written.
  pub Does-write_logger :
      (l : ℕ) (g : Logger → Logger)
      → IsLogger w l
      → ((v : World) (lg : Logger) → Later w v → Member r v l lg → Member r v l (g lg))
      → Does r w h (write_logger l g) (λ v u. Unit)
  unfolding write_logger found Safe
  Does-write_logger l g i fine = λ v n s.
      let (lg, e) = IsLogger-Grows l n.grows i in
      let ls = modify v.loggers l g in
      let v' = record v { loggers = ls } in
      let set_ls : ls ≡ set v.loggers l (g lg) = modify-some v.loggers l g e in
      let size : length ls ≡ length v.loggers = rw set_ls (length-set v.loggers l (g lg)) in
      let n' : Later v v' = record {
        grows = Grows-eq v v' size refl;
        ready = Keeps-refl v.appenders;
      } in
      (
        Sound-loggers r v ls (omega arith)
            (λ k kg at. elim (get_elem?-set_cases v.loggers l (g lg) k (rw set_ls at at)) [
              | inl (same, is) ↦ rw (same, is) (fine v lg n (s.member l lg e))
              | inr old ↦ s.member k kg old
            ])
            s,
        n',
        rw (e, found, Safe) (refl, Later-trans n n', tt),
      )

  -- A new appender, which no logger has yet.
  pub Does-new_appender : (ap : Appender) → Does r w h (new_appender_at ap) (λ v a. IsAppender v a)
  unfolding new_appender_at Safe
  Does-new_appender ap = λ v n s.
      let v' = record v { appenders = v.appenders ++ ap ∷ [] } in
      let k = Keeps-append v.appenders (ap ∷ []) in
      let l : Later v v' = record {
        grows = record {
          loggers = omega arith;
          appenders = omega (arith, length-append {0} v.appenders (ap ∷ []));
        };
        ready = k;
      } in
      (
        Sound-appenders r v v' refl refl refl k s,
        l,
        (refl, Later-trans n l, (ap, get_elem?-append_self v.appenders ap)),
      )

  -- What a method ends with may be left out.
  pub Does-any :
      {A : Type 0} (p : Prog A) (P : World → A → Type 0)
      → Does r w h p P
      → Does r w h p (λ v a. Unit)
  Does-any p P s =
      Safe-map r p w h (λ v a k. (k ≡ h) × Later w v × P v a) (λ v a k. (k ≡ h) × Later w v × Unit)
        (λ v a k (e, n, q). (e, n, tt)) s
