-- ===== src/Log/Threads/Rules.antt =====
-- What a thread relies on and what it keeps, whatever the other threads do between its accesses.
use rabbit_log_db.Base.{
  ℕ, ◌<◌, List, [], ◌∷◌, none, some, ◌≡◌, ◌≢◌, ◌⊎◌, ◌==◌, if◌then◌else◌, Bytes, get_elem?,
}
use rabbit_log_db.Log.Appender.Fanout.{AllReady}
use rabbit_log_db.Log.Formatter.Item.{find}
use rabbit_log_db.Log.Formatter.{LogFormatter}
use rabbit_log_db.Log.Logger.Keeping.{Keeps, Keeps-refl, Keeps-trans}
use rabbit_log_db.Log.Manager.Calls.{IsLogger}
use rabbit_log_db.Log.Manager.Growth.{Grows, Grows-refl, Grows-trans}
use rabbit_log_db.Log.Threads.{Prog, ret, access, take, drop, crash, out_of_fuel, ◌>>=◌}
use rabbit_log_db.Log.World.{Logger, World, Lock, logger_lock, appender_lock, manager_lock}

-- The order of the locks: the manager, the loggers, the root logger `r`, the appenders.
unfoldable pub rank : ℕ → Lock → ℕ
rank r manager_lock = 0
rank r (logger_lock l) = if l == r then 2 else 1
rank r (appender_lock a) = 3

-- Every lock that is held comes before `l`.
abbrev pub Below : ℕ → List Lock → Lock → Type 0
Below r [] l = Unit {0}
Below r (h ∷ hs) l = (rank r h < rank r l) × Below r hs l

-- What every thread finds of a logger: a formatter, appenders that can be used, and a root logger, if
-- any, that is the manager's and another one.
pub record Member (r : ℕ) (w : World) (l : ℕ) (lg : Logger) : Type 0 where
  pub formatted : (f : LogFormatter) × (lg.formatter ≡ some f)
  pub attached : AllReady w.appenders lg.appenders
  pub rooted : (lg.root ≡ none) ⊎ ((lg.root ≡ some r) × (l ≢ r))

-- The store between two accesses, for the root logger `r`.
pub record Sound (r : ℕ) (w : World) : Type 0 where
  pub root_is : w.root ≡ r
  pub root : IsLogger w r
  pub member : (l : ℕ) (lg : Logger) → get_elem? w.loggers l ≡ some lg → Member r w l lg
  pub managed : (name : Bytes) (l : ℕ) → find name w.managed ≡ some l → IsLogger w l

-- A later store: no logger and no appender is gone, and an appender that could be used still can.
pub record Later (w w' : World) : Type 0 where
  pub grows : Grows w w'
  pub ready : Keeps w.appenders w'.appenders

pub Later-refl : (w : World) → Later w w
Later-refl w = record { grows = Grows-refl w; ready = Keeps-refl w.appenders }

pub Later-trans : {u v w : World} → Later u v → Later v w → Later u w
Later-trans a b = record {
  grows = Grows-trans a.grows b.grows;
  ready = Keeps-trans a.ready b.ready;
}

-- From a store later than `w`, under the locks `h`, the thread keeps the store sound, takes locks in
-- order, gives back the lock that it took last, neither crashes nor runs out of fuel, and ends with `Q`.
unfoldable pub Safe :
    {A : Type 0} → ℕ → World → List Lock → Prog A → (World → A → List Lock → Type 0) → Type 0
Safe r w h (ret a) Q = Q w a h
Safe r w h (access f k) Q =
    (v : World) → Later w v → Sound r v → Sound r (f v) × Later v (f v) × Safe r (f v) h (k v) Q
Safe r w h (take l p) Q = Below r h l × Safe r w (l ∷ h) p Q
Safe r w h (drop l p) Q = (rest : List Lock) × (h ≡ l ∷ rest) × Safe r w rest p Q
Safe r w h crash Q = ⊥
Safe r w h out_of_fuel Q = ⊥

-- A method that gives back all locks that it takes.
abbrev pub Does : {A : Type 0} → ℕ → World → List Lock → Prog A → (World → A → Type 0) → Type 0
Does r w h p Q = Safe r w h p (λ v a h'. (h' ≡ h) × Later w v × Q v a)

module _ {A : Type 0} (r : ℕ) where
  pub Safe-map :
      (p : Prog A) (w : World) (h : List Lock) (P Q : World → A → List Lock → Type 0)
      → ((v : World) (a : A) (h' : List Lock) → P v a h' → Q v a h')
      → Safe r w h p P
      → Safe r w h p Q
  unfolding Safe
  Safe-map (ret a) w h P Q m s = m w a h s
  Safe-map (access f k) w h P Q m s =
      λ v l o. let (o', l', t) = s v l o in (o', l', Safe-map (k v) (f v) h P Q m t)
  Safe-map (take l p) w h P Q m s = (s.0, Safe-map p w (l ∷ h) P Q m s.1)
  Safe-map (drop l p) w h P Q m s = let (rest, e, t) = s in (rest, e, Safe-map p w rest P Q m t)
  Safe-map crash w h P Q m s = s
  Safe-map out_of_fuel w h P Q m s = s

module _ {A B : Type 0} (r : ℕ) where
  pub Safe-bind :
      (p : Prog A) (g : A → Prog B) (w : World) (h : List Lock) (Q : World → B → List Lock → Type 0)
      → Safe r w h p (λ v a h'. Safe r v h' (g a) Q)
      → Safe r w h (p >>= g) Q
  unfolding Safe ◌>>=◌
  Safe-bind (ret a) g w h Q s = s
  Safe-bind (access f k) g w h Q s =
      λ v l o. let (o', l', t) = s v l o in (o', l', Safe-bind (k v) g (f v) h Q t)
  Safe-bind (take l p) g w h Q s = (s.0, Safe-bind p g w (l ∷ h) Q s.1)
  Safe-bind (drop l p) g w h Q s = let (rest, e, t) = s in (rest, e, Safe-bind p g w rest Q t)
  Safe-bind crash g w h Q s = s
  Safe-bind out_of_fuel g w h Q s = s

  -- One method after the other.
  pub Does-bind :
      (p : Prog A) (g : A → Prog B) (w : World) (h : List Lock) (P : World → A → Type 0)
      (Q : World → B → Type 0)
      → Does r w h p P
      → ((v : World) (a : A) → Later w v → P v a → Does r v h (g a) Q)
      → Does r w h (p >>= g) Q
  Does-bind p g w h P Q s t =
      Safe-bind p g w h (λ v b h'. (h' ≡ h) × Later w v × Q v b)
        (Safe-map r p w h (λ v a h'. (h' ≡ h) × Later w v × P v a)
          (λ v a h'. Safe r v h' (g a) (λ u b h'. (h' ≡ h) × Later w u × Q u b))
          (λ v a h' (e, l, x). rw e (
            Safe-map r (g a) v h (λ u b h'. (h' ≡ h) × Later v u × Q u b)
              (λ u b h'. (h' ≡ h) × Later w u × Q u b)
              (λ u b k (e', l', y). (e', Later-trans l l', y)) (t v a l x)))
          s)
