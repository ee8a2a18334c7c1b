-- ===== src/Log/Threads/Logging/Logs.antt =====
-- `Logger::log`, `setFormatter` from a pattern, and `getLogger` take their locks in order and leave the
-- store sound.
use rabbit_log_db.Base.{
  ℕ, zero, suc, ◌<◌, true, false, List, [], ◌∷◌, ◌++◌, none, some, ◌≡◌, ◌≢◌, ◌⊎◌, inl, inr, refl,
  ap, arith, ◌==◌, ==_iff, Bytes, codes, Option-cases, Bool-cases,
}
use rabbit_log_db.Log.Appender.Fanout.{AllReady}
use rabbit_log_db.Log.Config.Running.{IsSender-Grows, IsLogger-Grows}
use rabbit_log_db.Log.Event.{LogEvent}
use rabbit_log_db.Log.Level.{Level, at_least}
use rabbit_log_db.Log.Logger.{default_pattern}
use rabbit_log_db.Log.Manager.Calls.{IsSender, IsLogger}
use rabbit_log_db.Log.Threads.Accesses.{
  Any, Does-pure, Does-locked, Does-if, Does-read_logger, Does-apart, Does-write_logger,
}
use rabbit_log_db.Log.Threads.Appending
use rabbit_log_db.Log.Threads.Appending.Keeping.{log-Does as appender-log-Does}
use rabbit_log_db.Log.Threads.Logging
use rabbit_log_db.Log.Threads.Logging.{
  new_formatter, new_logger, set_pattern, find_managed, put_managed, root_of, create, get_logger,
}
use rabbit_log_db.Log.Threads.Logging.Keeping.{
  logger-appender, Does-each, set_formatter-Does, new_formatter-Does,
}
use rabbit_log_db.Log.Threads.Managing.{Does-new_logger, Does-manage, Does-find, Does-root}
use rabbit_log_db.Log.Threads.Rules.{rank, Below, Does, Does-bind}
use rabbit_log_db.Log.Threads.{each, read_logger, write_logger, print}
use rabbit_log_db.Log.World.{World, Outside, Lock, logger_lock, appender_lock, manager_lock}

list_cases : {A : Type 0} (xs : List A) → (xs ≡ []) ⊎ ((a : A) × (rest : List A) × (xs ≡ a ∷ rest))
list_cases [] = inl refl
list_cases (a ∷ rest) = inr (a, rest, refl)

-- What is held while logger `l` logs.
Below-appender :
    (r l a : ℕ) (h : List Lock)
    → Below r h (logger_lock l)
    → Below r (logger_lock l ∷ h) (appender_lock a)
Below-appender r l a h b = (logger-appender r l a, rest h b)
  where
    rest : (k : List Lock) → Below r k (logger_lock l) → Below r k (appender_lock a)
    rest [] c = tt
    rest (x ∷ k) c = let e = logger-appender r l a in (omega arith, rest k c.1)

below_root : (r l : ℕ) → l ≢ r → rank r (logger_lock l) < rank r (logger_lock r)
unfolding rank
below_root r l ne =
    let same : (r == r) ≡ true = (==_iff r r).1 refl in
    let other : (l == r) ≡ false = elim (Bool-cases (l == r)) [
      | inl e ↦ absurd (ne ((==_iff l r).0 e))
      | inr e ↦ e
    ] in
    rw (same, other) (omega arith)

-- The appenders of a logger, in turn.
logs_each :
    (r : ℕ) (v : World) (h : List Lock) (out : Outside) (l : ℕ) (xs : List ℕ) (lv : Level)
    (e : LogEvent)
    → Below r h (logger_lock l)
    → AllReady v.appenders xs
    → IsSender v e
    → Does r v (logger_lock l ∷ h) (each xs (λ i. Appending.log out i lv e)) Any
logs_each r v h out l xs lv e b y i =
    Does-each r (λ i. Appending.log out i lv e) xs v (logger_lock l ∷ h) y
      (λ u a n z.
        appender-log-Does r u (logger_lock l ∷ h) a out lv e (Below-appender r l a h b) z
          (IsSender-Grows e n.grows i))

module _ (r : ℕ) (w : World) (h : List Lock) where
  -- The root logger, to which no other is above.
  log_root-Does :
      (out : Outside) (f : ℕ) (lv : Level) (e : LogEvent)
      → Below r h (logger_lock r)
      → IsLogger w r
      → IsSender w e
      → Does r w h (Logging.log out (suc f) r lv e) Any
  unfolding Logging.log
  log_root-Does out f lv e b i j =
      let hs = logger_lock r ∷ h in
      Does-bind r (read_logger r) _ w h _ Any (Does-read_logger r w h r i) (λ v lg n m.
        Does-if r v h (at_least lv lg.level) _ _ Any
          (Does-locked r v h (logger_lock r) _ Any b (
            Does-bind r (read_logger r) _ v hs _ Any
              (Does-read_logger r v hs r (IsLogger-Grows r n.grows i))
              (λ u now n' m'. elim (list_cases now.appenders) [
                | inl none_here ↦
                    let no_root : now.root ≡ none = elim m'.rooted [
                      | inl e ↦ e
                      | inr (e, ne) ↦ absurd (ne refl)
                    ] in
                    rw (none_here, no_root) (Does-pure r u hs tt Any tt)
                | inr (a, rest, some_here) ↦
                    let y = m'.attached in
                    rw some_here (
                      logs_each r u h out r (a ∷ rest) lv e b (rw some_here at y)
                        (IsSender-Grows e n'.grows (IsSender-Grows e n.grows j)))
              ])))
          (Does-pure r v h tt Any tt))

module _ (r : ℕ) (w : World) where
  pub log-Does :
      (out : Outside) (l : ℕ) (lv : Level) (e : LogEvent)
      → IsLogger w l
      → IsLogger w r
      → IsSender w e
      → Does r w [] (Logging.log out 2 l lv e) Any
  unfolding Logging.log
  log-Does out l lv e i ri j =
      let hs = logger_lock l ∷ [] in
      Does-bind r (read_logger l) _ w [] _ Any (Does-read_logger r w [] l i) (λ v lg n m.
        Does-if r v [] (at_least lv lg.level) _ _ Any
          (Does-locked r v [] (logger_lock l) _ Any tt (
            Does-bind r (read_logger l) _ v hs _ Any
              (Does-read_logger r v hs l (IsLogger-Grows l n.grows i))
              (λ u now n' m'.
                let j' = IsSender-Grows e n'.grows (IsSender-Grows e n.grows j) in
                let ri' = IsLogger-Grows r n'.grows (IsLogger-Grows r n.grows ri) in
                elim (list_cases now.appenders) [
                  | inl none_here ↦ elim m'.rooted [
                    | inl no_root ↦ rw (none_here, no_root) (Does-pure r u hs tt Any tt)
                    | inr (up, ne) ↦
                        rw (none_here, up)
                          (log_root-Does r u hs out zero lv e (below_root r l ne, tt) ri' j')
                  ]
                  | inr (a, rest, some_here) ↦
                      let y = m'.attached in
                      rw some_here
                        (logs_each r u [] out l (a ∷ rest) lv e tt (rw some_here at y) j')
                ])))
          (Does-pure r v [] tt Any tt))

  pub set_pattern-Does : (l : ℕ) (val : Bytes) → IsLogger w l → Does r w [] (set_pattern l val) Any
  unfolding set_pattern print
  set_pattern-Does l val i =
      Does-bind r (print (codes "---" ++ (val ++ codes "\n"))) _ w [] Any Any
        (Does-apart r w [] _ (λ w. tt) (λ w. (refl, refl, refl, refl)))
        (λ v u n q.
          Does-bind r (new_formatter val) _ v [] Any Any (new_formatter-Does r v [] val)
            (λ v1 f n1 q1.
              let i1 = IsLogger-Grows l n1.grows (IsLogger-Grows l n.grows i) in
              Does-bind r (read_logger l) _ v1 [] _ Any (Does-read_logger r v1 [] l i1)
                (λ v2 lg n2 m.
                  Does-bind r _ _ v2 [] Any Any
                    (Does-if r v2 [] f.error _ _ Any
                      (Does-apart r v2 [] _ (λ w. tt) (λ w. (refl, refl, refl, refl)))
                      (Does-pure r v2 [] tt Any tt))
                    (λ v3 t n3 q'.
                      set_formatter-Does r v3 l f
                        (IsLogger-Grows l n3.grows (IsLogger-Grows l n2.grows i1))))))

module _ (r : ℕ) (w : World) (h : List Lock) where
  new_logger-Does : (name : Bytes) → Does r w h (new_logger name) (λ v l. IsLogger v l × (l ≢ r))
  unfolding new_logger
  new_logger-Does name =
      Does-bind r (new_formatter default_pattern) _ w h Any _
        (new_formatter-Does r w h default_pattern)
        (λ v f n p. Does-new_logger r v h _ f refl refl refl)

  create-Does : (name : Bytes) → Does r w h (create name) Any
  unfolding create
  create-Does name =
      Does-bind r (new_logger name) _ w h _ Any (new_logger-Does name) (λ v l n (i, ne).
        Does-bind r root_of _ v h _ Any (Does-root r v h) (λ v' q n' is.
          Does-bind r (write_logger l (λ lg. record lg { root = some q })) _ v' h Any Any
            (Does-write_logger r v' h l (λ lg. record lg { root = some q })
              (IsLogger-Grows l n'.grows i)
              (λ u lg n'' m. record {
                formatted = m.formatted;
                attached = m.attached;
                rooted = inr (ap some is, ne);
              }))
            (λ u t n'' p.
              Does-bind r (put_managed name l) _ u h Any Any
                (Does-manage r u h name l
                  (IsLogger-Grows l n''.grows (IsLogger-Grows l n'.grows i)))
                (λ u' t' n3 p'. Does-pure r u' h l Any tt))))

module _ (r : ℕ) (w : World) where
  pub get_logger-Does : (name : Bytes) → Does r w [] (get_logger name) Any
  unfolding get_logger
  get_logger-Does name =
      let hs = manager_lock ∷ [] in
      Does-locked r w [] manager_lock _ Any tt (
        Does-bind r (find_managed name) _ w hs _ Any (Does-find r w hs name) (λ v o n p.
          elim (Option-cases o) [
            | inl e ↦ rw e (create-Does r v hs name)
            | inr (l, e) ↦ rw e (Does-pure r v hs l Any tt)
          ]))
