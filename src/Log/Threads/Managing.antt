-- ===== src/Log/Threads/Managing.antt =====
-- The rules for the accesses of the manager.
use rabbit_log_db.Base.{
  ℕ, suc, ◌<◌, List, [], ◌∷◌, ◌++◌, none, some, ◌≡◌, ◌≢◌, inl, inr, refl, arith, Bytes, length,
  length-append, lt_of_get_elem?, get_elem?-append_self, get_elem?-append_cases,
}
use rabbit_log_db.Log.Config.Running.{IsLogger-Grows}
use rabbit_log_db.Log.Formatter.{LogFormatter}
use rabbit_log_db.Log.Logger.Keeping.{Keeps-refl}
use rabbit_log_db.Log.Manager.Calls.{IsLogger}
use rabbit_log_db.Log.Manager.Growth.{Grows-eq}
use rabbit_log_db.Log.Threads.Rules.{Later, Later-refl, Later-trans, Safe, Does}
use rabbit_log_db.Log.Threads.{new_logger_at}
use rabbit_log_db.Log.World.{Logger, World, Lock}
use rabbit_log_db.Base.{Bool-cases, equal}
use rabbit_log_db.Log.Manager.Lookup.{find-insert}
use rabbit_log_db.Log.Manager.{insert}
use rabbit_log_db.Log.Threads.Accesses.{Any, Member-Keeps, Sound-loggers}
use rabbit_log_db.Log.Threads.Logging.{find_managed, put_managed, root_of}

module _ (r : ℕ) (w : World) (h : List Lock) where
  -- A new logger, which is not the root.
  pub Does-new_logger :
      (lg : Logger) (f : LogFormatter)
      → lg.formatter ≡ some f
      → lg.appenders ≡ []
      → lg.root ≡ none
      → Does r w h (new_logger_at lg) (λ v l. IsLogger v l × (l ≢ r))
  unfolding new_logger_at Safe
  Does-new_logger lg f ef ea er = λ v n s.
      let ls = v.loggers ++ lg ∷ [] in
      let v' = record v { loggers = ls } in
      let size : length ls ≡ suc (length v.loggers) =
        omega (arith, length-append {0} v.loggers (lg ∷ [])) in
      let n' : Later v v' = record {
        grows = record { loggers = omega arith; appenders = omega arith };
        ready = Keeps-refl v.appenders;
      } in
      let below : r < length v.loggers = lt_of_get_elem? v.loggers r s.root.1 in
      (
        Sound-loggers r v ls (omega arith)
            (λ k kg at. elim (get_elem?-append_cases v.loggers lg k at) [
              | inl (same, is) ↦
                  rw is (record { formatted = (f, ef); attached = rw ea tt; rooted = inl er })
              | inr old ↦ s.member k kg old
            ])
            s,
        n',
        (
          refl,
          Later-trans n n',
          ((lg, get_elem?-append_self v.loggers lg), λ e. absurd (omega arith)),
        ),
      )

  -- The manager's map gets a name for a logger that exists.
  pub Does-manage : (name : Bytes) (l : ℕ) → IsLogger w l → Does r w h (put_managed name l) Any
  unfolding put_managed Safe
  Does-manage name l i = λ v n s.
      let v' = record v { managed = insert name l v.managed } in
      let n' : Later v v' = record {
        grows = Grows-eq v v' refl refl;
        ready = Keeps-refl v.appenders;
      } in
      (
        record {
          root_is = s.root_is;
          root = s.root;
          member = λ k kg at. Member-Keeps (Keeps-refl v.appenders) (s.member k kg at);
          managed = λ other k at. elim (Bool-cases (equal name other)) [
            | inl e ↦
                let same : l ≡ k = ground (arith, at, find-insert name other l v.managed) in
                rw (← same) (IsLogger-Grows l n.grows i)
            | inr e ↦ s.managed other k (ground (arith, at, find-insert name other l v.managed))
          ];
        },
        n',
        (refl, Later-trans n n', tt),
      )

  -- What is looked up exists.
  pub Does-find :
      (name : Bytes) → Does r w h (find_managed name) (λ v o. (l : ℕ) → o ≡ some l → IsLogger v l)
  unfolding find_managed Safe
  Does-find name = λ v n s. (s, Later-refl v, (refl, n, λ l e. s.managed name l e))

  pub Does-root : Does r w h root_of (λ v a. a ≡ r)
  unfolding root_of Safe
  Does-root = λ v n s. (s, Later-refl v, (refl, n, s.root_is))
