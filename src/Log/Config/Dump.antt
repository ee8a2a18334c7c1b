-- ===== src/Log/Config/Dump.antt =====
-- The methods `toYamlString` of Log/Log.cpp.
use rabbit_log_db.Base.{
  ℕ, List, [], ◌∷◌, Option, none, some, ◌≡◌, refl, arith, if◌then◌else◌, Bytes, codes, get_elem?,
  ap, ◌∙◌, sym,
}
use rabbit_log_db.Log.Appender.Fanout.{Ready, AllReady}
use rabbit_log_db.Log.Config.{Yaml, with_level, with_text, push_appender}
use rabbit_log_db.Log.Formatter.{LogFormatter}
use rabbit_log_db.Log.Logger.Routing.{WellFormed}
use rabbit_log_db.Log.World.{
  Sink, stdout, file, Appender, Logger, World, appender_lock, logger_lock, manager_lock, ok, M,
  pure, ◌>>=◌, with_lock, is_held, same_lock, deref, appender_at, logger_at,
}

module _ {Node : Type 0} (yaml : Yaml Node) where
  -- The type of an appender, and the file of a file.
  unfoldable pub sink_node : Sink → Node
  sink_node stdout = with_text yaml yaml.fresh (codes "type") (codes "StdoutLogAppender")
  sink_node (file name good last) =
      with_text yaml (with_text yaml yaml.fresh (codes "type") (codes "FileLogAppender"))
        (codes "file") name

  -- The pattern of a formatter, if there is one.
  unfoldable pub pattern_node : Option LogFormatter → Node → Node
  pattern_node none n = n
  pattern_node (some f) n = with_text yaml n (codes "formatter") f.pattern

  -- The node that `StdoutLogAppender::toYamlString` and `FileLogAppender::toYamlString` print.
  unfoldable pub appender_node : Appender → Node
  unfolding sink_node pattern_node with_level
  appender_node ap =
      let n = with_level yaml ap.level (sink_node ap.sink) in
      if ap.has_formatter then pattern_node ap.formatter n else n

  -- The virtual `LogAppender::toYamlString`.
  unfoldable pub appender_yaml : ℕ → M Bytes
  unfolding appender_node
  appender_yaml a =
      with_lock (appender_lock a) (do ap ← appender_at a; pure (yaml.dump (appender_node ap)))

  -- The loop over the appenders of `Logger::toYamlString`.
  unfoldable pub appenders_yaml : List ℕ → Node → M Node
  unfolding appender_yaml push_appender
  appenders_yaml [] n = pure n
  appenders_yaml (a ∷ rest) n = do
    text ← appender_yaml a
    appenders_yaml rest (push_appender yaml n (yaml.load text))

  -- `Logger::toYamlString`
  unfoldable pub logger_yaml : ℕ → M Bytes
  unfolding appenders_yaml pattern_node with_level
  logger_yaml l = with_lock (logger_lock l) (do
    lg ← logger_at l
    n ← appenders_yaml lg.appenders (
        pattern_node lg.formatter
          (with_level yaml lg.level (with_text yaml yaml.fresh (codes "name") lg.name)))
    pure (yaml.dump n))

  -- The loop of `LoggerManager::toYamlString`.
  unfoldable pub loggers_yaml : List (Bytes × ℕ) → Node → M Node
  unfolding logger_yaml
  loggers_yaml [] n = pure n
  loggers_yaml ((name, l) ∷ rest) n = do
    text ← logger_yaml l
    loggers_yaml rest (yaml.push_back n (yaml.load text))

  managed_of : M (List (Bytes × ℕ))
  managed_of held w = ok (w.managed, w)

  -- `LoggerManager::toYamlString`
  unfoldable pub manager_yaml : M Bytes
  unfolding loggers_yaml managed_of
  manager_yaml =
      with_lock manager_lock
        (do managed ← managed_of; n ← loggers_yaml managed yaml.fresh; pure (yaml.dump n))

  -- The node with the appenders at the addresses pushed onto its list, each by way of its text.
  unfoldable pub described : World → List ℕ → Node → Node
  unfolding appender_node push_appender
  described w [] n = n
  described w (a ∷ rest) n = elim (get_elem? w.appenders a) [
    | none ↦ n
    | some ap ↦ described w rest (push_appender yaml n (yaml.load (yaml.dump (appender_node ap))))
  ]

  appender_yaml_lem :
      (l a : ℕ) (w : World)
      → (r : Ready w.appenders a)
      → appender_yaml a (logger_lock l ∷ []) w ≡ ok (yaml.dump (appender_node r.appender), w)
  unfolding appender_yaml with_lock is_held same_lock appender_at deref
  appender_yaml_lem l a w r = ground (arith, r.at)

  described_cons :
      (w : World) (a : ℕ) (rest : List ℕ) (n : Node)
      → (r : Ready w.appenders a)
      → described w (a ∷ rest) n
        ≡ described w rest (push_appender yaml n (yaml.load (yaml.dump (appender_node r.appender))))
  unfolding described
  described_cons w a rest n r = rw (r.at, described) refl

  appenders_yaml-described :
      (l : ℕ) (w : World) (xs : List ℕ) (n : Node)
      → AllReady w.appenders xs
      → appenders_yaml xs n (logger_lock l ∷ []) w ≡ ok (described w xs n, w)
  unfolding appenders_yaml described
  appenders_yaml-described l w [] n r = refl
  appenders_yaml-described l w (a ∷ rest) n (r, rs) =
      rw (appender_yaml_lem l a w r, appenders_yaml, ◌>>=◌)
        (appenders_yaml-described l w rest
            (push_appender yaml n (yaml.load (yaml.dump (appender_node r.appender)))) rs
          ∙ ap (λ m. ok (m, w)) (sym (described_cons w a rest n r)))

  -- Printing a logger of a well-formed store, with no lock held, succeeds and changes nothing. The text
  -- is that of a node with the name, the level unless it is unknown, the pattern, and the appenders in
  -- their order, each by way of its own text.
  pub logger_yaml-described :
      (l : ℕ) (lg : Logger) (w : World)
      → WellFormed w
      → get_elem? w.loggers l ≡ some lg
      → (f : LogFormatter) × (lg.formatter ≡ some f)
        × (logger_yaml l [] w
            ≡ ok (
              yaml.dump (
                  described w lg.appenders (
                    with_text yaml
                      (with_level yaml lg.level (with_text yaml yaml.fresh (codes "name") lg.name))
                      (codes "formatter")
                      f.pattern)),
              w,
            ))
  unfolding logger_yaml with_lock is_held logger_at deref pattern_node
  logger_yaml-described l lg w wf h =
      let (f, hf) = wf.formatted l lg h in
      (
        f,
        hf,
        rw (h, logger_at, deref, ◌>>=◌, pure)
            (rw (hf, pattern_node)
              (rw (appenders_yaml-described l w lg.appenders _ (wf.attached l lg h), ◌>>=◌, pure)
                refl)),
      )
