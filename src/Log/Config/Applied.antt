-- ===== src/Log/Config/Applied.antt =====
-- The loop of the listener of `LogIniter` over the appenders of one configuration.
use rabbit_log_db.Base.{
  ℕ, suc, Bool, true, false, List, [], ◌∷◌, ◌++◌, some, ◌≡◌, refl, sym, ap, ◌∙◌, arith, ◌==◌, inl,
  inr, if◌then◌else◌, Bytes, codes, length, length-append, get_elem?, set, set-set, set_same,
  get_elem?-set_self, lt_of_get_elem?, append-nil, append_assoc, Bool-cases,
}
use rabbit_log_db.Log.Appender
use rabbit_log_db.Log.Config.Apply.{Program, apply_appender}
use rabbit_log_db.Log.Config.Running.{Each}
use rabbit_log_db.Log.Config.Single.{IsKnown}
use rabbit_log_db.Log.Config.{LogAppenderDefine, LogDefine}
use rabbit_log_db.Log.Logger.Attaching.{adopted, with_appender}
use rabbit_log_db.Log.Manager.Calls.Appenders.{fresh_file, fresh_stdout, new_file-runs}
use rabbit_log_db.Log.World.{
  Appender, Logger, World, Outside, ok, ◌>>=◌, ◌>>◌, each, alloc_appender,
}
use rabbit_log_db.Log.Config.Planned.{planned, is_taken, planned_all, row, extended, equip-extended}

one_more : (xs : List Appender) (ap : Appender) → length (xs ++ ap ∷ []) ≡ suc (length xs)
one_more xs ap = omega (arith, length-append {0} xs (ap ∷ []))

module _ (out : Outside) (program : Program) (l : ℕ) (i : LogDefine) where
  -- The flag that leaves out the console.
  abbrev pub quiet : Bool
  quiet = program.has (codes "d")

  abbrev pub next : LogAppenderDefine → ℕ → ℕ
  next a n = if a.type == 1 then suc n else n

  taken-extended :
      (lg : Logger) (a : LogAppenderDefine) (v : World)
      → IsKnown a
      → get_elem? v.loggers l ≡ some lg
      → is_taken quiet a ≡ true
      → (text : Bytes) × (apply_appender out program l i a [] v
          ≡ ok (tt, extended l lg (planned out v.opens a) text (next a v.opens) v))
  unfolding apply_appender planned is_taken Appender.new_stdout alloc_appender
  taken-extended lg a v (inl e) h t =
      let good = out.open_for_write a.file v.opens in
      let (text, r) = equip-extended l lg i a (fresh_file a.file good) (suc v.opens) v h in
      (text, ground (arith, e, new_file-runs out a.file v, r))
  taken-extended lg a v (inr e) h t =
      let (text, r) = equip-extended l lg i a fresh_stdout v.opens v h in
      (text, ground (arith, e, r))

  left_out :
      (a : LogAppenderDefine) (v : World)
      → IsKnown a
      → is_taken quiet a ≡ false
      → (apply_appender out program l i a [] v ≡ ok (tt, v)) × (next a v.opens ≡ v.opens)
  unfolding apply_appender is_taken
  left_out a v (inl e) t = (ground (arith, e), ground (arith, e))
  left_out a v (inr e) t = (ground (arith, e), ground (arith, e))

  -- All appenders of the configuration, in a store where the logger is `lg`.
  pub record Applied (xs : List LogAppenderDefine) (lg : Logger) (v : World) : Type 0 where
    pub end : World
    pub runs : each xs (apply_appender out program l i) [] v ≡ ok (tt, end)
    pub appenders : end.appenders ≡ v.appenders ++ planned_all out lg.formatter quiet v.opens xs
    pub loggers :
        end.loggers
        ≡ set v.loggers l (record lg {
          appenders =
              lg.appenders
              ++ row (length v.appenders) (length (planned_all out lg.formatter quiet v.opens xs));
        })
    pub written : end.written ≡ v.written

  pub all-Applied :
      (xs : List LogAppenderDefine) (lg : Logger) (v : World)
      → Each IsKnown xs
      → get_elem? v.loggers l ≡ some lg
      → Applied xs lg v
  unfolding each planned_all row
  all-Applied [] lg v known h = record {
    end = v;
    runs = refl;
    appenders = sym (append-nil v.appenders);
    loggers = ground (arith, append-nil lg.appenders, set_same v.loggers l h);
    written = refl;
  }
  all-Applied (a ∷ xs) lg v known h = elim (Bool-cases (is_taken quiet a)) [
    | inl t ↦
        let (text, e) = taken-extended lg a v known.0 h t in
        let ap' = planned out v.opens a in
        let v' = extended l lg ap' text (next a v.opens) v in
        let lg' = with_appender lg (length v.appenders) in
        let r =
          all-Applied xs lg' v' known.1
            (get_elem?-set_self v.loggers l lg' (lt_of_get_elem? v.loggers l h)) in
        let later = planned_all out lg.formatter quiet (next a v.opens) xs in
        record {
          end = r.end;
          runs = rw (e, ◌>>=◌, ◌>>◌) r.runs;
          appenders = rw (t, planned_all) (r.appenders ∙ append_assoc v.appenders _ _);
          loggers =
              rw (t, planned_all)
                (r.loggers
                  ∙ set-set v.loggers l lg' _
                  ∙ ap (λ is. set v.loggers l (record lg { appenders = is }))
                      (append_assoc lg.appenders _ _
                        ∙ ap (λ k. lg.appenders ++ length v.appenders ∷ row k (length later))
                            (one_more v.appenders (adopted lg.formatter ap'))));
          written = r.written;
        }
    | inr t ↦
        let (e, same) = left_out a v known.0 t in
        let r = all-Applied xs lg v known.1 h in
        record {
          end = r.end;
          runs = rw (e, ◌>>=◌, ◌>>◌) r.runs;
          appenders = rw (t, same, planned_all) r.appenders;
          loggers = rw (t, same, planned_all) r.loggers;
          written = r.written;
        }
  ]
