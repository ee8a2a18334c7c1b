-- ===== src/Log/Logger/Keeping.antt =====
-- Which changes of the store keep it well formed.
use rabbit_log_db.Base.{
  ℕ, zero, suc, List, [], ◌∷◌, ◌++◌, none, some, ◌≡◌, sym, ap, ◌∙◌, arith, ◌==◌, Bytes, get_elem?,
  set, Bool-cases, inl, inr, ==_iff, Option-cases, get_elem?-set_cases, get_elem?-append_cases,
  get_elem?-append_some, get_elem?-set_self, get_elem?-set_ne, lt_of_get_elem?,
}
use rabbit_log_db.Log.Appender.Fanout.{
  Ready, AllReady, Ready-configs, deliver_all, deliver_all-Unchanged,
}
use rabbit_log_db.Log.Event.{LogEvent}
use rabbit_log_db.Log.Formatter.{LogFormatter}
use rabbit_log_db.Log.Level.{Level}
use rabbit_log_db.Log.Logger.Routing.{WellFormed, targets}
use rabbit_log_db.Log.World.{Appender, Logger, World, Outside}

-- Every appender that was ready still is.
pub record Keeps (xs ys : List Appender) : Type 0 where
  pub keep : (a : ℕ) → Ready xs a → Ready ys a

pub AllReady-Keeps :
    {xs ys : List Appender} (rest : List ℕ) → Keeps xs ys → AllReady xs rest → AllReady ys rest
AllReady-Keeps [] k r = tt
AllReady-Keeps (a ∷ rest) k r = (k.keep a r.0, AllReady-Keeps rest k r.1)

pub Keeps-refl : (xs : List Appender) → Keeps xs xs
Keeps-refl xs = record { keep = λ a r. r }

pub Keeps-trans : {xs ys zs : List Appender} → Keeps xs ys → Keeps ys zs → Keeps xs zs
Keeps-trans k l = record { keep = λ a r. l.keep a (k.keep a r) }

-- Appender `a` is given anew, with a formatter.
pub Keeps-set :
    (xs : List Appender) (a : ℕ) (ap : Appender) {f : LogFormatter}
    → ap.formatter ≡ some f
    → Keeps xs (set xs a ap)
Keeps-set xs a ap {f} hf = record {
  keep = λ b r. elim (Bool-cases (a == b)) [
    | inl e ↦ record {
      appender = ap;
      formatter = f;
      at =
          let at' = r.at in
          let e' = (==_iff a b).0 e in
          rw (← e') (get_elem?-set_self xs a ap (rw (← e') at (lt_of_get_elem? xs b at')));
      formats = hf;
    }
    | inr ne ↦ record {
      appender = r.appender;
      formatter = r.formatter;
      at = get_elem?-set_ne xs ap (λ e. ground (arith, ==_iff a b)) ∙ r.at;
      formats = r.formats;
    }
  ];
}

-- Appender `a` is given anew, with the formatter it had.
pub Keeps-set_same :
    (xs : List Appender) (a : ℕ) (ap ap' : Appender)
    → get_elem? xs a ≡ some ap
    → ap'.formatter ≡ ap.formatter
    → Keeps xs (set xs a ap')
Keeps-set_same xs a ap ap' ha hf = elim (Option-cases ap.formatter) [
  | inr (f, h) ↦ Keeps-set xs a ap' (hf ∙ h)
  | inl h ↦ record {
    keep = λ b r. record {
      appender = r.appender;
      formatter = r.formatter;
      at = get_elem?-set_ne xs ap' (λ e. ground (arith, e, r.at, r.formats)) ∙ r.at;
      formats = r.formats;
    };
  }
]

-- A new appender at the end.
pub Keeps-append : (xs ys : List Appender) → Keeps xs (xs ++ ys)
Keeps-append xs ys = record { keep = λ a r. append_ready xs a r }
  where
    append_ready : (zs : List Appender) (a : ℕ) → Ready zs a → Ready (zs ++ ys) a
    append_ready [] a r = absurd (cc r.at)
    append_ready (x ∷ zs) zero r = record {
      appender = r.appender;
      formatter = r.formatter;
      at = r.at;
      formats = r.formats;
    }
    append_ready (x ∷ zs) (suc a) r =
        let s = append_ready zs a (record {
          appender = r.appender;
          formatter = r.formatter;
          at = r.at;
          formats = r.formats;
        }) in
        record { appender = s.appender; formatter = s.formatter; at = s.at; formats = s.formats }

-- The loggers stay and every ready appender stays ready.
pub WellFormed-Keeps :
    {w w' : World}
    → w'.loggers ≡ w.loggers
    → Keeps w.appenders w'.appenders
    → WellFormed w
    → WellFormed w'
WellFormed-Keeps {w} {w'} e k wf = record {
  attached = λ l lg h. AllReady-Keeps lg.appenders k (wf.attached l lg (rw e at h));
  formatted = λ l lg h. wf.formatted l lg (rw e at h);
  rooted = λ l lg r h hr. rw e (wf.rooted l lg r (rw e at h) hr);
}

-- One logger is given anew, with ready appenders, a formatter and the root it had.
pub WellFormed-set :
    (w : World) (l : ℕ) (lg lg' : Logger) {f : LogFormatter}
    → get_elem? w.loggers l ≡ some lg
    → AllReady w.appenders lg'.appenders
    → lg'.formatter ≡ some f
    → lg'.root ≡ lg.root
    → WellFormed w
    → WellFormed (record w { loggers = set w.loggers l lg' })
WellFormed-set w l lg lg' {f} hl ready hf hr wf = record {
  attached = λ m mg h. elim (get_elem?-set_cases w.loggers l lg' m h) [
    | inl (e, e') ↦ rw e' ready
    | inr h' ↦ wf.attached m mg h'
  ];
  formatted = λ m mg h. elim (get_elem?-set_cases w.loggers l lg' m h) [
    | inl (e, e') ↦ (f, rw e' hf)
    | inr h' ↦ wf.formatted m mg h'
  ];
  rooted = λ m mg r h hm. elim (get_elem?-set_cases w.loggers l lg' m h) [
    | inl (e, e') ↦ root_after r (wf.rooted l lg r hl (sym hr ∙ rw e' at hm))
    | inr h' ↦ root_after r (wf.rooted m mg r h' hm)
  ];
}
  where
    root_after :
        (r : ℕ)
        → (rg : Logger) × (get_elem? w.loggers r ≡ some rg) × (rg.root ≡ none)
        → (rg : Logger) × (get_elem? (set w.loggers l lg') r ≡ some rg) × (rg.root ≡ none)
    root_after r (rg, hg, hn) = elim (Bool-cases (l == r)) [
      | inl e ↦
          let e' = (==_iff l r).0 e in
          (
            lg',
            rw (← e') (get_elem?-set_self w.loggers l lg' (lt_of_get_elem? w.loggers l hl)),
            hr ∙ ground (arith, hg, hl, hn, e'),
          )
      | inr ne ↦ (rg, get_elem?-set_ne w.loggers lg' (λ e. ground (arith, ==_iff l r)) ∙ hg, hn)
    ]

-- A new logger with no appender; its root, if any, exists and has none itself.
pub WellFormed-new :
    (w : World) (lg : Logger) {f : LogFormatter}
    → lg.appenders ≡ []
    → lg.formatter ≡ some f
    → ((r : ℕ)
        → lg.root ≡ some r
        → (rg : Logger) × (get_elem? w.loggers r ≡ some rg) × (rg.root ≡ none))
    → WellFormed w
    → WellFormed (record w { loggers = w.loggers ++ lg ∷ [] })
WellFormed-new w lg {f} ha hf hr wf = record {
  attached = λ m mg h. elim (get_elem?-append_cases w.loggers lg m h) [
    | inl (e, e') ↦ rw (e', ha) tt
    | inr h' ↦ wf.attached m mg h'
  ];
  formatted = λ m mg h. elim (get_elem?-append_cases w.loggers lg m h) [
    | inl (e, e') ↦ (f, rw e' hf)
    | inr h' ↦ wf.formatted m mg h'
  ];
  rooted = λ m mg r h hm. elim (get_elem?-append_cases w.loggers lg m h) [
    | inl (e, e') ↦ still r (hr r (rw e' at hm))
    | inr h' ↦ still r (wf.rooted m mg r h' hm)
  ];
}
  where
    still :
        (r : ℕ)
        → (rg : Logger) × (get_elem? w.loggers r ≡ some rg) × (rg.root ≡ none)
        → (rg : Logger) × (get_elem? (w.loggers ++ lg ∷ []) r ≡ some rg) × (rg.root ≡ none)
    still r (rg, hg, hn) = (rg, get_elem?-append_some w.loggers (lg ∷ []) r hg, hn)

module _ (out : Outside) (lv : Level) (e : LogEvent) (n : Bytes) where
  pub targets-AllReady :
      (l : ℕ) (lg : Logger) (w : World)
      → WellFormed w
      → get_elem? w.loggers l ≡ some lg
      → AllReady w.appenders (targets w lv lg)
  unfolding targets
  targets-AllReady l lg w wf hl = elim (Option-cases lg.root) [
    | inl h ↦ ground (arith, wf.attached l lg hl)
    | inr (r, h) ↦
        let (rg, hg, rr) = wf.rooted l lg r hl h in
        ground (arith, wf.attached l lg hl, wf.attached r rg hg)
  ]

  -- Logging keeps the store well formed.
  pub deliver_all-WellFormed :
      (l : ℕ) (lg : Logger) (w : World)
      → WellFormed w
      → get_elem? w.loggers l ≡ some lg
      → WellFormed (deliver_all out n lv e (targets w lv lg) w)
  deliver_all-WellFormed l lg w wf hl =
      let u = deliver_all-Unchanged out n lv e _ w (targets-AllReady l lg w wf hl) in
      WellFormed-Keeps u.loggers
        (record { keep = λ a r. Ready-configs w.appenders _ a u.appenders r }) wf
