-- ===== src/Log/Manager/Naming.antt =====
-- The manager's map and root: every name leads to a logger of that name, below the manager's root.
use rabbit_log_db.Base.{
  ℕ, [], ◌∷◌, none, some, ◌≡◌, ◌⊎◌, inl, inr, refl, sym, ◌∙◌, arith, Bytes, length, get_elem?, set,
  ◌==◌, ==_iff, Bool-cases, equal, equal→eq, get_elem?-set_self, get_elem?-set_ne, lt_of_get_elem?,
  get_elem?-append_self, get_elem?-append_some, if◌then◌else◌,
}
use rabbit_log_db.Log.Formatter.Item.{find}
use rabbit_log_db.Log.Logger.Keeping.{WellFormed-new, WellFormed-Keeps, Keeps-refl}
use rabbit_log_db.Log.Logger.Routing.{WellFormed}
use rabbit_log_db.Log.Manager.Lookup.{made, with_logger, find-insert}
use rabbit_log_db.Log.World.{Logger, World}

-- What a name of the map leads to.
pub record Entry (w : World) (name : Bytes) (l : ℕ) : Type 0 where
  pub logger : Logger
  pub at : get_elem? w.loggers l ≡ some logger
  pub name_is : logger.name ≡ name
  pub below : (logger.root ≡ some w.root) ⊎ (l ≡ w.root)

pub record Managed (w : World) : Type 0 where
  pub root : (rg : Logger) × (get_elem? w.loggers w.root ≡ some rg) × (rg.root ≡ none)
  pub named : (name : Bytes) (l : ℕ) → find name w.managed ≡ some l → Entry w name l

-- The store between calls.
pub record Inv (w : World) : Type 0 where
  pub well : WellFormed w
  pub managed : Managed w

-- The loggers keep their names and roots, and the manager its map.
pub record SameNames (w w' : World) : Type 0 where
  pub managed : w'.managed ≡ w.managed
  pub root : w'.root ≡ w.root
  pub loggers :
      (l : ℕ) (lg : Logger)
      → get_elem? w.loggers l ≡ some lg
      → (lg' : Logger) × (get_elem? w'.loggers l ≡ some lg')
        × (lg'.name ≡ lg.name)
        × (lg'.root ≡ lg.root)

pub SameNames-loggers :
    (w w' : World)
    → w'.loggers ≡ w.loggers
    → w'.managed ≡ w.managed
    → w'.root ≡ w.root
    → SameNames w w'
SameNames-loggers w w' e m r = record {
  managed = m;
  root = r;
  loggers = λ l lg h. (lg, rw e h, refl, refl);
}

pub SameNames-set :
    (w w' : World) (l : ℕ) (lg lg' : Logger)
    → get_elem? w.loggers l ≡ some lg
    → w'.loggers ≡ set w.loggers l lg'
    → lg'.name ≡ lg.name
    → lg'.root ≡ lg.root
    → w'.managed ≡ w.managed
    → w'.root ≡ w.root
    → SameNames w w'
SameNames-set w w' l lg lg' hl e hn hr m r = record {
  managed = m;
  root = r;
  loggers = λ k kg h. elim (Bool-cases (l == k)) [
    | inl same ↦
        let e' = (==_iff l k).0 same in
        (
          lg',
          rw (e, ← e') (get_elem?-set_self w.loggers l lg' (lt_of_get_elem? w.loggers l hl)),
          hn ∙ ground (arith, h, hl, e'),
          hr ∙ ground (arith, h, hl, e'),
        )
    | inr ne ↦ (
      kg,
      rw e (get_elem?-set_ne w.loggers lg' (λ e'. ground (arith, ==_iff l k)) ∙ h),
      refl,
      refl,
    )
  ];
}

pub Managed-SameNames : (w w' : World) → SameNames w w' → Managed w → Managed w'
Managed-SameNames w w' s m = record {
  root =
      let (rg, h, hn) = m.root in
      let (rg', h', n', r') = s.loggers w.root rg h in (rg', rw s.root h', r' ∙ hn);
  named = λ name l h.
      let en = m.named name l (rw s.managed at h) in
      let (lg', h', n', r') = s.loggers l en.logger en.at in
      record { logger = lg'; at = h'; name_is = n' ∙ en.name_is; below = rw (r', s.root) en.below };
}

-- The map after a logger was made.
with_logger-Managed : (name : Bytes) (w : World) → Managed w → Managed (with_logger name w)
unfolding with_logger made
with_logger-Managed name w m = record {
  root =
      let (rg, h, hn) = m.root in
      (rg, get_elem?-append_some w.loggers (made name (some w.root) ∷ []) w.root h, hn);
  named =
      λ other l h. entry other l (sym (find-insert name other (length w.loggers) w.managed) ∙ h);
}
  where
    w' : World
    w' = with_logger name w

    entry :
        (other : Bytes) (l : ℕ)
        → (if equal name other then some (length w.loggers) else find other w.managed) ≡ some l
        → Entry w' other l
    entry other l h = elim (Bool-cases (equal name other)) [
      | inl e ↦ record {
        logger = made name (some w.root);
        at =
            let e' : length w.loggers ≡ l = ground arith in
            rw (← e') (get_elem?-append_self w.loggers (made name (some w.root)));
        name_is = equal→eq name other e;
        below = inl refl;
      }
      | inr e ↦
          let en = m.named other l (ground arith) in
          record {
            logger = en.logger;
            at = get_elem?-append_some w.loggers (made name (some w.root) ∷ []) l en.at;
            name_is = en.name_is;
            below = en.below;
          }
    ]

pub with_logger-Inv : (name : Bytes) (w : World) → Inv w → Inv (with_logger name w)
unfolding with_logger made
with_logger-Inv name w i = record {
  well =
      WellFormed-Keeps refl (Keeps-refl w.appenders)
        (WellFormed-new w (made name (some w.root)) refl refl root_exists i.well);
  managed = with_logger-Managed name w i.managed;
}
  where
    root_exists :
        (r : ℕ)
        → some w.root ≡ some r
        → (rg : Logger) × (get_elem? w.loggers r ≡ some rg) × (rg.root ≡ none)
    root_exists r h = let e : w.root ≡ r = ground arith in rw (← e) i.managed.root
