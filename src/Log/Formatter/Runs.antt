-- ===== src/Log/Formatter/Runs.antt =====
-- The loop of `init` round by round, whatever the fuel, and that the fuel of `init` is enough.
use rabbit_log_db.Base.{
  ℕ, zero, suc, ◌<◌, ◌≤◌, true, false, [], ◌∷◌, ◌++◌, none, some, ◌≡◌, ◌≢◌, refl, arith, ◌==◌, map,
  Bytes, codes, length, ap, ◌||◌, inl, inr, Option-cases,
}
use rabbit_log_db.Log.Formatter.{
  text, directive, Scan, scan_format, scan_name, flush, next_is_percent, Tokens, tokenize,
  LogFormatter, init, finish, start, build, items_of, any_error,
}

length-scan_format : (str seen cs : Bytes) → length (scan_format str seen cs).rest ≤ length cs
unfolding scan_format
length-scan_format str seen [] = omega arith
length-scan_format str seen (c ∷ cs) = ground (arith, length-scan_format str (seen ++ c ∷ []) cs)

-- The inner loop never moves back.
pub length-scan_name : (seen cs : Bytes) → length (scan_name seen cs).rest ≤ length cs
unfolding scan_name
length-scan_name seen [] = omega arith
length-scan_name seen (c ∷ cs) =
    ground (arith, length-scan_name (seen ++ c ∷ []) cs, length-scan_format seen [] cs)

-- From the bytes `rest` in state `s` the loop ends in `r`, on any fuel beyond the bytes.
abbrev pub Runs : Bytes → Tokens → Tokens → Type 0
Runs rest s r = (f : ℕ) → length rest < f → tokenize f rest s ≡ some r

abbrev pub add_literal : Tokens → ℕ → Tokens
add_literal s c = record s { nstr = s.nstr ++ c ∷ [] }

abbrev pub add_bad : Tokens → Bytes → Tokens
add_bad s rest = record s {
  vec = s.vec ++ text (codes "<<pattern_error>>") ∷ [];
  error = true;
  unclosed = s.unclosed ++ rest ∷ [];
}

abbrev pub add_item : Tokens → Scan → Tokens
add_item s scan = record s {
  vec = s.vec ++ (flush s.nstr ++ directive scan.str scan.fmt ∷ []);
  nstr = [];
}

pub Runs-end : (s : Tokens) → Runs [] s (record s { vec = s.vec ++ flush s.nstr; nstr = [] })
unfolding tokenize
Runs-end s zero h = elim h [ ]
Runs-end s (suc f) h = refl

module _ (s : Tokens) {r : Tokens} (cs : Bytes) where
  pub Runs-literal : (c : ℕ) → (c == b'%') ≡ false → Runs cs (add_literal s c) r → Runs (c ∷ cs) s r
  unfolding tokenize
  Runs-literal c e k zero h = elim h [ ]
  Runs-literal c e k (suc f) h = rw e (k f (omega arith))

  pub Runs-percent :
      next_is_percent cs ≡ true → Runs cs (add_literal s b'%') r → Runs (b'%' ∷ cs) s r
  unfolding tokenize
  Runs-percent e k zero h = elim h [ ]
  Runs-percent e k (suc f) h = rw e (k f (omega arith))

  pub Runs-bad :
      next_is_percent cs ≡ false
      → (scan_name [] cs).is_open ≡ true
      → Runs cs (add_bad s (b'%' ∷ cs)) r
      → Runs (b'%' ∷ cs) s r
  unfolding tokenize
  Runs-bad e o k zero h = elim h [ ]
  Runs-bad e o k (suc f) h = rw e (rw o (k f (omega arith)))

  pub Runs-item :
      (scan : Scan)
      → next_is_percent cs ≡ false
      → scan_name [] cs ≡ scan
      → scan.is_open ≡ false
      → Runs scan.rest (add_item s scan) r
      → Runs (b'%' ∷ cs) s r
  unfolding tokenize
  Runs-item scan e q o k zero h = elim h [ ]
  Runs-item scan e q o k (suc f) h =
      rw (e, q, o) (k f (omega (arith, length-scan_name [] cs, ap (λ (t : Scan). length t.rest) q)))

-- On more fuel than there are bytes left the loop ends.
pub tokenize-ne-none :
    (f : ℕ) (rest : Bytes) (s : Tokens) → length rest < f → tokenize f rest s ≢ none
unfolding tokenize
tokenize-ne-none zero rest s h = elim h [ ]
tokenize-ne-none (suc f) [] s h = ground arith
tokenize-ne-none (suc f) (c ∷ cs) s h = ground (
  arith,
  tokenize-ne-none f cs (add_literal s c),
  tokenize-ne-none f cs (add_literal s b'%'),
  tokenize-ne-none f cs (add_bad s (c ∷ cs)),
  tokenize-ne-none f (scan_name [] cs).rest (add_item s (scan_name [] cs)),
  length-scan_name [] cs,
)

-- `init` ends for every pattern, and the formatter keeps the pattern that it was made from.
pub init_total : (p : Bytes) → (f : LogFormatter) × (init p ≡ some f) × (f.pattern ≡ p)
unfolding init finish
init_total p = elim (Option-cases (tokenize (suc (length p)) p start)) [
  | inl e ↦ absurd (tokenize-ne-none (suc (length p)) p start (omega arith) e)
  | inr (r, e) ↦ (
    record {
      pattern = p;
      items = items_of (map build r.vec);
      error = r.error || any_error (map build r.vec);
    },
    rw e,
    refl,
  )
]

-- What `init` makes of the state in which its loop ends.
pub init-Runs : (p : Bytes) {r : Tokens} → Runs p start r → init p ≡ finish p (some r)
unfolding init
init-Runs p k = rw (k (suc (length p)) (omega arith))
