-- ===== src/Log/Formatter/Percent.antt =====
-- An escaped percent sign: `init` appends one `%` and moves on by a single byte.
use rabbit_log_db.Base.{
  ℕ, zero, suc, ◌<◌, true, false, List, [], ◌∷◌, ◌++◌, some, ◌≡◌, refl, sym, ap, ◌∙◌, arith, ◌==◌,
  map, Bytes, length, append-nil, append_assoc, Bool-cases, inl, inr, ==_iff,
}
use rabbit_log_db.Log.Formatter.RoundTrip.Scanned.{Stops, bare_scan, stop_scan}
use rabbit_log_db.Log.Formatter.RoundTrip.{NoPercent, Runs-text, st}
use rabbit_log_db.Log.Formatter.Runs.{
  Runs, Runs-end, Runs-literal, Runs-percent, Runs-bad, Runs-item, add_literal, add_bad, add_item,
  init-Runs, length-scan_name,
}
use rabbit_log_db.Log.Formatter.{
  Token, directive, Tokens, LogFormatter, scan_name, flush, next_is_percent, init, finish, start,
  build, any_error,
}

-- The loop ends in some state, and only appends to the tokens.
record Ends (rest : Bytes) (s : Tokens) : Type 0 where
  last : Tokens
  more : List Token
  runs : Runs rest s last
  extends : last.vec ≡ s.vec ++ more

ends :
    {rest cs : Bytes} {s t : Tokens} (m : List Token)
    → t.vec ≡ s.vec ++ m
    → ((r : Tokens) → Runs cs t r → Runs rest s r)
    → Ends cs t
    → Ends rest s
ends m e k h = record {
  last = h.last;
  more = m ++ h.more;
  runs = k h.last h.runs;
  extends = h.extends ∙ rw e (append_assoc _ m h.more);
}

Ends-total : (g : ℕ) (rest : Bytes) (s : Tokens) → length rest < g → Ends rest s
Ends-total zero rest s h = elim h [ ]
Ends-total (suc g) [] s h = record {
  last = _;
  more = flush s.nstr;
  runs = Runs-end s;
  extends = refl;
}
Ends-total (suc g) (c ∷ cs) s h = elim (Bool-cases (c == b'%')) [
  | inr e ↦
      ends [] (sym (append-nil s.vec)) (λ r. Runs-literal s cs c e)
        (Ends-total g cs (add_literal s c) (omega arith))
  | inl e ↦ rw ((==_iff c b'%').0 e) (elim (Bool-cases (next_is_percent cs)) [
    | inl two ↦
        ends [] (sym (append-nil s.vec)) (λ r. Runs-percent s cs two)
          (Ends-total g cs (add_literal s b'%') (omega arith))
    | inr one ↦ elim (Bool-cases (scan_name [] cs).is_open) [
      | inl open' ↦
          ends _ refl (λ r. Runs-bad s cs one open')
            (Ends-total g cs (add_bad s (b'%' ∷ cs)) (omega arith))
      | inr shut ↦
          ends _ refl (λ r. Runs-item s cs (scan_name [] cs) one refl shut)
            (Ends-total g (scan_name [] cs).rest (add_item s (scan_name [] cs))
              (omega (arith, length-scan_name [] cs)))
    ]
  ])
]

any_error-bad : (a b : List Token) → any_error (map build (a ++ directive [] [] ∷ b)) ≡ true
unfolding any_error build
any_error-bad [] b = refl
any_error-bad (t ∷ a) b = ground (arith, any_error-bad a b)

error_of :
    (p : Bytes) {r : Tokens} {f : LogFormatter} (a b : List Token)
    → Runs p start r
    → r.vec ≡ a ++ directive [] [] ∷ b
    → init p ≡ some f
    → f.error ≡ true
unfolding finish
error_of p {r} {f} a b k e h =
    ground (arith, sym (init-Runs p k) ∙ h, any_error-bad a b, ap (λ v. any_error (map build v)) e)

-- A percent sign escaped as `%%` behind a text, where no letter, brace or further percent sign
-- follows, never parses cleanly: the formatter is in error, although the documented `%%` stands for
-- a percent sign.
pub escaped_percent_error :
    (t rest : Bytes) {f : LogFormatter}
    → NoPercent t
    → Stops rest
    → next_is_percent rest ≡ false
    → init (t ++ b'%' ∷ b'%' ∷ rest) ≡ some f
    → f.error ≡ true
unfolding next_is_percent
escaped_percent_error t rest np stop one h =
    error_of _ (flush (t ++ b'%' ∷ [])) after.more
      (Runs-text t _ [] [] false np (
        Runs-percent (st [] t false) _ refl
          (Runs-item second rest (bare_scan [] rest) one (stop_scan [] rest stop) refl after.runs)))
      (after.extends ∙ append_assoc (flush (t ++ b'%' ∷ [])) (directive [] [] ∷ []) after.more) h
  where
    second : Tokens
    second = st [] (t ++ b'%' ∷ []) false

    after : Ends rest (add_item second (bare_scan [] rest))
    after = Ends-total (suc (length rest)) rest _ (omega arith)
