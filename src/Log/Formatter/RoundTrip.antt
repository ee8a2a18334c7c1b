-- ===== src/Log/Formatter/RoundTrip.antt =====
-- Patterns printed from tokens, and that `init` reads them back.
pub mod Scanned
use rabbit_log_db.Base.{
  ℕ, Bool, true, false, List, [], ◌∷◌, ◌++◌, some, ◌≡◌, ◌≢◌, refl, sym, ap, subst, ◌∙◌, arith, ◌==◌,
  ◌||◌, map, Bytes, append-nil, append_assoc,
}
use rabbit_log_db.Log.Formatter.Runs.{
  Runs, Runs-end, Runs-literal, Runs-item, add_literal, add_item, init-Runs,
}
use rabbit_log_db.Log.Formatter.{
  Token, text, directive, Scan, Tokens, LogFormatter, scan_name, flush, next_is_percent, init,
  finish, start, build, items_of, any_error, is_alpha,
}
use Scanned.{All, Alpha, NoClose, Stops, bare_scan, braced_scan, scan_name_bare, scan_name_braced}

abbrev pub NoPercent : Bytes → Type 0
NoPercent = All (λ c. (c == b'%') ≡ false)

-- The pattern text of a token, in front of what follows.
unfoldable pub print_onto : Token → Bytes → Bytes
print_onto (text t) rest = t ++ rest
print_onto (directive str []) rest = b'%' ∷ (str ++ rest)
print_onto (directive str (c ∷ cs)) rest = b'%' ∷ (str ++ b'{' ∷ ((c ∷ cs) ++ b'}' ∷ rest))

unfoldable pub print : List Token → Bytes
unfolding print_onto
print [] = []
print (t ∷ ts) = print_onto t (print ts)

-- What stands before a token.
pub data Before : Type 0 where
  closed literal named : Before

-- Texts are not empty, hold no percent sign and do not follow one another; a name holds letters and,
-- where it has no format, is not empty and is not continued by the text behind it; a format holds
-- no closing brace.
pub data IsPrintable : Before → List Token → Type 0 where
  done : {b : Before} → IsPrintable b []
  plain :
      {b : Before} {t : Bytes} {ts : List Token}
      → b ≢ literal
      → t ≢ []
      → NoPercent t
      → (b ≡ named → Stops t)
      → IsPrintable literal ts
      → IsPrintable b (text t ∷ ts)
  bare :
      {b : Before} {str : Bytes} {ts : List Token}
      → str ≢ []
      → Alpha str
      → IsPrintable named ts
      → IsPrintable b (directive str [] ∷ ts)
  braced :
      {b : Before} {str : Bytes} {c : ℕ} {cs : Bytes} {ts : List Token}
      → Alpha str
      → NoClose (c ∷ cs)
      → IsPrintable closed ts
      → IsPrintable b (directive str (c ∷ cs) ∷ ts)

Stops-append : (t rest : Bytes) → t ≢ [] → Stops t → Stops (t ++ rest)
Stops-append [] rest ne h = absurd (ne refl)
Stops-append (c ∷ cs) rest ne h = h

print-Stops : {b : Before} {ts : List Token} → b ≡ named → IsPrintable b ts → Stops (print ts)
unfolding print is_alpha
print-Stops e done = tt
print-Stops e (plain {t = t} {ts = ts} a ne np st p) = Stops-append t (print ts) ne (st e)
print-Stops e (bare ne al p) = (refl, refl, refl)
print-Stops e (braced al nc p) = (refl, refl, refl)

abbrev pub st : List Token → Bytes → Bool → Tokens
st v n e = record { vec = v; nstr = n; error = e; unclosed = [] }

pub Runs-text :
    (t rest : Bytes) (v : List Token) (n : Bytes) (e : Bool) {r : Tokens}
    → NoPercent t
    → Runs rest (st v (n ++ t) e) r
    → Runs (t ++ rest) (st v n e) r
Runs-text [] rest v n e h k = rw append-nil at k
Runs-text (c ∷ cs) rest v n e h k =
    Runs-literal (st v n e) (cs ++ rest) c h.0
      (Runs-text cs rest v (n ++ c ∷ []) e h.1 (rw append_assoc k))

next_bare : (str rest : Bytes) → str ≢ [] → Alpha str → next_is_percent (str ++ rest) ≡ false
unfolding next_is_percent is_alpha
next_bare [] rest ne h = absurd (ne refl)
next_bare (c ∷ cs) rest ne h = ground arith

next_braced : (str rest : Bytes) → Alpha str → next_is_percent (str ++ b'{' ∷ rest) ≡ false
unfolding next_is_percent is_alpha
next_braced [] rest h = refl
next_braced (c ∷ cs) rest h = ground arith

flush_lem : (t : Bytes) → t ≢ [] → flush t ≡ text t ∷ []
unfolding flush
flush_lem [] ne = absurd (ne refl)
flush_lem (c ∷ cs) ne = refl

regroup :
    (v w : List Token) (t : Token) (ts : List Token)
    → (v ++ (w ++ t ∷ [])) ++ ts ≡ v ++ (w ++ t ∷ ts)
regroup v w t ts = simp append_assoc

-- The loop over printed tokens appends them, behind the text that is pending.
Runs-print :
    {b : Before} {ts : List Token} (v : List Token) (n : Bytes) (e : Bool)
    → (b ≢ literal → n ≡ [])
    → IsPrintable b ts
    → Runs (print ts) (st v n e) (st (v ++ (flush n ++ ts)) [] e)
unfolding print flush
Runs-print v n e pend done = rw append-nil (Runs-end (st v n e))
Runs-print v n e pend (plain {t = t} {ts = ts} a ne np stop p) =
    Runs-text t (print ts) v n e np
      (rw (pend a) (rw (← flush_one) (Runs-print v t e (λ h. absurd (h refl)) p)))
  where
    flush_one : flush t ++ ts ≡ text t ∷ ts
    flush_one = rw (flush_lem t ne)
Runs-print v n e pend (bare {str = str} {ts = ts} ne al p) =
    Runs-item (st v n e) (str ++ print ts) (bare_scan str (print ts))
      (next_bare str (print ts) ne al) (scan_name_bare [] str (print ts) al (print-Stops refl p))
      refl
      (rw (← regroup v (flush n) (directive str []) ts)
        (Runs-print (v ++ (flush n ++ directive str [] ∷ [])) [] e (λ _. refl) p))
Runs-print v n e pend (braced {str = str} {c = c} {cs = cs} {ts = ts} al nc p) =
    Runs-item (st v n e) _ (braced_scan str (c ∷ cs) (print ts)) (next_braced str _ al)
      (scan_name_braced [] str (c ∷ cs) (print ts) al nc) refl
      (rw (← regroup v (flush n) (directive str (c ∷ cs)) ts)
        (Runs-print (v ++ (flush n ++ directive str (c ∷ cs) ∷ [])) [] e (λ _. refl) p))

-- A pattern that is printed from tokens, of which no two texts stand side by side and no text goes on
-- a name, where texts hold no percent sign and formats no closing brace, is read back as exactly these
-- tokens: each becomes its item, in order, and the formatter has an error exactly if one of the tokens
-- is an unknown directive.
pub init-print :
    (ts : List Token)
    → IsPrintable closed ts
    → init (print ts)
      ≡ some (record {
        pattern = print ts;
        items = items_of (map build ts);
        error = any_error (map build ts);
      })
unfolding finish flush
init-print ts p = init-Runs (print ts) (Runs-print [] [] false (λ _. refl) p)
