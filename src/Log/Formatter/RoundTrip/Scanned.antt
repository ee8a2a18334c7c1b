-- ===== src/Log/Formatter/RoundTrip/Scanned.antt =====
-- The inner loop of `init` on one directive.
use rabbit_log_db.Base.{
  true, false, List, [], ◌∷◌, ◌++◌, ◌≡◌, refl, arith, ◌==◌, Bytes, append-nil, append_assoc,
}
use rabbit_log_db.Log.Formatter.{Scan, scan_format, scan_name, is_alpha}

abbrev pub All {ℓ} : {A : Type ℓ} → (A → Type 0) → List A → Type 0
All P [] = Unit {0}
All P (x ∷ xs) = P x × All P xs

abbrev pub Alpha : Bytes → Type 0
Alpha = All (λ c. is_alpha c ≡ true)

abbrev pub NoClose : Bytes → Type 0
NoClose = All (λ c. (c == b'}') ≡ false)

-- No byte that could go on a name or open a format stands first.
abbrev pub Stops : Bytes → Type 0
Stops [] = Unit {0}
Stops (c ∷ cs) = (is_alpha c ≡ false) × ((c == b'{') ≡ false) × ((c == b'}') ≡ false)

abbrev pub bare_scan : Bytes → Bytes → Scan
bare_scan str rest = record { str = str; fmt = []; is_open = false; rest = rest }

abbrev pub braced_scan : Bytes → Bytes → Bytes → Scan
braced_scan str fmt rest = record { str = str; fmt = fmt; is_open = false; rest = rest }

scan_format_lem :
    (str seen fmt rest : Bytes)
    → NoClose fmt
    → scan_format str seen (fmt ++ b'}' ∷ rest) ≡ braced_scan str (seen ++ fmt) rest
unfolding scan_format
scan_format_lem str seen [] rest h = rw append-nil
scan_format_lem str seen (c ∷ cs) rest h =
    rw h.0 (rw (scan_format_lem str (seen ++ c ∷ []) cs rest h.1) (rw append_assoc))

pub stop_scan : (seen rest : Bytes) → Stops rest → scan_name seen rest ≡ bare_scan seen rest
unfolding scan_name
stop_scan seen [] h = refl
stop_scan seen (c ∷ cs) h = ground arith

pub scan_name_bare :
    (seen str rest : Bytes)
    → Alpha str
    → Stops rest
    → scan_name seen (str ++ rest) ≡ bare_scan (seen ++ str) rest
unfolding scan_name
scan_name_bare seen [] rest h s = rw append-nil (stop_scan seen rest s)
scan_name_bare seen (c ∷ cs) rest h s =
    ground (arith, scan_name_bare (seen ++ c ∷ []) cs rest h.1 s, append_assoc seen (c ∷ []) cs)

pub scan_name_braced :
    (seen str fmt rest : Bytes)
    → Alpha str
    → NoClose fmt
    → scan_name seen (str ++ b'{' ∷ (fmt ++ b'}' ∷ rest)) ≡ braced_scan (seen ++ str) fmt rest
unfolding scan_name
scan_name_braced seen [] fmt rest h k = rw append-nil (scan_format_lem seen [] fmt rest k)
scan_name_braced seen (c ∷ cs) fmt rest h k =
    ground
      (arith, scan_name_braced (seen ++ c ∷ []) cs fmt rest h.1 k, append_assoc seen (c ∷ []) cs)
