-- ===== src/Db/Comparator/Keys.antt =====
-- The order of internal keys.
use rabbit_log_db.Base.{◌≡◌, ◌≢◌, none, some, refl, sym, ap, ◌∙◌, arith, [], ◌∷◌}
use rabbit_log_db.Db.Comparator.Idle.{of_string-IsValid}
use rabbit_log_db.Db.Comparator.{TotalOrder, InternalKeyComparator, compare_keys}
use rabbit_log_db.Db.Key.{InternalKey, encode}
use rabbit_log_db.Db.Slice.{Sign, negative, equal, of_string}
use rabbit_log_db.Db.Slice.Order.{flip}

encode-ne_empty : (x : InternalKey) → x ≢ [] → encode x ≡ some (of_string x)
unfolding encode
encode-ne_empty [] h = absurd (h refl)
encode-ne_empty (b ∷ x) h = ground arith

compare_keys-encoded :
    (c : InternalKeyComparator) (x y : InternalKey)
    → x ≢ []
    → y ≢ []
    → compare_keys c x y ≡ some (c.encoded.compare (of_string x) (of_string y))
unfolding compare_keys
compare_keys-encoded c x y h k =
    rw (encode-ne_empty x h, compare_keys) (rw (encode-ne_empty y k) refl)

compare_keys-empty :
    (c : InternalKeyComparator) (x : InternalKey) → x ≢ [] → compare_keys c x [] ≡ none
unfolding compare_keys encode
compare_keys-empty c x h = rw (encode-ne_empty x h, compare_keys) refl

compare_keys-none : (c : InternalKeyComparator) (y : InternalKey) → compare_keys c [] y ≡ none
unfolding compare_keys encode
compare_keys-none c y = refl

-- Over a total order of the encoded keys, comparing two internal keys that are not empty always answers
-- and is a total order of them; with an empty key, which is invalid, it fails.
pub compare_keys_total :
    (c : InternalKeyComparator) (x y z : InternalKey)
    → TotalOrder c.encoded
    → x ≢ []
    → y ≢ []
    → z ≢ []
    → (s : Sign) × (compare_keys c x y ≡ some s)
      × (compare_keys c y x ≡ some (flip s))
      × (x ≡ y → s ≡ equal)
      × (s ≡ negative → compare_keys c y z ≡ some negative → compare_keys c x z ≡ some negative)
      × (compare_keys c x [] ≡ none)
      × (compare_keys c [] y ≡ none)
unfolding encode
compare_keys_total c x y z t hx hy hz =
    let s = c.encoded.compare (of_string x) (of_string y) in
    let vx = of_string-IsValid x in
    let vy = of_string-IsValid y in
    let vz = of_string-IsValid z in
    (
      s,
      compare_keys-encoded c x y hx hy,
      compare_keys-encoded c y x hy hx ∙ ap some (t.flips (of_string x) (of_string y) vx vy),
      λ e.
          ap (λ w. c.encoded.compare (of_string x) (of_string w)) (sym e)
          ∙ t.equals (of_string x) vx,
      λ h k.
          let k' : c.encoded.compare (of_string y) (of_string z) ≡ negative =
            cc (compare_keys-encoded c y z hy hz) in
          compare_keys-encoded c x z hx hz
          ∙ ap some (t.below (of_string x) (of_string y) (of_string z) vx vy vz h k'),
      compare_keys-empty c x hx,
      compare_keys-none c y,
    )
