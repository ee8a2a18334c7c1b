-- ===== src/Db/Key/Layout.antt =====
-- What an internal key is made of, and what parsing one reads.
use rabbit_log_db.Base.{
  ℕ, ◌+◌, ◌-◌, ◌/◌, ◌%◌, ◌≤◌, ◌<◌, Bool, true, false, [], ◌∷◌, ◌++◌, none, some, ◌≡◌, ◌↔◌, refl,
  sym, ap, ◌∙◌, arith, leb, Bytes, length, take, drop, length-append, take-append_length, ap₂,
  take-take, drop-take, drop-drop, take-append-drop,
}
use rabbit_log_db.Db.Slice.{Slice, of_string, of_parts, to_string}
use rabbit_log_db.Db.Slice.Order.{IsValid}
use rabbit_log_db.Db.Slice.Prefix.{length-to_string}
use rabbit_log_db.Db.Key.{
  no_type, ParsedInternalKey, Coding, cast_type, encoding_length, extract_user_key,
  parse_internal_key, InternalKey, decode_from, encode, key_user_key, set_from, LookupKey,
  memtable_key, internal_key, lookup_user_key,
}

-- `AppendInternalKey` appends the user key and a trailer of eight bytes.
abbrev pub Appends : Coding → Type 0
Appends coding =
    (dst : Bytes) (p : ParsedInternalKey)
    → (tail : Bytes) × (length tail ≡ 8)
      × (coding.append_internal_key dst p ≡ dst ++ to_string p.user_key ++ tail)

-- A key that was set from parsed parts has the promised length, and gives its user key back.
pub set_from-user_key :
    (coding : Coding) (rep : InternalKey) (p : ParsedInternalKey)
    → Appends coding
    → IsValid p.user_key
    → (length (set_from coding rep p) ≡ encoding_length p)
      × ((u : Slice) × (key_user_key (set_from coding rep p) ≡ some u)
          × (to_string u ≡ to_string p.user_key))
unfolding set_from encoding_length key_user_key extract_user_key of_string of_parts to_string
set_from-user_key coding rep p appends valid =
    let (tail, eight, layout) = appends [] p in
    let u = take p.user_key.size p.user_key.bytes in
    let lu : length u ≡ p.user_key.size = length-to_string p.user_key valid in
    let whole : length (coding.append_internal_key [] p) ≡ p.user_key.size + 8 =
      ap (λ (t : Bytes). length t) layout ∙ omega (arith, length-append u tail) in
    (
      whole,
      (
        of_parts (coding.append_internal_key [] p) (length (coding.append_internal_key [] p) - 8),
        ground arith,
        ap (λ k. take k (coding.append_internal_key [] p)) (omega arith)
            ∙ ap (take (length u)) layout
            ∙ take-append_length u tail,
      ),
    )

-- Decoding a slice within its bounds succeeds exactly if the slice is not empty; then the key encodes
-- to the contents of the slice, and else encoding it fails.
pub decode_from-encode :
    (s : Slice)
    → IsValid s
    → (((decode_from s).0 ≡ true) ↔ (0 < s.size))
      × (0 < s.size
          → (t : Slice) × (encode (decode_from s).1 ≡ some t) × (to_string t ≡ to_string s))
      × (s.size ≡ 0 → encode (decode_from s).1 ≡ none)
unfolding decode_from encode of_string to_string
decode_from-encode s h =
    let l : length (take s.size s.bytes) ≡ s.size = length-to_string s h in
    (
      (λ e. ground arith, λ lt. ground arith),
      λ lt. (
        of_string (take s.size s.bytes),
        ground arith,
        ap (λ t. take (length (take s.size s.bytes)) t) refl ∙ take_all (take s.size s.bytes),
      ),
      λ e. ground arith,
    )
  where
    take_all : (xs : Bytes) → take (length xs) xs ≡ xs
    take_all [] = refl
    take_all (x ∷ xs) = ap (◌∷◌ x) (take_all xs)

no_type_iff : (c : ℕ) → (leb c 1 ≡ false) ↔ ((d : ℕ) × (cast_type c ≡ no_type d))
unfolding cast_type
no_type_iff c = (λ h. (c, ground arith), λ (d, h). ground arith)

top_byte_free : (num : ℕ) → num < 18446744073709551616 → num / 256 < 72057594037927936
top_byte_free num h = omega arith

-- Parsing fails on fewer than eight bytes; on more it answers whether the type is an enumerator, and
-- the user key of the result is what extracting it gives. The sequence number leaves the top byte free
-- if the decoded number has 64 bits.
pub parse_bounds :
    (coding : Coding) (k : Slice)
    → ((a : ℕ) → coding.decode_fixed64 a < 18446744073709551616)
    → (k.size < 8 → parse_internal_key coding k ≡ (false, none))
      × (8 ≤ k.size
          → (b : Bool) × (p : ParsedInternalKey) × (parse_internal_key coding k ≡ (b, some p))
            × (extract_user_key k ≡ some p.user_key)
            × (p.sequence < 72057594037927936)
            × ((b ≡ false) ↔ ((c : ℕ) × (p.type ≡ no_type c))))
unfolding parse_internal_key extract_user_key cast_type of_parts
parse_bounds coding k bound = (
  λ lt. ground arith,
  λ le.
      let num = coding.decode_fixed64 ((k.size + k.size - 8) % 18446744073709551616) in
      (
        leb (num % 256) 1,
        record {
          user_key = of_parts k.bytes (k.size - 8);
          sequence = num / 256;
          type = cast_type (num % 256);
        },
        ground arith,
        ground arith,
        top_byte_free num (bound ((k.size + k.size - 8) % 18446744073709551616)),
        no_type_iff (num % 256),
      ),
)

-- What parsing says of the sequence number and the type depends on the length of the key alone: two
-- keys of one length give the same, whatever trailers they have.
pub parse_ignores_trailer :
    (coding : Coding) (k k' : Slice) {b b' : Bool} {p p' : ParsedInternalKey}
    → k.size ≡ k'.size
    → parse_internal_key coding k ≡ (b, some p)
    → parse_internal_key coding k' ≡ (b', some p')
    → (b ≡ b') × (p.sequence ≡ p'.sequence) × (p.type ≡ p'.type)
unfolding parse_internal_key
parse_ignores_trailer coding k k' e h h' = ground arith

-- The three slices of a lookup key whose pointers stand in order, with a tag of eight bytes before the
-- end: the user key is what extracting it from the internal key gives, and the memtable key is the
-- length bytes with the internal key behind them.
pub lookup_slices :
    (k : LookupKey)
    → k.start ≤ k.kstart
    → k.kstart + 8 ≤ k.end
    → k.end ≤ length k.space
    → (extract_user_key (internal_key k) ≡ some (lookup_user_key k))
      × (to_string (memtable_key k)
          ≡ take (k.kstart - k.start) (drop k.start k.space) ++ to_string (internal_key k))
unfolding extract_user_key internal_key lookup_user_key memtable_key of_parts to_string
lookup_slices k h1 h2 h3 =
    let m = k.kstart - k.start in
    let n = k.end - k.start in
    let xs = drop k.start k.space in
    let rest : drop m (take n xs) ≡ take (k.end - k.kstart) (drop k.kstart k.space) =
      drop-take m n xs (omega arith)
      ∙ ap₂ take (omega arith)
          (drop-drop m k.start k.space ∙ ap (λ i. drop i k.space) (omega arith)) in
    (
      ground arith,
      sym (take-append-drop m (take n xs))
          ∙ ap₂ (λ u v. u ++ v) (take-take m n xs (omega arith)) rest,
    )
