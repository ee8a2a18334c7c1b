-- ===== src/Tests/Db.antt =====
-- Tests of slices and internal keys.
use rabbit_log_db.Base.{
  ℕ, ◌%◌, ◌≤◌, ◌<◌, Bool, true, false, [], ◌∷◌, ◌++◌, none, some, ◌≡◌, ◌↔◌, refl, arith, codes,
  Bytes, length, take,
}
use rabbit_log_db.Db.Key.{
  ParsedInternalKey, Coding, type_value, no_type, encoding_length, cast_type, extract_user_key,
  parse_internal_key, key_user_key, set_from,
}
use rabbit_log_db.Db.Key.Layout.{set_from-user_key, parse_bounds, parse_ignores_trailer}
use rabbit_log_db.Db.Slice.{
  Slice, Sign, negative, equal, of_string, of_parts, to_string, compare, starts_with, remove_prefix,
  of_literal, strlen,
}
use rabbit_log_db.Db.Slice.Order.{flip, compare_total_order}
use rabbit_log_db.Db.Slice.Prefix.{Begins, starts_with_iff, remove_prefix_lem}

abbrev ab : Slice
ab = record { bytes = codes "abx"; size = 2 }

abbrev abc : Slice
abc = record { bytes = codes "abc"; size = 3 }

abbrev b : Slice
b = record { bytes = codes "b"; size = 1 }

-- A literal ends at its NUL.
literal : of_literal (97 ∷ 98 ∷ 0 ∷ 99 ∷ []) ≡ some (of_parts (97 ∷ 98 ∷ 0 ∷ 99 ∷ []) 2)
unfolding of_literal strlen of_parts
literal = refl

compare_total_order_example :
    (s : Sign) × (compare ab abc ≡ some s)
    × (compare abc ab ≡ some (flip s))
    × ((s ≡ equal) ↔ (to_string ab ≡ to_string abc))
    × (s ≡ negative → compare abc b ≡ some negative → compare ab b ≡ some negative)
compare_total_order_example = compare_total_order ab abc b (omega arith) (omega arith) (omega arith)

starts_with_iff_example : (r : Bool) × (starts_with abc ab ≡ some r) × ((r ≡ true) ↔ Begins abc ab)
starts_with_iff_example = starts_with_iff abc ab (omega arith) (omega arith)

remove_prefix_lem_example :
    ((2 ≤ 3
        → (s' : Slice) × (remove_prefix abc 2 ≡ some s')
          × (s'.size ≤ length s'.bytes)
          × (to_string abc ≡ take 2 (to_string abc) ++ to_string s'))
      × (3 < 2 → remove_prefix abc 2 ≡ none))
remove_prefix_lem_example = remove_prefix_lem abc 2 (omega arith)

-- A trailer of eight bytes, and an address that decodes to itself.
abbrev trailer : Bytes
trailer = 1 ∷ 0 ∷ 0 ∷ 0 ∷ 0 ∷ 0 ∷ 0 ∷ 0 ∷ []

abbrev coding : Coding
coding = record {
  append_internal_key = λ dst p. dst ++ take p.user_key.size p.user_key.bytes ++ trailer;
  decode_fixed64 = λ a. a % 18446744073709551616;
}

abbrev parsed : ParsedInternalKey
parsed = record { user_key = ab; sequence = 5; type = type_value }

set_from-user_key_example :
    (length (set_from coding [] parsed) ≡ encoding_length parsed)
    × ((u : Slice) × (key_user_key (set_from coding [] parsed) ≡ some u)
        × (to_string u ≡ to_string ab))
unfolding to_string
set_from-user_key_example =
    set_from-user_key coding [] parsed (λ dst p. (trailer, refl, refl)) (omega arith)

-- Two keys of nine bytes, with different trailers.
abbrev one_key : Slice
one_key = of_string (97 ∷ 1 ∷ 0 ∷ 0 ∷ 0 ∷ 0 ∷ 0 ∷ 0 ∷ 0 ∷ [])

abbrev other_key : Slice
other_key = of_string (97 ∷ 0 ∷ 9 ∷ 0 ∷ 0 ∷ 0 ∷ 0 ∷ 0 ∷ 0 ∷ [])

parse_bounds_example :
    (one_key.size < 8 → parse_internal_key coding one_key ≡ (false, none))
    × (8 ≤ one_key.size
        → (r : Bool) × (p : ParsedInternalKey) × (parse_internal_key coding one_key ≡ (r, some p))
          × (extract_user_key one_key ≡ some p.user_key)
          × (p.sequence < 72057594037927936)
          × ((r ≡ false) ↔ ((c : ℕ) × (p.type ≡ no_type c))))
parse_bounds_example = parse_bounds coding one_key (λ a. omega arith)

abbrev parse_of : Slice → ParsedInternalKey
parse_of k = record { user_key = of_parts k.bytes 1; sequence = 0; type = no_type 10 }

parse_one : parse_internal_key coding one_key ≡ (false, some (parse_of one_key))
unfolding parse_internal_key of_string of_parts cast_type
parse_one = refl

parse_other : parse_internal_key coding other_key ≡ (false, some (parse_of other_key))
unfolding parse_internal_key of_string of_parts cast_type
parse_other = refl

parse_ignores_trailer_example :
    (false ≡ false)
    × ((parse_of one_key).sequence ≡ (parse_of other_key).sequence)
    × ((parse_of one_key).type ≡ (parse_of other_key).type)
unfolding of_string
parse_ignores_trailer_example =
    parse_ignores_trailer coding one_key other_key refl parse_one parse_other
