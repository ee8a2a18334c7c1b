-- ===== src/Db/Key.antt =====
-- Internal keys of DB/db/dbformat.h: a user key with a sequence number and a type behind it.
use rabbit_log_db.Base.{
  ℕ, ◌+◌, ◌-◌, ◌/◌, ◌%◌, Bool, true, false, ◌&&◌, [], ◌∷◌, Option, none, some, ◌==◌, ltb, leb,
  if◌then◌else◌, Bytes, length, drop,
}
use rabbit_log_db.Db.Slice.{Slice, of_parts, of_string, is_empty, to_string}
pub mod Layout

-- A cast of another number gives a value that is no enumerator.
pub data ValueType : Type 0 where
  type_deletion type_value : ValueType
  no_type : ℕ → ValueType

pub record ParsedInternalKey : Type 0 where
  pub user_key : Slice
  pub sequence : ℕ
  pub type : ValueType

-- The functions that are only declared, or not in the repository.
pub record Coding : Type 0 where
  -- `AppendInternalKey`: the string with the serialization behind it.
  pub append_internal_key : Bytes → ParsedInternalKey → Bytes
  -- `DecodeFixed64` of the eight bytes at an address.
  pub decode_fixed64 : ℕ → ℕ

-- `static_cast<ValueType>(c)`
unfoldable pub cast_type : ℕ → ValueType
cast_type c = if c == 0 then type_deletion else if c == 1 then type_value else no_type c

-- `InternalKeyEncodingLength`
unfoldable pub encoding_length : ParsedInternalKey → ℕ
encoding_length key = key.user_key.size + 8

-- `ExtractUserKey`; `none` is a failed assertion.
unfoldable pub extract_user_key : Slice → Option Slice
unfolding of_parts
extract_user_key internal_key =
    if leb 8 internal_key.size
    then some (of_parts internal_key.bytes (internal_key.size - 8))
    else none

-- `ParseInternalKey`: the answer and, past the length test, the result. The number is read at the
-- address that the source computes, from the size of the key and not from its data.
unfoldable pub parse_internal_key : Coding → Slice → Bool × Option ParsedInternalKey
unfolding of_parts cast_type
parse_internal_key coding internal_key =
    let n = internal_key.size in
    if ltb n 8
    then (false, none)
    else (let num = coding.decode_fixed64 ((internal_key.size + n - 8) % 18446744073709551616) in
        let c = num % 256 in
        (
          leb c 1,
          some (record {
            user_key = of_parts internal_key.bytes (n - 8);
            sequence = num / 256;
            type = cast_type c;
          }),
        ))

-- An `InternalKey` is its string `rep_`; the empty one is invalid.
abbrev pub InternalKey : Type 0
InternalKey = Bytes

-- `InternalKey(user_key, s, t)`
unfoldable pub new_key : Coding → Slice → ℕ → ValueType → InternalKey
new_key coding u s t =
    coding.append_internal_key [] (record { user_key = u; sequence = s; type = t })

-- `InternalKey::DecodeFrom`: the answer and the new string.
unfoldable pub decode_from : Slice → Bool × InternalKey
unfolding to_string
decode_from s = let rep = to_string s in (if length rep == 0 then false else true, rep)

-- `InternalKey::Encode`; `none` is a failed assertion.
unfoldable pub encode : InternalKey → Option Slice
unfolding of_string
encode rep = if length rep == 0 then none else some (of_string rep)

-- `InternalKey::user_key`
unfoldable pub key_user_key : InternalKey → Option Slice
unfolding extract_user_key of_string
key_user_key rep = extract_user_key (of_string rep)

-- `InternalKey::SetFrom`
unfoldable pub set_from : Coding → InternalKey → ParsedInternalKey → InternalKey
set_from coding rep p = coding.append_internal_key [] p

-- `InternalKey::Clear`
unfoldable pub clear_key : InternalKey → InternalKey
clear_key rep = []

-- A `LookupKey` is its buffer, with the places of the three pointers in it.
pub record LookupKey : Type 0 where
  pub space : Bytes
  pub start : ℕ
  pub kstart : ℕ
  pub end : ℕ

-- `LookupKey::memtable_key`
unfoldable pub memtable_key : LookupKey → Slice
unfolding of_parts
memtable_key k = of_parts (drop k.start k.space) (k.end - k.start)

-- `LookupKey::internal_key`
unfoldable pub internal_key : LookupKey → Slice
unfolding of_parts
internal_key k = of_parts (drop k.kstart k.space) (k.end - k.kstart)

-- `LookupKey::user_key`
unfoldable pub lookup_user_key : LookupKey → Slice
unfolding of_parts
lookup_user_key k = of_parts (drop k.kstart k.space) (k.end - k.kstart - 8)
