-- ===== src/Db/Comparator.antt =====
-- The interface `Comparator` of DB/include/ldb/comparator.h, and `InternalKeyComparator` of
-- DB/db/dbformat.h.
pub mod Idle
pub mod Keys
use rabbit_log_db.Base.{ℕ, ◌≤◌, Option, none, some, ◌≡◌, ◌≢◌, Bytes, length}
use rabbit_log_db.Db.Key.{InternalKey, encode}
use rabbit_log_db.Db.Slice.{Slice, Sign, negative, equal, positive, of_string, to_string}
use rabbit_log_db.Db.Slice.Order.{IsValid, flip}

pub record Comparator : Type 0 where
  pub compare : Slice → Slice → Sign
  pub name : Bytes
  -- `FindShortestSeparator`: the new text of `start`.
  pub find_shortest_separator : Bytes → Slice → Bytes
  -- `FindShortSuccessor`: the new text of `key`.
  pub find_short_successor : Bytes → Bytes

-- "A total order across slices", on slices within their bounds.
pub record TotalOrder (c : Comparator) : Type 0 where
  pub flips : (a b : Slice) → IsValid a → IsValid b → c.compare b a ≡ flip (c.compare a b)
  pub equals : (a : Slice) → IsValid a → c.compare a a ≡ equal
  pub below :
      (x y z : Slice)
      → IsValid x
      → IsValid y
      → IsValid z
      → c.compare x y ≡ negative
      → c.compare y z ≡ negative
      → c.compare x z ≡ negative

-- What the comments promise of the advanced functions: a separator stands from `start` to before
-- `limit`, if `start` is below `limit`; a successor is not below the key.
pub record Shortens (c : Comparator) : Type 0 where
  pub separates :
      (start : Bytes) (limit : Slice)
      → IsValid limit
      → c.compare (of_string start) limit ≡ negative
      → (c.compare (of_string (c.find_shortest_separator start limit)) (of_string start) ≢ negative)
        × (c.compare (of_string (c.find_shortest_separator start limit)) limit ≡ negative)
  pub succeeds :
      (key : Bytes) → c.compare (of_string (c.find_short_successor key)) (of_string key) ≢ negative

-- `InternalKeyComparator`: the comparison of encoded keys, which has no body in the repository, belongs
-- to the comparator that it is.
pub record InternalKeyComparator : Type 0 where
  pub user_comparator : Comparator
  pub encoded : Comparator

-- `InternalKeyComparator::Compare` of two internal keys; `none` is a failed assertion in `Encode`.
unfoldable pub compare_keys : InternalKeyComparator → InternalKey → InternalKey → Option Sign
unfolding encode
compare_keys c a b = elim (encode a) [
  | none ↦ none
  | some x ↦ elim (encode b) [ none ↦ none | some y ↦ some (c.encoded.compare x y) ]
]
