-- ===== src/Db/Slice.antt =====
-- `Slice` of DB/include/ldb/slice.h.
pub mod Order
pub mod Prefix
use rabbit_log_db.Base.{
  ℕ, zero, suc, ◌-◌, Bool, true, false, List, [], ◌∷◌, Option, none, some, ◌==◌, ltb, leb,
  if◌then◌else◌, Bytes, length, get_elem?, take, drop,
}

-- A pointer stands for the bytes that can be read from it on; `size` of them belong to the slice.
pub record Slice : Type 0 where
  pub bytes : Bytes
  pub size : ℕ

-- The sign of a three-way comparison; `memcmp` promises no more.
pub data Sign : Type 0 where
  negative equal positive : Sign

-- `Slice()`
unfoldable pub empty_slice : Slice
empty_slice = record { bytes = []; size = 0 }

-- `Slice(const std::string&)`
unfoldable pub of_string : Bytes → Slice
of_string s = record { bytes = s; size = length s }

-- `Slice(const char*, size_t)`
unfoldable pub of_parts : Bytes → ℕ → Slice
of_parts d n = record { bytes = d; size = n }

-- `strlen`, which runs out of bounds where there is no NUL.
unfoldable pub strlen : Bytes → Option ℕ
strlen [] = none
strlen (c ∷ cs) =
    if c == 0 then some 0 else elim (strlen cs) [ none ↦ none | some n ↦ some (suc n) ]

-- `Slice(const char*)`
unfoldable pub of_literal : Bytes → Option Slice
unfolding strlen
of_literal s = elim (strlen s) [ none ↦ none | some n ↦ some (record { bytes = s; size = n }) ]

unfoldable pub is_empty : Slice → Bool
is_empty s = s.size == 0

-- `operator[]`; `none` is a failed assertion or a read out of bounds.
unfoldable pub at : Slice → ℕ → Option ℕ
at s n = if ltb n s.size then get_elem? s.bytes n else none

unfoldable pub clear : Slice → Slice
clear s = record { bytes = []; size = 0 }

-- `none` is a failed assertion.
unfoldable pub remove_prefix : Slice → ℕ → Option Slice
remove_prefix s n =
    if leb n s.size then some (record { bytes = drop n s.bytes; size = s.size - n }) else none

-- `ToString`
unfoldable pub to_string : Slice → Bytes
to_string s = take s.size s.bytes

-- `memcmp` of `n` bytes; `none` is a read out of bounds.
unfoldable pub memcmp : ℕ → Bytes → Bytes → Option Sign
memcmp zero xs ys = some equal
memcmp (suc n) [] ys = none
memcmp (suc n) (x ∷ xs) [] = none
memcmp (suc n) (x ∷ xs) (y ∷ ys) =
    if x == y then memcmp n xs ys else if ltb x y then some negative else some positive

-- `r == 0`
unfoldable pub is_zero : Option Sign → Option Bool
is_zero none = none
is_zero (some equal) = some true
is_zero (some negative) = some false
is_zero (some positive) = some false

-- The tests of the sizes where `r` is 0.
unfoldable pub by_size : ℕ → ℕ → Option Sign → Option Sign
by_size n m none = none
by_size n m (some negative) = some negative
by_size n m (some positive) = some positive
by_size n m (some equal) =
    if ltb n m then some negative else if ltb m n then some positive else some equal

-- `Slice::compare`
unfoldable pub compare : Slice → Slice → Option Sign
unfolding memcmp by_size
compare a b =
    let min_len = if ltb a.size b.size then a.size else b.size in
    by_size a.size b.size (memcmp min_len a.bytes b.bytes)

-- `operator==`; `memcmp` is called only where the sizes agree.
unfoldable pub same : Slice → Slice → Option Bool
unfolding memcmp is_zero
same x y = if x.size == y.size then is_zero (memcmp x.size x.bytes y.bytes) else some false

-- `Slice::starts_with`
unfoldable pub starts_with : Slice → Slice → Option Bool
unfolding memcmp is_zero
starts_with s x = if leb x.size s.size then is_zero (memcmp x.size s.bytes x.bytes) else some false
