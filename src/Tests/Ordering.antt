-- ===== src/Tests/Ordering.antt =====
-- Tests of the comparators, the skip list, the statistics, the singletons and the first draft.
use rabbit_log_db.Base.{
  ℕ, suc, ◌+◌, ◌≤◌, ◌⊎◌, List, [], ◌∷◌, Option, none, some, ◌≡◌, refl, arith, Bool, true, false,
  Bytes, codes, length, drop, get_elem?, ltb, if◌then◌else◌,
}
use rabbit_log_db.Db.Comparator.Idle.{bytewise, bytewise-TotalOrder, idle, idle-Shortens}
use rabbit_log_db.Db.Comparator.Keys.{compare_keys_total}
use rabbit_log_db.Db.Comparator.{InternalKeyComparator, TotalOrder, Shortens, compare_keys}
use rabbit_log_db.Db.SkipList.Traversal.{Documented, walk, below, holds, walk-entries}
use rabbit_log_db.Db.SkipList.{SkipList}
use rabbit_log_db.Db.Slice.{Sign, negative, equal, positive}
use rabbit_log_db.Db.Slice.Order.{flip}
use rabbit_log_db.Db.Stats.Totals.{counts, of_counts, InRange, add_all_bounds}
use rabbit_log_db.Db.Stats.{new_stats, add_all}
use rabbit_log_db.Utils.Singleton.Counting.{Use, built, another, get_instance_twice, Use-alive}
use rabbit_log_db.Utils.Singleton.{Shared, get_instance, get_instance_ptr}

idle-Shortens_example : TotalOrder (idle bytewise) × Shortens (idle bytewise)
idle-Shortens_example = idle-Shortens bytewise bytewise-TotalOrder

abbrev keys : InternalKeyComparator
keys = record { user_comparator = bytewise; encoded = bytewise }

abbrev a : Bytes
a = codes "a"

abbrev b : Bytes
b = codes "b"

abbrev c : Bytes
c = codes "c"

compare_keys_total_example :
    (s : Sign) × (compare_keys keys a b ≡ some s)
    × (compare_keys keys b a ≡ some (flip s))
    × (a ≡ b → s ≡ equal)
    × (s ≡ negative → compare_keys keys b c ≡ some negative → compare_keys keys a c ≡ some negative)
    × (compare_keys keys a [] ≡ none)
    × (compare_keys keys [] b ≡ none)
compare_keys_total_example =
    compare_keys_total keys a b c bytewise-TotalOrder (λ e. cc) (λ e. cc) (λ e. cc)

abbrev figures : List (ℕ × ℕ × ℕ)
figures = (3, 10, 5) ∷ (4, 20, 6) ∷ []

add_all_bounds_example :
    (InRange 7 30 11 → add_all new_stats (of_counts figures) ≡ some (counts 7 30 11))
    × ((9223372036854775808 ≤ 7) ⊎ ((9223372036854775808 ≤ 30) ⊎ (9223372036854775808 ≤ 11))
        → add_all new_stats (of_counts figures) ≡ none)
add_all_bounds_example = add_all_bounds figures

-- The constructor counts the instances made.
abbrev make : ℕ → Option (ℕ × ℕ)
make n = some (n, n + 1)

abbrev one : Option ℕ
one = some 0

get_instance_twice_example : (one ≡ some 0) × (get_instance make (some 0) 5 ≡ some (0, (some 0, 5)))
unfolding get_instance
get_instance_twice_example = get_instance_twice make none 0 1 5 0 (some 0) refl

abbrev pair : Shared ℕ
pair = record { object = 0; count = 2 }

used : Use make 0 2 (some (record { object = 0; count = 3 }))
unfolding get_instance_ptr
used = another 0 5 5 (built {v = some pair} 0 1 refl) refl

Use-alive_example :
    (x : Shared ℕ) × (some (record { object = 0; count = 3 }) ≡ some x)
    × (x.object ≡ 0)
    × (x.count ≡ 3)
    × ((t : ℕ)
        → (w : Option (Shared ℕ)) × (get_instance_ptr make
              (some (record { object = 0; count = 3 }))
              t
            ≡ some (0, (w, t))))
Use-alive_example = Use-alive make 0 used

-- A list of numbers in order; an iterator is the list with a place.
unfoldable order : ℕ → ℕ → Sign
order x y = if ltb x y then negative else if ltb y x then positive else equal

abbrev It : Type 0
It = List ℕ × ℕ

abbrev step : Bool → It → Option It
step true (xs, i) = some (xs, suc i)
step false it = none

abbrev bare : SkipList ℕ (List ℕ) It
bare = record {
  compare = order;
  insert = λ k s. k ∷ s;
  contains = λ k s. false;
  iterator = λ s. (s, length s);
  valid = λ it. ltb it.1 (length it.0);
  key = λ it. get_elem? it.0 it.1;
  next = λ it. step (ltb it.1 (length it.0)) it;
  prev = λ it. none;
  seek = λ k it. it;
  seek_to_first = λ it. (it.0, 0);
  seek_to_last = λ it. it;
}

abbrev numbers : SkipList ℕ (List ℕ) It
numbers = record bare { contains = λ k s. holds bare k s; seek = λ k it. (it.0, below bare k it.0) }

numbers-Documented : Documented numbers
unfolding holds below
numbers-Documented = record {
  entries = λ s. s;
  over = λ it. it.0;
  place = λ it. it.1;
  contains_iff = λ k s. holds_same k s;
  iterator_over = λ s. refl;
  iterator_invalid = λ s. ground arith;
  valid_place = λ it. refl;
  key_place = λ it. refl;
  next_place = λ it h. ((it.0, suc it.1), rw h refl, refl, refl);
  first_place = λ it. (refl, refl);
  seek_place = λ k it. (refl, below_same k it.0);
}
  where
    holds_same : (k : ℕ) (xs : List ℕ) → holds bare k xs ≡ holds numbers k xs
    holds_same k [] = refl
    holds_same k (x ∷ xs) = ground (arith, holds_same k xs)

    below_same : (k : ℕ) (xs : List ℕ) → below bare k xs ≡ below numbers k xs
    below_same k [] = refl
    below_same k (x ∷ xs) = ground (arith, below_same k xs)

abbrev three : List ℕ
three = 2 ∷ 4 ∷ 6 ∷ []

walk-entries_example :
    (walk numbers 4 (numbers.seek_to_first (numbers.iterator three)) ≡ some three)
    × (walk numbers 4 (numbers.seek 3 (numbers.iterator three))
        ≡ some (drop (below numbers 3 three) three))
unfolding numbers-Documented
walk-entries_example = walk-entries numbers numbers-Documented three 3 4 (omega arith)
