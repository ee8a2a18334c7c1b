-- ===== src/Db/Stats/Totals.antt =====
-- Adding the statistics of compactions up.
use rabbit_log_db.Base.{
  ℕ, ◌+◌, ◌≤◌, ◌<◌, List, [], ◌∷◌, Option, none, some, ◌≡◌, ◌⊎◌, inl, inr, refl, ◌∙◌, arith, ltb,
  if◌then◌else◌, Bool-cases,
}
use rabbit_log_db.Base.Int.{pos, ◌+ℤ◌}
use rabbit_log_db.Db.Stats.{CompactionStats, new_stats, is_int64, add_int64, add, add_all}

abbrev limit : ℕ
limit = 9223372036854775808

-- What one compaction took: times and sizes are not negative.
abbrev pub counts : ℕ → ℕ → ℕ → CompactionStats
counts m r w = record { micros = pos m; bytes_read = pos r; bytes_written = pos w }

add_int64-pos :
    (a b : ℕ) → add_int64 (pos a) (pos b) ≡ (if ltb (a + b) limit then some (pos (a + b)) else none)
unfolding add_int64 is_int64 ◌+ℤ◌
add_int64-pos a b = ground arith

-- The figures of a list of compactions, and their sums.
abbrev pub of_counts : List (ℕ × ℕ × ℕ) → List CompactionStats
of_counts [] = []
of_counts ((m, r, w) ∷ cs) = counts m r w ∷ of_counts cs

-- The three sums, each by itself.
abbrev pub micros_of : List (ℕ × ℕ × ℕ) → ℕ
micros_of [] = 0
micros_of ((m, r, w) ∷ cs) = m + micros_of cs

abbrev pub read_of : List (ℕ × ℕ × ℕ) → ℕ
read_of [] = 0
read_of ((m, r, w) ∷ cs) = r + read_of cs

abbrev pub written_of : List (ℕ × ℕ × ℕ) → ℕ
written_of [] = 0
written_of ((m, r, w) ∷ cs) = w + written_of cs

-- All three figures are in range.
abbrev pub InRange : ℕ → ℕ → ℕ → Type 0
InRange a b c = (a < 9223372036854775808) × (b < 9223372036854775808) × (c < 9223372036854775808)

add-counts :
    (a b c m r w : ℕ)
    → InRange (a + m) (b + r) (c + w)
    → add (counts a b c) (counts m r w) ≡ some (counts (a + m) (b + r) (c + w))
unfolding add add_int64 is_int64 ◌+ℤ◌
add-counts a b c m r w h = ground arith

add-overflow :
    (a b c m r w : ℕ)
    → (limit ≤ a + m) ⊎ ((limit ≤ b + r) ⊎ (limit ≤ c + w))
    → add (counts a b c) (counts m r w) ≡ none
unfolding add add_int64 is_int64 ◌+ℤ◌
add-overflow a b c m r w h = ground arith

same :
    {a b c a' b' c' : ℕ}
    → a ≡ a'
    → b ≡ b'
    → c ≡ c'
    → ◌≡◌ {A = Option CompactionStats} (some (counts a b c)) (some (counts a' b' c'))
same e f g = cc

InRange-cases : (a b c : ℕ) → InRange a b c ⊎ ((limit ≤ a) ⊎ ((limit ≤ b) ⊎ (limit ≤ c)))
InRange-cases a b c = elim (Bool-cases (ltb a limit)) [
  | inr h ↦ inr (inl (ground arith))
  | inl h ↦ elim (Bool-cases (ltb b limit)) [
    | inr k ↦ inr (inr (inl (ground arith)))
    | inl k ↦ elim (Bool-cases (ltb c limit)) [
      | inr l ↦ inr (inr (inr (ground arith)))
      | inl l ↦ inl (ground arith, ground arith, ground arith)
    ]
  ]
]

regroup :
    (a m x b r y c w z : ℕ)
    → (limit ≤ a + (m + x)) ⊎ ((limit ≤ b + (r + y)) ⊎ (limit ≤ c + (w + z)))
    → (limit ≤ a + m + x) ⊎ ((limit ≤ b + r + y) ⊎ (limit ≤ c + w + z))
regroup a m x b r y c w z (inl h) = inl (omega arith)
regroup a m x b r y c w z (inr (inl h)) = inr (inl (omega arith))
regroup a m x b r y c w z (inr (inr h)) = inr (inr (omega arith))

from_zero :
    {x y z : ℕ}
    → (limit ≤ x) ⊎ ((limit ≤ y) ⊎ (limit ≤ z))
    → (limit ≤ 0 + x) ⊎ ((limit ≤ 0 + y) ⊎ (limit ≤ 0 + z))
from_zero (inl h) = inl (omega arith)
from_zero (inr (inl h)) = inr (inl (omega arith))
from_zero (inr (inr h)) = inr (inr (omega arith))

add_all-counts :
    (cs : List (ℕ × ℕ × ℕ)) (a b c : ℕ)
    → InRange (a + micros_of cs) (b + read_of cs) (c + written_of cs)
    → add_all (counts a b c) (of_counts cs)
      ≡ some (counts (a + micros_of cs) (b + read_of cs) (c + written_of cs))
unfolding add_all
add_all-counts [] a b c h = same (omega arith) (omega arith) (omega arith)
add_all-counts ((m, r, w) ∷ cs) a b c h =
    rw (add-counts a b c m r w (omega arith), add_all)
      (add_all-counts cs (a + m) (b + r) (c + w) (omega arith)
        ∙ same (omega arith) (omega arith) (omega arith))

add_all-overflow :
    (cs : List (ℕ × ℕ × ℕ)) (a b c : ℕ)
    → InRange a b c
    → (limit ≤ a + micros_of cs) ⊎ ((limit ≤ b + read_of cs) ⊎ (limit ≤ c + written_of cs))
    → add_all (counts a b c) (of_counts cs) ≡ none
unfolding add_all
add_all-overflow [] a b c k (inl h) = absurd (omega arith)
add_all-overflow [] a b c k (inr (inl h)) = absurd (omega arith)
add_all-overflow [] a b c k (inr (inr h)) = absurd (omega arith)
add_all-overflow ((m, r, w) ∷ cs) a b c k h = elim (InRange-cases (a + m) (b + r) (c + w)) [
  | inl fits ↦
      rw (add-counts a b c m r w fits, add_all)
        (add_all-overflow cs (a + m) (b + r) (c + w) fits
          (regroup a m (micros_of cs) b r (read_of cs) c w (written_of cs) h))
  | inr over ↦ rw (add-overflow a b c m r w over, add_all) refl
]

-- The totals of compactions with figures that are not negative: if the three sums fit in 63 bits they
-- are what adding the compactions up gives, and if one does not, adding overflows on the way.
pub add_all_bounds :
    (cs : List (ℕ × ℕ × ℕ))
    → (InRange (micros_of cs) (read_of cs) (written_of cs)
        → add_all new_stats (of_counts cs)
          ≡ some (counts (micros_of cs) (read_of cs) (written_of cs)))
      × ((9223372036854775808 ≤ micros_of cs)
            ⊎ ((9223372036854775808 ≤ read_of cs) ⊎ (9223372036854775808 ≤ written_of cs))
          → add_all new_stats (of_counts cs) ≡ none)
unfolding new_stats
add_all_bounds cs = (
  λ h. add_all-counts cs 0 0 0 (omega arith) ∙ same (omega arith) (omega arith) (omega arith),
  λ h. add_all-overflow cs 0 0 0 (omega arith) (from_zero h),
)
