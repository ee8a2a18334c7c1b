-- ===== src/Db/Stats.antt =====
-- The statistics and the manual compactions of DB/db/db_impl.h.
pub mod Totals
use rabbit_log_db.Base.{
  ℕ, suc, ◌&&◌, List, [], ◌∷◌, Option, none, some, Bool, true, false, leb, ltb, if◌then◌else◌,
}
use rabbit_log_db.Base.Int.{ℤ, pos, negsuc, ◌+ℤ◌}
use rabbit_log_db.Db.Key.{InternalKey}

-- `CompactionStats`
pub record CompactionStats : Type 0 where
  pub micros : ℤ
  pub bytes_read : ℤ
  pub bytes_written : ℤ

-- `CompactionStats()`
unfoldable pub new_stats : CompactionStats
new_stats = record { micros = pos 0; bytes_read = pos 0; bytes_written = pos 0 }

-- The values of `int64_t`.
unfoldable pub is_int64 : ℤ → Bool
is_int64 (pos n) = ltb n 9223372036854775808
is_int64 (negsuc n) = ltb n 9223372036854775808

-- `+=` on an `int64_t`; `none` is an overflow, which is undefined.
unfoldable pub add_int64 : ℤ → ℤ → Option ℤ
unfolding is_int64 ◌+ℤ◌
add_int64 a b = if is_int64 (a +ℤ b) then some (a +ℤ b) else none

infixl 5 ◌>>=◌
abbrev ◌>>=◌ : {A B : Type 0} → Option A → (A → Option B) → Option B
none >>= f = none
some a >>= f = f a

-- `CompactionStats::Add`
unfoldable pub add : CompactionStats → CompactionStats → Option CompactionStats
unfolding add_int64
add s c = do
  micros ← add_int64 s.micros c.micros
  bytes_read ← add_int64 s.bytes_read c.bytes_read
  bytes_written ← add_int64 s.bytes_written c.bytes_written
  some (record { micros = micros; bytes_read = bytes_read; bytes_written = bytes_written })

-- The statistics of several compactions, added one after the other.
unfoldable pub add_all : CompactionStats → List CompactionStats → Option CompactionStats
unfolding add
add_all s [] = some s
add_all s (c ∷ cs) = do s' ← add s c; add_all s' cs

-- `ManualCompaction`; a null bound is `none`.
pub record ManualCompaction : Type 0 where
  pub level : ℤ
  pub is_done : Bool
  pub begin : Option InternalKey
  pub end : Option InternalKey
  pub tmp_storage : InternalKey
