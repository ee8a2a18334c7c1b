-- ===== src/Db/MemTable.antt =====
-- The reference count of `MemTable` of DB/db/memtable.h.
use rabbit_log_db.Base.{
  ℕ, zero, suc, ◌+◌, ◌-◌, ◌≤◌, ◌<◌, Option, none, some, ◌≡◌, refl, ap, ◌∙◌, arith, ltb, ◌==◌,
  if◌then◌else◌,
}

-- A table with its count, or one that `Unref` deleted.
pub data MemTable : Type 0 where
  live : ℕ → MemTable
  deleted : MemTable

-- `MemTable::Ref`; `none` is an overflow of the signed count, or the use of a deleted table.
unfoldable pub ref : MemTable → Option MemTable
ref (live n) = if ltb n 2147483647 then some (live (n + 1)) else none
ref deleted = none

-- `MemTable::Unref`; `none` is a failed assertion, or the use of a deleted table.
unfoldable pub unref : MemTable → Option MemTable
unref (live n) = if n == 0 then none else if n - 1 == 0 then some deleted else some (live (n - 1))
unref deleted = none

-- A call on what a call before left.
unfoldable pub and_then : Option MemTable → (MemTable → Option MemTable) → Option MemTable
and_then none f = none
and_then (some t) f = f t

-- Several calls of one kind.
unfoldable pub times : ℕ → (MemTable → Option MemTable) → MemTable → Option MemTable
unfolding and_then
times zero f t = some t
times (suc k) f t = and_then (f t) (times k f)

ref-times : (k n : ℕ) → n + k ≤ 2147483647 → times k ref (live n) ≡ some (live (n + k))
unfolding times ref and_then
ref-times zero n h = ap (λ m. some (live m)) (omega arith)
ref-times (suc k) n h =
    let rest : times k ref (live (n + 1)) ≡ some (live (n + 1 + k)) =
      ref-times k (n + 1) (omega arith) in
    ground arith

unref-times : (k n : ℕ) → k < n → times k unref (live n) ≡ some (live (n - k))
unfolding times unref and_then
unref-times zero n h = ap (λ m. some (live m)) (omega arith)
unref-times (suc k) n h =
    let rest : times k unref (live (n - 1)) ≡ some (live (n - 1 - k)) =
      unref-times k (n - 1) (omega arith) in
    ground arith

-- The last holder deletes the table.
unref_last : (n : ℕ) → times (suc n) unref (live (suc n)) ≡ some deleted
unfolding times unref and_then
unref_last zero = refl
unref_last (suc n) =
    let rest : times (suc n) unref (live (suc n)) ≡ some deleted = unref_last n in
    let e : unref (live (suc (suc n))) ≡ some (live (suc n)) = ground arith in
    ap (λ t. and_then t (times (suc n) unref)) e ∙ rest

-- Nobody may let go of it after that.
unref_more : (n : ℕ) → times (suc (suc n)) unref (live (suc n)) ≡ none
unfolding times unref and_then
unref_more zero = refl
unref_more (suc n) =
    let rest : times (suc (suc n)) unref (live (suc n)) ≡ none = unref_more n in
    let e : unref (live (suc (suc n))) ≡ some (live (suc n)) = ground arith in
    ap (λ t. and_then t (times (suc (suc n)) unref)) e ∙ rest

-- A new table that is taken by some holders, up to the bound of the count, stays while fewer of them
-- have let it go, with the count of those that are left; the last one deletes it, and one call more
-- fails.
pub ref-unref :
    (n k : ℕ)
    → n ≤ 2147483647
    → k < n
    → (and_then (times n ref (live 0)) (times k unref) ≡ some (live (n - k)))
      × (and_then (times n ref (live 0)) (times n unref) ≡ some deleted)
      × (and_then (times n ref (live 0)) (times (suc n) unref) ≡ none)
unfolding and_then
ref-unref zero k h lt = absurd (omega arith)
ref-unref (suc m) k h lt =
    let taken : times (suc m) ref (live 0) ≡ some (live (suc m)) =
      ref-times (suc m) 0 (omega arith) ∙ ap (λ n. some (live n)) (omega arith) in
    (
      ap (λ t. and_then t (times k unref)) taken ∙ unref-times k (suc m) lt,
      ap (λ t. and_then t (times (suc m) unref)) taken ∙ unref_last m,
      ap (λ t. and_then t (times (suc (suc m)) unref)) taken ∙ unref_more m,
    )
