-- ===== src/Db/Arena.antt =====
-- `Arena::Allocate` of DB/util/arena.h.
pub mod Stacking
use rabbit_log_db.Base.{ℕ, ◌+◌, ◌-◌, List, [], ◌∷◌, Option, none, some, ltb, leb, if◌then◌else◌}

-- `Arena`; the blocks are the addresses they start at.
pub record Arena : Type 0 where
  pub alloc_ptr : ℕ
  pub alloc_bytes_remaining : ℕ
  pub blocks : List ℕ
  pub memory_usage : ℕ

-- `AllocateFallback`, which has no body in the repository: the address and the new state.
abbrev pub Fallback : Type 0
Fallback = Arena → ℕ → ℕ × Arena

-- `Arena::Allocate`; `none` is a failed assertion.
unfoldable pub allocate : Fallback → Arena → ℕ → Option (ℕ × Arena)
allocate fallback ar bytes =
    if ltb 0 bytes
    then (if leb bytes ar.alloc_bytes_remaining
        then some (
          ar.alloc_ptr,
          record ar {
            alloc_ptr = ar.alloc_ptr + bytes;
            alloc_bytes_remaining = ar.alloc_bytes_remaining - bytes;
          },
        )
        else some (fallback ar bytes))
    else none

-- `Arena::MemoryUsage`
unfoldable pub memory_usage_of : Arena → ℕ
memory_usage_of ar = ar.memory_usage

-- Several calls, one after the other.
unfoldable pub allocate_all : Fallback → Arena → List ℕ → Option (List ℕ × Arena)
unfolding allocate
allocate_all fallback ar [] = some ([], ar)
allocate_all fallback ar (n ∷ ns) = elim (allocate fallback ar n) [
  | none ↦ none
  | some (p, ar') ↦ elim (allocate_all fallback ar' ns) [
    | none ↦ none
    | some (ps, ar'') ↦ some (p ∷ ps, ar'')
  ]
]
