-- ===== src/Tests/Memory.antt =====
-- Tests of the arena and of the count of a memtable.
use rabbit_log_db.Base.{
  refl, ◌≢◌, zero, suc, ◌++◌, Bytes, length, get_elem?-append_self, ℕ, ◌+◌, ◌≤◌, ◌<◌, List, [], ◌∷◌,
  none, some, false, ◌≡◌, arith, get_elem?,
}
use rabbit_log_db.Db.Arena.Stacking.{sum, taken, allocate_all-apart}
use rabbit_log_db.Db.Arena.{Arena, Fallback, allocate_all}
use rabbit_log_db.Db.Status.{Heap, State, Copier, at, code, assign, is_ok}
use rabbit_log_db.Db.Status.Assigning.{Copies, IsLive, assign-copied}
use rabbit_log_db.Db.Slice.{empty_slice}
use rabbit_log_db.Db.Status.Answering.{
  Kind, corrupt, error_of, asks, same_kind, MakesArray, error_of-answers,
}
use rabbit_log_db.Db.Status.Errors.{Maker, code_number, ok_status}
use rabbit_log_db.Db.MemTable.{live, deleted, ref, unref, and_then, times, ref-unref}

-- A block of 100 bytes.
abbrev block : Arena
block = record {
  alloc_ptr = 4096;
  alloc_bytes_remaining = 100;
  blocks = 4096 ∷ [];
  memory_usage = 108;
}

-- Another block, far above.
abbrev far : Fallback
far ar n = (
  65536,
  record ar { alloc_ptr = 65536 + n; alloc_bytes_remaining = 4096; blocks = 65536 ∷ ar.blocks },
)

allocate_all-apart_example :
    (ps : List ℕ) × (allocate_all far block (30 ∷ 60 ∷ [])
      ≡ some (ps, taken (sum (30 ∷ 60 ∷ [])) block))
    × ((i a n : ℕ)
        → get_elem? ps i ≡ some a
        → get_elem? (30 ∷ 60 ∷ []) i ≡ some n
        → (4096 ≤ a) × (a + n ≤ 4096 + 100))
    × ((i j a n b : ℕ)
        → i < j
        → get_elem? ps i ≡ some a
        → get_elem? (30 ∷ 60 ∷ []) i ≡ some n
        → get_elem? ps j ≡ some b
        → a + n ≤ b)
unfolding sum
allocate_all-apart_example =
    allocate_all-apart far (30 ∷ 60 ∷ []) block (omega arith, (omega arith, tt)) (omega arith)

ref-unref_example :
    (and_then (times 3 ref (live 0)) (times 2 unref) ≡ some (live 1))
    × (and_then (times 3 ref (live 0)) (times 3 unref) ≡ some deleted)
    × (and_then (times 3 ref (live 0)) (times 4 unref) ≡ none)
ref-unref_example = ref-unref 3 2 (omega arith) (omega arith)

-- Two statuses: a corruption and an I/O error, with empty messages.
abbrev target : State
target = some 0

abbrev source : State
source = some 1

abbrev heap : Heap
heap = some (0 ∷ 0 ∷ 0 ∷ 0 ∷ 2 ∷ []) ∷ some (0 ∷ 0 ∷ 0 ∷ 0 ∷ 5 ∷ []) ∷ []

-- A copy at the end of the heap.
abbrev copier : Copier
copier h a = elim (at h a) [ none ↦ none | some b ↦ some (length h, h ++ some b ∷ []) ]

at-concat :
    (xs : Heap) (b : Bytes) (x : ℕ) (c : Bytes)
    → at xs x ≡ some c
    → at (xs ++ some b ∷ []) x ≡ some c
unfolding at
at-concat [] b x c f = cc
at-concat (y ∷ xs) b zero c f = f
at-concat (y ∷ xs) b (suc x) c f = at-concat xs b x c f

copier-Copies : Copies copier
unfolding at
copier-Copies h a b e = (
  length h,
  h ++ some b ∷ [],
  rw (e, copier) refl,
  rw (get_elem?-append_self h (some b), at) refl,
  past h,
  λ x c f. at-concat h b x c f,
)
  where
    past : (xs : Heap) → at xs (length xs) ≡ none
    past [] = refl
    past (x ∷ xs) = past xs

assign-copied_example :
    (this' : State) × (h' : Heap) × (assign copier heap target source ≡ some (this', h'))
    × (code h' this' ≡ code heap source)
    × (code h' source ≡ code heap source)
    × (target ≢ source → (x : ℕ) → this' ≡ some x → source ≢ some x)
    × ((x : ℕ) (c : Bytes) → target ≢ some x → at heap x ≡ some c → at h' x ≡ some c)
unfolding at
assign-copied_example =
    assign-copied copier heap target source copier-Copies (0 ∷ 0 ∷ 0 ∷ 0 ∷ 2 ∷ [], refl)
      (0 ∷ 0 ∷ 0 ∷ 0 ∷ 5 ∷ [], refl)

-- A new array at the end of the heap, with no message.
abbrev maker : Maker
maker h c msg msg2 = some (length h, h ++ some (0 ∷ 0 ∷ 0 ∷ 0 ∷ code_number c ∷ []) ∷ [])

maker-MakesArray : MakesArray maker
unfolding at
maker-MakesArray h c msg msg2 =
    let b = 0 ∷ 0 ∷ 0 ∷ 0 ∷ code_number c ∷ [] in
    (
      length h,
      h ++ some b ∷ [],
      b,
      refl,
      rw (get_elem?-append_self h (some b), at) refl,
      refl,
      λ x d e. at-concat h b x d e,
    )

error_of-answers_example :
    (s : State) × (h' : Heap) × (error_of corrupt maker heap empty_slice empty_slice ≡ some (s, h'))
    × (is_ok s ≡ false)
    × ((q : Kind) → asks q h' s ≡ some (same_kind corrupt q))
    × ((t : State) → IsLive heap t → code h' t ≡ code heap t)
    × ((q : Kind) → asks q h' ok_status ≡ some false)
error_of-answers_example =
    error_of-answers maker corrupt heap empty_slice empty_slice maker-MakesArray
