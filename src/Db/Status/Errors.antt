-- ===== src/Db/Status/Errors.antt =====
-- The named errors of DB/include/ldb/status.h and the queries for them.
use rabbit_log_db.Base.{ℕ, Bool, Option, none, some, ◌==◌}
use rabbit_log_db.Db.Slice.{Slice}
use rabbit_log_db.Db.Status.{
  Code, ok, not_found, corruption, not_supported, invalid_argument, io_error, no_code, Heap, State,
  code, new_status,
}

-- The private constructor, which has no body in the repository: the address of the array and the heap.
abbrev pub Maker : Type 0
Maker = Heap → Code → Slice → Slice → Option (ℕ × Heap)

-- The number of an enumerator, as a byte of the array.
unfoldable pub code_number : Code → ℕ
code_number ok = 0
code_number not_found = 1
code_number corruption = 2
code_number not_supported = 3
code_number invalid_argument = 4
code_number io_error = 5
code_number (no_code c) = c

unfoldable pub same_code : Code → Code → Bool
unfolding code_number
same_code a b = code_number a == code_number b

-- `Status::OK`
abbrev pub ok_status : State
ok_status = new_status

module _ (make : Maker) (h : Heap) (msg msg2 : Slice) where
  unfoldable pub made_status : Code → Option (State × Heap)
  made_status c = elim (make h c msg msg2) [ none ↦ none | some (a, h') ↦ some (some a, h') ]

  unfoldable pub not_found_error : Option (State × Heap)
  unfolding made_status
  not_found_error = made_status not_found

  unfoldable pub corruption_error : Option (State × Heap)
  unfolding made_status
  corruption_error = made_status corruption

  unfoldable pub not_supported_error : Option (State × Heap)
  unfolding made_status
  not_supported_error = made_status not_supported

  unfoldable pub invalid_argument_error : Option (State × Heap)
  unfolding made_status
  invalid_argument_error = made_status invalid_argument

  unfoldable pub io_error_error : Option (State × Heap)
  unfolding made_status
  io_error_error = made_status io_error

module _ (h : Heap) (s : State) where
  -- `code() == c`; `none` is a read of a deleted array or out of bounds.
  unfoldable pub has_code : Code → Option Bool
  unfolding code same_code
  has_code c = elim (code h s) [ none ↦ none | some d ↦ some (same_code d c) ]

  unfoldable pub is_not_found : Option Bool
  unfolding has_code
  is_not_found = has_code not_found

  unfoldable pub is_corruption : Option Bool
  unfolding has_code
  is_corruption = has_code corruption

  unfoldable pub is_io_error : Option Bool
  unfolding has_code
  is_io_error = has_code io_error

  unfoldable pub is_not_supported_error : Option Bool
  unfolding has_code
  is_not_supported_error = has_code not_supported

  unfoldable pub is_invalid_argument : Option Bool
  unfolding has_code
  is_invalid_argument = has_code invalid_argument
