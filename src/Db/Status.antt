-- ===== src/Db/Status.antt =====
-- `Status` of DB/include/ldb/status.h: a pointer to an array on the heap, or null.
pub mod Assigning
pub mod Errors
pub mod Answering
use rabbit_log_db.Base.{
  ℕ, Bool, true, false, List, [], ◌∷◌, Option, none, some, ◌==◌, if◌then◌else◌, Bytes, get_elem?,
  set,
}

-- A cast of another number gives a value that is no enumerator.
pub data Code : Type 0 where
  ok not_found corruption not_supported invalid_argument io_error : Code
  no_code : ℕ → Code

unfoldable pub cast_code : ℕ → Code
cast_code c =
    if c == 0
    then ok
    else if c == 1
    then not_found
    else if c == 2
    then corruption
    else if c == 3
    then not_supported
    else if c == 4
    then invalid_argument
    else if c == 5
    then io_error
    else no_code c

-- The arrays by address; a deleted one is `none`.
abbrev pub Heap : Type 0
Heap = List (Option Bytes)

unfoldable pub at : Heap → ℕ → Option Bytes
at h a = elim (get_elem? h a) [ none ↦ none | some b ↦ b ]

-- `state_`
abbrev pub State : Type 0
State = Option ℕ

-- `CopyState`, which has no body in the repository: the address of the copy and the new heap.
abbrev pub Copier : Type 0
Copier = Heap → ℕ → Option (ℕ × Heap)

-- The default constructor.
abbrev pub new_status : State
new_status = none

-- `Status::ok`
unfoldable pub is_ok : State → Bool
is_ok none = true
is_ok (some a) = false

-- `Status::code`; `none` is a read of a deleted array or out of bounds.
unfoldable pub code : Heap → State → Option Code
unfolding at cast_code
code h none = some ok
code h (some a) = elim (at h a) [
  | none ↦ none
  | some b ↦ elim (get_elem? b 4) [ none ↦ none | some c ↦ some (cast_code c) ]
]

-- The destructor, `delete[]`; `none` is a second deletion.
unfoldable pub destroy : Heap → State → Option Heap
unfolding at
destroy h none = some h
destroy h (some a) = elim (at h a) [ none ↦ none | some b ↦ some (set h a none) ]

-- The copy constructor: the new state and the heap.
unfoldable pub copy_of : Copier → Heap → State → Option (State × Heap)
copy_of copy h none = some (none, h)
copy_of copy h (some a) = elim (copy h a) [ none ↦ none | some (a', h') ↦ some (some a', h') ]

-- The move constructor: the new state, and the one that the argument is left with.
unfoldable pub move_of : State → State × State
move_of rhs = (rhs, none)

-- `state_ == rhs.state_`
unfoldable pub same_state : State → State → Bool
same_state none none = true
same_state none (some b) = false
same_state (some a) none = false
same_state (some a) (some b) = a == b

-- `operator=(const Status&)`
unfoldable pub assign : Copier → Heap → State → State → Option (State × Heap)
unfolding same_state destroy copy_of
assign copy h this rhs =
    if same_state this rhs
    then some (this, h)
    else elim (destroy h this) [ none ↦ none | some h' ↦ copy_of copy h' rhs ]

-- `operator=(Status&&)`: the states of the two after it.
unfoldable pub move_assign : State → State → State × State
move_assign this rhs = (rhs, this)
