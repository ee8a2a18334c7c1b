-- ===== src/Db/Status/Answering.antt =====
-- Which queries the named errors of DB/include/ldb/status.h answer.
use rabbit_log_db.Base.{
  ℕ, Bool, true, false, Option, none, some, ◌≡◌, refl, ap, ◌∙◌, Bytes, get_elem?,
}
use rabbit_log_db.Db.Slice.{Slice}
use rabbit_log_db.Db.Status.Assigning.{IsLive, code-at}
use rabbit_log_db.Db.Status.Errors.{
  Maker, code_number, same_code, ok_status, made_status, not_found_error, corruption_error,
  not_supported_error, invalid_argument_error, io_error_error, has_code, is_not_found,
  is_corruption, is_io_error, is_not_supported_error, is_invalid_argument,
}
use rabbit_log_db.Db.Status.{
  Code, not_found, corruption, not_supported, invalid_argument, io_error, Heap, State, at, code,
  cast_code, is_ok,
}

-- "state_ is a new[] array", with the code in its fifth byte; the other arrays stay.
abbrev pub MakesArray : Maker → Type 0
MakesArray make =
    (h : Heap) (c : Code) (msg msg2 : Slice)
    → (a : ℕ) × (h' : Heap) × (b : Bytes) × (make h c msg msg2 ≡ some (a, h'))
      × (at h' a ≡ some b)
      × (get_elem? b 4 ≡ some (code_number c))
      × ((x : ℕ) (d : Bytes) → at h x ≡ some d → at h' x ≡ some d)

-- The errors and, in the same order, the answers to the queries.
pub data Kind : Type 0 where
  missing corrupt unsupported invalid io : Kind

unfoldable pub error_of : Kind → Maker → Heap → Slice → Slice → Option (State × Heap)
unfolding not_found_error corruption_error not_supported_error invalid_argument_error io_error_error
error_of missing make h msg msg2 = not_found_error make h msg msg2
error_of corrupt make h msg msg2 = corruption_error make h msg msg2
error_of unsupported make h msg msg2 = not_supported_error make h msg msg2
error_of invalid make h msg msg2 = invalid_argument_error make h msg msg2
error_of io make h msg msg2 = io_error_error make h msg msg2

unfoldable pub asks : Kind → Heap → State → Option Bool
unfolding is_not_found is_corruption is_not_supported_error is_invalid_argument is_io_error
asks missing h s = is_not_found h s
asks corrupt h s = is_corruption h s
asks unsupported h s = is_not_supported_error h s
asks invalid h s = is_invalid_argument h s
asks io h s = is_io_error h s

unfoldable pub same_kind : Kind → Kind → Bool
same_kind missing missing = true
same_kind corrupt corrupt = true
same_kind unsupported unsupported = true
same_kind invalid invalid = true
same_kind io io = true
same_kind _ _ = false

-- The code that the error of a kind is made with.
unfoldable kind_code : Kind → Code
kind_code missing = not_found
kind_code corrupt = corruption
kind_code unsupported = not_supported
kind_code invalid = invalid_argument
kind_code io = io_error

error_of-made :
    (k : Kind) (make : Maker) (h : Heap) (msg msg2 : Slice)
    → error_of k make h msg msg2 ≡ made_status make h msg msg2 (kind_code k)
unfolding error_of kind_code
error_of-made missing make h msg msg2 = refl
error_of-made corrupt make h msg msg2 = refl
error_of-made unsupported make h msg msg2 = refl
error_of-made invalid make h msg msg2 = refl
error_of-made io make h msg msg2 = refl

asks-has_code : (q : Kind) (h : Heap) (s : State) → asks q h s ≡ has_code h s (kind_code q)
unfolding asks kind_code
asks-has_code missing h s = refl
asks-has_code corrupt h s = refl
asks-has_code unsupported h s = refl
asks-has_code invalid h s = refl
asks-has_code io h s = refl

code_back : (k : Kind) → cast_code (code_number (kind_code k)) ≡ kind_code k
unfolding cast_code code_number kind_code
code_back missing = refl
code_back corrupt = refl
code_back unsupported = refl
code_back invalid = refl
code_back io = refl

each_kind :
    (P : Kind → Type 0)
    → P missing
    → P corrupt
    → P unsupported
    → P invalid
    → P io
    → (k : Kind) → P k
each_kind P a b c d e missing = a
each_kind P a b c d e corrupt = b
each_kind P a b c d e unsupported = c
each_kind P a b c d e invalid = d
each_kind P a b c d e io = e

same-kinds : (k q : Kind) → same_code (kind_code k) (kind_code q) ≡ same_kind k q
unfolding same_code kind_code same_kind code_number
same-kinds =
    each_kind (λ k. (q : Kind) → same_code (kind_code k) (kind_code q) ≡ same_kind k q)
      (each_kind _ refl refl refl refl refl) (each_kind _ refl refl refl refl refl)
      (each_kind _ refl refl refl refl refl) (each_kind _ refl refl refl refl refl)
      (each_kind _ refl refl refl refl refl)

-- The status that is ok is none of the errors.
ok_asks : (q : Kind) (h : Heap) → asks q h ok_status ≡ some false
unfolding asks has_code code same_code code_number
ok_asks missing h = refl
ok_asks corrupt h = refl
ok_asks unsupported h = refl
ok_asks invalid h = refl
ok_asks io h = refl

made-code :
    (k q : Kind) (h' : Heap) (a : ℕ) (b : Bytes)
    → at h' a ≡ some b
    → get_elem? b 4 ≡ some (code_number (kind_code k))
    → asks q h' (some a) ≡ some (same_kind k q)
unfolding has_code code
made-code k q h' a b e f =
    asks-has_code q h' (some a) ∙ rw (e, f, code_back k, has_code, code) (ap some (same-kinds k q))

kept_code :
    (h h' : Heap)
    → ((x : ℕ) (d : Bytes) → at h x ≡ some d → at h' x ≡ some d)
    → (t : State) → IsLive h t
    → code h' t ≡ code h t
unfolding code
kept_code h h' rest none live = refl
kept_code h h' rest (some x) (d, e) = code-at h h' x x d e (rest x d e)

-- If the constructor makes an array that holds the code in its fifth byte, and leaves the others alone,
-- then making a named error succeeds. The status is not ok, of the five queries it answers yes to the one
-- of its name and no to the others, and every other live status has the code that it had. A status that
-- is ok answers no to all five.
pub error_of-answers :
    (make : Maker) (k : Kind) (h : Heap) (msg msg2 : Slice)
    → MakesArray make
    → (s : State) × (h' : Heap) × (error_of k make h msg msg2 ≡ some (s, h'))
      × (is_ok s ≡ false)
      × ((q : Kind) → asks q h' s ≡ some (same_kind k q))
      × ((t : State) → IsLive h t → code h' t ≡ code h t)
      × ((q : Kind) → asks q h' ok_status ≡ some false)
unfolding is_ok made_status
error_of-answers make k h msg msg2 makes =
    let (a, h', b, run, here, fifth, rest) = makes h (kind_code k) msg msg2 in
    (
      some a,
      h',
      error_of-made k make h msg msg2 ∙ rw (run, made_status) refl,
      refl,
      λ q. made-code k q h' a b here fifth,
      λ t live. kept_code h h' rest t live,
      λ q. ok_asks q h',
    )
