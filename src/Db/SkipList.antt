-- ===== src/Db/SkipList.antt =====
-- `SkipList` of DB/db/skiplist.h: the parts with a body, and the interface that its comments describe.
pub mod Traversal
use rabbit_log_db.Base.{
  ℕ, zero, suc, ◌+◌, ◌<◌, ◌≤◌, List, [], ◌∷◌, Option, none, some, Bool, true, false, ◌≡◌, ◌≢◌, ◌↔◌,
  length, get_elem?,
}
use rabbit_log_db.Base.Int.{ℤ, pos, negsuc}
use rabbit_log_db.Db.Slice.{Sign, negative, equal, positive}

-- A three-way result is 0.
unfoldable pub is_equal : Sign → Bool
is_equal negative = false
is_equal equal = true
is_equal positive = false

-- `Equal`
unfoldable pub same_key {ℓ} : {Key : Type ℓ} → (Key → Key → Sign) → Key → Key → Bool
unfolding is_equal
same_key compare a b = is_equal (compare a b)

-- `Node`, with its links; a null link is `none`.
pub record Node {ℓ} (Key : Type ℓ) : Type ℓ where
  pub key : Key
  pub links : List (Option ℕ)

-- `Node::Next`; `none` is a failed assertion or a level past the links.
unfoldable pub next_link {ℓ} : {Key : Type ℓ} → Node Key → ℤ → Option (Option ℕ)
next_link n (pos i) = get_elem? n.links i
next_link n (negsuc i) = none

-- `Node::SetNext`, whose body is empty.
unfoldable pub set_next {ℓ} : {Key : Type ℓ} → Node Key → ℤ → Option ℕ → Node Key
set_next n i x = n

-- `kMaxHeight`
abbrev pub max_height : ℕ
max_height = 12

-- The public methods of a list of type `S` and of an iterator of type `It`, which have no body in the
-- repository; a method that wants a valid iterator gives `none` on another.
pub record SkipList (Key S It : Type 0) : Type 0 where
  pub compare : Key → Key → Sign
  pub insert : Key → S → S
  pub contains : Key → S → Bool
  pub iterator : S → It
  pub valid : It → Bool
  pub key : It → Option Key
  pub next : It → Option It
  pub prev : It → Option It
  pub seek : Key → It → It
  pub seek_to_first : It → It
  pub seek_to_last : It → It
