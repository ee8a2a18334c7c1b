-- ===== src/Db/Interface.antt =====
-- The interfaces of DB/include/ldb/db.h and write_batch.h, whose methods have no body in the repository,
-- and the accessors of DB/db/write_batch_internal.h.
pub mod Contract
pub mod History
use rabbit_log_db.Base.{ℕ, List, Option, Bool, Bytes, length}
use rabbit_log_db.Db.Slice.{Slice, of_string}
use rabbit_log_db.Db.Status.{Code}

-- `Range`
pub record Range : Type 0 where
  pub start : Slice
  pub limit : Slice

-- `Range(const Slice&, const Slice&)`
unfoldable pub new_range : Slice → Slice → Range
new_range s l = record { start = s; limit = l }

-- `WriteBatch::Handler`, with a state that its methods change.
pub record Handler (H : Type 0) : Type 0 where
  pub put : Slice → Slice → H → H
  pub delete : Slice → H → H

-- `WriteBatch`, as the methods on its values; `rep` is the member.
pub record WriteBatch (B : Type 0) : Type 1 where
  pub rep : B → Bytes
  pub new_batch : B
  pub put : Slice → Slice → B → B
  pub delete : Slice → B → B
  pub clear : B → B
  pub approximate_size : B → ℕ
  pub append : B → B → B
  pub iterate : {H : Type 0} → Handler H → B → H → Code × H

-- `WriteBatchInternal::Contents`
unfoldable pub batch_contents : {B : Type 0} → WriteBatch B → B → Slice
unfolding of_string
batch_contents batch b = of_string (batch.rep b)

-- `WriteBatchInternal::ByteSize`
unfoldable pub byte_size : {B : Type 0} → WriteBatch B → B → ℕ
byte_size batch b = length (batch.rep b)

-- `DB`, as methods on a state of type `S`, with the types of write and read options, batches, iterators
-- and snapshots. A status is its code. `get` and `get_property` take the text that their result pointer
-- leads to and give the new one; a null bound is `none`.
pub record Db (S W R B It Snapshot : Type 0) : Type 0 where
  pub put : W → Slice → Slice → S → Code × S
  pub delete : W → Slice → S → Code × S
  pub write : W → B → S → Code × S
  pub get : R → Slice → Bytes → S → Code × Bytes
  pub new_iterator : R → S → It
  pub get_snapshot : S → Snapshot × S
  pub release_snapshot : Snapshot → S → S
  pub get_property : Slice → Bytes → S → Bool × Bytes
  pub get_approximate_sizes : List Range → S → List ℕ
  pub compact_range : Option Slice → Option Slice → S → S
