-- ===== src/Db/Interface/Contract.antt =====
-- What the comments of the database and of write batches promise.
use rabbit_log_db.Base.{List, [], ◌∷◌, ◌++◌, Option, none, some, ◌≡◌, Bytes, equal, if◌then◌else◌}
use rabbit_log_db.Db.Interface.{Handler, WriteBatch, Db}
use rabbit_log_db.Db.Slice.{Slice, of_string, to_string}
use rabbit_log_db.Db.Status.{ok, not_found}

pub data Update : Type 0 where
  put : Bytes → Bytes → Update
  delete : Bytes → Update

-- The entries of a database, by key.
abbrev pub Entries : Type 0
Entries = Bytes → Option Bytes

unfoldable pub apply_update : Update → Entries → Entries
apply_update (put k v) e j = if equal k j then some v else e j
apply_update (delete k) e j = if equal k j then none else e j

-- Updates in their order.
unfoldable pub apply_all : List Update → Entries → Entries
unfolding apply_update
apply_all [] e = e
apply_all (u ∷ us) e = apply_all us (apply_update u e)

-- A handler that is given updates in their order.
unfoldable pub replay : {H : Type 0} → Handler H → List Update → H → H
unfolding of_string
replay h [] s = s
replay h (put k v ∷ us) s = replay h us (h.put (of_string k) (of_string v) s)
replay h (delete k ∷ us) s = replay h us (h.delete (of_string k) s)

-- A batch holds updates in the order in which they were put in.
pub record DocumentedBatch {B : Type 0} (batch : WriteBatch B) : Type 1 where
  pub updates : B → List Update
  pub new_updates : updates batch.new_batch ≡ []
  pub put_updates :
      (k v : Slice) (b : B)
      → updates (batch.put k v b) ≡ updates b ++ put (to_string k) (to_string v) ∷ []
  pub delete_updates :
      (k : Slice) (b : B) → updates (batch.delete k b) ≡ updates b ++ delete (to_string k) ∷ []
  pub clear_updates : (b : B) → updates (batch.clear b) ≡ []
  pub append_updates : (b c : B) → updates (batch.append b c) ≡ updates b ++ updates c
  pub iterate_replays :
      {H : Type 0} (h : Handler H) (b : B) (s : H)
      → (batch.iterate h b s).0 ≡ ok
      → (batch.iterate h b s).1 ≡ replay h (updates b) s

-- The entries of a database change by what is written with success. `get` gives the value of an entry
-- on success; it answers "not found" only if there is none, and then leaves the text alone.
pub record DocumentedDb {S W R B It Snapshot : Type 0} (db : Db S W R B It Snapshot)
    (updates : B → List Update) : Type 0 where
  pub entries : S → Entries
  pub put_entries :
      (o : W) (k v : Slice) (s : S)
      → (db.put o k v s).0 ≡ ok
      → entries (db.put o k v s).1 ≡ apply_update (put (to_string k) (to_string v)) (entries s)
  pub delete_entries :
      (o : W) (k : Slice) (s : S)
      → (db.delete o k s).0 ≡ ok
      → entries (db.delete o k s).1 ≡ apply_update (delete (to_string k)) (entries s)
  pub write_entries :
      (o : W) (b : B) (s : S)
      → (db.write o b s).0 ≡ ok
      → entries (db.write o b s).1 ≡ apply_all (updates b) (entries s)
  pub get_entry :
      (o : R) (k : Slice) (t : Bytes) (s : S)
      → (db.get o k t s).0 ≡ ok
      → entries s (to_string k) ≡ some (db.get o k t s).1
  pub get_missing :
      (o : R) (k : Slice) (t : Bytes) (s : S)
      → (db.get o k t s).0 ≡ not_found
      → (entries s (to_string k) ≡ none) × ((db.get o k t s).1 ≡ t)
  pub compact_entries : (a b : Option Slice) (s : S) → entries (db.compact_range a b s) ≡ entries s
