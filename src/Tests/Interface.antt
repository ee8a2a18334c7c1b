-- ===== src/Tests/Interface.antt =====
-- Tests of the database's interfaces, with a map for the database.
use rabbit_log_db.Base.{
  List, [], ◌∷◌, ◌++◌, Option, none, some, ◌≡◌, refl, false, Bytes, codes, length,
}
use rabbit_log_db.Db.Interface.Contract.{
  Update, put, delete, Entries, apply_update, apply_all, replay, DocumentedBatch, DocumentedDb,
}
use rabbit_log_db.Db.Interface.History.{
  Change, put_call, delete_call, History, none_yet, and_then, put_step, delete_step,
}
use rabbit_log_db.Db.Interface.{WriteBatch, Db}
use rabbit_log_db.Db.Slice.{Slice, of_string, to_string}
use rabbit_log_db.Db.Status.{Code, ok, not_found}

-- A batch is the list of its updates.
abbrev batch : WriteBatch (List Update)
batch = record {
  rep = λ b. [];
  new_batch = [];
  put = λ k v b. b ++ put (to_string k) (to_string v) ∷ [];
  delete = λ k b. b ++ delete (to_string k) ∷ [];
  clear = λ b. [];
  approximate_size = λ b. length b;
  append = λ b c. b ++ c;
  iterate = λ h b s. (ok, replay h b s);
}

batch-Documented : DocumentedBatch batch
batch-Documented = record {
  updates = λ b. b;
  new_updates = refl;
  put_updates = λ k v b. refl;
  delete_updates = λ k b. refl;
  clear_updates = λ b. refl;
  append_updates = λ b c. refl;
  iterate_replays = λ h b s e. refl;
}

abbrev answer : Bytes → Option Bytes → Code × Bytes
answer t none = (not_found, t)
answer t (some v) = (ok, v)

-- A database is the map of its entries.
abbrev db : Db Entries Unit Unit (List Update) Unit Unit
db = record {
  put = λ o k v s. (ok, apply_update (put (to_string k) (to_string v)) s);
  delete = λ o k s. (ok, apply_update (delete (to_string k)) s);
  write = λ o b s. (ok, apply_all b s);
  get = λ o k t s. answer t (s (to_string k));
  new_iterator = λ o s. tt;
  get_snapshot = λ s. (tt, s);
  release_snapshot = λ p s. s;
  get_property = λ p t s. (false, t);
  get_approximate_sizes = λ rs s. [];
  compact_range = λ a b s. s;
}

answer-some : (t : Bytes) (e : Option Bytes) → (answer t e).0 ≡ ok → e ≡ some (answer t e).1
answer-some t none h = cc
answer-some t (some v) h = refl

answer-none :
    (t : Bytes) (e : Option Bytes) → (answer t e).0 ≡ not_found → (e ≡ none) × ((answer t e).1 ≡ t)
answer-none t none h = (refl, refl)
answer-none t (some v) h = cc

db-Documented : DocumentedDb db (λ b. b)
db-Documented = record {
  entries = λ s. s;
  put_entries = λ o k v s h. refl;
  delete_entries = λ o k s h. refl;
  write_entries = λ o b s h. refl;
  get_entry = λ o k t s h. answer-some t (s (to_string k)) h;
  get_missing = λ o k t s h. answer-none t (s (to_string k)) h;
  compact_entries = λ a b s. refl;
}

abbrev nothing : Entries
nothing k = none

abbrev key : Slice
key = of_string (codes "k")

abbrev value : Slice
value = of_string (codes "v")

abbrev calls : List (Change (List Update))
calls = put_call key value ∷ delete_call key ∷ []

abbrev after_put : Entries
after_put = apply_update (put (to_string key) (to_string value)) nothing

abbrev after_delete : Entries
after_delete = apply_update (delete (to_string key)) after_put

made : History db tt nothing after_delete calls
made =
    and_then (delete_call key) (and_then (put_call key value) none_yet (put_step key value refl))
      (delete_step key refl)
