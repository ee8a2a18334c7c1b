-- ===== src/Db/Interface/History.antt =====
-- Histories of writes, on any database that keeps what its comments promise.
use rabbit_log_db.Base.{
  List, [], ◌∷◌, ◌++◌, Option, none, some, ◌≡◌, refl, sym, ap, ◌∙◌, Bytes, append-nil, append_assoc,
}
use rabbit_log_db.Db.Interface.{WriteBatch, Db}
use rabbit_log_db.Db.Interface.Contract.{
  Update, put, delete, Entries, apply_update, apply_all, DocumentedBatch, DocumentedDb,
}
use rabbit_log_db.Db.Slice.{Slice, to_string}
use rabbit_log_db.Db.Status.{ok, not_found}

-- A call that changes the database.
pub data Change (B : Type 0) : Type 0 where
  put_call : Slice → Slice → Change B
  delete_call : Slice → Change B
  write_call : B → Change B
  compact_call : Option Slice → Option Slice → Change B

-- The updates that a call stands for.
unfoldable pub updates_of : {B : Type 0} → (B → List Update) → Change B → List Update
updates_of updates (put_call k v) = put (to_string k) (to_string v) ∷ []
updates_of updates (delete_call k) = delete (to_string k) ∷ []
updates_of updates (write_call b) = updates b
updates_of updates (compact_call a b) = []

unfoldable pub all_updates : {B : Type 0} → (B → List Update) → List (Change B) → List Update
all_updates updates [] = []
all_updates updates (c ∷ cs) = updates_of updates c ++ all_updates updates cs

apply_all-append :
    (us vs : List Update) (e : Entries) → apply_all (us ++ vs) e ≡ apply_all vs (apply_all us e)
unfolding apply_all
apply_all-append [] vs e = refl
apply_all-append (u ∷ us) vs e = apply_all-append us vs (apply_update u e)

all_updates-append :
    {B : Type 0} (updates : B → List Update) (cs ds : List (Change B))
    → all_updates updates (cs ++ ds) ≡ all_updates updates cs ++ all_updates updates ds
unfolding all_updates
all_updates-append updates [] ds = refl
all_updates-append updates (c ∷ cs) ds =
    ap (◌++◌ (updates_of updates c)) (all_updates-append updates cs ds)
    ∙ sym (append_assoc (updates_of updates c) (all_updates updates cs) (all_updates updates ds))

-- The calls put into one batch.
unfoldable pub into_batch : {B : Type 0} → WriteBatch B → B → List (Change B) → B
into_batch batch b [] = b
into_batch batch b (put_call k v ∷ cs) = into_batch batch (batch.put k v b) cs
into_batch batch b (delete_call k ∷ cs) = into_batch batch (batch.delete k b) cs
into_batch batch b (write_call c ∷ cs) = into_batch batch (batch.append b c) cs
into_batch batch b (compact_call x y ∷ cs) = into_batch batch b cs

module _ {B : Type 0} (batch : WriteBatch B) (d : DocumentedBatch batch) where
  into_batch-updates :
      (cs : List (Change B)) (b : B)
      → d.updates (into_batch batch b cs) ≡ d.updates b ++ all_updates d.updates cs
  unfolding into_batch all_updates updates_of
  into_batch-updates [] b = sym (append-nil (d.updates b))
  into_batch-updates (put_call k v ∷ cs) b =
      into_batch-updates cs (batch.put k v b)
      ∙ ap (λ us. us ++ all_updates d.updates cs) (d.put_updates k v b)
      ∙ append_assoc (d.updates b) (put (to_string k) (to_string v) ∷ []) (all_updates d.updates cs)
  into_batch-updates (delete_call k ∷ cs) b =
      into_batch-updates cs (batch.delete k b)
      ∙ ap (λ us. us ++ all_updates d.updates cs) (d.delete_updates k b)
      ∙ append_assoc (d.updates b) (delete (to_string k) ∷ []) (all_updates d.updates cs)
  into_batch-updates (write_call c ∷ cs) b =
      into_batch-updates cs (batch.append b c)
      ∙ ap (λ us. us ++ all_updates d.updates cs) (d.append_updates b c)
      ∙ append_assoc (d.updates b) (d.updates c) (all_updates d.updates cs)
  into_batch-updates (compact_call x y ∷ cs) b = into_batch-updates cs b

module _ {S W R B It Snapshot : Type 0} (db : Db S W R B It Snapshot) (o : W) where
  -- One call has returned: it left the state, with success where it has a status.
  pub data Step (s : S) (t : S) : Change B → Type 0 where
    put_step : (k v : Slice) → db.put o k v s ≡ (ok, t) → Step s t (put_call k v)
    delete_step : (k : Slice) → db.delete o k s ≡ (ok, t) → Step s t (delete_call k)
    write_step : (b : B) → db.write o b s ≡ (ok, t) → Step s t (write_call b)
    compact_step : (a b : Option Slice) → db.compact_range a b s ≡ t → Step s t (compact_call a b)

  -- A history of calls that succeeded, in their order.
  pub data History (s : S) : S → List (Change B) → Type 0 where
    none_yet : History s s []
    and_then :
        {t u : S} {cs : List (Change B)} (c : Change B)
        → History s t cs
        → Step t u c
        → History s u (cs ++ c ∷ [])

  module _ {updates : B → List Update} (d : DocumentedDb db updates) where
    Step-entries :
        {s t : S} {c : Change B}
        → Step s t c
        → d.entries t ≡ apply_all (updates_of updates c) (d.entries s)
    unfolding updates_of apply_all
    Step-entries {s} {t} (put_step k v h) =
        ap (λ r. d.entries r.1) (sym h) ∙ d.put_entries o k v s (ap (λ r. r.0) h)
    Step-entries {s} {t} (delete_step k h) =
        ap (λ r. d.entries r.1) (sym h) ∙ d.delete_entries o k s (ap (λ r. r.0) h)
    Step-entries {s} {t} (write_step b h) =
        ap (λ r. d.entries r.1) (sym h) ∙ d.write_entries o b s (ap (λ r. r.0) h)
    Step-entries {s} {t} (compact_step a b h) = ap d.entries (sym h) ∙ d.compact_entries a b s

    History-entries :
        {s t : S} {cs : List (Change B)}
        → History s t cs
        → d.entries t ≡ apply_all (all_updates updates cs) (d.entries s)
    unfolding all_updates apply_all
    History-entries none_yet = refl
    History-entries {s} {t} (and_then {t = u} {cs = cs} c h st) =
        Step-entries st
        ∙ ap (apply_all (updates_of updates c)) (History-entries h)
        ∙ sym (apply_all-append (all_updates updates cs) (updates_of updates c) (d.entries s))
        ∙ ap (λ us. apply_all us (d.entries s))
            (ap (◌++◌ (all_updates updates cs)) (sym (append-nil (updates_of updates c)))
              ∙ sym (all_updates-append updates cs (c ∷ [])))

    -- After any history of calls that succeeded, the database holds what a map holds after the same
    -- updates in their order, and every read that succeeds or finds nothing says what that map holds.
    pub History-get :
        {s t : S} {cs : List (Change B)} (r : R) (k : Slice) (text : Bytes)
        → History s t cs
        → (d.entries t ≡ apply_all (all_updates updates cs) (d.entries s))
          × ((db.get r k text t).0 ≡ ok
              → apply_all (all_updates updates cs) (d.entries s) (to_string k)
                ≡ some (db.get r k text t).1)
          × ((db.get r k text t).0 ≡ not_found
              → (apply_all (all_updates updates cs) (d.entries s) (to_string k) ≡ none)
                × ((db.get r k text t).1 ≡ text))
    History-get {s} {t} r k text h =
        let e = History-entries h in
        let here = ap (λ f. f (to_string k)) e in
        (
          e,
          λ got. sym here ∙ d.get_entry r k text t got,
          λ missing.
              let (absent, same) = d.get_missing r k text t missing in (sym here ∙ absent, same),
        )

  module _ (batch : WriteBatch B) (b : DocumentedBatch batch) (d : DocumentedDb db b.updates) where
    -- Writing one batch, into which calls were put in their order, leaves the same entries as the calls
    -- made one by one.
    pub write_batch-calls :
        {s t u : S} (cs : List (Change B))
        → History s t (write_call (into_batch batch batch.new_batch cs) ∷ [])
        → History s u cs
        → d.entries t ≡ d.entries u
    unfolding all_updates updates_of
    write_batch-calls {s} cs h k =
        History-entries d h
        ∙ ap (λ us. apply_all us (d.entries s))
            (append-nil (b.updates (into_batch batch batch.new_batch cs))
              ∙ into_batch-updates batch b cs batch.new_batch
              ∙ ap (λ us. us ++ all_updates b.updates cs) b.new_updates)
        ∙ sym (History-entries d k)
