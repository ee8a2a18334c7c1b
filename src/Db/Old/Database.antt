-- ===== src/Db/Old/Database.antt =====
-- `DB` of DB/DBOld/LSMKVDB.h, none of whose methods has a body.
use rabbit_log_db.Base.{List, Bytes}
use rabbit_log_db.Base.Int.{ℤ}
use rabbit_log_db.Db.Old.Command.{Command}
use rabbit_log_db.Db.Old.Table.{SsTable}

-- The members of `DB`.
pub record Database {ℓ} (File : Type ℓ) : Type ℓ where
  pub index : List (Bytes × Command)
  pub immutable_index : List (Bytes × Command)
  pub ss_tables : List (SsTable File)
  pub data_dir : Bytes
  pub store_threshold : ℤ
  pub part_size : ℤ
  pub wal : File

-- The public methods, on a state of any type.
pub record Methods {ℓ} (S : Type ℓ) : Type ℓ where
  pub open_db : Bytes → ℤ → ℤ → S
  pub set : Bytes → Bytes → S → S
  pub get : Bytes → S → Bytes × S
  pub rm : Bytes → S → S
