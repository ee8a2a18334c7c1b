-- ===== src/Db/Old/Table.antt =====
-- The sorted string tables of DB/DBOld/SSTTable.h.
use rabbit_log_db.Base.{List, [], Option, none, Bytes, codes}
use rabbit_log_db.Base.Int.{ℤ}

-- `TableMetaInfo`
pub record TableMetaInfo : Type 0 where
  pub version : ℤ
  pub data_start : ℤ
  pub data_len : ℤ
  pub index_start : ℤ
  pub index_len : ℤ
  pub part_size : ℤ

-- `TableMetaInfo::writeToFile`, whose body is empty: the file is as it was.
unfoldable pub write_to_file {ℓ} : {File : Type ℓ} → TableMetaInfo → File → File
write_to_file info f = f

-- `TableMetaInfo::readFromFile` flows off its end with no value.
unfoldable pub read_from_file {ℓ} : {File : Type ℓ} → File → Option TableMetaInfo
read_from_file f = none

-- `Position`
pub record Position : Type 0 where
  pub start : ℤ
  pub len : ℤ

-- `SSTable`
pub record SsTable {ℓ} (File : Type ℓ) : Type ℓ where
  pub table_meta_info : TableMetaInfo
  pub sparse_index : List (Bytes × Position)
  pub table_file : File
  pub file_path : Bytes

abbrev pub rw_mode : Bytes
rw_mode = codes "rw"

-- `SSTable(std::string, int)`, whose body is empty: the members have their default values, and those of
-- the metadata, which have none, are given.
unfoldable pub new_table {ℓ} : {File : Type ℓ} → TableMetaInfo → File → Bytes → ℤ → SsTable File
new_table info closed file_path part_size = record {
  table_meta_info = info;
  sparse_index = [];
  table_file = closed;
  file_path = [];
}
