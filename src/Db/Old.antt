-- ===== src/Db/Old.antt =====
-- The first draft of the database, in DB/DBOld/.
pub mod Command
pub mod Table
pub mod Database
