-- ===== src/Db/Old/Command.antt =====
-- The commands of DB/DBOld/command.h.
use rabbit_log_db.Base.{Bytes}

-- `CommandType`
pub data CommandType : Type 0 where
  set rm : CommandType

-- The part of a command that `AbstractCommand` declares.
pub record AbstractCommand : Type 0 where
  pub type : CommandType

-- A command by its class, with that class's members.
pub data Command : Type 0 where
  rm_command : AbstractCommand → Bytes → Command
  set_command : AbstractCommand → Bytes → Bytes → Command

-- `AbstractCommand(CommandType)`
unfoldable pub new_abstract : CommandType → AbstractCommand
new_abstract type = record { type = type }

-- `RmCommand(std::string)`
unfoldable pub new_rm : Bytes → Command
unfolding new_abstract
new_rm key = rm_command (new_abstract rm) key

-- `SetCommand(std::string, std::string)`
unfoldable pub new_set : Bytes → Bytes → Command
unfolding new_abstract
new_set key value = set_command (new_abstract set) key value
