-- ===== src/Log/Level.antt =====
-- `LogLevel` of Log/Log.h and Log/Log.cpp: the levels, their numbers and their names.
pub mod Names
use rabbit_log_db.Base.{ℕ, Bool, leb, if◌then◌else◌, Bytes, codes, equal}

pub data Level : Type 0 where
  unknow debug info warn error fatal : Level

-- The number of the enumerator, by which levels are compared.
unfoldable pub to_ℕ : Level → ℕ
to_ℕ unknow = 0
to_ℕ debug = 1
to_ℕ info = 2
to_ℕ warn = 3
to_ℕ error = 4
to_ℕ fatal = 5

-- `level >= threshold`
unfoldable pub at_least : Level → Level → Bool
unfolding to_ℕ
at_least level threshold = leb (to_ℕ threshold) (to_ℕ level)

-- `LogLevel::ToString`
unfoldable pub to_string : Level → Bytes
to_string debug = codes "DEBUG"
to_string info = codes "INFO"
to_string warn = codes "WARN"
to_string error = codes "ERROR"
to_string fatal = codes "FATAL"
to_string unknow = codes "UNKNOW"

-- `LogLevel::FromString`: the lower-case names first, then the upper-case ones. The text of the macro XX
-- returns `LogLevel::Level`, the enumeration; here it returns the level that it is given, its parameter.
unfoldable pub from_string : Bytes → Level
from_string str =
    if equal str (codes "debug")
    then debug
    else if equal str (codes "info")
    then info
    else if equal str (codes "warn")
    then warn
    else if equal str (codes "error")
    then error
    else if equal str (codes "fatal")
    then fatal
    else if equal str (codes "DEBUG")
    then debug
    else if equal str (codes "INFO")
    then info
    else if equal str (codes "WARN")
    then warn
    else if equal str (codes "ERROR")
    then error
    else if equal str (codes "FATAL")
    then fatal
    else unknow
