-- ===== src/Tests/Data.antt =====
-- The values that the tests share.
use rabbit_log_db.Base.{true, false, [], ◌∷◌, none, some, codes}
use rabbit_log_db.Log.Event.{LogEvent, pos}
use rabbit_log_db.Log.Formatter.{LogFormatter}
use rabbit_log_db.Log.Formatter.Item.{message, new_line}
use rabbit_log_db.Log.Level
use rabbit_log_db.Log.World.{Appender, Logger, World, Outside, stdout, file}

-- A machine whose clock prints its format, and on which every second file opens.
abbrev pub machine : Outside
machine = record { strftime = λ fmt t. fmt; open_for_write = λ name n. true }

abbrev pub plain : LogFormatter
plain = record { pattern = codes "%m%n"; items = message ∷ new_line ∷ []; error = false }

abbrev pub console_appender : Appender
console_appender = record {
  sink = stdout;
  level = Level.debug;
  has_formatter = false;
  formatter = some plain;
}

abbrev pub file_appender : Appender
file_appender = record {
  sink = file (codes "a.log") true 100;
  level = Level.warn;
  has_formatter = true;
  formatter = some plain;
}

abbrev pub new_appender : Appender
new_appender = record {
  sink = stdout;
  level = Level.debug;
  has_formatter = false;
  formatter = none;
}

-- Logger 0 is the root, with two appenders; logger 1 is below it and has none.
abbrev pub root_logger : Logger
root_logger = record {
  name = codes "root";
  level = Level.debug;
  appenders = 0 ∷ 1 ∷ [];
  formatter = some plain;
  root = none;
}

abbrev pub db_logger : Logger
db_logger = record {
  name = codes "db";
  level = Level.info;
  appenders = [];
  formatter = some plain;
  root = some 0;
}

abbrev pub world : World
world = record {
  appenders = console_appender ∷ file_appender ∷ new_appender ∷ [];
  loggers = root_logger ∷ db_logger ∷ [];
  console = [];
  written = [];
  opens = 1;
  managed = (codes "db", 1) ∷ (codes "root", 0) ∷ [];
  root = 0;
}

abbrev pub event : LogEvent
event = record {
  file = some (codes "main.cc");
  line = pos 42;
  elapse = 7;
  thread_id = 11;
  fiber_id = 0;
  time = 105;
  thread_name = codes "main";
  ss = codes "hi";
  logger = 1;
  level = Level.error;
}
