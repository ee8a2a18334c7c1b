-- ===== src/Log/Event.antt =====
-- `LogEvent` of Log/Log.h: what is logged, with the address of the logger that it was made for.
use rabbit_log_db.Base.{ℕ, ◌++◌, Option, none, some, Bytes, codes}
use rabbit_log_db.Log.Level.{Level}
pub use rabbit_log_db.Base.Int.{ℤ, pos, negsuc}

-- The content stream `m_ss` holds the bytes written so far. `m_file` points to a text or is null (`none`).
pub record LogEvent : Type 0 where
  pub file : Option Bytes
  pub line : ℤ
  pub elapse : ℕ
  pub thread_id : ℕ
  pub fiber_id : ℕ
  pub time : ℕ
  pub thread_name : Bytes
  pub ss : Bytes
  pub logger : ℕ
  pub level : Level

-- The constructor `LogEvent::LogEvent`: the content starts empty.
unfoldable pub new_event : ℕ → Level → Option Bytes → ℤ → ℕ → ℕ → ℕ → ℕ → Bytes → LogEvent
new_event logger level file line elapse thread_id fiber_id time thread_name = record {
  file = file;
  line = line;
  elapse = elapse;
  thread_id = thread_id;
  fiber_id = fiber_id;
  time = time;
  thread_name = thread_name;
  ss = codes "";
  logger = logger;
  level = level;
}

-- `LogEvent::format`: what `vasprintf` made of the arguments, `none` where it returned -1.
unfoldable pub format : Option Bytes → LogEvent → LogEvent
format none e = e
format (some buf) e = record e { ss = e.ss ++ buf }
