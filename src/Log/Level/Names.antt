-- ===== src/Log/Level/Names.antt =====
-- Which texts name which level.
use rabbit_log_db.Base.{◌≡◌, ◌≢◌, ◌↔◌, ◌⊎◌, refl, arith, Bytes, codes, equal, equal_iff}
use rabbit_log_db.Log.Level.{Level, unknow, debug, info, warn, error, fatal, to_string, from_string}

-- Reading back the name that `to_string` prints gives the level, for each of the six levels.
pub from_string-to_string : (l : Level) → from_string (to_string l) ≡ l
unfolding from_string to_string equal
from_string-to_string unknow = refl
from_string-to_string _ = refl

-- The second name of a level.
unfoldable pub lower : Level → Bytes
lower unknow = codes "unknow"
lower debug = codes "debug"
lower info = codes "info"
lower warn = codes "warn"
lower error = codes "error"
lower fatal = codes "fatal"

-- Where FromString returns the level that its macro is given, a level that has names is read from its
-- printed name and from its lower-case name, and from no other text.
pub from_string_iff :
    (l : Level) (str : Bytes)
    → l ≢ unknow
    → (from_string str ≡ l) ↔ ((str ≡ to_string l) ⊎ (str ≡ lower l))
unfolding from_string to_string lower equal
from_string_iff unknow str h = absurd (h refl)
from_string_iff _ str h = ground (
  arith,
  equal_iff str (codes "debug"),
  equal_iff str (codes "info"),
  equal_iff str (codes "warn"),
  equal_iff str (codes "error"),
  equal_iff str (codes "fatal"),
  equal_iff str (codes "DEBUG"),
  equal_iff str (codes "INFO"),
  equal_iff str (codes "WARN"),
  equal_iff str (codes "ERROR"),
  equal_iff str (codes "FATAL"),
)
