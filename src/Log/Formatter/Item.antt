-- ===== src/Log/Formatter/Item.antt =====
-- The `FormatItem` classes of Log/Log.cpp, one constructor for each, the table in which `init`
-- looks directives up, and what each item writes.
use rabbit_log_db.Base.{
  ℕ, suc, List, [], ◌∷◌, ◌++◌, Option, none, some, if◌then◌else◌, Bytes, codes, equal, decimal,
}
use rabbit_log_db.Log.Event.{LogEvent, ℤ, pos, negsuc}
use rabbit_log_db.Log.Level.{Level, to_string}

pub data FormatItem : Type 0 where
  message level elapse name thread_id fiber_id thread_name : FormatItem
  date_time : Bytes → FormatItem
  filename line new_line tab : FormatItem
  string : Bytes → FormatItem

-- The constructor of the date item puts a default in the place of an empty format.
unfoldable pub new_date_time : Bytes → FormatItem
new_date_time [] = date_time (codes "%Y-%m-%d %H:%M:%S")
new_date_time (c ∷ cs) = date_time (c ∷ cs)

-- `s_format_items`
abbrev pub format_items : List (Bytes × (Bytes → FormatItem))
format_items =
    (codes "m", λ fmt. message)
    ∷ (codes "p", λ fmt. level)
    ∷ (codes "r", λ fmt. elapse)
    ∷ (codes "c", λ fmt. name)
    ∷ (codes "t", λ fmt. thread_id)
    ∷ (codes "n", λ fmt. new_line)
    ∷ (codes "d", λ fmt. new_date_time fmt)
    ∷ (codes "f", λ fmt. filename)
    ∷ (codes "l", λ fmt. line)
    ∷ (codes "T", λ fmt. tab)
    ∷ (codes "F", λ fmt. fiber_id)
    ∷ (codes "N", λ fmt. thread_name)
    ∷ []

-- `s_format_items.find`
unfoldable pub find {ℓ} : {V : Type ℓ} → Bytes → List (Bytes × V) → Option V
unfolding equal
find k [] = none
find k ((j, v) ∷ m) = if equal j k then some v else find k m

-- `os << n` for an `int32_t`.
unfoldable pub print_int : ℤ → Bytes
print_int (pos n) = decimal n
print_int (negsuc n) = b'-' ∷ decimal (suc n)

-- What the items need from outside: the text that `localtime_r` and `strftime` make of a format and
-- a time, and the name of the logger that the event points to (`none` for a bad pointer).
pub record Env : Type 0 where
  pub strftime : Bytes → ℕ → Bytes
  pub name_of : ℕ → Option Bytes

-- `FormatItem::format`, by class: `none` where a bad pointer is followed or a null one is written.
unfoldable pub format_item : Env → Level → LogEvent → FormatItem → Option Bytes
unfolding print_int
format_item env lv e message = some e.ss
format_item env lv e level = some (to_string lv)
format_item env lv e elapse = some (decimal e.elapse)
format_item env lv e name = env.name_of e.logger
format_item env lv e thread_id = some (decimal e.thread_id)
format_item env lv e fiber_id = some (decimal e.fiber_id)
format_item env lv e thread_name = some e.thread_name
format_item env lv e (date_time fmt) = some (env.strftime fmt e.time)
format_item env lv e filename = e.file
format_item env lv e line = some (print_int e.line)
format_item env lv e new_line = some (codes "\n")
format_item env lv e tab = some (codes "\t")
format_item env lv e (string s) = some s

-- The loop of `LogFormatter::format` over the items.
unfoldable pub format_on : Env → Level → LogEvent → List FormatItem → Option Bytes
unfolding format_item
format_on env lv e [] = some []
format_on env lv e (i ∷ is) = elim (format_item env lv e i) [
  | none ↦ none
  | some out ↦ elim (format_on env lv e is) [ none ↦ none | some more ↦ some (out ++ more) ]
]
