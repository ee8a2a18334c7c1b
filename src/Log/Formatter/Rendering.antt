-- ===== src/Log/Formatter/Rendering.antt =====
-- What a formatter writes, when the event's logger exists and it has a file name: the items' texts,
-- one after the other.
use rabbit_log_db.Base.{
  ℕ, Option, none, Option-cases, inl, inr, List, [], ◌∷◌, ◌++◌, some, ◌≡◌, refl, arith, Bytes,
  codes, decimal,
}
use rabbit_log_db.Log.Event.{LogEvent}
use rabbit_log_db.Log.Formatter.Item.{
  FormatItem, message, level, elapse, name, thread_id, fiber_id, thread_name, date_time, filename,
  line, new_line, tab, string, Env, format_item, format_on, print_int,
}
use rabbit_log_db.Log.Level.{Level, to_string}

-- The name of an event's file, empty for a null pointer.
unfoldable pub file_text : LogEvent → Bytes
file_text e = elim e.file [ none ↦ [] | some t ↦ t ]

-- The name of an event's logger, where the logger exists and the event has a file.
unfoldable pub sender : (ℕ → Option Bytes) → LogEvent → Option Bytes
sender name_of e = elim e.file [ none ↦ none | some t ↦ name_of e.logger ]

-- The text of one item, for a logger of the given name.
unfoldable pub render : (Bytes → ℕ → Bytes) → Bytes → Level → LogEvent → FormatItem → Bytes
unfolding file_text
render strftime n lv e message = e.ss
render strftime n lv e level = to_string lv
render strftime n lv e elapse = decimal e.elapse
render strftime n lv e name = n
render strftime n lv e thread_id = decimal e.thread_id
render strftime n lv e fiber_id = decimal e.fiber_id
render strftime n lv e thread_name = e.thread_name
render strftime n lv e (date_time fmt) = strftime fmt e.time
render strftime n lv e filename = file_text e
render strftime n lv e line = print_int e.line
render strftime n lv e new_line = codes "\n"
render strftime n lv e tab = codes "\t"
render strftime n lv e (string s) = s

unfoldable pub rendering : (Bytes → ℕ → Bytes) → Bytes → Level → LogEvent → List FormatItem → Bytes
unfolding render
rendering strftime n lv e [] = []
rendering strftime n lv e (i ∷ is) = render strftime n lv e i ++ rendering strftime n lv e is

format_item-render :
    (env : Env) (n : Bytes) (lv : Level) (e : LogEvent) (i : FormatItem)
    → sender env.name_of e ≡ some n
    → format_item env lv e i ≡ some (render env.strftime n lv e i)
unfolding format_item render sender file_text
format_item-render env n lv e message h = refl
format_item-render env n lv e name h = elim (Option-cases e.file) [
  | inl z ↦ ground arith
  | inr (t, z) ↦ ground arith
]
format_item-render env n lv e filename h = elim (Option-cases e.file) [
  | inl z ↦ ground arith
  | inr (t, z) ↦ ground arith
]
format_item-render env n lv e _ h = refl

pub format_on-rendering :
    (env : Env) (n : Bytes) (lv : Level) (e : LogEvent) (is : List FormatItem)
    → sender env.name_of e ≡ some n
    → format_on env lv e is ≡ some (rendering env.strftime n lv e is)
unfolding format_on rendering
format_on-rendering env n lv e [] h = refl
format_on-rendering env n lv e (i ∷ is) h =
    ground (arith, format_item-render env n lv e i h, format_on-rendering env n lv e is h)
