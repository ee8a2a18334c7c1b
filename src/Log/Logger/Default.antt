-- ===== src/Log/Logger/Default.antt =====
-- The pattern that every logger starts with, and the line that it makes of an event.
use rabbit_log_db.Base.{
  ℕ, false, List, [], ◌∷◌, ◌++◌, some, ◌≡◌, refl, subst, ◌∙◌, Bytes, codes, decimal,
}
use rabbit_log_db.Log.Event.{LogEvent}
use rabbit_log_db.Log.Formatter.Item.{
  FormatItem, Env, format_on, print_int, message, level, name, thread_id, fiber_id, thread_name,
  date_time, filename, line, new_line, tab, string,
}
use rabbit_log_db.Log.Formatter.Rendering.{
  file_text, sender, render, rendering, format_on-rendering,
}
use rabbit_log_db.Log.Formatter.{LogFormatter, init}
use rabbit_log_db.Log.Level.{Level, to_string}
use rabbit_log_db.Log.Logger.{default_pattern}

pub default_items : List FormatItem
default_items =
    date_time (codes "%Y-%m-%d %H:%M:%S")
    ∷ tab
    ∷ thread_id
    ∷ tab
    ∷ thread_name
    ∷ tab
    ∷ fiber_id
    ∷ tab
    ∷ string (codes "[")
    ∷ level
    ∷ string (codes "]")
    ∷ tab
    ∷ string (codes "[")
    ∷ name
    ∷ string (codes "]")
    ∷ tab
    ∷ filename
    ∷ string (codes ":")
    ∷ line
    ∷ tab
    ∷ message
    ∷ new_line
    ∷ []

abbrev default_made : LogFormatter
default_made = record { pattern = default_pattern; items = default_items; error = false }

init_default : init default_pattern ≡ some default_made
unfolding init default_items
init_default = refl

-- The line of an event at a level, from a logger of the given name: the fields between tabs.
pub default_line : (Bytes → ℕ → Bytes) → Bytes → Level → LogEvent → Bytes
default_line strftime n lv e =
    strftime (codes "%Y-%m-%d %H:%M:%S") e.time
    ++ b'\t'
      ∷ (decimal e.thread_id
          ++ b'\t'
            ∷ (e.thread_name
                ++ b'\t'
                  ∷ (decimal e.fiber_id
                      ++ b'\t'
                        ∷ b'['
                        ∷ (to_string lv
                            ++ b']'
                              ∷ b'\t'
                              ∷ b'['
                              ∷ (n
                                  ++ b']'
                                    ∷ b'\t'
                                    ∷ (file_text e
                                        ++ b':'
                                          ∷ (print_int e.line ++ b'\t' ∷ (e.ss ++ b'\n' ∷ []))))))))

pub rendering_default :
    (strftime : Bytes → ℕ → Bytes) (n : Bytes) (lv : Level) (e : LogEvent)
    → rendering strftime n lv e default_items ≡ default_line strftime n lv e
unfolding rendering render default_items default_line
rendering_default strftime n lv e = refl

-- The pattern that every logger starts with is valid, and its formatter makes of any event that has a
-- file name and whose logger exists the line `default_line`.
pub default_format :
    (env : Env) (n : Bytes) (lv : Level) (e : LogEvent) {f : LogFormatter}
    → init default_pattern ≡ some f
    → sender env.name_of e ≡ some n
    → (f.error ≡ false) × (format_on env lv e f.items ≡ some (default_line env.strftime n lv e))
default_format env n lv e {f} h hn =
    let made : default_made ≡ f = cc init_default in
    subst
      (λ g.
        (g.error ≡ false) × (format_on env lv e g.items ≡ some (default_line env.strftime n lv e)))
      made (refl, format_on-rendering env n lv e default_items hn ∙ rw rendering_default)
