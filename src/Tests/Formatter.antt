-- ===== src/Tests/Formatter.antt =====
-- Tests of the formatter and the levels.
use rabbit_log_db.Base.{true, false, List, [], ◌∷◌, some, ◌≡◌, ◌↔◌, ◌⊎◌, refl, codes, map}
use rabbit_log_db.Log.Formatter.Item.{Env, level, string, format_on, date_time}
use rabbit_log_db.Log.Formatter.Percent.{escaped_percent_error}
use rabbit_log_db.Log.Formatter.RoundTrip.{
  print, IsPrintable, closed, done, plain, bare, braced, init-print,
}
use rabbit_log_db.Log.Formatter.Rendering.{sender}
use rabbit_log_db.Log.Formatter.{
  Token, text, directive, LogFormatter, init, items_of, any_error, build, is_alpha, next_is_percent,
}
use rabbit_log_db.Log.Formatter.Runs.{init_total}
use rabbit_log_db.Log.Level.Names.{from_string_iff, lower}
use rabbit_log_db.Log.Level
use rabbit_log_db.Log.Logger.Default.{default_format, default_line}
use rabbit_log_db.Log.Logger.{default_pattern}
use rabbit_log_db.Tests.Data.{event, machine, db_logger}

-- "t=%d{%H}%p" and an unknown directive.
abbrev tokens : List Token
tokens =
    text (codes "t=")
    ∷ directive (codes "d") (codes "%H")
    ∷ directive (codes "p") []
    ∷ directive (codes "q") []
    ∷ []

tokens-IsPrintable : IsPrintable closed tokens
unfolding is_alpha
tokens-IsPrintable =
    plain (λ e. cc e) (λ e. cc e) (refl, (refl, tt)) (λ e. cc e)
      (braced (refl, tt) (refl, (refl, tt))
        (bare (λ e. cc e) (refl, tt) (bare (λ e. cc e) (refl, tt) done)))

init_tokens :
    init (codes "t=%d{%H}%p%q")
    ≡ some (record {
      pattern = codes "t=%d{%H}%p%q";
      items =
          string (codes "t=")
          ∷ date_time (codes "%H")
          ∷ level
          ∷ string (codes "<<error_format %q>>")
          ∷ [];
      error = true;
    })
unfolding init
init_tokens = refl

init-print_example :
    init (print tokens)
    ≡ some (record {
      pattern = print tokens;
      items = items_of (map build tokens);
      error = any_error (map build tokens);
    })
init-print_example = init-print tokens tokens-IsPrintable

init_total_example : (f : LogFormatter) × (init (codes "%d{") ≡ some f) × (f.pattern ≡ codes "%d{")
init_total_example = init_total (codes "%d{")

-- "%d{" is an unclosed format.
unclosed : (f : LogFormatter) × (init (codes "x%d{") ≡ some f) × (f.error ≡ true)
unfolding init
unclosed = (_, refl, refl)

escaped : (f : LogFormatter) × (init (codes "100%%") ≡ some f)
unfolding init
escaped = (_, refl)

escaped_percent_error_example : escaped.0.error ≡ true
unfolding next_is_percent
escaped_percent_error_example =
    escaped_percent_error (codes "100") [] (refl, (refl, (refl, tt))) tt refl escaped.1

-- The default pattern that the header documents is not the one in the code, and is in error.
documented_default :
    (f : LogFormatter) × (init (codes "%d{%Y-%m-%d %H:%M:%S}%T%t%T%N%F%T[%p]%T%[%c]%T%f:%l%T%m%n")
      ≡ some f)
    × (f.error ≡ true)
unfolding init
documented_default = (_, refl, refl)

from_string_iff_example :
    (Level.from_string (codes "warn") ≡ Level.warn)
    ↔ ((codes "warn" ≡ Level.to_string Level.warn) ⊎ (codes "warn" ≡ lower Level.warn))
from_string_iff_example = from_string_iff Level.warn (codes "warn") (λ e. cc e)

abbrev env : Env
env = record { strftime = machine.strftime; name_of = λ l. some db_logger.name }

default_made : (f : LogFormatter) × (init default_pattern ≡ some f)
unfolding init
default_made = (_, refl)

default_format_example :
    (default_made.0.error ≡ false)
    × (format_on env Level.info event default_made.0.items
        ≡ some (default_line env.strftime db_logger.name Level.info event))
unfolding sender
default_format_example = default_format env db_logger.name Level.info event default_made.1 refl
