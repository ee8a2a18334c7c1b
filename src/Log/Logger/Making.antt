-- ===== src/Log/Logger/Making.antt =====
-- What the constructor of `LogFormatter` of Log/Log.cpp makes and prints.
use rabbit_log_db.Base.{
  List, [], ◌∷◌, ◌++◌, some, ◌≡◌, refl, sym, ap, ◌∙◌, Bytes, append-nil, append_assoc,
}
use rabbit_log_db.Log.Formatter.{LogFormatter, init, unclosed, parse_error}
use rabbit_log_db.Log.Logger.{new_formatter}
use rabbit_log_db.Log.World.{World, Lock, ok, ◌>>=◌, print, each}

-- All lines about unclosed braces.
unfoldable pub lines : Bytes → List Bytes → Bytes
lines pattern [] = []
lines pattern (r ∷ rs) = parse_error pattern r ++ lines pattern rs

unfoldable pub complaints : Bytes → Bytes
unfolding lines
complaints pattern = lines pattern (unclosed pattern)

each-lines :
    (pattern : Bytes) (rs : List Bytes) (h : List Lock) (w : World)
    → each rs (λ r. print (parse_error pattern r)) h w
      ≡ ok (tt, record w { console = w.console ++ lines pattern rs })
unfolding each lines print
each-lines pattern [] h w = ap (λ c. ok (tt, record w { console = c })) (sym (append-nil w.console))
each-lines pattern (r ∷ rs) h w =
    each-lines pattern rs h (record w { console = w.console ++ parse_error pattern r })
    ∙ ap (λ c. ok (tt, record w { console = c }))
        (append_assoc w.console (parse_error pattern r) (lines pattern rs))

pub new_formatter-prints :
    (pattern : Bytes) {f : LogFormatter} (h : List Lock) (w : World)
    → init pattern ≡ some f
    → new_formatter pattern h w ≡ ok (f, record w { console = w.console ++ complaints pattern })
unfolding new_formatter complaints
new_formatter-prints pattern h w e =
    rw (e, new_formatter) (rw (each-lines pattern (unclosed pattern) h w, ◌>>=◌) refl)
