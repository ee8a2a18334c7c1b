-- ===== src/Log/Formatter.antt =====
-- `LogFormatter` of Log/Log.h and Log/Log.cpp: the pattern language and the format items.
--
-- `init` walks the pattern by an index `i`; here the walk is over the bytes from `i` on, and a
-- substring is the list of the bytes passed. The formatter is immutable once constructed, so a
-- shared pointer to one is its value.
pub mod Item
pub mod Rendering
pub mod Runs
pub mod RoundTrip
pub mod Percent
use rabbit_log_db.Base.{
  ℕ, zero, suc, Bool, true, false, not, ◌&&◌, ◌||◌, List, [], ◌∷◌, ◌++◌, Option, none, some, map,
  leb, ◌==◌, if◌then◌else◌, Bytes, codes, length,
}
use Item.{FormatItem, string, find, format_items, new_date_time}

-- `isalpha` in the "C" locale.
unfoldable pub is_alpha : ℕ → Bool
is_alpha c = (leb b'a' c && leb c b'z') || (leb b'A' c && leb c b'Z')

-- An entry of `vec`: a text with 0, or the name and the format of a directive with 1.
pub data Token : Type 0 where
  text : Bytes → Token
  directive : Bytes → Bytes → Token

-- What the inner loop leaves: `is_open` is `fmt_status == 1`, and `rest` starts at index `n`.
pub record Scan : Type 0 where
  pub str : Bytes
  pub fmt : Bytes
  pub is_open : Bool
  pub rest : Bytes

-- The inner loop while `fmt_status == 1`, from behind the `{`.
unfoldable pub scan_format : Bytes → Bytes → Bytes → Scan
scan_format str seen [] = record { str = str; fmt = []; is_open = true; rest = [] }
scan_format str seen (c ∷ cs) =
    if c == b'}'
    then record { str = str; fmt = seen; is_open = false; rest = cs }
    else scan_format str (seen ++ c ∷ []) cs

-- The inner loop while `fmt_status == 0`.
unfoldable pub scan_name : Bytes → Bytes → Scan
unfolding is_alpha scan_format
scan_name seen [] = record { str = seen; fmt = []; is_open = false; rest = [] }
scan_name seen (c ∷ cs) =
    if not (is_alpha c) && not (c == b'{') && not (c == b'}')
    then record { str = seen; fmt = []; is_open = false; rest = c ∷ cs }
    else if c == b'{'
    then scan_format seen [] cs
    else scan_name (seen ++ c ∷ []) cs

-- `if(!nstr.empty()) vec.push_back(nstr, "", 0)`
unfoldable pub flush : Bytes → List Token
flush [] = []
flush (c ∷ cs) = text (c ∷ cs) ∷ []

-- `m_pattern[i + 1] == '%'`, with its bounds check.
unfoldable pub next_is_percent : Bytes → Bool
next_is_percent [] = false
next_is_percent (c ∷ cs) = c == b'%'

-- The state of the outer loop; `error` is `m_error`, and `unclosed` holds the rest of the pattern at each
-- brace that is not closed, which the loop prints.
pub record Tokens : Type 0 where
  pub vec : List Token
  pub nstr : Bytes
  pub error : Bool
  pub unclosed : List Bytes

-- The outer loop over `m_pattern`, on fuel; `none` means that the fuel ran out.
unfoldable pub tokenize : ℕ → Bytes → Tokens → Option Tokens
unfolding scan_name flush next_is_percent
tokenize zero rest s = none
tokenize (suc f) [] s = some (record s { vec = s.vec ++ flush s.nstr; nstr = [] })
tokenize (suc f) (c ∷ cs) s =
    let scan = scan_name [] cs in
    let literal = tokenize f cs (record s { nstr = s.nstr ++ c ∷ [] }) in
    let percent = tokenize f cs (record s { nstr = s.nstr ++ b'%' ∷ [] }) in
    let bad = tokenize f cs (record s {
      vec = s.vec ++ text (codes "<<pattern_error>>") ∷ [];
      error = true;
      unclosed = s.unclosed ++ (c ∷ cs) ∷ [];
    }) in
    let item =
      tokenize f scan.rest (record s {
        vec = s.vec ++ (flush s.nstr ++ directive scan.str scan.fmt ∷ []);
        nstr = [];
      }) in
    if not (c == b'%')
    then literal
    else if next_is_percent cs
    then percent
    else if scan.is_open
    then bad
    else item

-- The last loop of `init` on one entry of `vec`: the item, and whether it is an error.
unfoldable pub build : Token → FormatItem × Bool
unfolding find new_date_time
build (text t) = (string t, false)
build (directive str fmt) = elim (find str format_items) [
  | none ↦ (string (codes "<<error_format %" ++ (str ++ codes ">>")), true)
  | some make ↦ (make fmt, false)
]

-- Whether any entry set `m_error`.
unfoldable pub any_error : List (FormatItem × Bool) → Bool
any_error [] = false
any_error ((i, e) ∷ is) = e || any_error is

unfoldable pub items_of : List (FormatItem × Bool) → List FormatItem
items_of [] = []
items_of ((i, e) ∷ is) = i ∷ items_of is

pub record LogFormatter : Type 0 where
  pub pattern : Bytes
  pub items : List FormatItem
  pub error : Bool

abbrev pub start : Tokens
start = record { vec = []; nstr = []; error = false; unclosed = [] }

-- The last loop of `init`, on the whole of `vec`.
unfoldable pub finish : Bytes → Option Tokens → Option LogFormatter
unfolding build any_error items_of
finish pattern none = none
finish pattern (some s) =
    let built = map build s.vec in
    some (record { pattern = pattern; items = items_of built; error = s.error || any_error built })

-- The formatter that the constructor makes by `init`; what it prints is below. One round for each byte
-- and one for the end is enough fuel.
unfoldable pub init : Bytes → Option LogFormatter
unfolding tokenize finish
init pattern = finish pattern (tokenize (suc (length pattern)) pattern start)

-- What the loop prints on the console at an unclosed brace.
abbrev pub parse_error : Bytes → Bytes → Bytes
parse_error pattern rest =
    codes "pattern parse error: " ++ (pattern ++ (codes " - " ++ (rest ++ codes "\n")))

-- The places where it prints, in order.
unfoldable pub unclosed : Bytes → List Bytes
unfolding tokenize
unclosed pattern = elim (tokenize (suc (length pattern)) pattern start) [
  | none ↦ []
  | some s ↦ s.unclosed
]
