-- ===== src/Tests/Config.antt =====
-- Tests of the configuration, with trees for the nodes of YAML.
use rabbit_log_db.Base.{
  ℕ, zero, suc, ◌+◌, ◌<◌, Bool, true, false, List, [], ◌∷◌, Option, none, some, ◌≡◌, ◌↔◌, inl, inr,
  refl, ap, ◌∙◌, arith, ◌==◌, if◌then◌else◌, Bytes, codes, less, equal, equal_refl, length,
  get_elem?,
}
use rabbit_log_db.Log.Config.{
  Yaml, LogAppenderDefine, LogDefine, same_define, from_yaml, to_yaml, write_define,
  write_appenders, write_appender, less_define, push_appender, with_type, with_level, with_text,
  with_formatter, same_level, read_define,
}
use rabbit_log_db.Log.Config.Apply.{
  Clears, on_change, Program, find_define, apply_define, changed_appenders_ignored,
}
use rabbit_log_db.Log.Config.Dump.{logger_yaml, described, logger_yaml-described}
use rabbit_log_db.Log.Formatter.{LogFormatter}
use rabbit_log_db.Log.Config.Comparing.{same_define_iff}
use rabbit_log_db.Log.Config.Single.{kept_all, kept}
use rabbit_log_db.Log.Config.Nodes.{Documented, IsMap, fresh_map, field_map, push_all}
use rabbit_log_db.Log.Config.RoundTrip.{cast_round_trip}
use rabbit_log_db.Log.Level
use rabbit_log_db.Log.World.{ok, fault, bad_subscript, pure, logger_at, put_logger, deref, ◌>>=◌}
use rabbit_log_db.Log.Config.Changes.{on_change-Succeeds}
use rabbit_log_db.Log.Config.Reading.{Ends, from_yaml-applied}
use rabbit_log_db.Log.Config.Surroundings.{Expected}
use rabbit_log_db.Log.Logger
use rabbit_log_db.Log.Manager.Calls.{Succeeds}
use rabbit_log_db.Log.Manager.History.{initial, initial-Inv}
use rabbit_log_db.Log.Manager.{get_logger}
use rabbit_log_db.Tests.Data.{machine, world, plain, root_logger, event}
use rabbit_log_db.Tests.Logger.{world-WellFormed}

data Tree : Type 0 where
  leaf : Tree
  scalar : Bytes → Tree
  entry : Bytes → Tree → Tree → Tree
  item : Tree → Tree → Tree

abbrev field : Tree → Bytes → Option Tree
field (entry k v n) key = if equal k key then some v else field n key
field leaf key = none
field (scalar s) key = none
field (item l v) key = none

abbrev is_scalar : Tree → Bool
is_scalar (scalar s) = true
is_scalar leaf = false
is_scalar (entry k v n) = false
is_scalar (item l v) = false

abbrev text : Tree → Option Bytes
text (scalar s) = some s
text leaf = none
text (entry k v n) = none
text (item l v) = none

abbrev count : Tree → ℕ
count (item l v) = suc (count l)
count leaf = 0
count (scalar s) = 0
count (entry k v n) = 0

abbrev element : Tree → ℕ → Tree
element (item l v) x = if x == count l then v else element l x
element leaf x = leaf
element (scalar s) x = leaf
element (entry k v n) x = leaf

-- The library, loading one document.
abbrev library : Tree → Yaml Tree
library document = record {
  is_document = λ v. true;
  load = λ v. document;
  dump = λ n. [];
  fresh = leaf;
  scalar = scalar;
  is_scalar = is_scalar;
  field = field;
  text = text;
  count = count;
  element = element;
  with_field = λ n key v. entry key v n;
  push_back = item;
}

module _ (t : Tree) where
  count-push_all :
      (l : Tree) (vs : List Tree) → count (push_all (library t) l vs) ≡ count l + length vs
  count-push_all l [] = omega arith
  count-push_all l (v ∷ vs) = omega (arith, count-push_all (item l v) vs)

  element_old :
      (l : Tree) (vs : List Tree) (x : ℕ)
      → x < count l
      → element (push_all (library t) l vs) x ≡ element l x
  element_old l [] x h = refl
  element_old l (v ∷ vs) x h = element_old (item l v) vs x (omega arith) ∙ ground arith

  element_new :
      (l : Tree) (vs : List Tree) (x : ℕ) (u : Tree)
      → get_elem? vs x ≡ some u
      → element (push_all (library t) l vs) (count l + x) ≡ u
  element_new l [] x u h = cc
  element_new l (v ∷ vs) zero u h =
      element_old (item l v) vs (count l + 0) (omega arith) ∙ ground arith
  element_new l (v ∷ vs) (suc x) u h =
      ap (element (push_all (library t) (item l v) vs)) (omega arith)
      ∙ element_new (item l v) vs x u h

  map_not_scalar : {n : Tree} → IsMap (library t) n → is_scalar n ≡ false
  map_not_scalar fresh_map = refl
  map_not_scalar (field_map key v m) = refl

  library-Documented : Documented (library t)
  library-Documented = record {
    field_self = λ n key v m. ground (arith, equal_refl key);
    field_other = λ n key j v m h. ground arith;
    field_fresh = λ key. refl;
    map_not_scalar = λ m. map_not_scalar m;
    text_scalar = λ s. refl;
    count_all = λ vs. count-push_all leaf vs ∙ omega arith;
    element_all = λ vs x v h.
        ap (element (push_all (library t) leaf vs)) (omega arith) ∙ element_new leaf vs x v h;
  }

abbrev file_define : LogAppenderDefine
file_define = record { type = 1; level = Level.warn; formatter = codes "%m"; file = codes "a.log" }

abbrev console_define : LogAppenderDefine
console_define = record { type = 2; level = Level.unknow; formatter = []; file = [] }

abbrev pub net_define : LogDefine
net_define = record {
  name = codes "net";
  level = Level.info;
  formatter = [];
  appenders = file_define ∷ console_define ∷ [];
}

abbrev document : Tree
document = write_define (library leaf) net_define

loads :
    (library document).load (to_yaml (library document) net_define)
    ≡ write_define (library document) net_define
unfolding write_define write_appenders write_appender push_appender with_type with_level
    with_formatter same_level Level.to_ℕ
loads = refl

cast_round_trip_example :
    from_yaml (library document) (to_yaml (library document) net_define) [] world
    ≡ ok (record net_define { appenders = kept_all (file_define ∷ console_define ∷ []) }, world)
cast_round_trip_example =
    cast_round_trip (library document) (library-Documented document) net_define [] world
      (inl refl, (inr refl, tt)) refl loads

-- The file appender loses its level.
kept_level : kept_all (file_define ∷ []) ≡ record file_define { level = Level.unknow } ∷ []
unfolding kept_all kept
kept_level = refl

same_define_iff_example : (same_define net_define (record net_define { appenders = [] }) ≡ true) ↔ (
    (codes "net" ≡ codes "net")
    × (Level.info ≡ Level.info)
    × (net_define.formatter ≡ net_define.formatter))
same_define_iff_example = same_define_iff net_define (record net_define { appenders = [] })

-- The listener's surroundings; the flag "d" is not set.
abbrev program : Program
program = record {
  log_name = get_logger;
  log_info = λ text. pure tt;
  clear_appenders = λ l. pure tt;
  has = λ flag. false;
}

abbrev bare_define : LogDefine
bare_define = record net_define { appenders = [] }

changed_appenders_ignored_example :
    apply_define machine program (bare_define ∷ []) net_define [] world ≡ ok (tt, world)
unfolding find_define less_define less
changed_appenders_ignored_example =
    changed_appenders_ignored machine program (bare_define ∷ []) net_define bare_define [] world
      refl refl refl refl

logger_yaml-described_example :
    (f : LogFormatter) × (some plain ≡ some f)
    × (logger_yaml (library leaf) 0 [] world
        ≡ ok (
          (library leaf).dump (
              described (library leaf) world (0 ∷ 1 ∷ []) (
                with_text
                  (library leaf)
                  (with_level
                    (library leaf)
                    Level.debug
                    (with_text (library leaf) leaf (codes "name") (codes "root")))
                  (codes "formatter")
                  f.pattern)),
          world,
        ))
logger_yaml-described_example =
    logger_yaml-described (library leaf) 0 root_logger world world-WellFormed refl

-- Surroundings in which clearing empties the list.
abbrev pub clearing : Program
clearing = record program {
  clear_appenders = λ l. logger_at l >>= λ lg. put_logger l (record lg { appenders = [] });
}

pub clearing-Clears : Clears clearing
unfolding logger_at put_logger deref
clearing-Clears l lg w h = ground (arith, h)

abbrev root_define : LogDefine
root_define = record net_define { name = codes "root" }

-- Surroundings in which the listener's message is logged.
abbrev logging : Program
logging = record clearing {
  log_info = λ text held w.
      Logger.log machine 2 w.root Level.info (record event { ss = text; logger = w.root }) held w;
}

logging-Expected : Expected machine logging
unfolding logger_at put_logger deref
logging-Expected = record {
  named = λ name w. refl;
  logs = λ text w.
      inr (record event { ss = text; logger = w.root }, refl, (codes "main.cc", refl), refl);
  clears = λ l lg w h. ground (arith, h);
}

-- The logger "root" goes and "net" comes, with a file and the console.
on_change-Succeeds_example :
    Succeeds (on_change machine logging (root_define ∷ []) (net_define ∷ [])) initial
on_change-Succeeds_example =
    on_change-Succeeds machine logging logging-Expected (root_define ∷ []) (net_define ∷ []) initial
      ((inl refl, (inr refl, tt)), tt) initial-Inv

-- The text is read, and applied where the old configuration has the root.
from_yaml-applied_example :
    Ends
      (λ d. Succeeds (on_change machine logging (root_define ∷ []) (d ∷ [])) initial)
      world
      (from_yaml (library document) [] [] world)
from_yaml-applied_example =
    from_yaml-applied (library document) machine logging logging-Expected [] [] world initial
      (root_define ∷ []) [] tt initial-Inv

-- A text that is a scalar is asked for its name.
scalar_text : from_yaml (library (scalar (codes "net"))) [] [] world ≡ fault bad_subscript
unfolding from_yaml read_define
scalar_text = refl
