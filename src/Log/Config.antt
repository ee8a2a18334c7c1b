-- ===== src/Log/Config.antt =====
-- The configuration of Log/Log.cpp: LogAppenderDefine, LogDefine, and the casts between LogDefine and
-- YAML.
pub mod Nodes
pub mod Running
pub mod Surroundings
pub mod Changes
pub mod Planned
pub mod Applied
pub mod Outcome
pub mod Single
pub mod Elements
pub mod RoundTrip
pub mod Reading
pub mod Comparing
pub mod Apply
pub mod Dump
use rabbit_log_db.Base.{
  ℕ, zero, suc, Bool, true, false, ◌&&◌, List, [], ◌∷◌, ◌++◌, Option, none, some, ◌==◌,
  if◌then◌else◌, not, Bytes, codes, equal, less, length,
}
use rabbit_log_db.Log.Level.{Level, from_string, to_string}
use rabbit_log_db.Log.Level
use rabbit_log_db.Log.World.{
  logic_error, bad_conversion, bad_subscript, bad_document, M, pure, ◌>>=◌, ◌>>◌, fail, print, each,
}

-- The YAML library, by what the program uses of it.
pub record Yaml (Node : Type 0) : Type 0 where
  -- `YAML::Load`, which throws unless the text is a document.
  pub is_document : Bytes → Bool
  pub load : Bytes → Node
  pub dump : Node → Bytes
  pub fresh : Node
  pub scalar : Bytes → Node
  -- `n[key]`, which throws on a scalar; else the field, if it is defined.
  pub is_scalar : Node → Bool
  pub field : Node → Bytes → Option Node
  -- `as<std::string>`, if it does not throw.
  pub text : Node → Option Bytes
  pub count : Node → ℕ
  pub element : Node → ℕ → Node
  -- `n[key] = v`
  pub with_field : Node → Bytes → Node → Node
  pub push_back : Node → Node → Node

pub record LogAppenderDefine : Type 0 where
  pub type : ℕ
  pub level : Level
  pub formatter : Bytes
  pub file : Bytes

pub record LogDefine : Type 0 where
  pub name : Bytes
  pub level : Level
  pub formatter : Bytes
  pub appenders : List LogAppenderDefine

-- `std::string::empty`
abbrev pub empty : Bytes → Bool
empty [] = true
empty (c ∷ cs) = false

-- Two enumerators are equal.
unfoldable pub same_level : Level → Level → Bool
unfolding Level.to_ℕ
same_level a b = Level.to_ℕ a == Level.to_ℕ b

-- `LogAppenderDefine::operator==`
unfoldable pub same_appender : LogAppenderDefine → LogAppenderDefine → Bool
unfolding same_level equal
same_appender a b =
    a.type == b.type
    && (same_level a.level b.level && (equal a.formatter b.formatter && equal a.file b.file))

-- `==` of two vectors.
unfoldable pub same_appenders : List LogAppenderDefine → List LogAppenderDefine → Bool
unfolding same_appender
same_appenders [] [] = true
same_appenders [] (b ∷ ys) = false
same_appenders (a ∷ xs) [] = false
same_appenders (a ∷ xs) (b ∷ ys) = same_appender a b && same_appenders xs ys

-- `LogDefine::operator==`, which compares `appenders` with itself.
unfoldable pub same_define : LogDefine → LogDefine → Bool
unfolding same_appenders same_level equal
same_define a b =
    equal a.name b.name
    && (same_level a.level b.level
        && (equal a.formatter b.formatter && same_appenders a.appenders a.appenders))

-- `LogDefine::operator<`
unfoldable pub less_define : LogDefine → LogDefine → Bool
unfolding less
less_define a b = less a.name b.name

-- `LogDefine::isValid`
unfoldable pub is_valid : LogDefine → Bool
is_valid d = not (empty d.name)

module _ {Node : Type 0} (yaml : Yaml Node) where
  -- `n.as<std::string>()`
  unfoldable pub as_text : Node → M Bytes
  as_text n = elim (yaml.text n) [ none ↦ fail bad_conversion | some s ↦ pure s ]

  -- The text of an optional field, with what stands for it if it is not defined.
  unfoldable pub text_or : Bytes → Option Node → M Bytes
  unfolding as_text
  text_or s none = pure s
  text_or s (some n) = as_text n

  abbrev complain : Bytes → Node → M (Unit {0})
  complain what n = print (codes "log config error: " ++ (what ++ (yaml.dump n ++ codes "\n")))

  -- The two known types of the loop's body; `none` is `continue`.
  unfoldable pub read_file : Node → M (Option LogAppenderDefine)
  unfolding as_text text_or
  read_file a = elim (yaml.field a (codes "file")) [
    | none ↦ do complain (codes "fileappender file is null, ") a; pure none
    | some f ↦ do
      file ← as_text f
      formatter ← text_or [] (yaml.field a (codes "formatter"))
      pure (some (record { type = 1; level = Level.unknow; formatter = formatter; file = file }))
  ]

  unfoldable pub read_stdout : Node → M (Option LogAppenderDefine)
  unfolding text_or
  read_stdout a = do
    formatter ← text_or [] (yaml.field a (codes "formatter"))
    pure (some (record { type = 2; level = Level.unknow; formatter = formatter; file = [] }))

  -- The body of the loop over the appenders, for an element that has fields.
  unfoldable pub read_fields : Node → M (Option LogAppenderDefine)
  unfolding as_text read_file read_stdout
  read_fields a = elim (yaml.field a (codes "type")) [
    | none ↦ do complain (codes "appender type is null, ") a; pure none
    | some t ↦ do
      type ← as_text t
      if equal type (codes "FileLogAppender")
          then read_file a
          else if equal type (codes "StdoutLogAppender")
          then read_stdout a
          else (do complain (codes "appender type is invalid, ") a; pure none)
  ]

  -- The body of the loop; `a["type"]` is what is asked for first.
  unfoldable pub read_appender : Node → M (Option LogAppenderDefine)
  unfolding read_fields
  read_appender a = if yaml.is_scalar a then fail bad_subscript else read_fields a

  abbrev pub add_read : Option LogAppenderDefine → List LogAppenderDefine → List LogAppenderDefine
  add_read none xs = xs
  add_read (some a) xs = xs ++ a ∷ []

  -- The loop, for the elements from `x` on, `m` of them.
  unfoldable pub read_appenders : ℕ → ℕ → Node → List LogAppenderDefine → M (List LogAppenderDefine)
  unfolding read_appender
  read_appenders zero x n xs = pure xs
  read_appenders (suc m) x n xs = do
    a ← read_appender (yaml.element n x)
    read_appenders m (suc x) n (add_read a xs)

  -- The branch where the field with the appenders is defined, and the other one.
  unfoldable pub read_list : Option Node → M (List LogAppenderDefine)
  unfolding read_appenders
  read_list none = pure []
  read_list (some l) = read_appenders (yaml.count l) 0 l []

  -- The node's fields, in `LexicalCast<std::string, LogDefine>`.
  unfoldable pub read_define_fields : Node → M LogDefine
  unfolding as_text text_or read_list
  read_define_fields n = elim (yaml.field n (codes "name")) [
    | none ↦ do
      complain (codes "name is null, ") n
      fail (logic_error (codes "log config name is null"))
    | some m ↦ do
      name ← as_text m
      level ← text_or [] (yaml.field n (codes "level"))
      formatter ← text_or [] (yaml.field n (codes "formatter"))
      xs ← read_list (yaml.field n (codes "appenders"))
      pure
          (record { name = name; level = from_string level; formatter = formatter; appenders = xs })
  ]

  -- The loaded node; `n["name"]` is what is asked for first.
  unfoldable pub read_define : Node → M LogDefine
  unfolding read_define_fields
  read_define n = if yaml.is_scalar n then fail bad_subscript else read_define_fields n

  -- `LexicalCast<std::string, LogDefine>::operator()`
  unfoldable pub from_yaml : Bytes → M LogDefine
  unfolding read_define
  from_yaml v = if yaml.is_document v then read_define (yaml.load v) else fail bad_document

  -- `n[key] = s`, for a string.
  abbrev pub with_text : Node → Bytes → Bytes → Node
  with_text n key s = yaml.with_field n key (yaml.scalar s)

  -- The level, unless it is unknown.
  unfoldable pub with_level : Level → Node → Node
  unfolding same_level
  with_level l n =
      if not (same_level l Level.unknow) then with_text n (codes "level") (to_string l) else n

  -- The formatter, unless it is empty.
  unfoldable pub with_formatter : Bytes → Node → Node
  with_formatter f n = if not (empty f) then with_text n (codes "formatter") f else n

  -- The type of an appender, and the file of a file.
  unfoldable pub with_type : LogAppenderDefine → Node → Node
  with_type a n =
      if a.type == 1
      then with_text (with_text n (codes "type") (codes "FileLogAppender")) (codes "file") a.file
      else if a.type == 2
      then with_text n (codes "type") (codes "StdoutLogAppender")
      else n

  unfoldable pub write_appender : LogAppenderDefine → Node
  unfolding with_level with_formatter with_type
  write_appender a = with_formatter a.formatter (with_level a.level (with_type a yaml.fresh))

  -- A field that is not defined becomes a sequence when something is pushed onto it.
  abbrev or_fresh : Option Node → Node
  or_fresh none = yaml.fresh
  or_fresh (some l) = l

  -- `n["appenders"].push_back(na)`
  unfoldable pub push_appender : Node → Node → Node
  push_appender n na =
      yaml.with_field n (codes "appenders")
        (yaml.push_back (or_fresh (yaml.field n (codes "appenders"))) na)

  -- The loop over the appenders.
  unfoldable pub write_appenders : List LogAppenderDefine → Node → Node
  unfolding push_appender write_appender
  write_appenders [] n = n
  write_appenders (a ∷ xs) n = write_appenders xs (push_appender n (write_appender a))

  -- The node of `LexicalCast<LogDefine, std::string>`.
  unfoldable pub write_define : LogDefine → Node
  unfolding with_level with_formatter write_appenders
  write_define i =
      write_appenders i.appenders (
        with_formatter i.formatter
          (with_level i.level (with_text yaml.fresh (codes "name") i.name)))

  -- `LexicalCast<LogDefine, std::string>::operator()`
  unfoldable pub to_yaml : LogDefine → Bytes
  unfolding write_define
  to_yaml i = yaml.dump (write_define i)
