-- ===== src/Log/Config/Single.antt =====
-- One appender of a configuration, written to YAML and read back.
use rabbit_log_db.Base.{
  false, List, [], ◌∷◌, none, some, ◌≡◌, refl, ◌∙◌, ◌⊎◌, inl, inr, ◌==◌, if◌then◌else◌, Bytes,
  codes, equal,
}
use rabbit_log_db.Log.Config.{
  Yaml, LogAppenderDefine, text_or, as_text, with_level, write_appender, with_type, read_appender,
  read_fields, read_file, read_stdout, with_text,
}
use rabbit_log_db.Log.Config.Nodes.{
  IsMap, fresh_map, field_map, Documented, with_level-IsMap, with_level-field, with_formatter-IsMap,
  with_formatter-field, with_formatter-read,
}
use rabbit_log_db.Log.Level
use rabbit_log_db.Log.World.{World, Lock, ok, ◌>>=◌, pure}

-- The configuration names a known type.
abbrev pub IsKnown : LogAppenderDefine → Type 0
IsKnown a = (a.type ≡ 1) ⊎ (a.type ≡ 2)

-- What reading keeps of an appender: not the level, and the file only of a file.
unfoldable pub kept : LogAppenderDefine → LogAppenderDefine
kept a = record {
  type = a.type;
  level = Level.unknow;
  formatter = a.formatter;
  file = if a.type == 1 then a.file else [];
}

abbrev pub AllKnown : List LogAppenderDefine → Type 0
AllKnown [] = Unit
AllKnown (a ∷ xs) = IsKnown a × AllKnown xs

unfoldable pub kept_all : List LogAppenderDefine → List LogAppenderDefine
kept_all [] = []
kept_all (a ∷ xs) = kept a ∷ kept_all xs

module _ {Node : Type 0} (yaml : Yaml Node) (laws : Documented yaml) where
  with_type-IsMap : (a : LogAppenderDefine) → IsKnown a → IsMap yaml (with_type yaml a yaml.fresh)
  unfolding with_type
  with_type-IsMap a (inl e) = rw e (
      field_map (codes "file") (yaml.scalar a.file)
        (field_map (codes "type") (yaml.scalar (codes "FileLogAppender")) fresh_map))
  with_type-IsMap a (inr e) =
      rw e (field_map (codes "type") (yaml.scalar (codes "StdoutLogAppender")) fresh_map)

  -- The fields that come after the type hide nothing of it.
  write_appender-field :
      (a : LogAppenderDefine) (key : Bytes)
      → IsKnown a
      → equal (codes "level") key ≡ false
      → equal (codes "formatter") key ≡ false
      → yaml.field (write_appender yaml a) key ≡ yaml.field (with_type yaml a yaml.fresh) key
  unfolding write_appender
  write_appender-field a key k e e' =
      let m = with_type-IsMap a k in
      with_formatter-field yaml laws a.formatter
        (with_level yaml a.level (with_type yaml a yaml.fresh)) key
        (with_level-IsMap yaml laws a.level (with_type yaml a yaml.fresh) m) e'
      ∙ with_level-field yaml laws a.level (with_type yaml a yaml.fresh) key m e

  type_field :
      (a : LogAppenderDefine) (key : Bytes)
      → IsKnown a
      → equal (codes "type") key ≡ false
      → equal (codes "file") key ≡ false
      → yaml.field (with_type yaml a yaml.fresh) key ≡ none
  unfolding with_type
  type_field a key (inl e) h h' =
      let n = with_text yaml yaml.fresh (codes "type") (codes "FileLogAppender") in
      rw e (
        laws.field_other n (codes "file") key (yaml.scalar a.file)
          (field_map (codes "type") (yaml.scalar (codes "FileLogAppender")) fresh_map) h'
        ∙ laws.field_other yaml.fresh (codes "type") key (yaml.scalar (codes "FileLogAppender"))
            fresh_map h
        ∙ laws.field_fresh key)
  type_field a key (inr e) h h' = rw e (
      laws.field_other yaml.fresh (codes "type") key (yaml.scalar (codes "StdoutLogAppender"))
        fresh_map h
      ∙ laws.field_fresh key)

  no_formatter :
      (a : LogAppenderDefine)
      → IsKnown a
      → yaml.field (with_level yaml a.level (with_type yaml a yaml.fresh)) (codes "formatter")
        ≡ none
  unfolding equal
  no_formatter a k =
      with_level-field yaml laws a.level (with_type yaml a yaml.fresh) (codes "formatter")
        (with_type-IsMap a k) refl
      ∙ type_field a (codes "formatter") k refl refl

  formatter_read :
      (a : LogAppenderDefine) (held : List Lock) (w : World)
      → IsKnown a
      → text_or yaml [] (yaml.field (write_appender yaml a) (codes "formatter")) held w
        ≡ ok (a.formatter, w)
  unfolding write_appender
  formatter_read a held w k =
      with_formatter-read yaml laws a.formatter
        (with_level yaml a.level (with_type yaml a yaml.fresh)) held w
        (with_level-IsMap yaml laws a.level (with_type yaml a yaml.fresh) (with_type-IsMap a k))
        (no_formatter a k)

  read_as_file :
      (n : Node) (name fmt : Bytes) (held : List Lock) (w : World)
      → yaml.field n (codes "type") ≡ some (yaml.scalar (codes "FileLogAppender"))
      → yaml.field n (codes "file") ≡ some (yaml.scalar name)
      → text_or yaml [] (yaml.field n (codes "formatter")) held w ≡ ok (fmt, w)
      → read_fields yaml n held w
        ≡ ok (some (record { type = 1; level = Level.unknow; formatter = fmt; file = name }), w)
  unfolding read_fields read_file as_text equal
  read_as_file n name fmt held w t f r =
      rw (t, read_fields)
        (rw (laws.text_scalar (codes "FileLogAppender"), as_text)
          (rw (f, read_file) (rw (laws.text_scalar name, as_text) (rw (r, ◌>>=◌, pure) refl))))

  read_as_stdout :
      (n : Node) (fmt : Bytes) (held : List Lock) (w : World)
      → yaml.field n (codes "type") ≡ some (yaml.scalar (codes "StdoutLogAppender"))
      → text_or yaml [] (yaml.field n (codes "formatter")) held w ≡ ok (fmt, w)
      → read_fields yaml n held w
        ≡ ok (some (record { type = 2; level = Level.unknow; formatter = fmt; file = [] }), w)
  unfolding read_fields read_stdout as_text equal
  read_as_stdout n fmt held w t r =
      rw (t, read_fields)
        (rw (laws.text_scalar (codes "StdoutLogAppender"), as_text)
          (rw (r, ◌>>=◌, pure, read_stdout) refl))

  fields_written :
      (a : LogAppenderDefine) (held : List Lock) (w : World)
      → IsKnown a
      → read_fields yaml (write_appender yaml a) held w ≡ ok (some (kept a), w)
  unfolding kept equal with_type
  fields_written a held w (inl e) =
      let n = with_text yaml yaml.fresh (codes "type") (codes "FileLogAppender") in
      let m = field_map (codes "type") (yaml.scalar (codes "FileLogAppender")) fresh_map in
      read_as_file (write_appender yaml a) a.file a.formatter held w
        (write_appender-field a (codes "type") (inl e) refl refl
          ∙ rw e (
              laws.field_other n (codes "file") (codes "type") (yaml.scalar a.file) m refl
              ∙ laws.field_self yaml.fresh (codes "type") (yaml.scalar (codes "FileLogAppender"))
                  fresh_map))
        (write_appender-field a (codes "file") (inl e) refl refl
          ∙ rw e (laws.field_self n (codes "file") (yaml.scalar a.file) m))
        (formatter_read a held w (inl e))
      ∙ rw e refl
  fields_written a held w (inr e) =
      read_as_stdout (write_appender yaml a) a.formatter held w
        (write_appender-field a (codes "type") (inr e) refl refl
          ∙ rw e (
              laws.field_self yaml.fresh (codes "type") (yaml.scalar (codes "StdoutLogAppender"))
                fresh_map))
        (formatter_read a held w (inr e))
      ∙ rw e refl

  pub read_written :
      (a : LogAppenderDefine) (held : List Lock) (w : World)
      → IsKnown a
      → read_appender yaml (write_appender yaml a) held w ≡ ok (some (kept a), w)
  unfolding read_appender write_appender
  read_written a held w k =
      let m =
        with_level-IsMap yaml laws a.level (with_type yaml a yaml.fresh) (with_type-IsMap a k) in
      rw (laws.map_not_scalar (with_formatter-IsMap yaml laws a.formatter _ m))
        (fields_written a held w k)
