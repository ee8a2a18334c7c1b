-- ===== src/Log/Config/RoundTrip.antt =====
-- A configuration that is written to YAML and read back.
use rabbit_log_db.Base.{true, false, List, [], none, some, ◌≡◌, refl, ap, ◌∙◌, Bytes, codes, equal}
use rabbit_log_db.Log.Config.{
  Yaml, LogAppenderDefine, LogDefine, text_or, as_text, with_level, with_formatter, write_define,
  read_define, read_define_fields, read_list, from_yaml, to_yaml, with_text,
}
use rabbit_log_db.Log.Config.Nodes.{
  IsMap, fresh_map, field_map, Documented, with_level-IsMap, with_level-field, with_level-read,
  with_formatter-IsMap, with_formatter-field, with_formatter-read,
}
use rabbit_log_db.Log.Config.Single.{AllKnown, kept_all}
use rabbit_log_db.Log.Config.Elements.{
  write_appenders-IsMap, write_appenders-field, write_appenders-listing, read_listing,
}
use rabbit_log_db.Log.Level.{from_string}
use rabbit_log_db.Log.World.{World, Lock, ok, ◌>>=◌, pure}

module _ {Node : Type 0} (yaml : Yaml Node) (laws : Documented yaml) where
  read_parts :
      (n : Node) (name lv fmt : Bytes) (xs : List LogAppenderDefine) (held : List Lock) (w : World)
      → yaml.field n (codes "name") ≡ some (yaml.scalar name)
      → text_or yaml [] (yaml.field n (codes "level")) held w ≡ ok (lv, w)
      → text_or yaml [] (yaml.field n (codes "formatter")) held w ≡ ok (fmt, w)
      → read_list yaml (yaml.field n (codes "appenders")) held w ≡ ok (xs, w)
      → yaml.is_scalar n ≡ false
      → read_define yaml n held w
        ≡ ok (record { name = name; level = from_string lv; formatter = fmt; appenders = xs }, w)
  unfolding read_define read_define_fields as_text
  read_parts n name lv fmt xs held w e l f a s =
      rw (s, read_define)
        (rw (e, read_define_fields)
          (rw (laws.text_scalar name, as_text, ◌>>=◌, pure)
            (rw (l, ◌>>=◌, pure) (rw (f, ◌>>=◌, pure) (rw (a, ◌>>=◌, pure) refl)))))

  -- A node with a name alone has no other field.
  only_name :
      (name key : Bytes)
      → equal (codes "name") key ≡ false
      → yaml.field (yaml.with_field yaml.fresh (codes "name") (yaml.scalar name)) key ≡ none
  only_name name key h =
      laws.field_other yaml.fresh (codes "name") key (yaml.scalar name) fresh_map h
      ∙ laws.field_fresh key

  -- A configuration whose appenders have known types, written to YAML as a document and loaded from it, is
  -- read back
  -- with nothing printed, but for the levels of its appenders, which are unknown then, and the file of
  -- an appender to the console.
  pub cast_round_trip :
      (d : LogDefine) (held : List Lock) (w : World)
      → AllKnown d.appenders
      → yaml.is_document (to_yaml yaml d) ≡ true
      → yaml.load (to_yaml yaml d) ≡ write_define yaml d
      → from_yaml yaml (to_yaml yaml d) held w
        ≡ ok (record d { appenders = kept_all d.appenders }, w)
  unfolding from_yaml write_define equal
  cast_round_trip d held w k doc e =
      let apps = d.appenders in
      let n0 = with_text yaml yaml.fresh (codes "name") d.name in
      let n1 = with_level yaml d.level n0 in
      let n2 = with_formatter yaml d.formatter n1 in
      let m0 : IsMap yaml n0 = field_map (codes "name") (yaml.scalar d.name) fresh_map in
      let m1 : IsMap yaml n1 = with_level-IsMap yaml laws d.level n0 m0 in
      let m2 : IsMap yaml n2 = with_formatter-IsMap yaml laws d.formatter n1 m1 in
      let (lv, level_read, back) =
        with_level-read yaml laws d.level n0 held w m0 (only_name d.name (codes "level") refl) in
      rw doc (ap (λ t. read_define yaml t held w) e)
      ∙ read_parts (write_define yaml d) d.name lv d.formatter (kept_all apps) held w
          (write_appenders-field yaml laws apps n2 (codes "name") m2 refl
            ∙ with_formatter-field yaml laws d.formatter n1 (codes "name") m1 refl
            ∙ with_level-field yaml laws d.level n0 (codes "name") m0 refl
            ∙ laws.field_self yaml.fresh (codes "name") (yaml.scalar d.name) fresh_map)
          (ap (λ t. text_or yaml [] t held w)
              (write_appenders-field yaml laws apps n2 (codes "level") m2 refl
                ∙ with_formatter-field yaml laws d.formatter n1 (codes "level") m1 refl)
            ∙ level_read)
          (ap (λ t. text_or yaml [] t held w)
              (write_appenders-field yaml laws apps n2 (codes "formatter") m2 refl)
            ∙ with_formatter-read yaml laws d.formatter n1 held w m1 (
                with_level-field yaml laws d.level n0 (codes "formatter") m0 refl
                ∙ only_name d.name (codes "formatter") refl))
          (ap (λ t. read_list yaml t held w)
              (write_appenders-listing yaml laws apps n2 [] m2 (
                with_formatter-field yaml laws d.formatter n1 (codes "appenders") m1 refl
                ∙ with_level-field yaml laws d.level n0 (codes "appenders") m0 refl
                ∙ only_name d.name (codes "appenders") refl))
            ∙ read_listing yaml laws apps held w k)
          (laws.map_not_scalar (write_appenders-IsMap yaml laws apps n2 m2))
      ∙ ap
          (λ l. ok (
            record { name = d.name; level = l; formatter = d.formatter; appenders = kept_all apps },
            w,
          ))
          back
