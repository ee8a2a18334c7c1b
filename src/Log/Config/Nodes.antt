-- ===== src/Log/Config/Nodes.antt =====
-- What the configuration relies on of the YAML library, and the nodes that the casts build.
use rabbit_log_db.Base.{
  ℕ, false, List, [], ◌∷◌, ◌++◌, Option, none, some, ◌≡◌, refl, sym, ap, ◌∙◌, inl, inr, ◌==◌, Bytes,
  codes, equal, length, get_elem?, Bool-cases,
}
use rabbit_log_db.Log.Config.{
  Yaml, same_level, text_or, as_text, with_level, with_formatter, push_appender,
}
use rabbit_log_db.Log.Level.{Level, from_string, to_string}
use rabbit_log_db.Log.Level
use rabbit_log_db.Log.World.{World, Lock, ok}

module _ {Node : Type 0} (yaml : Yaml Node) where
  -- A node that nothing but fields was put into.
  pub data IsMap : Node → Type 0 where
    fresh_map : IsMap yaml.fresh
    field_map : {n : Node} (key : Bytes) (v : Node) → IsMap n → IsMap (yaml.with_field n key v)

  -- A node with the values at its end.
  abbrev pub push_all : Node → List Node → Node
  push_all l [] = l
  push_all l (v ∷ vs) = push_all (yaml.push_back l v) vs

  -- The documented behaviour of nodes that are maps or sequences.
  pub record Documented : Type 0 where
    pub field_self :
        (n : Node) (key : Bytes) (v : Node)
        → IsMap n
        → yaml.field (yaml.with_field n key v) key ≡ some v
    pub field_other :
        (n : Node) (key j : Bytes) (v : Node)
        → IsMap n
        → equal key j ≡ false
        → yaml.field (yaml.with_field n key v) j ≡ yaml.field n j
    pub field_fresh : (key : Bytes) → yaml.field yaml.fresh key ≡ none
    pub map_not_scalar : {n : Node} → IsMap n → yaml.is_scalar n ≡ false
    pub text_scalar : (s : Bytes) → yaml.text (yaml.scalar s) ≡ some s
    pub count_all : (vs : List Node) → yaml.count (push_all yaml.fresh vs) ≡ length vs
    pub element_all :
        (vs : List Node) (x : ℕ) (v : Node)
        → get_elem? vs x ≡ some v
        → yaml.element (push_all yaml.fresh vs) x ≡ v

module _ {Node : Type 0} (yaml : Yaml Node) (laws : Documented yaml) where
  pub with_level-IsMap : (l : Level) (n : Node) → IsMap yaml n → IsMap yaml (with_level yaml l n)
  unfolding with_level same_level Level.to_ℕ to_string
  with_level-IsMap Level.unknow n h = h
  with_level-IsMap Level.debug n h = field_map (codes "level") (yaml.scalar (codes "DEBUG")) h
  with_level-IsMap Level.info n h = field_map (codes "level") (yaml.scalar (codes "INFO")) h
  with_level-IsMap Level.warn n h = field_map (codes "level") (yaml.scalar (codes "WARN")) h
  with_level-IsMap Level.error n h = field_map (codes "level") (yaml.scalar (codes "ERROR")) h
  with_level-IsMap Level.fatal n h = field_map (codes "level") (yaml.scalar (codes "FATAL")) h

  pub with_level-field :
      (l : Level) (n : Node) (key : Bytes)
      → IsMap yaml n
      → equal (codes "level") key ≡ false
      → yaml.field (with_level yaml l n) key ≡ yaml.field n key
  unfolding with_level same_level Level.to_ℕ to_string
  with_level-field l n key h e = elim (Bool-cases (Level.to_ℕ l == 0)) [
    | inl u ↦ rw u refl
    | inr u ↦ rw u (laws.field_other n (codes "level") key (yaml.scalar (to_string l)) h e)
  ]

  -- A text that was put into a map is read back.
  pub read_scalar :
      (key s d : Bytes) (n : Node) (held : List Lock) (w : World)
      → IsMap yaml n
      → text_or yaml d (yaml.field (yaml.with_field n key (yaml.scalar s)) key) held w ≡ ok (s, w)
  unfolding text_or as_text
  read_scalar key s d n held w h =
      rw (laws.field_self n key (yaml.scalar s) h) (rw (laws.text_scalar s, text_or, as_text) refl)

  -- The level that is read back.
  pub with_level-read :
      (l : Level) (n : Node) (held : List Lock) (w : World)
      → IsMap yaml n
      → yaml.field n (codes "level") ≡ none
      → (s : Bytes) × (text_or yaml [] (yaml.field (with_level yaml l n) (codes "level")) held w
          ≡ ok (s, w))
        × (from_string s ≡ l)
  unfolding text_or as_text with_level same_level Level.to_ℕ to_string from_string equal
  with_level-read Level.unknow n held w h e = ([], rw e refl, refl)
  with_level-read Level.debug n held w h e =
      (codes "DEBUG", read_scalar (codes "level") (codes "DEBUG") [] n held w h, refl)
  with_level-read Level.info n held w h e =
      (codes "INFO", read_scalar (codes "level") (codes "INFO") [] n held w h, refl)
  with_level-read Level.warn n held w h e =
      (codes "WARN", read_scalar (codes "level") (codes "WARN") [] n held w h, refl)
  with_level-read Level.error n held w h e =
      (codes "ERROR", read_scalar (codes "level") (codes "ERROR") [] n held w h, refl)
  with_level-read Level.fatal n held w h e =
      (codes "FATAL", read_scalar (codes "level") (codes "FATAL") [] n held w h, refl)

  pub with_formatter-IsMap :
      (f : Bytes) (n : Node) → IsMap yaml n → IsMap yaml (with_formatter yaml f n)
  unfolding with_formatter
  with_formatter-IsMap [] n h = h
  with_formatter-IsMap (c ∷ cs) n h = field_map (codes "formatter") (yaml.scalar (c ∷ cs)) h

  pub with_formatter-field :
      (f : Bytes) (n : Node) (key : Bytes)
      → IsMap yaml n
      → equal (codes "formatter") key ≡ false
      → yaml.field (with_formatter yaml f n) key ≡ yaml.field n key
  unfolding with_formatter
  with_formatter-field [] n key h e = refl
  with_formatter-field (c ∷ cs) n key h e =
      laws.field_other n (codes "formatter") key (yaml.scalar (c ∷ cs)) h e

  -- The formatter that is read back.
  pub with_formatter-read :
      (f : Bytes) (n : Node) (held : List Lock) (w : World)
      → IsMap yaml n
      → yaml.field n (codes "formatter") ≡ none
      → text_or yaml [] (yaml.field (with_formatter yaml f n) (codes "formatter")) held w
        ≡ ok (f, w)
  unfolding with_formatter text_or as_text
  with_formatter-read [] n held w h e = rw e refl
  with_formatter-read (c ∷ cs) n held w h e = read_scalar (codes "formatter") (c ∷ cs) [] n held w h

  -- A list of appenders as the field that holds it: with none there is no field.
  abbrev pub listing : List Node → Option Node
  listing [] = none
  listing (v ∷ vs) = some (push_all yaml yaml.fresh (v ∷ vs))

  push_all-append :
      (l : Node) (vs : List Node) (v : Node)
      → push_all yaml l (vs ++ v ∷ []) ≡ yaml.push_back (push_all yaml l vs) v
  push_all-append l [] v = refl
  push_all-append l (u ∷ vs) v = push_all-append (yaml.push_back l u) vs v

  pub push_appender-listing :
      (n v : Node) (vs : List Node)
      → IsMap yaml n
      → yaml.field n (codes "appenders") ≡ listing vs
      → yaml.field (push_appender yaml n v) (codes "appenders") ≡ listing (vs ++ v ∷ [])
  unfolding push_appender
  push_appender-listing n v [] h e =
      rw (e, push_appender) (laws.field_self n (codes "appenders") (yaml.push_back yaml.fresh v) h)
  push_appender-listing n v (u ∷ vs) h e =
      rw (e, push_appender)
        (laws.field_self n (codes "appenders")
            (yaml.push_back (push_all yaml yaml.fresh (u ∷ vs)) v) h
          ∙ ap some (sym (push_all-append yaml.fresh (u ∷ vs) v)))
