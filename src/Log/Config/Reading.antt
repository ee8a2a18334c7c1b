-- ===== src/Log/Config/Reading.antt =====
-- Reading a configuration from YAML in Log/Log.cpp, whatever the text is, and applying it.
use rabbit_log_db.Base.{
  ℕ, zero, suc, Bool, true, false, List, [], ◌∷◌, ◌++◌, Option, none, some, refl, sym, subst, inl,
  inr, if◌then◌else◌, Bytes, codes, equal, append-nil, append_assoc,
}
use rabbit_log_db.Log.Config.Apply.{Program, on_change}
use rabbit_log_db.Log.Config.Changes.{on_change-Succeeds}
use rabbit_log_db.Log.Config.Running.{Each}
use rabbit_log_db.Log.Config.Single.{IsKnown}
use rabbit_log_db.Log.Config.Surroundings.{Expected, KnownTypes}
use rabbit_log_db.Log.Config.{
  read_fields, read_define_fields, Yaml, LogAppenderDefine, LogDefine, as_text, text_or, read_file,
  read_stdout, read_appender, add_read, read_appenders, read_list, read_define, from_yaml,
}
use rabbit_log_db.Log.Manager.Calls.{Succeeds}
use rabbit_log_db.Log.Manager.Naming.{Inv}
use rabbit_log_db.Log.World.{
  World, Outside, Lock, Result, ok, fault, bad_conversion, bad_subscript, bad_document, logic_error,
  M, pure, fail, ◌>>=◌, ◌>>◌, print,
}

-- The console has got more text.
abbrev said : World → Bytes → World
said w t = record w { console = w.console ++ t }

-- How reading ends: with the exception of a text that is no document, of a scalar that is asked for a field,
-- of a field that is no text or of a missing name, or with a result and perhaps something printed.
pub data Ends {A : Type 0} (P : A → Type 0) (w : World) : Result (A × World) → Type 0 where
  no_document : Ends P w (fault bad_document)
  no_fields : Ends P w (fault bad_subscript)
  no_text : Ends P w (fault bad_conversion)
  no_name : Ends P w (fault (logic_error (codes "log config name is null")))
  reads : (a : A) (t : Bytes) → P a → Ends P w (ok (a, record w { console = w.console ++ t }))

Ends-later :
    {A : Type 0} {P : A → Type 0} (w : World) (t : Bytes) (x : Result (A × World))
    → Ends P (said w t) x
    → Ends P w x
Ends-later w t x no_document = no_document
Ends-later w t x no_fields = no_fields
Ends-later w t x no_text = no_text
Ends-later w t x no_name = no_name
Ends-later {P = P} w t x (reads a u p) =
    subst (λ (c : Bytes). Ends P w (ok (a, record w { console = c })))
      (sym (append_assoc w.console t u)) (reads a (t ++ u) p)

Ends-map :
    {A : Type 0} {P Q : A → Type 0} {w : World} (x : Result (A × World))
    → ((a : A) → P a → Q a)
    → Ends P w x
    → Ends Q w x
Ends-map x f no_document = no_document
Ends-map x f no_fields = no_fields
Ends-map x f no_text = no_text
Ends-map x f no_name = no_name
Ends-map x f (reads a t p) = reads a t (f a p)

-- A function that reads, under any locks and in any store.
unfoldable Reads : {A : Type 0} → (A → Type 0) → M A → Type 0
Reads P m = (h : List Lock) (w : World) → Ends P w (m h w)

Reads-pure : {A : Type 0} (P : A → Type 0) (a : A) → P a → Reads P (pure a)
unfolding Reads
Reads-pure P a p h w =
    subst (λ (c : Bytes). Ends P w (ok (a, record w { console = c }))) (append-nil w.console)
      (reads a [] p)

module _ {A B : Type 0} (P : A → Type 0) (Q : B → Type 0) (m : M A) (n : A → M B) where
  Ends-then :
      (h : List Lock) (w : World) (x : Result (A × World))
      → Ends P w x
      → ((a : A) (v : World) → P a → Ends Q v (n a h v))
      → Ends Q w (elim x [ fault e ↦ fault e | ok (a, v) ↦ n a h v ])
  Ends-then h w x no_document k = no_document
  Ends-then h w x no_fields k = no_fields
  Ends-then h w x no_text k = no_text
  Ends-then h w x no_name k = no_name
  Ends-then h w x (reads a t p) k = Ends-later w t _ (k a (said w t) p)

  Reads-bind : Reads P m → ((a : A) → P a → Reads Q (n a)) → Reads Q (m >>= n)
  unfolding Reads
  Reads-bind e k h w = Ends-then h w (m h w) (e h w) (λ a v p. k a p h v)

-- What depends on an optional value, or on a test.
Reads-option :
    {A B : Type 0} (Q : B → Type 0) (o : Option A) (m : M B) (n : A → M B)
    → Reads Q m
    → ((a : A) → Reads Q (n a))
    → Reads Q (elim o [ none ↦ m | some a ↦ n a ])
Reads-option Q none m n e k = e
Reads-option Q (some a) m n e k = k a

Reads-if :
    {B : Type 0} (Q : B → Type 0) (b : Bool) (m n : M B)
    → Reads Q m
    → Reads Q n
    → Reads Q (if b then m else n)
Reads-if Q true m n e k = e
Reads-if Q false m n e k = k

abbrev Any : {A : Type 0} → A → Type 0
Any a = Unit {0}

-- What is read of an appender is skipped or of a known type.
abbrev KnownIf : Option LogAppenderDefine → Type 0
KnownIf none = Unit {0}
KnownIf (some a) = IsKnown a

Each-append :
    {A : Type 0} (P : A → Type 0) (xs : List A) (a : A) → Each P xs → P a → Each P (xs ++ a ∷ [])
Each-append P [] a e p = (p, tt)
Each-append P (x ∷ xs) a e p = (e.0, Each-append P xs a e.1 p)

module _ {Node : Type 0} (yaml : Yaml Node) where
  as_text-Reads : (n : Node) → Reads Any (as_text yaml n)
  unfolding as_text Reads
  as_text-Reads n =
      Reads-option Any (yaml.text n) (fail bad_conversion) pure (λ h w. no_text)
        (λ s. Reads-pure Any s tt)

  text_or-Reads : (s : Bytes) (o : Option Node) → Reads Any (text_or yaml s o)
  unfolding text_or
  text_or-Reads s none = Reads-pure Any s tt
  text_or-Reads s (some n) = as_text-Reads n

  -- A complaint goes to the console, and the element is skipped.
  skipped-Reads : (t : Bytes) → Reads KnownIf (print t >> pure none)
  unfolding print Reads
  skipped-Reads t h w = reads none t tt

  read_file-Reads : (a : Node) → Reads KnownIf (read_file yaml a)
  unfolding read_file
  read_file-Reads a = Reads-option KnownIf (yaml.field a (codes "file")) _ _ (skipped-Reads _) (λ f.
      Reads-bind Any KnownIf (as_text yaml f) _ (as_text-Reads f) (λ file u.
        Reads-bind Any KnownIf (text_or yaml [] (yaml.field a (codes "formatter"))) _
          (text_or-Reads [] _) (λ t u. Reads-pure KnownIf (some _) (inl refl))))

  read_stdout-Reads : (a : Node) → Reads KnownIf (read_stdout yaml a)
  unfolding read_stdout
  read_stdout-Reads a =
      Reads-bind Any KnownIf (text_or yaml [] (yaml.field a (codes "formatter"))) _
        (text_or-Reads [] _) (λ t u. Reads-pure KnownIf (some _) (inr refl))

  read_fields-Reads : (a : Node) → Reads KnownIf (read_fields yaml a)
  unfolding read_fields
  read_fields-Reads a =
      Reads-option KnownIf (yaml.field a (codes "type")) _ _ (skipped-Reads _) (λ t.
        Reads-bind Any KnownIf (as_text yaml t) _ (as_text-Reads t) (λ type u.
          Reads-if KnownIf (equal type (codes "FileLogAppender")) _ _ (read_file-Reads a) (
            Reads-if KnownIf (equal type (codes "StdoutLogAppender")) _ _ (read_stdout-Reads a)
              (skipped-Reads _))))

  -- A scalar has no fields.
  scalar-Reads : {A : Type 0} (P : A → Type 0) → Reads P (fail bad_subscript)
  unfolding Reads
  scalar-Reads P h w = no_fields

  read_appender-Reads : (a : Node) → Reads KnownIf (read_appender yaml a)
  unfolding read_appender
  read_appender-Reads a =
      Reads-if KnownIf (yaml.is_scalar a) _ _ (scalar-Reads KnownIf) (read_fields-Reads a)

  added :
      (xs : List LogAppenderDefine) (a : Option LogAppenderDefine)
      → Each IsKnown xs
      → KnownIf a
      → Each IsKnown (add_read yaml a xs)
  added xs none k known = k
  added xs (some a) k known = Each-append IsKnown xs a k known

  read_appenders-Reads :
      (m x : ℕ) (n : Node) (xs : List LogAppenderDefine)
      → Each IsKnown xs
      → Reads (Each IsKnown) (read_appenders yaml m x n xs)
  unfolding read_appenders
  read_appenders-Reads zero x n xs k = Reads-pure (Each IsKnown) xs k
  read_appenders-Reads (suc m) x n xs k =
      Reads-bind KnownIf (Each IsKnown) (read_appender yaml (yaml.element n x)) _
        (read_appender-Reads (yaml.element n x))
        (λ a known. read_appenders-Reads m (suc x) n (add_read yaml a xs) (added xs a k known))

  read_list-Reads : (o : Option Node) → Reads (Each IsKnown) (read_list yaml o)
  unfolding read_list
  read_list-Reads none = Reads-pure (Each IsKnown) [] tt
  read_list-Reads (some l) = read_appenders-Reads (yaml.count l) 0 l [] tt

  -- Without a name there is an exception, after the complaint.
  nameless-Reads :
      (t : Bytes)
      → Reads KnownTypes (print t >> fail (logic_error (codes "log config name is null")))
  unfolding print Reads
  nameless-Reads t h w = no_name

  read_define_fields-Reads : (n : Node) → Reads KnownTypes (read_define_fields yaml n)
  unfolding read_define_fields
  read_define_fields-Reads n =
      Reads-option KnownTypes (yaml.field n (codes "name")) _ _ (nameless-Reads _) (λ m.
        Reads-bind Any KnownTypes (as_text yaml m) _ (as_text-Reads m) (λ name u.
          Reads-bind Any KnownTypes (text_or yaml [] (yaml.field n (codes "level"))) _
            (text_or-Reads [] _)
            (λ level u.
              Reads-bind Any KnownTypes (text_or yaml [] (yaml.field n (codes "formatter"))) _
                (text_or-Reads [] _)
                (λ formatter u.
                  Reads-bind (Each IsKnown) KnownTypes
                    (read_list yaml (yaml.field n (codes "appenders"))) _ (read_list-Reads _)
                    (λ xs known. Reads-pure KnownTypes _ known)))))

-- Reading from a text.
module _ {Node : Type 0} (yaml : Yaml Node) where
  read_define-Reads : (n : Node) → Reads KnownTypes (read_define yaml n)
  unfolding read_define
  read_define-Reads n =
      Reads-if KnownTypes (yaml.is_scalar n) _ _ (scalar-Reads yaml KnownTypes)
        (read_define_fields-Reads yaml n)

  no_document-Reads : Reads KnownTypes (fail bad_document)
  unfolding Reads
  no_document-Reads h w = no_document

  from_yaml-Reads : (v : Bytes) → Reads KnownTypes (from_yaml yaml v)
  unfolding from_yaml
  from_yaml-Reads v =
      Reads-if KnownTypes (yaml.is_document v) _ _ (read_define-Reads (yaml.load v))
        no_document-Reads

-- Whatever a text is and however the YAML library reads it, reading a configuration from it either throws,
-- since the text is no document, a scalar is asked for a field, a field is no text or the name is
-- missing, or gives a configuration and then changes nothing but what stands on the console; and
-- the listener takes the configuration that was read, before others whose appenders have known types, to
-- its end, from every store that is in order and whatever the old configurations are, with surroundings
-- that do what is expected of them.
pub from_yaml-applied :
    {Node : Type 0} (yaml : Yaml Node) (out : Outside) (program : Program)
    → Expected out program
    → (v : Bytes) (h : List Lock) (w u : World) (old others : List LogDefine)
    → Each KnownTypes others
    → Inv u
    → Ends (λ d. Succeeds (on_change out program old (d ∷ others)) u) w (from_yaml yaml v h w)
unfolding Reads
from_yaml-applied yaml out program expected v h w u old others known i =
    Ends-map (from_yaml yaml v h w)
      (λ d k. on_change-Succeeds out program expected old (d ∷ others) u (k, known) i)
      (from_yaml-Reads yaml v h w)
