-- ===== src/Log/Config/Elements.antt =====
-- The list of appenders of a configuration, written to YAML and read back.
use rabbit_log_db.Base.{
  ℕ, zero, suc, ◌+◌, false, List, [], ◌∷◌, ◌++◌, some, ◌≡◌, refl, sym, ap, ◌∙◌, arith, Bytes, codes,
  equal, length, get_elem?, append-nil, append_assoc,
}
use rabbit_log_db.Log.Config.{
  Yaml, LogAppenderDefine, push_appender, write_appenders, write_appender, read_appenders,
  read_list,
}
use rabbit_log_db.Log.Config.Nodes.{
  IsMap, field_map, push_all, Documented, listing, push_appender-listing,
}
use rabbit_log_db.Log.World.{World, Lock, ok, ◌>>=◌}
use rabbit_log_db.Log.Config.Single.{kept, kept_all, AllKnown, read_written}

module _ {Node : Type 0} (yaml : Yaml Node) (laws : Documented yaml) where
  -- The loop reads the elements that stand from a place on.
  read_elements :
      (xs : List LogAppenderDefine) (x : ℕ) (l : Node) (acc : List LogAppenderDefine)
      (held : List Lock) (w : World)
      → AllKnown xs
      → ((i : ℕ) (a : LogAppenderDefine)
          → get_elem? xs i ≡ some a
          → yaml.element l (x + i) ≡ write_appender yaml a)
      → read_appenders yaml (length xs) x l acc held w ≡ ok (acc ++ kept_all xs, w)
  unfolding read_appenders kept_all
  read_elements [] x l acc held w k h = ap (λ t. ok (t, w)) (sym (append-nil acc))
  read_elements (a ∷ xs) x l acc held w (k, ks) h =
      let e : yaml.element l x ≡ write_appender yaml a =
        ap (yaml.element l) (omega arith) ∙ h 0 a refl in
      let next : (i : ℕ) (b : LogAppenderDefine)
          → get_elem? xs i ≡ some b
          → yaml.element l (suc x + i) ≡ write_appender yaml b =
        λ i b g. ap (yaml.element l) (omega arith) ∙ h (suc i) b g in
      rw e (
        rw (read_written yaml laws a held w k, ◌>>=◌)
          (read_elements xs (suc x) l (acc ++ kept a ∷ []) held w ks next
            ∙ ap (λ t. ok (t, w)) (append_assoc acc (kept a ∷ []) (kept_all xs))))

  pub write_appenders-IsMap :
      (xs : List LogAppenderDefine) (n : Node)
      → IsMap yaml n
      → IsMap yaml (write_appenders yaml xs n)
  unfolding write_appenders push_appender
  write_appenders-IsMap [] n h = h
  write_appenders-IsMap (a ∷ xs) n h =
      write_appenders-IsMap xs (push_appender yaml n (write_appender yaml a))
        (field_map (codes "appenders") _ h)

  pub write_appenders-field :
      (xs : List LogAppenderDefine) (n : Node) (key : Bytes)
      → IsMap yaml n
      → equal (codes "appenders") key ≡ false
      → yaml.field (write_appenders yaml xs n) key ≡ yaml.field n key
  unfolding write_appenders push_appender
  write_appenders-field [] n key h e = refl
  write_appenders-field (a ∷ xs) n key h e =
      write_appenders-field xs (push_appender yaml n (write_appender yaml a)) key
        (field_map (codes "appenders") _ h) e
      ∙ laws.field_other n (codes "appenders") key _ h e

  pub written : List LogAppenderDefine → List Node
  written [] = []
  written (a ∷ xs) = write_appender yaml a ∷ written xs

  pub write_appenders-listing :
      (xs : List LogAppenderDefine) (n : Node) (vs : List Node)
      → IsMap yaml n
      → yaml.field n (codes "appenders") ≡ listing yaml laws vs
      → yaml.field (write_appenders yaml xs n) (codes "appenders")
        ≡ listing yaml laws (vs ++ written xs)
  unfolding write_appenders push_appender written
  write_appenders-listing [] n vs h e = e ∙ ap (listing yaml laws) (sym (append-nil vs))
  write_appenders-listing (a ∷ xs) n vs h e =
      write_appenders-listing xs (push_appender yaml n (write_appender yaml a))
        (vs ++ write_appender yaml a ∷ []) (field_map (codes "appenders") _ h)
        (push_appender-listing yaml laws n (write_appender yaml a) vs h e)
      ∙ ap (listing yaml laws) (append_assoc vs (write_appender yaml a ∷ []) (written xs))

  -- The elements of a written list.
  element_written :
      (xs : List LogAppenderDefine) (i : ℕ) (a : LogAppenderDefine)
      → get_elem? xs i ≡ some a
      → get_elem? (written xs) i ≡ some (write_appender yaml a)
  unfolding written
  element_written [] i a h = cc
  element_written (x ∷ xs) zero a h = cc
  element_written (x ∷ xs) (suc i) a h = element_written xs i a h

  length-written : (xs : List LogAppenderDefine) → length (written xs) ≡ length xs
  unfolding written
  length-written [] = refl
  length-written (x ∷ xs) = ap suc (length-written xs)

  pub read_listing :
      (xs : List LogAppenderDefine) (held : List Lock) (w : World)
      → AllKnown xs
      → read_list yaml (listing yaml laws (written xs)) held w ≡ ok (kept_all xs, w)
  unfolding read_list read_appenders kept_all written
  read_listing [] held w k = refl
  read_listing (a ∷ xs) held w k =
      ap (λ m. read_appenders yaml m 0 (push_all yaml yaml.fresh (written (a ∷ xs))) [] held w)
        (laws.count_all (written (a ∷ xs)) ∙ length-written (a ∷ xs))
      ∙ read_elements (a ∷ xs) 0 (push_all yaml yaml.fresh (written (a ∷ xs))) [] held w k (λ i b h.
        ap (yaml.element (push_all yaml yaml.fresh (written (a ∷ xs)))) (omega arith)
        ∙ laws.element_all (written (a ∷ xs)) i (write_appender yaml b)
            (element_written (a ∷ xs) i b h))
