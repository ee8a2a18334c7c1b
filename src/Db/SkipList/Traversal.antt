-- ===== src/Db/SkipList/Traversal.antt =====
-- What the comments of the skip list promise, and what follows for a walk through the list.
use rabbit_log_db.Base.{
  ℕ, zero, suc, ◌+◌, ◌<◌, ◌≤◌, List, [], ◌∷◌, Option, none, some, Bool, true, false, ◌≡◌, length,
  get_elem?, drop, refl, sym, ap, ◌∙◌, arith, if◌then◌else◌, Bool-cases, inl, inr, ltb,
}
use rabbit_log_db.Db.Slice.{negative, equal, positive}
use rabbit_log_db.Db.SkipList.{SkipList, same_key}

module _ {Key S It : Type 0} (list : SkipList Key S It) where
  -- How many entries stand before the target.
  unfoldable pub below : Key → List Key → ℕ
  below k [] = 0
  below k (x ∷ xs) = elim (list.compare x k) [
    | negative ↦ suc (below k xs)
    | equal ↦ 0
    | positive ↦ 0
  ]

  -- Some entry compares equal to the key.
  unfoldable pub holds : Key → List Key → Bool
  unfolding same_key
  holds k [] = false
  holds k (x ∷ xs) = if same_key list.compare x k then true else holds k xs

  -- A place in the list as the comments see it: the entries, and the number of the entry, which is their
  -- count where the iterator is not valid.
  pub record Documented : Type 0 where
    pub entries : S → List Key
    pub over : It → List Key
    pub place : It → ℕ
    pub contains_iff : (k : Key) (s : S) → list.contains k s ≡ holds k (entries s)
    pub iterator_over : (s : S) → over (list.iterator s) ≡ entries s
    pub iterator_invalid : (s : S) → list.valid (list.iterator s) ≡ false
    pub valid_place : (it : It) → list.valid it ≡ ltb (place it) (length (over it))
    pub key_place : (it : It) → list.key it ≡ get_elem? (over it) (place it)
    pub next_place :
        (it : It)
        → list.valid it ≡ true
        → (it' : It) × (list.next it ≡ some it')
          × (over it' ≡ over it)
          × (place it' ≡ suc (place it))
    pub first_place :
        (it : It) → (over (list.seek_to_first it) ≡ over it) × (place (list.seek_to_first it) ≡ 0)
    pub seek_place :
        (k : Key) (it : It)
        → (over (list.seek k it) ≡ over it) × (place (list.seek k it) ≡ below k (over it))

  -- `for (; it.Valid(); it.Next())`, with the keys that it sees.
  unfoldable pub walk : ℕ → It → Option (List Key)
  walk zero it = none
  walk (suc f) it = elim (list.valid it) [
    | false ↦ some []
    | true ↦ elim (list.key it) [
      | none ↦ none
      | some k ↦ elim (list.next it) [
        | none ↦ none
        | some it' ↦ elim (walk f it') [ none ↦ none | some ks ↦ some (k ∷ ks) ]
      ]
    ]
  ]

drop-get {ℓ} :
    {A : Type ℓ} (xs : List A) (i : ℕ)
    → i < length xs
    → (x : A) × (get_elem? xs i ≡ some x) × (drop i xs ≡ x ∷ drop (suc i) xs)
drop-get [] i h = absurd (omega arith)
drop-get (x ∷ xs) zero h = (x, refl, refl)
drop-get (x ∷ xs) (suc i) h = drop-get xs i (omega arith)

drop-past {ℓ} : {A : Type ℓ} (xs : List A) (i : ℕ) → length xs ≤ i → drop i xs ≡ []
drop-past [] zero h = refl
drop-past [] (suc i) h = refl
drop-past (x ∷ xs) zero h = absurd (omega arith)
drop-past (x ∷ xs) (suc i) h = drop-past xs i (omega arith)

module _ {Key S It : Type 0} (list : SkipList Key S It) (d : Documented list) where
  open d use {over, place}

  below-le-length : (k : Key) (xs : List Key) → below list k xs ≤ length xs
  unfolding below
  below-le-length k [] = omega arith
  below-le-length k (x ∷ xs) = ground (arith, below-le-length k xs)

  walk-drop :
      (f : ℕ) (it : It)
      → length (over it) < place it + f
      → place it ≤ length (over it)
      → walk list f it ≡ some (drop (place it) (over it))
  unfolding walk
  walk-drop zero it h k = absurd (omega arith)
  walk-drop (suc f) it h k = elim (Bool-cases (ltb (place it) (length (over it)))) [
    | inr out ↦
        rw (d.valid_place it ∙ out, walk)
          (ap some (sym (drop-past (over it) (place it) (ground arith))))
    | inl here ↦
        let (x, at, rest) = drop-get (over it) (place it) (ground arith) in
        let (it', run, o, p) = d.next_place it (d.valid_place it ∙ here) in
        let tail : walk list f it' ≡ some (drop (suc (place it)) (over it)) =
          walk-drop f it' (rw (o, p) (omega arith)) (rw (o, p) (ground arith)) ∙ rw (o, p) refl in
        rw (d.valid_place it ∙ here, walk)
          (rw (d.key_place it ∙ at) (rw run (rw tail (ap some (sym rest)))))
  ]

  -- With more rounds than entries, the walk from the first entry sees all entries in their order, and
  -- the walk from a target sees those that no entry below the target precedes; both end.
  pub walk-entries :
      (s : S) (k : Key) (f : ℕ)
      → length (d.entries s) < f
      → (walk list f (list.seek_to_first (list.iterator s)) ≡ some (d.entries s))
        × (walk list f (list.seek k (list.iterator s))
            ≡ some (drop (below list k (d.entries s)) (d.entries s)))
  walk-entries s k f h =
      let o = d.iterator_over s in
      let (fo, fp) = d.first_place (list.iterator s) in
      let (so, sp) = d.seek_place k (list.iterator s) in
      (
        walk-drop f (list.seek_to_first (list.iterator s)) (rw (fo, fp, o) (omega arith))
              (rw (fo, fp, o) (omega arith))
            ∙ rw (fo, fp, o) refl,
        walk-drop f (list.seek k (list.iterator s)) (rw (so, sp, o) (omega arith))
              (rw (so, sp, o) (below-le-length k (d.entries s)))
            ∙ rw (so, sp, o) refl,
      )
