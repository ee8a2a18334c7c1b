-- ===== src/Db/Slice/Order.antt =====
-- `compare` is the lexicographic order of the contents, a total order, and `==` its equality.
use rabbit_log_db.Base.{
  ℕ, zero, suc, ◌≤◌, [], ◌∷◌, some, ◌≡◌, ◌↔◌, refl, ap, ◌∙◌, arith, ◌==◌, ltb, if◌then◌else◌, Bytes,
  length, take,
}
use rabbit_log_db.Db.Slice.{
  Slice, Sign, negative, equal, positive, to_string, memcmp, by_size, compare,
}

-- The slice lies within the bytes that can be read.
abbrev pub IsValid : Slice → Type 0
IsValid s = s.size ≤ length s.bytes

-- The lexicographic order of byte strings.
unfoldable pub lex : Bytes → Bytes → Sign
lex [] [] = equal
lex [] (y ∷ ys) = negative
lex (x ∷ xs) [] = positive
lex (x ∷ xs) (y ∷ ys) = if x == y then lex xs ys else if ltb x y then negative else positive

unfoldable pub flip : Sign → Sign
flip negative = positive
flip equal = equal
flip positive = negative

memcmp-lex :
    (n m : ℕ) (xs ys : Bytes)
    → n ≤ length xs
    → m ≤ length ys
    → by_size n m (memcmp (if ltb n m then n else m) xs ys) ≡ some (lex (take n xs) (take m ys))
unfolding by_size memcmp lex
memcmp-lex zero zero xs ys h k = refl
memcmp-lex zero (suc m) xs [] h k = absurd (omega arith)
memcmp-lex zero (suc m) xs (y ∷ ys) h k = ground arith
memcmp-lex (suc n) zero [] ys h k = absurd (omega arith)
memcmp-lex (suc n) zero (x ∷ xs) ys h k = ground arith
memcmp-lex (suc n) (suc m) [] ys h k = absurd (omega arith)
memcmp-lex (suc n) (suc m) (x ∷ xs) [] h k = absurd (omega arith)
memcmp-lex (suc n) (suc m) (x ∷ xs) (y ∷ ys) h k =
    ground (arith, memcmp-lex n m xs ys (omega arith) (omega arith))

-- Comparing two slices reads within both, and gives the lexicographic order of their contents.
pub compare-lex :
    (a b : Slice) → IsValid a → IsValid b → compare a b ≡ some (lex (to_string a) (to_string b))
unfolding compare to_string
compare-lex a b h k = memcmp-lex a.size b.size a.bytes b.bytes h k

pub lex-flip : (xs ys : Bytes) → lex ys xs ≡ flip (lex xs ys)
unfolding lex flip
lex-flip [] [] = refl
lex-flip [] (y ∷ ys) = refl
lex-flip (x ∷ xs) [] = refl
lex-flip (x ∷ xs) (y ∷ ys) = ground (arith, lex-flip xs ys)

pub lex_refl : (xs : Bytes) → lex xs xs ≡ equal
unfolding lex
lex_refl [] = refl
lex_refl (x ∷ xs) = ground (arith, lex_refl xs)

eq_of_lex : (xs ys : Bytes) → lex xs ys ≡ equal → xs ≡ ys
unfolding lex
eq_of_lex [] [] h = refl
eq_of_lex [] (y ∷ ys) h = cc
eq_of_lex (x ∷ xs) [] h = cc
eq_of_lex (x ∷ xs) (y ∷ ys) h = ground (arith, eq_of_lex xs ys)

pub lex_trans :
    (xs ys zs : Bytes) → lex xs ys ≡ negative → lex ys zs ≡ negative → lex xs zs ≡ negative
unfolding lex
lex_trans [] [] zs h k = cc
lex_trans [] (y ∷ ys) [] h k = cc
lex_trans [] (y ∷ ys) (z ∷ zs) h k = refl
lex_trans (x ∷ xs) [] zs h k = cc
lex_trans (x ∷ xs) (y ∷ ys) [] h k = cc
lex_trans (x ∷ xs) (y ∷ ys) (z ∷ zs) h k = ground (arith, lex_trans xs ys zs)

-- The comparison of slices within their bounds is a total order on contents: it always answers,
-- swapping the arguments turns the sign round, it answers `equal` exactly for equal contents, and it
-- is transitive.
pub compare_total_order :
    (a b c : Slice)
    → IsValid a
    → IsValid b
    → IsValid c
    → (s : Sign) × (compare a b ≡ some s)
      × (compare b a ≡ some (flip s))
      × ((s ≡ equal) ↔ (to_string a ≡ to_string b))
      × (s ≡ negative → compare b c ≡ some negative → compare a c ≡ some negative)
compare_total_order a b c ha hb hc = (
  lex (to_string a) (to_string b),
  compare-lex a b ha hb,
  compare-lex b a hb ha ∙ ap some (lex-flip (to_string a) (to_string b)),
  (eq_of_lex (to_string a) (to_string b), λ e. rw (← e) (lex_refl (to_string a))),
  λ h k.
      let k' : lex (to_string b) (to_string c) ≡ negative = ground (arith, compare-lex b c hb hc) in
      compare-lex a c ha hc ∙ ap some (lex_trans (to_string a) (to_string b) (to_string c) h k'),
)
