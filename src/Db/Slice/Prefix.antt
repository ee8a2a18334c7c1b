-- ===== src/Db/Slice/Prefix.antt =====
-- `==`, `starts_with` and `remove_prefix`, by the contents of the slices.
use rabbit_log_db.Base.{
  ℕ, zero, suc, ◌-◌, ◌≤◌, Bool, true, false, [], ◌∷◌, ◌++◌, none, some, ◌≡◌, ◌↔◌, ◌<◌, subst, refl,
  sym, ap, ◌∙◌, arith, ◌==◌, leb, Bytes, length, take, drop, Bool-cases, inl, inr, length-append,
  take-append-drop, length-take_le, length-drop, take-take, drop-take, take-append_length,
}
use rabbit_log_db.Db.Slice.Order.{IsValid}
use rabbit_log_db.Db.Slice.{Slice, to_string, memcmp, is_zero, same, starts_with, remove_prefix}

-- `memcmp` answers 0 exactly if the first `n` bytes agree, and does answer if there are as many.
memcmp-take :
    (n : ℕ) (xs ys : Bytes)
    → n ≤ length xs
    → n ≤ length ys
    → (b : Bool) × (is_zero (memcmp n xs ys) ≡ some b) × ((b ≡ true) ↔ (take n xs ≡ take n ys))
unfolding memcmp is_zero
memcmp-take zero xs ys h k = (true, refl, (λ _. refl, λ _. refl))
memcmp-take (suc n) [] ys h k = absurd (omega arith)
memcmp-take (suc n) (x ∷ xs) [] h k = absurd (omega arith)
memcmp-take (suc n) (x ∷ xs) (y ∷ ys) h k =
    let (b, e, i) = memcmp-take n xs ys (omega arith) (omega arith) in
    elim (Bool-cases (x == y)) [
      | inl same ↦ (b, ground arith, ground arith)
      | inr other ↦ (false, ground arith, ground arith)
    ]

pub length-to_string : (s : Slice) → IsValid s → length (to_string s) ≡ s.size
unfolding to_string
length-to_string s h = length-take_le s.size s.bytes h

-- `==` on slices within their bounds always answers, and answers true exactly for equal contents.
pub same_iff :
    (x y : Slice)
    → IsValid x
    → IsValid y
    → (b : Bool) × (same x y ≡ some b) × ((b ≡ true) ↔ (to_string x ≡ to_string y))
unfolding same to_string
same_iff x y hx hy = elim (Bool-cases (x.size == y.size)) [
  | inl e ↦
      let e' : x.size ≡ y.size = ground arith in
      let (b, r, i) = memcmp-take x.size x.bytes y.bytes hx (omega arith) in
      (b, rw e r, rw (← e') i)
  | inr ne ↦ (
    false,
    rw ne,
    (
      λ h. absurd (cc),
      λ h. absurd (
          ground
            (arith, ap (λ (t : Bytes). length t) h, length-to_string x hx, length-to_string y hy)),
    ),
  )
]

-- The first slice begins with the second.
abbrev pub Begins : Slice → Slice → Type 0
Begins s x = (rest : Bytes) × (to_string s ≡ to_string x ++ rest)

take-Begins :
    (s x : Slice) → x.size ≤ s.size → take x.size s.bytes ≡ take x.size x.bytes → Begins s x
unfolding to_string
take-Begins s x h e = (
  drop x.size (take s.size s.bytes),
  sym (take-append-drop x.size (take s.size s.bytes))
      ∙ ap (λ t. t ++ drop x.size (take s.size s.bytes)) (take-take x.size s.size s.bytes h ∙ e),
)

Begins-take :
    (s x : Slice)
    → IsValid s
    → IsValid x
    → Begins s x
    → (x.size ≤ s.size) × (take x.size s.bytes ≡ take x.size x.bytes)
unfolding to_string
Begins-take s x hs hx (rest, e) = (le, both)
  where
    size_x : length (take x.size x.bytes) ≡ x.size
    size_x = length-take_le x.size x.bytes hx

    le : x.size ≤ s.size
    le = omega (
      arith,
      ap (λ (t : Bytes). length t) e,
      length-take_le s.size s.bytes hs,
      size_x,
      length-append {0} (take x.size x.bytes) rest,
    )

    both : take x.size s.bytes ≡ take x.size x.bytes
    both =
        sym (take-take x.size s.size s.bytes le)
        ∙ ap (take x.size) e
        ∙ subst (λ k. take k (take x.size x.bytes ++ rest) ≡ take x.size x.bytes) size_x
            (take-append_length (take x.size x.bytes) rest)

-- `starts_with` on slices within their bounds always answers, and answers true exactly if the contents
-- of the first are those of the second with something behind.
pub starts_with_iff :
    (s x : Slice)
    → IsValid s
    → IsValid x
    → (b : Bool) × (starts_with s x ≡ some b) × ((b ≡ true) ↔ Begins s x)
unfolding starts_with
starts_with_iff s x hs hx = elim (Bool-cases (leb x.size s.size)) [
  | inl e ↦
      let le : x.size ≤ s.size = ground arith in
      let (b, r, i) = memcmp-take x.size s.bytes x.bytes (omega arith) hx in
      (b, rw e r, (λ h. take-Begins s x le (i.0 h), λ h. i.1 (Begins-take s x hs hx h).1))
  | inr ne ↦
      (false, rw ne, (λ h. absurd (cc), λ h. absurd (ground (arith, (Begins-take s x hs hx h).0))))
]

-- Dropping at most the whole of a slice within its bounds succeeds and leaves one within its bounds,
-- whose contents are what stood behind the dropped bytes; dropping more fails.
pub remove_prefix_lem :
    (s : Slice) (n : ℕ)
    → IsValid s
    → ((n ≤ s.size
          → (s' : Slice) × (remove_prefix s n ≡ some s')
            × IsValid s'
            × (to_string s ≡ take n (to_string s) ++ to_string s'))
        × (s.size < n → remove_prefix s n ≡ none))
unfolding remove_prefix to_string
remove_prefix_lem s n h = (
  λ le. (
    record { bytes = drop n s.bytes; size = s.size - n },
    ground arith,
    omega (arith, length-drop {0} n s.bytes),
    sym (take-append-drop n (take s.size s.bytes))
        ∙ ap (λ t. take n (take s.size s.bytes) ++ t) (drop-take n s.size s.bytes le),
  ),
  λ lt. ground arith,
)
