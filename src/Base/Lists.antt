-- ===== src/Base/Lists.antt =====
-- Lists measured and indexed by native numbers, under the library's names.
use Prim.Native.Nat.{ℕ, zero, suc, ◌+◌, ◌-◌, ◌<◌, ◌≤◌}
use mathlib.Core.Path.{◌≡◌, ◌∙◌, refl, ap, sym}
use mathlib.Core.Logic.{◌≢◌, ◌⊎◌, inl, inr}
use mathlib.Core.List.{List, [], ◌∷◌, ◌++◌}
use mathlib.Core.Option.{Option, none, some}
use native.Mathlib.Omega.{arith}

module _ {ℓ} {A : Type ℓ} where
  abbrev pub length : List A → ℕ
  length [] = 0
  length (x ∷ xs) = suc (length xs)

  abbrev pub get_elem? : List A → ℕ → Option A
  get_elem? [] i = none
  get_elem? (x ∷ xs) zero = some x
  get_elem? (x ∷ xs) (suc i) = get_elem? xs i

  -- A write out of bounds changes nothing.
  abbrev pub set : List A → ℕ → A → List A
  set [] i v = []
  set (x ∷ xs) zero v = v ∷ xs
  set (x ∷ xs) (suc i) v = x ∷ set xs i v

  pub length-append : (xs ys : List A) → length (xs ++ ys) ≡ length xs + length ys
  length-append [] ys = omega arith
  length-append (x ∷ xs) ys = omega (arith, length-append xs ys)

  abbrev pub take : ℕ → List A → List A
  take zero xs = []
  take (suc n) [] = []
  take (suc n) (x ∷ xs) = x ∷ take n xs

  abbrev pub drop : ℕ → List A → List A
  drop zero xs = xs
  drop (suc n) [] = []
  drop (suc n) (x ∷ xs) = drop n xs

module _ {ℓ} {A : Type ℓ} where
  pub length-set : (xs : List A) (i : ℕ) (v : A) → length (set xs i v) ≡ length xs
  length-set [] i v = refl
  length-set (x ∷ xs) zero v = refl
  length-set (x ∷ xs) (suc i) v = ap suc (length-set xs i v)

  pub get_elem?-set_self :
      (xs : List A) (i : ℕ) (v : A) → i < length xs → get_elem? (set xs i v) i ≡ some v
  get_elem?-set_self [] i v h = elim h [ ]
  get_elem?-set_self (x ∷ xs) zero v h = refl
  get_elem?-set_self (x ∷ xs) (suc i) v h = get_elem?-set_self xs i v (omega arith)

  pub get_elem?-set_ne :
      (xs : List A) {i j : ℕ} (v : A) → i ≢ j → get_elem? (set xs i v) j ≡ get_elem? xs j
  get_elem?-set_ne [] v h = refl
  get_elem?-set_ne (x ∷ xs) {i = zero} {j = zero} v h = absurd (h refl)
  get_elem?-set_ne (x ∷ xs) {i = zero} {j = suc j} v h = refl
  get_elem?-set_ne (x ∷ xs) {i = suc i} {j = zero} v h = refl
  get_elem?-set_ne (x ∷ xs) {i = suc i} {j = suc j} v h = get_elem?-set_ne xs v (λ e. h (ap suc e))

  -- Writing back what is there changes nothing.
  pub set_same : (xs : List A) (i : ℕ) {v : A} → get_elem? xs i ≡ some v → set xs i v ≡ xs
  set_same [] i h = refl
  set_same (x ∷ xs) zero h = cc
  set_same (x ∷ xs) (suc i) h = ap (◌∷◌ x) (set_same xs i h)

  pub set-set : (xs : List A) (i : ℕ) (v w : A) → set (set xs i v) i w ≡ set xs i w
  set-set [] i v w = refl
  set-set (x ∷ xs) zero v w = refl
  set-set (x ∷ xs) (suc i) v w = ap (◌∷◌ x) (set-set xs i v w)

  pub lt_of_get_elem? : (xs : List A) (i : ℕ) {v : A} → get_elem? xs i ≡ some v → i < length xs
  lt_of_get_elem? [] i h = cc
  lt_of_get_elem? (x ∷ xs) zero h = omega arith
  lt_of_get_elem? (x ∷ xs) (suc i) h = omega (arith, lt_of_get_elem? xs i h)

  pub get_elem?-lt : (xs : List A) (i : ℕ) → i < length xs → (x : A) × (get_elem? xs i ≡ some x)
  get_elem?-lt [] i h = absurd (omega arith)
  get_elem?-lt (x ∷ xs) zero h = (x, refl)
  get_elem?-lt (x ∷ xs) (suc i) h = get_elem?-lt xs i (omega arith)

  -- What stands in a list after a write: the value written, or what was there.
  pub get_elem?-set_cases :
      (xs : List A) (i : ℕ) (v : A) (j : ℕ) {u : A}
      → get_elem? (set xs i v) j ≡ some u
      → ((j ≡ i) × (u ≡ v)) ⊎ (get_elem? xs j ≡ some u)
  get_elem?-set_cases [] i v j h = inr h
  get_elem?-set_cases (x ∷ xs) zero v zero h = inl (refl, cc)
  get_elem?-set_cases (x ∷ xs) zero v (suc j) h = inr h
  get_elem?-set_cases (x ∷ xs) (suc i) v zero h = inr h
  get_elem?-set_cases (x ∷ xs) (suc i) v (suc j) h = elim (get_elem?-set_cases xs i v j h) [
    | inl (e, e') ↦ inl (ap suc e, e')
    | inr h' ↦ inr h'
  ]

  -- A new entry stands at the end.
  pub get_elem?-append_cases :
      (xs : List A) (v : A) (j : ℕ) {u : A}
      → get_elem? (xs ++ v ∷ []) j ≡ some u
      → ((j ≡ length xs) × (u ≡ v)) ⊎ (get_elem? xs j ≡ some u)
  get_elem?-append_cases [] v zero h = inl (refl, cc)
  get_elem?-append_cases [] v (suc j) h = cc
  get_elem?-append_cases (x ∷ xs) v zero h = inr h
  get_elem?-append_cases (x ∷ xs) v (suc j) h = elim (get_elem?-append_cases xs v j h) [
    | inl (e, e') ↦ inl (ap suc e, e')
    | inr h' ↦ inr h'
  ]

  pub get_elem?-append_self : (xs : List A) (v : A) → get_elem? (xs ++ v ∷ []) (length xs) ≡ some v
  get_elem?-append_self [] v = refl
  get_elem?-append_self (x ∷ xs) v = get_elem?-append_self xs v

  pub get_elem?-append_some :
      (xs ys : List A) (j : ℕ) {u : A} → get_elem? xs j ≡ some u → get_elem? (xs ++ ys) j ≡ some u
  get_elem?-append_some [] ys j h = cc
  get_elem?-append_some (x ∷ xs) ys zero h = h
  get_elem?-append_some (x ∷ xs) ys (suc j) h = get_elem?-append_some xs ys j h

  pub set-append_self : (xs : List A) (u v : A) → set (xs ++ u ∷ []) (length xs) v ≡ xs ++ v ∷ []
  set-append_self [] u v = refl
  set-append_self (x ∷ xs) u v = ap (◌∷◌ x) (set-append_self xs u v)

module _ {ℓ} {A : Type ℓ} where
  pub take-append-drop : (n : ℕ) (xs : List A) → take n xs ++ drop n xs ≡ xs
  take-append-drop zero xs = refl
  take-append-drop (suc n) [] = refl
  take-append-drop (suc n) (x ∷ xs) = ap (◌∷◌ x) (take-append-drop n xs)

  pub length-take_le : (n : ℕ) (xs : List A) → n ≤ length xs → length (take n xs) ≡ n
  length-take_le zero xs h = refl
  length-take_le (suc n) [] h = absurd (omega arith)
  length-take_le (suc n) (x ∷ xs) h = ap suc (length-take_le n xs (omega arith))

  pub length-drop : (n : ℕ) (xs : List A) → length (drop n xs) ≡ length xs - n
  length-drop zero xs = omega arith
  length-drop (suc n) [] = omega arith
  length-drop (suc n) (x ∷ xs) = omega (arith, length-drop n xs)

  pub take-take : (m n : ℕ) (xs : List A) → m ≤ n → take m (take n xs) ≡ take m xs
  take-take zero n xs h = refl
  take-take (suc m) zero xs h = absurd (omega arith)
  take-take (suc m) (suc n) [] h = refl
  take-take (suc m) (suc n) (x ∷ xs) h = ap (◌∷◌ x) (take-take m n xs (omega arith))

  take-nil : (k : ℕ) → take {ℓ} {A = A} k [] ≡ []
  take-nil zero = refl
  take-nil (suc k) = refl

  pub drop-take : (m n : ℕ) (xs : List A) → m ≤ n → drop m (take n xs) ≡ take (n - m) (drop m xs)
  drop-take zero n xs h = ap (λ k. take k xs) (omega arith)
  drop-take (suc m) zero xs h = absurd (omega arith)
  drop-take (suc m) (suc n) [] h = sym (take-nil (suc n - suc m))
  drop-take (suc m) (suc n) (x ∷ xs) h =
      drop-take m n xs (omega arith) ∙ ap (λ k. take k (drop m xs)) (omega arith)

  drop-nil : (k : ℕ) → drop {ℓ} {A = A} k [] ≡ []
  drop-nil zero = refl
  drop-nil (suc k) = refl

  pub drop-drop : (m n : ℕ) (xs : List A) → drop m (drop n xs) ≡ drop (n + m) xs
  drop-drop m zero xs = ap (λ k. drop k xs) (omega arith)
  drop-drop m (suc n) [] = drop-nil m ∙ sym (drop-nil (suc n + m))
  drop-drop m (suc n) (x ∷ xs) =
      let e : suc (n + m) ≡ suc n + m = omega arith in
      drop-drop m n xs ∙ ap (λ k. drop k (x ∷ xs)) e

  pub take-append_length : (xs ys : List A) → take (length xs) (xs ++ ys) ≡ xs
  take-append_length [] ys = refl
  take-append_length (x ∷ xs) ys = ap (◌∷◌ x) (take-append_length xs ys)
