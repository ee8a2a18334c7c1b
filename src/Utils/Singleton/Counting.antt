-- ===== src/Utils/Singleton/Counting.antt =====
-- There is one instance, and the static pointer keeps it alive.
use rabbit_log_db.Base.{
  ℕ, suc, ◌+◌, ◌-◌, Option, none, some, ◌≡◌, refl, ap, ◌∙◌, arith, Option-cases, inl, inr,
}
use rabbit_log_db.Utils.Singleton.{Shared, get_instance, get_instance_ptr, let_go}

-- The first call builds the variable once; every later call, whatever was done to the rest of the state
-- meanwhile, returns the same address and builds nothing.
pub get_instance_twice {ℓ κ} :
    {A : Type ℓ} {S : Type κ} (make : S → Option (A × S)) (static : Option A) (s s' t : S) (a : A)
    (static' : Option A)
    → get_instance make static s ≡ some (a, (static', s'))
    → (static' ≡ some a) × (get_instance make static' t ≡ some (a, (some a, t)))
unfolding get_instance
get_instance_twice make (some v) s s' t a static' h =
    let e : static' ≡ some a = cc in (e, rw (e, get_instance) refl)
get_instance_twice make none s s' t a static' h = elim (Option-cases (make s)) [
  | inl f ↦ cc
  | inr ((v, s''), f) ↦
      let e : static' ≡ some a = ground (arith, h, f) in (e, rw (e, get_instance) refl)
]

-- What callers do with the shared instance: take a copy of the pointer, or let one of theirs go. The
-- index is the number of the copies that they hold.
pub data Use {ℓ κ} {A : Type ℓ} {S : Type κ} (make : S → Option (A × S)) (a : A)
    : ℕ → Option (Shared A) → Type (ℓ ⊔ κ) where
  built :
      {v : Option (Shared A)} (s s' : S)
      → get_instance_ptr make none s ≡ some (a, (v, s'))
      → Use make a 1 v
  another :
      {n : ℕ} {v v' : Option (Shared A)} (b : A) (t t' : S)
      → Use make a n v
      → get_instance_ptr make v t ≡ some (b, (v', t'))
      → Use make a (suc n) v'
  gone :
      {n : ℕ} {v v' : Option (Shared A)} (x : Shared A)
      → Use make a (suc n) v
      → v ≡ some x
      → v' ≡ let_go x
      → Use make a n v'

module _ {ℓ κ} {A : Type ℓ} {S : Type κ} (make : S → Option (A × S)) where
  -- A call on a pointer that is there.
  again :
      (v : Option (Shared A)) (x : Shared A) (t : S)
      → v ≡ some x
      → get_instance_ptr make v t ≡ some (x.object, (some (record x { count = x.count + 1 }), t))
  unfolding get_instance_ptr
  again v x t e = rw (e, get_instance_ptr) refl

  served :
      (a : A) (v : Option (Shared A)) (x : Shared A)
      → v ≡ some x
      → x.object ≡ a
      → (t : S) → (w : Option (Shared A)) × (get_instance_ptr make v t ≡ some (a, (w, t)))
  served a v x e o t =
      let w = record x { count = x.count + 1 } in
      (some w, again v x t e ∙ ap (λ z. some (z, (some w, t))) o)

  first :
      (a : A) (v : Option (Shared A)) (s s' : S)
      → get_instance_ptr make none s ≡ some (a, (v, s'))
      → v ≡ some (record { object = a; count = 2 })
  unfolding get_instance_ptr
  first a v s s' h = elim (Option-cases (make s)) [
    | inl f ↦ cc
    | inr ((b, s''), f) ↦ ground (arith, h, f)
  ]

  -- However often callers take a copy of the pointer and let one go, the instance that was built first
  -- is alive, with one pointer more than they hold, and every further call returns it.
  pub Use-alive :
      (a : A) {n : ℕ} {v : Option (Shared A)}
      → Use make a n v
      → (x : Shared A) × (v ≡ some x)
        × (x.object ≡ a)
        × (x.count ≡ suc n)
        × ((t : S) → (w : Option (Shared A)) × (get_instance_ptr make v t ≡ some (a, (w, t))))
  unfolding let_go
  Use-alive a {n} {v} (built s s' h) =
      let e = first a v s s' h in
      (
        record { object = a; count = 2 },
        e,
        refl,
        refl,
        served a v (record { object = a; count = 2 }) e refl,
      )
  Use-alive a {n} {v} (another {v = u} b t t' us h) =
      let (x, e, o, c, next) = Use-alive a us in
      let e' : v ≡ some (record x { count = x.count + 1 }) = cc (again u x t e) in
      (
        record x { count = x.count + 1 },
        e',
        o,
        omega arith,
        served a v (record x { count = x.count + 1 }) e' o,
      )
  Use-alive a {n} {v} (gone {v = u} y us e e') =
      let (x, f, o, c, next) = Use-alive a us in
      let same : x ≡ y = cc in
      let f' : v ≡ some (record y { count = y.count - 1 }) = ground (arith, e', same, c) in
      (
        record y { count = y.count - 1 },
        f',
        ground (arith, same, o),
        ground (arith, same, c),
        served a v (record y { count = y.count - 1 }) f' (ground (arith, same, o)),
      )
