-- ===== src/Utils/Singleton.antt =====
-- `Singleton` and `SingletonPtr` of Utils/singleton.h.
pub mod Counting
use rabbit_log_db.Base.{ℕ, ◌+◌, ◌-◌, Option, none, some, ◌==◌, if◌then◌else◌}

-- `Singleton<T>::GetInstance`: the static variable is built by the first call that gets there, and its
-- address is returned. `make` is the constructor of T, which may fail; then the variable stays unbuilt.
unfoldable pub get_instance {ℓ κ} :
    {A : Type ℓ} {S : Type κ} → (S → Option (A × S)) → Option A → S → Option (A × (Option A × S))
get_instance make (some v) s = some (v, (some v, s))
get_instance make none s = elim (make s) [ none ↦ none | some (v, s') ↦ some (v, (some v, s')) ]

-- A shared pointer's object, with the number of the pointers to it.
pub record Shared {ℓ} (A : Type ℓ) : Type ℓ where
  pub object : A
  pub count : ℕ

-- `SingletonPtr<T>::GetInstance`: the static pointer counts as one, and the copy returned as another.
unfoldable pub get_instance_ptr {ℓ κ} :
    {A : Type ℓ} {S : Type κ}
    → (S → Option (A × S))
    → Option (Shared A)
    → S
    → Option (A × (Option (Shared A) × S))
get_instance_ptr make (some v) s = some (v.object, (some (record v { count = v.count + 1 }), s))
get_instance_ptr make none s = elim (make s) [
  | none ↦ none
  | some (v, s') ↦ some (v, (some (record { object = v; count = 2 }), s'))
]

-- A caller lets its copy go; the object is deleted with the last pointer, which is `none`.
unfoldable pub let_go {ℓ} : {A : Type ℓ} → Shared A → Option (Shared A)
let_go v = if v.count - 1 == 0 then none else some (record v { count = v.count - 1 })
