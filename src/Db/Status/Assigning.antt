-- ===== src/Db/Status/Assigning.antt =====
-- Assigning a status copies it, and leaves the other arrays alone.
use rabbit_log_db.Base.{
  ℕ, none, some, ◌≡◌, ◌≢◌, inl, inr, refl, ap, ◌∙◌, arith, ◌==◌, ==_iff, Bytes, set,
  get_elem?-set_ne, Bool-cases,
}
use rabbit_log_db.Db.Status.{Heap, State, Copier, at, code, destroy, copy_of, same_state, assign}

-- `CopyState` puts the same bytes at an address that was free, and leaves the other arrays alone.
abbrev pub Copies : Copier → Type 0
Copies copy =
    (h : Heap) (a : ℕ) (b : Bytes)
    → at h a ≡ some b
    → (a' : ℕ) × (h' : Heap) × (copy h a ≡ some (a', h'))
      × (at h' a' ≡ some b)
      × (at h a' ≡ none)
      × ((x : ℕ) (c : Bytes) → at h x ≡ some c → at h' x ≡ some c)

-- The pointer is null or leads to an array.
abbrev pub IsLive : Heap → State → Type 0
IsLive h none = Unit {0}
IsLive h (some a) = (b : Bytes) × (at h a ≡ some b)

at-set_ne : (h : Heap) (t x : ℕ) → t ≢ x → at (set h t none) x ≡ at h x
unfolding at
at-set_ne h t x ne = rw (get_elem?-set_ne h {i = t} {j = x} none ne, at) refl

pub code-at :
    (h h' : Heap) (a a' : ℕ) (b : Bytes)
    → at h a ≡ some b
    → at h' a' ≡ some b
    → code h' (some a') ≡ code h (some a)
unfolding code
code-at h h' a a' b e e' = rw (e, code) (rw (e', code) refl)

-- Assigning a live status to a live one succeeds, also to itself: both then have the code that was
-- assigned, two that were different do not share an array, and every array but the old one of the
-- target stays.
pub assign-copied :
    (copy : Copier) (h : Heap) (this rhs : State)
    → Copies copy
    → IsLive h this
    → IsLive h rhs
    → (this' : State) × (h' : Heap) × (assign copy h this rhs ≡ some (this', h'))
      × (code h' this' ≡ code h rhs)
      × (code h' rhs ≡ code h rhs)
      × (this ≢ rhs → (x : ℕ) → this' ≡ some x → rhs ≢ some x)
      × ((x : ℕ) (c : Bytes) → this ≢ some x → at h x ≡ some c → at h' x ≡ some c)
unfolding assign same_state destroy copy_of code
assign-copied copy h none none cp l m =
    (none, h, refl, refl, refl, (λ ne x e. absurd (ne refl)), λ x c ne e. e)
assign-copied copy h none (some r) cp l (b, e) =
    let (a', h', run, new, free, rest) = cp h r b e in
    (
      some a',
      h',
      rw (run, copy_of) refl,
      code-at h h' r a' b e new,
      code-at h h' r r b e (rest r b e),
      (λ ne x ex er. ground (arith, e, free)),
      λ x c ne ex. rest x c ex,
    )
assign-copied copy h (some t) none cp (b, e) m = (
  none,
  set h t none,
  rw (e, destroy) refl,
  refl,
  refl,
  (λ ne x ex. absurd (cc)),
  λ x c ne ex. at-set_ne h t x (λ i. ne (ap some i)) ∙ ex,
)
assign-copied copy h (some t) (some r) cp (b, e) (c, f) = elim (Bool-cases (t == r)) [
  | inl i ↦
      let i' : t ≡ r = (==_iff t r).0 i in
      (
        some t,
        h,
        rw i refl,
        ap (λ k. code h (some k)) i',
        refl,
        (λ ne. absurd (ne (ap some i'))),
        λ x d ne ex. ex,
      )
  | inr n ↦
      let ne : t ≢ r = λ i'. absurd (ground (arith, ==_iff t r)) in
      let f' : at (set h t none) r ≡ some c = at-set_ne h t r ne ∙ f in
      let (a', h', run, new, free, rest) = cp (set h t none) r c f' in
      (
        some a',
        h',
        rw n (rw (e, destroy) (rw (run, copy_of) refl)),
        code-at h h' r a' c f new,
        code-at h h' r r c f (rest r c f'),
        (λ d x ex er. ground (arith, f', free)),
        λ x d other ex. rest x d (at-set_ne h t x (λ i. other (ap some i)) ∙ ex),
      )
]
