-- ===== src/Db/Arena/Stacking.antt =====
-- The allocations that fit in the current block.
use rabbit_log_db.Base.{
  ℕ, zero, suc, ◌+◌, ◌-◌, ◌≤◌, ◌<◌, List, [], ◌∷◌, some, ◌≡◌, ap, ap₂, sym, arith, get_elem?,
}
use rabbit_log_db.Db.Arena.{Arena, Fallback, allocate, allocate_all}

unfoldable pub sum : List ℕ → ℕ
sum [] = 0
sum (n ∷ ns) = n + sum ns

abbrev pub AllPositive : List ℕ → Type 0
AllPositive [] = Unit {0}
AllPositive (n ∷ ns) = (0 < n) × AllPositive ns

-- The arena after `n` bytes of its block are taken.
unfoldable pub taken : ℕ → Arena → Arena
taken n ar = record ar {
  alloc_ptr = ar.alloc_ptr + n;
  alloc_bytes_remaining = ar.alloc_bytes_remaining - n;
}

-- The places at which blocks of the sizes lie that start at `p`, one behind the other.
unfoldable pub stacked : ℕ → List ℕ → List ℕ
stacked p [] = []
stacked p (n ∷ ns) = p ∷ stacked (p + n) ns

taken_zero : (ar : Arena) → taken 0 ar ≡ ar
unfolding taken
taken_zero ar =
    ap₂ (λ p r. record ar { alloc_ptr = p; alloc_bytes_remaining = r }) (omega arith) (omega arith)

taken-taken : (m n : ℕ) (ar : Arena) → taken m (taken n ar) ≡ taken (n + m) ar
unfolding taken
taken-taken m n ar =
    ap₂ (λ p r. record ar { alloc_ptr = p; alloc_bytes_remaining = r }) (omega arith) (omega arith)

allocate-taken :
    (fallback : Fallback) (ar : Arena) (n : ℕ)
    → 0 < n
    → n ≤ ar.alloc_bytes_remaining
    → allocate fallback ar n ≡ some (ar.alloc_ptr, taken n ar)
unfolding allocate taken
allocate-taken fallback ar n h k = ground arith

allocate_all-stacked :
    (fallback : Fallback) (ns : List ℕ) (ar : Arena)
    → AllPositive ns
    → sum ns ≤ ar.alloc_bytes_remaining
    → allocate_all fallback ar ns ≡ some (stacked ar.alloc_ptr ns, taken (sum ns) ar)
unfolding allocate_all stacked sum taken
allocate_all-stacked fallback [] ar h k = ap (λ t. some ([], t)) (sym (taken_zero ar))
allocate_all-stacked fallback (n ∷ ns) ar (h, hs) k =
    let rest = allocate_all-stacked fallback ns (taken n ar) hs (omega arith) in
    rw (allocate-taken fallback ar n h (omega arith), allocate_all)
      (rw (rest, allocate_all)
        (ap (λ t. some (stacked ar.alloc_ptr (n ∷ ns), t)) (taken-taken (sum ns) n ar)))

stacked_within :
    (p : ℕ) (ns : List ℕ) (i : ℕ) {a n : ℕ}
    → get_elem? (stacked p ns) i ≡ some a
    → get_elem? ns i ≡ some n
    → (p ≤ a) × (a + n ≤ p + sum ns)
unfolding stacked sum
stacked_within p [] i ha hn = cc
stacked_within p (m ∷ ns) zero ha hn = ground arith
stacked_within p (m ∷ ns) (suc i) ha hn =
    let (lo, hi) = stacked_within (p + m) ns i ha hn in (omega arith, omega arith)

stacked_above : (p : ℕ) (ns : List ℕ) (i : ℕ) {a : ℕ} → get_elem? (stacked p ns) i ≡ some a → p ≤ a
unfolding stacked
stacked_above p [] i h = cc
stacked_above p (m ∷ ns) zero h = ground arith
stacked_above p (m ∷ ns) (suc i) h = omega (arith, stacked_above (p + m) ns i h)

-- Blocks that lie one behind the other do not overlap.
stacked_apart :
    (p : ℕ) (ns : List ℕ) (i j : ℕ) {a n b : ℕ}
    → i < j
    → get_elem? (stacked p ns) i ≡ some a
    → get_elem? ns i ≡ some n
    → get_elem? (stacked p ns) j ≡ some b
    → a + n ≤ b
unfolding stacked
stacked_apart p [] i j h ha hn hb = cc
stacked_apart p (m ∷ ns) zero zero h ha hn hb = absurd (omega arith)
stacked_apart p (m ∷ ns) zero (suc j) h ha hn hb =
    let lo = stacked_above (p + m) ns j hb in ground arith
stacked_apart p (m ∷ ns) (suc i) zero h ha hn hb = absurd (omega arith)
stacked_apart p (m ∷ ns) (suc i) (suc j) h ha hn hb =
    stacked_apart (p + m) ns i j (omega arith) ha hn hb

-- Allocations of positive sizes that fit together in the rest of the current block all succeed without
-- a new block, and the arena gives away just their sum. Each result lies within what was left of the
-- block, and an earlier one ends before a later one begins.
pub allocate_all-apart :
    (fallback : Fallback) (ns : List ℕ) (ar : Arena)
    → AllPositive ns
    → sum ns ≤ ar.alloc_bytes_remaining
    → (ps : List ℕ) × (allocate_all fallback ar ns ≡ some (ps, taken (sum ns) ar))
      × ((i a n : ℕ)
          → get_elem? ps i ≡ some a
          → get_elem? ns i ≡ some n
          → (ar.alloc_ptr ≤ a) × (a + n ≤ ar.alloc_ptr + ar.alloc_bytes_remaining))
      × ((i j a n b : ℕ)
          → i < j
          → get_elem? ps i ≡ some a
          → get_elem? ns i ≡ some n
          → get_elem? ps j ≡ some b
          → a + n ≤ b)
allocate_all-apart fallback ns ar h k = (
  stacked ar.alloc_ptr ns,
  allocate_all-stacked fallback ns ar h k,
  λ i a n ha hn. let (lo, hi) = stacked_within ar.alloc_ptr ns i ha hn in (lo, omega arith),
  λ i j a n b lt ha hn hb. stacked_apart ar.alloc_ptr ns i j lt ha hn hb,
)
