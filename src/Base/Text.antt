-- ===== src/Base/Text.antt =====
-- Byte strings: literals, equality, and the decimal form that `os << n` prints.
use Prim.Native.Char.{code}
use Prim.Native.Nat.{ℕ, zero, suc, ◌+◌, ◌/◌, ◌%◌}
use Prim.Native.String.{String}
use mathlib.Core.Bool.{Bool, true, false, ◌&&◌}
use mathlib.Core.List.{List, [], ◌∷◌, ◌++◌}
use mathlib.Core.Logic.{◌↔◌}
use mathlib.Core.Path.{◌≡◌, refl}
use native.Mathlib.Omega.{arith}
use rabbit_log_db.Base.Tests.{◌==◌, ltb, if◌then◌else◌}

abbrev pub Bytes : Type 0
Bytes = List ℕ

-- The code points of a literal: its bytes, since every literal of the program is ASCII.
abbrev pub codes : String → Bytes
codes String.[] = []
codes (String.◌∷◌ c s) = code c ∷ codes s

-- `==` of two strings.
unfoldable pub equal : Bytes → Bytes → Bool
equal [] [] = true
equal (x ∷ xs) (y ∷ ys) = x == y && equal xs ys
equal [] (y ∷ ys) = false
equal (x ∷ xs) [] = false

pub equal→eq : (xs ys : Bytes) → equal xs ys ≡ true → xs ≡ ys
unfolding equal
equal→eq [] [] h = refl
equal→eq (x ∷ xs) (y ∷ ys) h = ground (arith, equal→eq xs ys)
equal→eq [] (y ∷ ys) h = cc
equal→eq (x ∷ xs) [] h = cc

pub equal_refl : (xs : Bytes) → equal xs xs ≡ true
unfolding equal
equal_refl [] = refl
equal_refl (x ∷ xs) = ground (arith, equal_refl xs)

pub equal_iff : (xs ys : Bytes) → (equal xs ys ≡ true) ↔ (xs ≡ ys)
equal_iff xs ys = (equal→eq xs ys, λ e. ground (arith, equal_refl xs))

-- `<` of two strings: byte by byte.
unfoldable pub less : Bytes → Bytes → Bool
less xs [] = false
less [] (y ∷ ys) = true
less (x ∷ xs) (y ∷ ys) = if x == y then less xs ys else ltb x y

-- `os << n` for an unsigned number; the fuel bounds the digits.
decimal_on : ℕ → ℕ → Bytes
decimal_on zero n = []
decimal_on (suc f) n =
    let more = decimal_on f (n / 10) in
    if ltb n 10 then (48 + n) ∷ [] else more ++ (48 + n % 10) ∷ []

unfoldable pub decimal : ℕ → Bytes
unfolding decimal_on
decimal n = decimal_on (suc n) n
