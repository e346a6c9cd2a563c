-- ===== src/Prelude/Text.antt =====
-- Go strings and byte slices as lists of byte values, with their equality test.
use Prim.Native.Char.{code}
use Prim.Native.Nat.{ℕ}
use Prim.Native.String.{String}
use mathlib.Core.Path.{◌≡◌, refl}
use mathlib.Core.Logic.{◌↔◌}
use mathlib.Core.Bool.{Bool, true, false, ◌&&◌, ◌||◌}
use mathlib.Core.List.{List, [], ◌∷◌}
use native.Mathlib.Omega.{arith}
use sshpilot_vallete.Prelude.Tests.{◌==◌, ltb}

abbrev pub Bytes : Type 0
Bytes = List ℕ

-- The bytes of an ASCII literal.
abbrev pub codes : String → Bytes
codes String.[] = []
codes (String.◌∷◌ c s) = code c ∷ codes s

infix 50 ◌=ᵇ◌
unfoldable pub ◌=ᵇ◌ : Bytes → Bytes → Bool
[] =ᵇ [] = true
[] =ᵇ (y ∷ ys) = false
(x ∷ xs) =ᵇ [] = false
(x ∷ xs) =ᵇ (y ∷ ys) = x == y && xs =ᵇ ys

pub eq_of_=ᵇ : (xs ys : Bytes) → (xs =ᵇ ys) ≡ true → xs ≡ ys
unfolding ◌=ᵇ◌
eq_of_=ᵇ [] [] h = refl
eq_of_=ᵇ [] (y ∷ ys) h = ground arith
eq_of_=ᵇ (x ∷ xs) [] h = ground arith
eq_of_=ᵇ (x ∷ xs) (y ∷ ys) h = ground (arith, eq_of_=ᵇ xs ys)

pub =ᵇ_refl : (xs : Bytes) → (xs =ᵇ xs) ≡ true
unfolding ◌=ᵇ◌
=ᵇ_refl [] = refl
=ᵇ_refl (x ∷ xs) = ground (arith, =ᵇ_refl xs)

pub =ᵇ_iff : (xs ys : Bytes) → ((xs =ᵇ ys) ≡ true) ↔ (xs ≡ ys)
=ᵇ_iff xs ys = (eq_of_=ᵇ xs ys, λ e. ground (arith, =ᵇ_refl xs))

-- The string order of Go: byte by byte, a proper prefix first.
unfoldable pub precedes : Bytes → Bytes → Bool
precedes [] [] = false
precedes [] (y ∷ ys) = true
precedes (x ∷ xs) [] = false
precedes (x ∷ xs) (y ∷ ys) = ltb x y || x == y && precedes xs ys
