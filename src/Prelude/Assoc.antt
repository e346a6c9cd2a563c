-- ===== src/Prelude/Assoc.antt =====
-- A Go map with string keys as an association list. No function that is modelled here reads a map
-- in its iteration order, so the order of the entries means nothing.
use sshpilot_vallete.Prelude.Tests.{if◌then◌else◌}
use sshpilot_vallete.Prelude.Text.{Bytes, ◌=ᵇ◌, =ᵇ_iff}
use sshpilot_vallete.Prelude.Lists.{length}
use Prim.Native.Nat.{◌+◌, ◌≤◌}
use mathlib.Core.Path.{◌≡◌, refl}
use mathlib.Core.Bool.{Bool}
use mathlib.Core.Option.{Option, none, some}
use mathlib.Core.List.{List, [], ◌∷◌}
use native.Mathlib.Omega.{arith}

abbrev pub Assoc {ℓ} : Type ℓ → Type ℓ
Assoc V = List (Bytes × V)

module _ {ℓ} {V : Type ℓ} where
  -- m[k]
  unfoldable pub get : Bytes → Assoc V → Option V
  get k [] = none
  get k ((j, v) ∷ m) = if j =ᵇ k then some v else get k m

  -- delete(m, k)
  unfoldable pub remove : Bytes → Assoc V → Assoc V
  remove k [] = []
  remove k ((j, v) ∷ m) = let rest = remove k m in if j =ᵇ k then rest else (j, v) ∷ rest

  -- m[k] = v
  unfoldable pub put : Bytes → V → Assoc V → Assoc V
  put k v m = (k, v) ∷ remove k m

  -- for k, v := range m { if !keeps(v) { delete(m, k) } }
  unfoldable pub keep : (V → Bool) → Assoc V → Assoc V
  keep p [] = []
  keep p ((j, v) ∷ m) = let rest = keep p m in if p v then (j, v) ∷ rest else rest

  abbrev pub keep_option : (V → Bool) → Option V → Option V
  keep_option p none = none
  keep_option p (some v) = if p v then some v else none

  -- A map holds a key once.
  abbrev pub IsDistinct : Assoc V → Type ℓ
  IsDistinct [] = Unit
  IsDistinct ((k, v) ∷ m) = (get k m ≡ none) × IsDistinct m

  pub get-remove :
      (k j : Bytes) (m : Assoc V) → get j (remove k m) ≡ (if k =ᵇ j then none else get j m)
  unfolding get remove
  get-remove k j [] = ground arith
  get-remove k j ((i, v) ∷ m) = ground (arith, get-remove k j m, =ᵇ_iff i k, =ᵇ_iff i j, =ᵇ_iff k j)

  pub get-put :
      (k j : Bytes) (v : V) (m : Assoc V) → get j (put k v m) ≡ (if k =ᵇ j then some v else get j m)
  unfolding get put
  get-put k j v m = ground (arith, get-remove k j m)

  pub get-keep :
      (p : V → Bool) (k : Bytes) (m : Assoc V)
      → IsDistinct m
      → get k (keep p m) ≡ keep_option p (get k m)
  unfolding get keep
  get-keep p k [] d = refl
  get-keep p k ((j, v) ∷ m) d = ground (arith, get-keep p k m, =ᵇ_iff j k)

  pub remove-IsDistinct : (k : Bytes) (m : Assoc V) → IsDistinct m → IsDistinct (remove k m)
  unfolding remove
  remove-IsDistinct k [] d = tt
  remove-IsDistinct k ((j, v) ∷ m) d =
      ground (arith, remove-IsDistinct k m d.1, get-remove k j m, =ᵇ_iff k j)

  pub put-IsDistinct : (k : Bytes) (v : V) (m : Assoc V) → IsDistinct m → IsDistinct (put k v m)
  unfolding put
  put-IsDistinct k v m d = (ground (arith, get-remove k k m, =ᵇ_iff k k), remove-IsDistinct k m d)

  pub keep-IsDistinct : (p : V → Bool) (m : Assoc V) → IsDistinct m → IsDistinct (keep p m)
  unfolding keep
  keep-IsDistinct p [] d = tt
  keep-IsDistinct p ((j, v) ∷ m) d = ground (arith, keep-IsDistinct p m d.1, get-keep p j m d.1)

  pub length-remove : (k : Bytes) (m : Assoc V) → length (remove k m) ≤ length m
  unfolding remove
  length-remove k [] = omega arith
  length-remove k ((j, v) ∷ m) = ground (arith, length-remove k m)

  pub length-put : (k : Bytes) (v : V) (m : Assoc V) → length (put k v m) ≤ length m + 1
  unfolding put
  length-put k v m = omega (arith, length-remove k m)

  pub length-keep : (p : V → Bool) (m : Assoc V) → length (keep p m) ≤ length m
  unfolding keep
  length-keep p [] = omega arith
  length-keep p ((j, v) ∷ m) = ground (arith, length-keep p m)
