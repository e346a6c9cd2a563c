-- ===== src/Prelude/Decimal.antt =====
-- strconv.FormatInt(n, 10): the decimal text of an int64.
use Prim.Native.Nat.{ℕ, zero, suc, ◌+◌, ◌-◌, ◌/◌, ◌%◌}
use mathlib.Core.List.{[], ◌∷◌}
use mathlib.Core.Bool.{true, false}
use mathlib.Core.Path.{◌≡◌, refl}
use sshpilot_vallete.Prelude.Tests.{ltb, if◌then◌else◌}
use sshpilot_vallete.Prelude.Text.{Bytes, codes}
use sshpilot_vallete.Prelude.Word.{Int64, sign_bit, modulus}

-- The digits of n in front of `out`; a digit goes out for each unit of fuel at most.
emit : ℕ → ℕ → Bytes → Bytes
emit zero n out = out
emit (suc f) n out = elim (ltb n 10) [
  | true ↦ (b'0' + n) ∷ out
  | false ↦ emit f (n / 10) ((b'0' + n % 10) ∷ out)
]

-- A number below 2 ^ 64 has at most 20 digits.
unfoldable pub digits : ℕ → Bytes
unfolding emit
digits n = emit 20 n []

unfoldable pub format_int : Int64 → Bytes
unfolding digits
format_int a = if ltb a sign_bit then digits a else b'-' ∷ digits (modulus - a)

format_int_tests :
    (format_int 0 ≡ codes "0")
    × (format_int 1205 ≡ codes "1205")
    × (format_int 9223372036854775808 ≡ codes "-9223372036854775808")
unfolding format_int
format_int_tests = (refl, refl, refl)
