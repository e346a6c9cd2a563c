-- ===== src/Prelude/Word.antt =====
-- Go's int64 and time: a value of int64 is its two's complement bit pattern, a number below 2 ^ 64;
-- an instant is its distance in nanoseconds from the zero of time.Time.
use Prim.Native.Nat.{ℕ, ◌+◌, ◌-◌, ◌%◌, ◌<◌, min}
use mathlib.Core.Path.{◌≡◌}
use mathlib.Core.Bool.{Bool}
use native.Mathlib.Omega.{arith}
use sshpilot_vallete.Prelude.Tests.{ltb, leb, if◌then◌else◌}

abbrev pub Int64 : Type 0
Int64 = ℕ

abbrev pub Duration : Type 0
Duration = Int64

abbrev pub Time : Type 0
Time = ℕ

-- The first bit pattern of a negative number.
abbrev pub sign_bit : ℕ
sign_bit = 9223372036854775808

abbrev pub modulus : ℕ
modulus = 18446744073709551616

-- The pattern stands for a number that is at least 0.
abbrev pub IsNonneg : Int64 → Type 0
IsNonneg a = a < sign_bit

-- a + b with wrap-around
abbrev pub add64 : Int64 → Int64 → Int64
add64 a b = (a + b) % modulus

-- a < b as signed numbers
abbrev pub slt : Int64 → Int64 → Bool
slt a b = ltb ((a + sign_bit) % modulus) ((b + sign_bit) % modulus)

-- a <= b as signed numbers
abbrev pub sle : Int64 → Int64 → Bool
sle a b = leb ((a + sign_bit) % modulus) ((b + sign_bit) % modulus)

-- t.Add(d); a negative d goes back, and no instant before the zero is represented
abbrev pub add_time : Time → Duration → Time
add_time t d = if ltb d sign_bit then t + d else t - (modulus - d)

-- a.Sub(b), which saturates at the largest and the smallest duration
abbrev pub sub_time : Time → Time → Duration
sub_time a b = if leb b a then min (a - b) (sign_bit - 1) else modulus - min (b - a) sign_bit

-- The signed comparisons agree with the unsigned ones on numbers that are at least 0.
pub slt-eq-ltb : (a b : Int64) → IsNonneg a → IsNonneg b → slt a b ≡ ltb a b
slt-eq-ltb a b ha hb = ground arith

pub sle-eq-leb : (a b : Int64) → IsNonneg a → IsNonneg b → sle a b ≡ leb a b
sle-eq-leb a b ha hb = ground arith
