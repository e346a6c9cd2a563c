-- ===== src/Prelude/Runes.antt =====
-- UTF-8, as unicode/utf8 reads it: the runes of a byte string, if it is well formed.
use Prim.Native.Nat.{ℕ, zero, suc, ◌+◌, ◌-◌, ◌*◌}
use mathlib.Core.Bool.{Bool, not, ◌&&◌, ◌||◌}
use mathlib.Core.Option.{Option, none, some}
use mathlib.Core.List.{List, [], ◌∷◌}
use sshpilot_vallete.Prelude.Tests.{ltb, leb, ◌==◌, if◌then◌else◌}
use sshpilot_vallete.Prelude.Text.{Bytes}

abbrev pub within : ℕ → ℕ → ℕ → Bool
within lo hi c = leb lo c && leb c hi

-- A continuation byte.
abbrev pub follows : ℕ → Bool
follows c = within 128 191 c

abbrev pub prepend : ℕ → Option (List ℕ) → Option (List ℕ)
prepend r none = none
prepend r (some rs) = some (r ∷ rs)

-- What a first byte says: whether it is one, how many bytes follow it, its bits of the rune, and
-- which second byte it allows: no overlong form, no surrogate, nothing above U+10FFFF.
abbrev is_lead : ℕ → Bool
is_lead a = ltb a 128 || within 194 244 a

abbrev lead_need : ℕ → ℕ
lead_need a = if ltb a 128 then 0 else if ltb a 224 then 1 else if ltb a 240 then 2 else 3

abbrev lead_bits : ℕ → ℕ
lead_bits a =
    if ltb a 128 then a else if ltb a 224 then a - 192 else if ltb a 240 then a - 224 else a - 240

abbrev second_byte : ℕ → ℕ → Bool
second_byte a b =
    if a == 224
    then within 160 191 b
    else if a == 237
    then within 128 159 b
    else if a == 240
    then within 144 191 b
    else if a == 244
    then within 128 143 b
    else follows b

-- The number of continuation bytes that the rune still needs, the test of the next one, and the
-- value so far.
unfoldable pub runes_from : ℕ → (ℕ → Bool) → ℕ → Bytes → Option (List ℕ)
runes_from zero test acc [] = some []
runes_from (suc n) test acc [] = none
runes_from zero test acc (a ∷ cs) =
    let rest = runes_from (lead_need a) (second_byte a) (lead_bits a) cs in
    if not (is_lead a) then none else if ltb a 128 then prepend a rest else rest
runes_from (suc n) test acc (b ∷ cs) =
    let rune = acc * 64 + (b - 128) in
    let rest = runes_from n follows rune cs in
    if not (test b) then none else if n == 0 then prepend rune rest else rest

-- utf8.ValidString and the range loop over a valid string
unfoldable pub runes : Bytes → Option (List ℕ)
unfolding runes_from
runes b = runes_from 0 follows 0 b

-- unicode.IsControl
abbrev pub is_control : ℕ → Bool
is_control r = ltb r 32 || within 127 159 r
