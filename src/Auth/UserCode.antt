-- ===== src/Auth/UserCode.antt =====
-- internal/auth/pairingcode.go: the short code that a person reads off one screen and types into
-- another.
use sshpilot_vallete.Prelude.{
  ℕ, zero, suc, ◌+◌, ◌-◌, ◌%◌, Bool, true, false, not, ◌&&◌, ◌||◌, List, [], ◌∷◌, Option, none,
  some, Bytes, codes, ◌==◌, ltb, if◌then◌else◌, Result, ok, err, auth_failed, map,
}
use sshpilot_vallete.Prelude.Runes.{runes, within}
pub mod Typed

abbrev pub user_code_len : ℕ
user_code_len = 8

abbrev pub user_code_group : ℕ
user_code_group = 4

abbrev pub user_code_alphabet : Bytes
user_code_alphabet = codes "23456789ABCDEFGHJKLMNPQRSTUVWXYZ"

-- s[i]; an index past the end, which would panic, reads 0.
abbrev pub byte_at : ℕ → Bytes → ℕ
byte_at i [] = 0
byte_at zero (c ∷ cs) = c
byte_at (suc i) (c ∷ cs) = byte_at i cs

-- The symbol that the low five bits of a random byte choose.
unfoldable pub symbol : ℕ → ℕ
symbol r = byte_at (r % 32) user_code_alphabet

-- The two strings that newUserCode builds, from its i-th random byte on.
unfoldable pub display_from : ℕ → Bytes → Bytes
unfolding symbol
display_from i [] = []
display_from i (r ∷ rs) =
    let shown = symbol r ∷ display_from (suc i) rs in
    if ltb 0 i && (i % user_code_group) == 0 then 45 ∷ shown else shown

unfoldable pub canonical : Bytes → Bytes
unfolding symbol
canonical [] = []
canonical (r ∷ rs) = symbol r ∷ canonical rs

-- `newUserCode` on its random bytes
unfoldable pub new_user_code : Bytes → Bytes × Bytes
unfolding display_from canonical
new_user_code raw = (display_from 0 raw, canonical raw)

-- unicode.ToUpper, where it gives an ASCII letter; all else stays outside the alphabet.
abbrev pub to_upper : ℕ → ℕ
to_upper r = if within 97 122 r then r - 32 else if r == 305 then 73 else if r == 383 then 83 else r

abbrev pub is_symbol : ℕ → Bytes → Bool
is_symbol r [] = false
is_symbol r (c ∷ cs) = r == c || is_symbol r cs

-- What the loop does with a rune.
pub data Reading : Type 0 where
  skipped : Reading
  unknown : Reading
  taken : ℕ → Reading

fold_bar : ℕ → ℕ
fold_bar r = if r == 49 || r == 73 then 76 else r

unfoldable pub read : ℕ → Reading
unfolding fold_bar
read r =
    let u = to_upper r in
    if u == 45 || u == 32
    then skipped
    else if is_symbol (fold_bar u) user_code_alphabet
    then taken (fold_bar u)
    else unknown

abbrev pub put_first : ℕ → Result Bytes → Result Bytes
put_first c (err e) = err e
put_first c (ok cs) = ok (c ∷ cs)

-- The rest of the code, after `n` symbols.
unfoldable pub normalize_from : ℕ → List Reading → Result Bytes
normalize_from n [] = if n == user_code_len then ok [] else err auth_failed
normalize_from n (unknown ∷ rs) = err auth_failed
normalize_from n (skipped ∷ rs) = normalize_from n rs
normalize_from n (taken c ∷ rs) =
    let rest = normalize_from (suc n) rs in
    if n == user_code_len then err auth_failed else put_first c rest

-- Invalid UTF-8 reads as U+FFFD, which is no symbol.
unfoldable pub normalize_user_code : Bytes → Result Bytes
unfolding normalize_from read
normalize_user_code code = elim (runes code) [
  | none ↦ err auth_failed
  | some rs ↦ normalize_from 0 (map read rs)
]
