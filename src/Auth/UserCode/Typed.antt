-- ===== src/Auth/UserCode/Typed.antt =====
-- pairingcode.go: what is typed, and what was shown.
use sshpilot_vallete.Prelude.{
  ℕ, zero, suc, ◌+◌, ◌%◌, ◌≤◌, ◌<◌, ◌≡◌, refl, ap, ◌∙◌, true, ◌&&◌, List, [], ◌∷◌, Option, none,
  some, inl, inr, Bytes, ◌==◌, ltb, if◌then◌else◌, Result, Bool-cases, Option-cases, ok, err,
  auth_failed, arith, All, length, map,
}
use sshpilot_vallete.Prelude.Runes.{runes, runes_from, follows}
use sshpilot_vallete.Auth.UserCode.{
  user_code_len, user_code_group, user_code_alphabet, byte_at, symbol, display_from, canonical,
  new_user_code, Reading, skipped, unknown, taken, read, normalize_from, normalize_user_code,
}

-- A symbol is ASCII, and is read as itself.
abbrev IsPlain : ℕ → Type 0
IsPlain c = (ltb c 128 ≡ true) × (read c ≡ taken c)

alphabet-IsPlain : All IsPlain user_code_alphabet
unfolding read
alphabet-IsPlain = ground arith

byte_at-All : (P : ℕ → Type 0) (i : ℕ) (cs : Bytes) → i < length cs → All P cs → P (byte_at i cs)
byte_at-All P i [] h all = ground arith
byte_at-All P zero (c ∷ cs) h (p, all) = p
byte_at-All P (suc i) (c ∷ cs) h (p, all) = byte_at-All P i cs (omega arith) all

symbol-IsPlain : (r : ℕ) → IsPlain (symbol r)
unfolding symbol
symbol-IsPlain r = byte_at-All IsPlain (r % 32) user_code_alphabet (omega arith) alphabet-IsPlain

-- ASCII text is its own runes.
runes-ascii : (cs : Bytes) → All (λ c. ltb c 128 ≡ true) cs → runes_from 0 follows 0 cs ≡ some cs
unfolding runes_from
runes-ascii [] h = refl
runes-ascii (c ∷ cs) (p, h) = ground (arith, runes-ascii cs h)

-- The symbols of a text, if it has nothing that is no symbol and no separator.
unfoldable symbols_of : List Reading → Option Bytes
symbols_of [] = some []
symbols_of (unknown ∷ rs) = none
symbols_of (skipped ∷ rs) = symbols_of rs
symbols_of (taken c ∷ rs) = elim (symbols_of rs) [ none ↦ none | some cs ↦ some (c ∷ cs) ]

-- A text of eight symbols, and nothing else.
abbrev eight : ℕ → Option Bytes → Result Bytes
eight n none = err auth_failed
eight n (some cs) = if n + length cs == user_code_len then ok cs else err auth_failed

normalize_from-eight :
    (n : ℕ) (rs : List Reading) → n ≤ 8 → normalize_from n rs ≡ eight n (symbols_of rs)
unfolding normalize_from symbols_of
normalize_from-eight n [] h = ground arith
normalize_from-eight n (unknown ∷ rs) h = refl
normalize_from-eight n (skipped ∷ rs) h = normalize_from-eight n rs h
normalize_from-eight n (taken c ∷ rs) h = elim (Option-cases (symbols_of rs)) [
  | inl e ↦ ground (arith, normalize_from-eight (suc n) rs)
  | inr (cs, e) ↦ ground (arith, normalize_from-eight (suc n) rs)
]

read_dash : read 45 ≡ skipped
unfolding read
read_dash = refl

-- What is shown of random bytes, from a place in the code on, reads as their symbols.
symbols_of-display_from :
    (i : ℕ) (raw : Bytes)
    → (All (λ c. ltb c 128 ≡ true) (display_from i raw))
      × (symbols_of (map read (display_from i raw)) ≡ some (canonical raw))
unfolding display_from canonical symbols_of
symbols_of-display_from i [] = (tt, refl)
symbols_of-display_from i (r ∷ rs) =
    let (p, e) = symbol-IsPlain r in
    let (ps, es) = symbols_of-display_from (suc i) rs in
    elim (Bool-cases (ltb 0 i && (i % user_code_group) == 0)) [
      | inl c ↦ (ground arith, ground (arith, read_dash))
      | inr c ↦ (ground arith, ground arith)
    ]

-- The symbols alone, without the separators.
symbols_of-canonical :
    (raw : Bytes)
    → (All (λ c. ltb c 128 ≡ true) (canonical raw))
      × (symbols_of (map read (canonical raw)) ≡ some (canonical raw))
      × (length (canonical raw) ≡ length raw)
unfolding canonical symbols_of
symbols_of-canonical [] = (tt, refl, refl)
symbols_of-canonical (r ∷ rs) =
    let (p, e) = symbol-IsPlain r in
    let (ps, es, n) = symbols_of-canonical rs in ((p, ps), ground arith, ap (λ x. suc x) n)

normalized :
    (code cs : Bytes)
    → All (λ c. ltb c 128 ≡ true) code
    → symbols_of (map read code) ≡ some cs
    → length cs ≡ 8
    → normalize_user_code code ≡ ok cs
unfolding normalize_user_code runes
normalized code cs plain e n =
    rw
      (
        normalize_user_code,
        runes-ascii code plain,
        normalize_from-eight 0 (map read code) (omega arith),
        e,
        n,
      )
      refl

-- The code that is shown for eight random bytes is read back as the code that was hashed, typed with
-- its hyphen or without it.
pub normalize_user_code-new_user_code :
    (raw : Bytes)
    → length raw ≡ 8
    → (normalize_user_code (new_user_code raw).0 ≡ ok (new_user_code raw).1)
      × (normalize_user_code (new_user_code raw).1 ≡ ok (new_user_code raw).1)
unfolding new_user_code
normalize_user_code-new_user_code raw h =
    let (plain, shown) = symbols_of-display_from 0 raw in
    let (bare, same, n) = symbols_of-canonical raw in
    (normalized _ _ plain shown (n ∙ h), normalized _ _ bare same (n ∙ h))
