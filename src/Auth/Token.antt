-- ===== src/Auth/Token.antt =====
-- internal/auth/token.go and pairingcode.go: the text of a refresh token and of a device code, and
-- the operator's label. Base64 and SHA-256 are parameters.
pub mod Codec
use sshpilot_vallete.Prelude.{
  ℕ, ◌+◌, Bool, true, false, not, ◌&&◌, ◌||◌, Option, none, some, List, [], ◌∷◌, ◌++◌, Bytes, codes,
  ◌=ᵇ◌, ◌==◌, ltb, if◌then◌else◌, length, Err, Result, ok, err, auth_failed, invalid_input,
}
use sshpilot_vallete.Prelude.Runes.{runes, is_control}

abbrev pub refresh_token_prefix : Bytes
refresh_token_prefix = codes "svr_"

abbrev pub device_code_prefix : Bytes
device_code_prefix = codes "svd_"

-- The byte of tokenSeparator, a full stop.
abbrev pub token_separator : ℕ
token_separator = 46

abbrev pub credential_id_chars : ℕ
credential_id_chars = 22

abbrev pub refresh_secret_bytes : ℕ
refresh_secret_bytes = 32

abbrev pub pairing_secret_bytes : ℕ
pairing_secret_bytes = 32

-- strings.CutPrefix
unfoldable pub cut_prefix : Bytes → Bytes → Option Bytes
cut_prefix [] s = some s
cut_prefix (p ∷ ps) [] = none
cut_prefix (p ∷ ps) (c ∷ cs) = let rest = cut_prefix ps cs in if p == c then rest else none

abbrev pub put_before : ℕ → Option (Bytes × Bytes) → Option (Bytes × Bytes)
put_before c none = none
put_before c (some (a, b)) = some (c ∷ a, b)

-- strings.Cut at a separator of one byte, and strings.Contains of it
unfoldable pub cut : ℕ → Bytes → Option (Bytes × Bytes)
cut sep [] = none
cut sep (c ∷ cs) = let rest = cut sep cs in if c == sep then some ([], cs) else put_before c rest

unfoldable pub contains : ℕ → Bytes → Bool
contains sep [] = false
contains sep (c ∷ cs) = c == sep || contains sep cs

-- base64.RawURLEncoding
pub record Encoding : Type 0 where
  pub encode : Bytes → Bytes
  pub decode : Bytes → Option Bytes

module _ (encoding : Encoding) where
  -- The secret of the decoded second part.
  sized : Bytes → ℕ → Option Bytes → Result (Bytes × Bytes)
  sized id n none = err auth_failed
  sized id n (some secret) = if not (length secret == n) then err auth_failed else ok (id, secret)

  checked : ℕ → Bytes → Bytes → Result (Bytes × Bytes)
  unfolding sized
  checked n id part =
      if contains token_separator part
      then err auth_failed
      else if not (length id == credential_id_chars)
      then err auth_failed
      else elim (encoding.decode id) [
        | none ↦ err auth_failed
        | some _ ↦ sized id n (encoding.decode part)
      ]

  split_parts : ℕ → Option (Bytes × Bytes) → Result (Bytes × Bytes)
  unfolding checked
  split_parts n none = err auth_failed
  split_parts n (some (id, part)) = checked n id part

  split_body : ℕ → Option Bytes → Result (Bytes × Bytes)
  unfolding split_parts
  split_body n none = err auth_failed
  split_body n (some body) = split_parts n (cut token_separator body)

  -- The identifier and the secret of a token.
  unfoldable pub parse_refresh_token : Bytes → Result (Bytes × Bytes)
  unfolding split_body
  parse_refresh_token presented =
      split_body refresh_secret_bytes (cut_prefix refresh_token_prefix presented)

  unfoldable pub parse_device_code : Bytes → Result (Bytes × Bytes)
  unfolding split_body
  parse_device_code presented =
      split_body pairing_secret_bytes (cut_prefix device_code_prefix presented)

  unfoldable pub format_refresh_token : Bytes → Bytes → Bytes
  format_refresh_token id secret =
      refresh_token_prefix ++ (id ++ (token_separator ∷ encoding.encode secret))

  unfoldable pub format_device_code : Bytes → Bytes → Bytes
  format_device_code id secret =
      device_code_prefix ++ (id ++ (token_separator ∷ encoding.encode secret))

abbrev pub max_client_label_len : ℕ
max_client_label_len = 64

any_control : List ℕ → Bool
any_control [] = false
any_control (r ∷ rs) = is_control r || any_control rs

unfoldable pub validate_client_label : Bytes → Option Err
unfolding any_control
validate_client_label label =
    if ltb max_client_label_len (length label) then some invalid_input else elim (runes label) [
      | none ↦ some invalid_input
      | some rs ↦ if any_control rs then some invalid_input else none
    ]
