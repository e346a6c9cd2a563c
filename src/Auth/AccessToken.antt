-- ===== src/Auth/AccessToken.antt =====
-- internal/auth/accesstoken.go: an access token carries its claims and a MAC over them. JSON, HMAC and
-- base64 are parameters.
pub mod Verified
use sshpilot_vallete.Prelude.{
  ℕ, ◌*◌, ◌/◌, Bool, true, false, not, ◌||◌, Option, none, some, List, [], ◌∷◌, ◌++◌, Bytes, codes,
  ◌=ᵇ◌, ◌==◌, ltb, if◌then◌else◌, Result, ok, err, auth_failed, invalid_input,
}
use sshpilot_vallete.Prelude.Word.{Time}
use sshpilot_vallete.Auth.Scopes.{Scope, validate_scopes}
use sshpilot_vallete.Auth.Denylist.{AccessToken}
use sshpilot_vallete.Auth.Token.{Encoding, cut_prefix, cut, contains, token_separator}

abbrev pub access_token_prefix : Bytes
access_token_prefix = codes "sva_"

abbrev pub access_token_version : ℕ
access_token_version = 1

-- Times are whole seconds; the count is from the zero of `Time`, a whole number of seconds away from
-- that of Unix.
pub record AccessClaims : Type 0 where
  pub ver : ℕ
  pub id : Bytes
  pub owner : Bytes
  pub refresh : Bytes
  pub scopes : List Scope
  pub issued_at : ℕ
  pub expires : ℕ

-- t.Unix() and time.Unix(s, 0)
unfoldable pub to_unix : Time → ℕ
to_unix t = t / 1000000000

unfoldable pub from_unix : ℕ → Time
from_unix s = s * 1000000000

-- HMAC-SHA256 under the signer's key, json.Marshal of the claims, and the decoder that refuses fields
-- that it does not know.
pub record Signer : Type 0 where
  pub mac : Bytes → Bytes
  pub marshal : AccessClaims → Result Bytes
  pub unmarshal : Bytes → Option AccessClaims

unfoldable pub claims_of : AccessToken → AccessClaims
unfolding to_unix
claims_of tok = record {
  ver = access_token_version;
  id = tok.id;
  owner = tok.owner_id;
  refresh = tok.refresh_credential_id;
  scopes = tok.scopes;
  issued_at = to_unix tok.issued_at;
  expires = to_unix tok.expires_at;
}

abbrev pub token_of : AccessClaims → AccessToken
token_of c = record {
  id = c.id;
  owner_id = c.owner;
  refresh_credential_id = c.refresh;
  scopes = c.scopes;
  issued_at = from_unix c.issued_at;
  expires_at = from_unix c.expires;
}

unfoldable pub accept_claims : Time → AccessClaims → Result AccessToken
unfolding from_unix
accept_claims now c =
    if not (c.ver == access_token_version)
    then err auth_failed
    else if c.id =ᵇ [] || c.owner =ᵇ [] || c.refresh =ᵇ []
    then err auth_failed
    else elim (validate_scopes c.scopes) [
      | some _ ↦ err auth_failed
      | none ↦
          if ltb now (from_unix c.issued_at) || not (ltb now (from_unix c.expires))
          then err auth_failed
          else ok (token_of c)
    ]

module _ (encoding : Encoding) (signer : Signer) where
  sealed : Result Bytes → Result Bytes
  sealed (err e) = err e
  sealed (ok payload) =
      let encoded = encoding.encode payload in
      ok (
        access_token_prefix
        ++ (encoded ++ (token_separator ∷ encoding.encode (signer.mac encoded))))

  -- `Issue`
  unfoldable pub issue_access : AccessToken → Result Bytes
  unfolding sealed
  issue_access tok =
      if tok.id =ᵇ [] || tok.owner_id =ᵇ [] || tok.refresh_credential_id =ᵇ []
      then err invalid_input
      else elim (validate_scopes tok.scopes) [
        | some e ↦ err e
        | none ↦
            if not (ltb tok.issued_at tok.expires_at)
            then err invalid_input
            else sealed (signer.marshal (claims_of tok))
      ]

  with_claims : Time → Option AccessClaims → Result AccessToken
  unfolding accept_claims
  with_claims now none = err auth_failed
  with_claims now (some c) = accept_claims now c

  with_payload : Time → Option Bytes → Result AccessToken
  unfolding with_claims
  with_payload now none = err auth_failed
  with_payload now (some payload) = with_claims now (signer.unmarshal payload)

  with_mac : Time → Bytes → Option Bytes → Result AccessToken
  unfolding with_payload
  with_mac now encoded none = err auth_failed
  with_mac now encoded (some presented) =
      if not (presented =ᵇ signer.mac encoded)
      then err auth_failed
      else with_payload now (encoding.decode encoded)

  with_parts : Time → Option (Bytes × Bytes) → Result AccessToken
  unfolding with_mac
  with_parts now none = err auth_failed
  with_parts now (some (encoded, mac_part)) =
      if contains token_separator mac_part
      then err auth_failed
      else with_mac now encoded (encoding.decode mac_part)

  with_body : Time → Option Bytes → Result AccessToken
  unfolding with_parts
  with_body now none = err auth_failed
  with_body now (some body) = with_parts now (cut token_separator body)

  -- `Verify`
  unfoldable pub verify_access : Bytes → Time → Result AccessToken
  unfolding with_body
  verify_access presented now = with_body now (cut_prefix access_token_prefix presented)
