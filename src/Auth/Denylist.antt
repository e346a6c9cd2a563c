-- ===== src/Auth/Denylist.antt =====
-- internal/auth/denylist.go: the revocation denylist over the counter store. The digest that a key is
-- derived by (SHA-256 and its encoding) is a parameter.
pub mod Revoked
pub mod Standing
use sshpilot_vallete.Prelude.{
  ◌+◌, ◌-◌, ◌≡◌, Bool, true, false, Option, none, some, List, [], ◌∷◌, ◌++◌, Bytes, codes, ◌=ᵇ◌,
  Err, Result, ok, err, ltb, if◌then◌else◌, auth_failed, invalid_input,
}
use sshpilot_vallete.Prelude.Word.{Duration, Time, slt, add_time, modulus}
use sshpilot_vallete.Counter.Port.{Context, Count, Store}
use sshpilot_vallete.Auth.Scopes.{Scope}

-- AccessTokenLifetime and DenylistSkew, in nanoseconds
abbrev pub access_token_lifetime : Duration
access_token_lifetime = 900000000000

abbrev pub denylist_skew : Duration
denylist_skew = 60000000000

abbrev pub denylist_entry_ttl : Duration
denylist_entry_ttl = access_token_lifetime + denylist_skew

-- domain.AccessToken
pub record AccessToken : Type 0 where
  pub id : Bytes
  pub owner_id : Bytes
  pub refresh_credential_id : Bytes
  pub scopes : List Scope
  pub issued_at : Time
  pub expires_at : Time

-- domain.CredentialStatus and domain.RefreshCredential
pub data CredentialStatus : Type 0 where
  active rotated revoked expired : CredentialStatus

pub record RefreshCredential : Type 0 where
  pub id : Bytes
  pub owner_id : Bytes
  pub lineage_id : Bytes
  pub secret_hash : Bytes
  pub scopes : List Scope
  pub client_label : Bytes
  pub rotated_from_id : Option Bytes
  pub issued_at : Time
  pub expires_at : Time
  pub status : CredentialStatus
  pub revoked_at : Option Time

module _ (digest : Bytes → Bytes) where
  unfoldable pub credential_key : Bytes → Bytes
  credential_key id = digest (codes "vallet.auth.denylist.v1" ++ (0 ∷ (codes "cred" ++ (0 ∷ id))))

  module _ {S : Type 0} (store : Store S) where
    -- The verdict about a counter that was read: no error lets the token pass.
    listed : Result Count → Option Err
    listed (err e) = some e
    listed (ok c) = if slt 0 c.value then some auth_failed else none

    -- `Check`; a nil token is `none`
    unfoldable pub check : Context → Option AccessToken → S → Option Err × S
    unfolding listed
    check ctx none s = (some auth_failed, s)
    check ctx (some tok) s =
        if tok.refresh_credential_id =ᵇ []
        then (some auth_failed, s)
        else (let (r, s') = store.get ctx (credential_key tok.refresh_credential_id) s in
            (listed r, s'))

    only_error : Result Count → Option Err
    only_error (ok c) = none
    only_error (err e) = some e

    unfoldable pub revoke_credential : Context → Bytes → S → Option Err × S
    unfolding only_error
    revoke_credential ctx id s =
        if id =ᵇ []
        then (some invalid_input, s)
        else (let (r, s') = store.increment ctx (credential_key id) 1 denylist_entry_ttl s in
            (only_error r, s'))

    -- The rest of the loop, after the entry of one credential.
    go_on : (S → Option Err × S) → Option Err × S → Option Err × S
    go_on rest (none, s) = rest s
    go_on rest (some e, s) = (some e, s)

    -- The loop of `RevokeLineage` after the cutoff was computed.
    revoke_each : Context → Time → List RefreshCredential → S → Option Err × S
    unfolding go_on
    revoke_each ctx cutoff [] s = (none, s)
    revoke_each ctx cutoff (c ∷ cs) s =
        let rest = revoke_each ctx cutoff cs in
        if ltb cutoff c.issued_at
        then (if c.id =ᵇ []
            then (some invalid_input, s)
            else go_on rest (revoke_credential ctx c.id s))
        else rest s

    -- `now.Add(-ttl)` is the cutoff.
    unfoldable pub revoke_lineage : Context → List RefreshCredential → Time → S → Option Err × S
    unfolding revoke_each revoke_credential
    revoke_lineage ctx creds now s =
        revoke_each ctx (add_time now (modulus - denylist_entry_ttl)) creds s
