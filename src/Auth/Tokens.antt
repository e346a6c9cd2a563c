-- ===== src/Auth/Tokens.antt =====
-- internal/auth/tokenservice.go, and the part of accesstoken.go that issues: the lineages of rotating
-- refresh credentials, over the tables and the denylist's counter store.
pub mod Outcome
pub mod Answer
pub mod Lineage
pub mod Replay
use sshpilot_vallete.Prelude.{
  ℕ, ◌+◌, Bool, true, false, not, ◌&&◌, ◌||◌, Option, none, some, List, [], ◌∷◌, Bytes, ◌=ᵇ◌, ltb,
  if◌then◌else◌, Err, Result, ok, err, is_conflict, is_not_found, auth_failed, invalid_input,
}
use sshpilot_vallete.Prelude.Word.{Time, Duration}
use sshpilot_vallete.Counter.Port.{Context, Store}
use sshpilot_vallete.Auth.Scopes.{Scope, validate_scopes}
use sshpilot_vallete.Auth.Denylist
use sshpilot_vallete.Auth.AccessToken.{Signer, issue_access}
use sshpilot_vallete.Auth.Denylist.{AccessToken, RefreshCredential, access_token_lifetime}
use sshpilot_vallete.Auth.Token.{
  Encoding, parse_refresh_token, format_refresh_token, validate_client_label,
}
use sshpilot_vallete.Storage.Db
use sshpilot_vallete.Storage.Db.{Db, Owner, OwnerStatus, with_tx}
use sshpilot_vallete.Storage.Credentials.{
  is_active, create, get_by_id, list_by_lineage, mark_rotated, revoke_lineage, owner_get,
}

-- RefreshLineageLifetime, ninety days in nanoseconds
abbrev pub refresh_lineage_lifetime : Duration
refresh_lineage_lifetime = 7776000000000000

-- The identifiers and the secret that crypto/rand gives to one call.
pub record Fresh : Type 0 where
  pub credential_id : Bytes
  pub secret : Bytes
  pub token_id : Bytes

pub record Issued : Type 0 where
  pub refresh_token : Bytes
  pub refresh_expires_at : Time
  pub access_token : Bytes
  pub access_expires_at : Time
  pub owner_id : Bytes
  pub lineage_id : Bytes
  pub scopes : List Scope

-- The packages that the service calls: base64, the two digests, and what the signer of the access
-- tokens calls.
pub record Crypto : Type 0 where
  pub encoding : Encoding
  pub hash : Bytes → Bytes
  pub key_digest : Bytes → Bytes
  pub signer : Signer

abbrev pub owner_is_active : OwnerStatus → Bool
owner_is_active Db.active = true
owner_is_active _ = false

abbrev pub in_good_standing : Owner → Bool
in_good_standing o =
    owner_is_active o.status && (elim o.deleted_at [ none ↦ true | some _ ↦ false ])

-- A denial that commits: nothing is issued, and nothing is to be listed.
abbrev deny : Db → Result (Option Issued × List RefreshCredential) × Db
deny d = (ok (none, []), d)

module _ (crypto : Crypto) where
  abbrev access_of : RefreshCredential → Fresh → Time → AccessToken
  access_of cred fresh now = record {
    id = fresh.token_id;
    owner_id = cred.owner_id;
    refresh_credential_id = cred.id;
    scopes = cred.scopes;
    issued_at = now;
    expires_at = now + access_token_lifetime;
  }

  unfoldable pub mint : RefreshCredential → Fresh → Time → Result Issued
  unfolding issue_access format_refresh_token
  mint cred fresh now =
      elim (issue_access crypto.encoding crypto.signer (access_of cred fresh now)) [
        | err e ↦ err e
        | ok raw ↦ ok (record {
          refresh_token = format_refresh_token crypto.encoding cred.id fresh.secret;
          refresh_expires_at = cred.expires_at;
          access_token = raw;
          access_expires_at = now + access_token_lifetime;
          owner_id = cred.owner_id;
          lineage_id = cred.lineage_id;
          scopes = cred.scopes;
        })
      ]

  -- The root of a new lineage.
  abbrev pub root : Bytes → List Scope → Bytes → Fresh → Time → RefreshCredential
  root owner scopes label fresh now = record {
    id = fresh.credential_id;
    owner_id = owner;
    lineage_id = fresh.credential_id;
    secret_hash = crypto.hash fresh.secret;
    scopes = scopes;
    client_label = label;
    rotated_from_id = none;
    issued_at = now;
    expires_at = now + refresh_lineage_lifetime;
    status = Denylist.active;
    revoked_at = none;
  }

  minted : RefreshCredential → Fresh → Time → Result (Unit {0}) × Db → Result Issued × Db
  unfolding mint
  minted cred fresh now (err e, d) = (err e, d)
  minted cred fresh now (ok _, d) = (mint cred fresh now, d)

  -- `Issue`
  unfoldable pub issue : Bytes → List Scope → Bytes → Fresh → Time → Db → Result Issued × Db
  unfolding minted create
  issue owner scopes label fresh now d =
      if owner =ᵇ [] then (err invalid_input, d) else elim (validate_scopes scopes) [
        | some e ↦ (err e, d)
        | none ↦ elim (validate_client_label label) [
          | some e ↦ (err e, d)
          | none ↦
              minted (root owner scopes label fresh now) fresh now
                (create (root owner scopes label fresh now) d)
        ]
      ]

  -- The link that a rotation adds to the lineage of `cred`.
  abbrev pub child_of : RefreshCredential → Fresh → Time → RefreshCredential
  child_of cred fresh now = record {
    id = fresh.credential_id;
    owner_id = cred.owner_id;
    lineage_id = cred.lineage_id;
    secret_hash = crypto.hash fresh.secret;
    scopes = cred.scopes;
    client_label = cred.client_label;
    rotated_from_id = some cred.id;
    issued_at = now;
    expires_at = cred.expires_at;
    status = Denylist.active;
    revoked_at = none;
  }

  -- revokeLineage after its UPDATE; a failed read-back still lets the revocation commit.
  read_back :
      RefreshCredential → Result ℕ × Db → Result (Option Issued × List RefreshCredential) × Db
  unfolding list_by_lineage
  read_back cred (err e, d) = (err e, d)
  read_back cred (ok _, d) =
      let (r, d') = list_by_lineage cred.owner_id cred.lineage_id d in
      elim r [ err _ ↦ deny d' | ok rows ↦ (ok (none, rows), d') ]

  -- revokeLineage
  unfoldable pub burn :
      RefreshCredential → Time → Db → Result (Option Issued × List RefreshCredential) × Db
  unfolding read_back revoke_lineage
  burn cred now d = read_back cred (revoke_lineage cred.owner_id cred.lineage_id now d)

  created_child :
      RefreshCredential
      → Fresh
      → Time
      → Result (Unit {0}) × Db
      → Result (Option Issued × List RefreshCredential) × Db
  unfolding mint
  created_child child fresh now (err e, d) = (err e, d)
  created_child child fresh now (ok _, d) = elim (mint child fresh now) [
    | err e ↦ (err e, d)
    | ok issued ↦ (ok (some issued, []), d)
  ]

  -- After MarkRotated: the loser of a race is a reuse.
  consumed :
      RefreshCredential
      → Fresh
      → Time
      → Result (Unit {0}) × Db
      → Result (Option Issued × List RefreshCredential) × Db
  unfolding created_child create burn
  consumed cred fresh now (err e, d) = if is_conflict e then burn cred now d else (err e, d)
  consumed cred fresh now (ok _, d) =
      created_child (child_of cred fresh now) fresh now (create (child_of cred fresh now) d)

  -- From the status of the credential on.
  unfoldable pub redeem :
      RefreshCredential → Fresh → Time → Db → Result (Option Issued × List RefreshCredential) × Db
  unfolding consumed mark_rotated burn
  redeem cred fresh now d =
      if not (is_active cred.status)
      then burn cred now d
      else if not (ltb now cred.expires_at)
      then deny d
      else elim (validate_scopes cred.scopes) [
        | some _ ↦ deny d
        | none ↦ consumed cred fresh now (mark_rotated cred.owner_id cred.id d)
      ]

  with_owner :
      RefreshCredential
      → Fresh
      → Time
      → Result Owner × Db
      → Result (Option Issued × List RefreshCredential) × Db
  unfolding redeem
  with_owner cred fresh now (err e, d) = if is_not_found e then deny d else (err e, d)
  with_owner cred fresh now (ok o, d) =
      if not (o.id =ᵇ cred.owner_id)
      then deny d
      else if not (in_good_standing o)
      then deny d
      else redeem cred fresh now d

  with_credential :
      Bytes
      → Bytes
      → Fresh
      → Time
      → Result RefreshCredential × Db
      → Result (Option Issued × List RefreshCredential) × Db
  unfolding with_owner owner_get
  with_credential id secret fresh now (err e, d) = if is_not_found e then deny d else (err e, d)
  with_credential id secret fresh now (ok cred, d) =
      if not (cred.id =ᵇ id)
      then deny d
      else if not (cred.secret_hash =ᵇ crypto.hash secret)
      then deny d
      else if cred.owner_id =ᵇ [] || cred.lineage_id =ᵇ []
      then deny d
      else with_owner cred fresh now (owner_get cred.owner_id d)

  -- The function that Exchange runs in one transaction.
  unfoldable pub exchange_body :
      Bytes → Bytes → Fresh → Time → Db → Result (Option Issued × List RefreshCredential) × Db
  unfolding with_credential get_by_id
  exchange_body id secret fresh now d = with_credential id secret fresh now (get_by_id id d)

  module _ {S : Type 0} (store : Store S) where
    -- denyRevoked: an error is only logged.
    unfoldable pub deny_revoked : Context → List RefreshCredential → Time → S → S
    unfolding Denylist.revoke_lineage
    deny_revoked ctx [] now s = s
    deny_revoked ctx (c ∷ cs) now s =
        (Denylist.revoke_lineage crypto.key_digest store ctx (c ∷ cs) now s).1

    abbrev pub granted : Option Issued → Result Issued
    granted none = err auth_failed
    granted (some i) = ok i

    finished :
        Context
        → Time
        → S
        → Result (Option Issued × List RefreshCredential) × Db
        → Result Issued × (Db × S)
    unfolding deny_revoked
    finished ctx now s (err e, d) = (err auth_failed, (d, s))
    finished ctx now s (ok (out, revoked), d) = (granted out, (d, deny_revoked ctx revoked now s))

    -- `Exchange`
    unfoldable pub exchange : Context → Bytes → Fresh → Time → Db × S → Result Issued × (Db × S)
    unfolding finished with_tx exchange_body
    exchange ctx presented fresh now (d, s) = elim (parse_refresh_token crypto.encoding presented) [
      | err _ ↦ (err auth_failed, (d, s))
      | ok p ↦ finished ctx now s (with_tx (exchange_body p.0 p.1 fresh now) d)
    ]
