-- ===== src/Auth/Enrollment.antt =====
-- internal/auth/enrollment.go, with apitoken.go and the resolve of authenticator.go that it calls: the
-- device grant and the manual paste. The registry holds the api-token provider; the approval limiter
-- and the denylist share one counter store, as cmd/valletd wires them.
pub mod Service
pub mod Kept
pub mod Authenticated
use sshpilot_vallete.Prelude.{
  ℕ, ◌+◌, Bool, true, false, not, ◌&&◌, ◌||◌, Option, none, some, List, [], ◌∷◌, ◌++◌, Bytes, codes,
  ◌=ᵇ◌, ltb, if◌then◌else◌, length, Err, Result, ok, err, auth_failed, invalid_input, not_found,
  poll_pending,
}
use sshpilot_vallete.Prelude.Runes.{runes}
use sshpilot_vallete.Prelude.Word.{Time, Duration, slt}
use sshpilot_vallete.Counter.Port.{Context, Count, Store}
use sshpilot_vallete.Auth.Scopes.{Scope, validate_scopes}
use sshpilot_vallete.Auth.Denylist.{RefreshCredential}
use sshpilot_vallete.Auth.Token.{
  contains, parse_device_code, format_device_code, validate_client_label,
}
use sshpilot_vallete.Auth.UserCode.{new_user_code, normalize_user_code}
use sshpilot_vallete.Auth.Tokens.{Fresh, Issued, Crypto, in_good_standing, issue, deny_revoked}
use sshpilot_vallete.Storage.Db
use sshpilot_vallete.Storage.Db.{Db, Owner, LinkedIdentity, DevicePairing}
use sshpilot_vallete.Storage.Credentials.{list_by_lineage, revoke_lineage, owner_get}
use sshpilot_vallete.Storage.Pairings.{
  is_pending, is_approved, create_pairing, pairing_by_id, pairing_by_user_code, owned_pairing,
  approve_pairing, mark_redeemed, revoke_pairing, touch, create_link, link_by_subject,
}

abbrev pub pairing_lifetime : Duration
pairing_lifetime = 600000000000

abbrev pub pairing_poll_interval : Duration
pairing_poll_interval = 5000000000

abbrev pub max_approval_attempts : ℕ
max_approval_attempts = 20

abbrev pub api_token_provider_id : Bytes
api_token_provider_id = codes "api-token"

abbrev pub max_principal_len : ℕ
max_principal_len = 255

-- What crypto/rand gives to one pairing.
pub record FreshPairing : Type 0 where
  pub pairing_id : Bytes
  pub secret : Bytes

pub record Grant : Type 0 where
  pub granted_id : Bytes
  pub device_code : Bytes
  pub user_code : Bytes
  pub grant_expires_at : Time
  pub poll_interval : Duration

-- Principal.Validate
unfoldable pub validate_principal : Bytes → Option Err
validate_principal p =
    if p =ᵇ [] || ltb max_principal_len (length p) then some invalid_input else elim (runes p) [
      | none ↦ some invalid_input
      | some _ ↦ if contains 0 p then some invalid_input else none
    ]

module _ (crypto : Crypto) where
  unfoldable pub hash_device_secret : Bytes → Bytes
  hash_device_secret secret = crypto.hash (codes "vallet.auth.pairing.device.v1" ++ (0 ∷ secret))

  unfoldable pub hash_user_code : Bytes → Bytes
  hash_user_code code = crypto.hash (codes "vallet.auth.pairing.user.v1" ++ (0 ∷ code))

  granted_after : DevicePairing → FreshPairing → Bytes → Result (Unit {0}) × Db → Result Grant × Db
  unfolding format_device_code
  granted_after p fresh user_code (err e, d) = (err e, d)
  granted_after p fresh user_code (ok _, d) = (
    ok (record {
      granted_id = p.id;
      device_code = format_device_code crypto.encoding p.id fresh.secret;
      user_code = user_code;
      grant_expires_at = p.expires_at;
      poll_interval = pairing_poll_interval;
    }),
    d,
  )

  abbrev pub filled : DevicePairing → FreshPairing → Time → DevicePairing
  filled p fresh now = record p {
    id = fresh.pairing_id;
    device_code_hash = hash_device_secret fresh.secret;
    created_at = now;
    expires_at = now + pairing_lifetime;
    next_poll_at = now;
  }

  -- `create`
  unfoldable pub create : DevicePairing → FreshPairing → Bytes → Time → Db → Result Grant × Db
  unfolding granted_after create_pairing hash_device_secret
  create p fresh user_code now d =
      granted_after (filled p fresh now) fresh user_code (create_pairing (filled p fresh now) d)

  -- A pairing with the fields that `create` does not fill in; the rest are zero.
  abbrev pub asked : Bytes → List Scope → Bytes → DevicePairing
  asked label scopes user_hash = record {
    id = [];
    owner_id = [];
    device_code_hash = [];
    user_code_hash = user_hash;
    client_label = label;
    scopes = scopes;
    status = Db.pending;
    lineage_id = [];
    next_poll_at = 0;
    created_at = 0;
    expires_at = 0;
    approved_at = none;
    redeemed_at = none;
    revoked_at = none;
  }

  -- `StartDeviceGrant`
  unfoldable pub start_device_grant :
      Bytes → List Scope → Bytes → FreshPairing → Time → Db → Result Grant × Db
  unfolding create hash_user_code
  start_device_grant label scopes raw fresh now d = elim (validate_scopes scopes) [
    | some e ↦ (err e, d)
    | none ↦ elim (validate_client_label label) [
      | some e ↦ (err e, d)
      | none ↦
          let (shown, canonical) = new_user_code raw in
          create (asked label scopes (hash_user_code canonical)) fresh shown now d
    ]
  ]

  abbrev pub link_of : Bytes → Bytes → Time → LinkedIdentity
  link_of id owner now = record {
    id = id;
    owner_id = owner;
    provider = api_token_provider_id;
    subject = id;
    email = none;
    created_at = now;
    updated_at = now;
  }

  -- `link`
  unfoldable pub link : Bytes → Bytes → Time → Db → Result (Unit {0}) × Db
  unfolding create_link
  link id owner now d = create_link (link_of id owner now) d

  linked : Bytes → Bytes → Time → Result Grant × Db → Result Grant × Db
  unfolding link
  linked id owner now (err e, d) = (err e, d)
  linked id owner now (ok g, d) =
      let (r, d') = link id owner now d in elim r [ err e ↦ (err e, d') | ok _ ↦ (ok g, d') ]

  abbrev pub bound : Bytes → List Scope → Bytes → Time → DevicePairing
  bound label scopes owner approved = record (asked label scopes []) {
    owner_id = owner;
    status = Db.approved;
    approved_at = some approved;
  }

  -- `mintInto`, which reads the clock for the approval and again in `create`
  unfoldable pub mint_pairing :
      Bytes → Bytes → List Scope → FreshPairing → Time → Time → Db → Result Grant × Db
  unfolding create linked
  mint_pairing owner label scopes fresh approved now d =
      if owner =ᵇ [] then (err invalid_input, d) else elim (validate_scopes scopes) [
        | some e ↦ (err e, d)
        | none ↦ elim (validate_client_label label) [
          | some e ↦ (err e, d)
          | none ↦
              linked fresh.pairing_id owner approved
                (create (bound label scopes owner approved) fresh [] now d)
        ]
      ]

  -- APITokenProvider.Authenticate on the pairing read: whether the device code stands.
  unfoldable pub code_stands : Bytes → Bytes → Time → DevicePairing → Bool
  unfolding hash_device_secret
  code_stands id secret now p =
      p.id =ᵇ id
      && (p.device_code_hash =ᵇ hash_device_secret secret
          && (is_approved p.status && (not (p.owner_id =ᵇ []) && ltb now p.expires_at)))

  provided : Bytes → Bytes → Time → Result DevicePairing × Db → Result Bytes × Db
  unfolding code_stands
  provided id secret now (err e, d) = (err auth_failed, d)
  provided id secret now (ok p, d) =
      if code_stands id secret now p then (ok p.id, d) else (err auth_failed, d)

  with_resolved : Bytes → Result Owner × Db → Result Bytes × Db
  with_resolved owner (err e, d) = (err auth_failed, d)
  with_resolved owner (ok o, d) =
      if not (o.id =ᵇ owner) || not (in_good_standing o)
      then (err auth_failed, d)
      else (ok owner, d)

  with_link : Bytes → Result LinkedIdentity × Db → Result Bytes × Db
  unfolding with_resolved owner_get
  with_link principal (err e, d) = (err auth_failed, d)
  with_link principal (ok l, d) =
      if not (l.provider =ᵇ api_token_provider_id) || not (l.subject =ᵇ principal)
      then (err auth_failed, d)
      else if l.owner_id =ᵇ []
      then (err auth_failed, d)
      else with_resolved l.owner_id (owner_get l.owner_id d)

  -- Identity.Validate and `resolve`
  resolved : Result Bytes × Db → Result Bytes × Db
  unfolding with_link link_by_subject
  resolved (err e, d) = (err auth_failed, d)
  resolved (ok principal, d) = elim (validate_principal principal) [
    | some _ ↦ (err auth_failed, d)
    | none ↦ with_link principal (link_by_subject api_token_provider_id principal d)
  ]

  -- Authenticator.Authenticate with the api-token provider. An error of the provider is a denial.
  unfoldable pub authenticate : Bytes → Bytes → Time → Db → Result Bytes × Db
  unfolding resolved provided pairing_by_id
  authenticate id secret now d = resolved (provided id secret now (pairing_by_id id d))
