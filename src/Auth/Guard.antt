-- ===== src/Auth/Guard.antt =====
-- internal/auth/authorization.go: the decision about one authenticated request. The verification of
-- the presented token's signature and expiry is a parameter, the function `verify`.
pub mod Ceiling
pub mod Denies
pub mod Revocation
use sshpilot_vallete.Prelude.{
  ℕ, ◌+◌, ◌≡◌, Bool, true, false, ◌&&◌, ◌||◌, not, Option, none, some, List, [], ◌∷◌, Bytes, ◌=ᵇ◌,
  ◌==◌, Err, Result, ok, err, if◌then◌else◌, auth_failed, invalid_input, forbidden,
}
use sshpilot_vallete.Prelude.Word.{Time}
use sshpilot_vallete.Counter.Port.{Context, Store}
use sshpilot_vallete.Auth.Scopes.{
  ScopeKind, full_owner, single_set, single_device, Scope, is_read_only,
}
use sshpilot_vallete.Auth.Denylist.{AccessToken, check}

-- A string type: its three constants, and any other text.
pub data ResourceKind : Type 0 where
  no_resource : ResourceKind
  key_set : ResourceKind
  device : ResourceKind
  unknown_resource : Bytes → ResourceKind

unfoldable pub resource_eq : ResourceKind → ResourceKind → Bool
resource_eq no_resource no_resource = true
resource_eq key_set key_set = true
resource_eq device device = true
resource_eq (unknown_resource a) (unknown_resource b) = a =ᵇ b
resource_eq _ _ = false

abbrev pub is_known : ResourceKind → Bool
is_known (unknown_resource _) = false
is_known _ = true

pub record Access : Type 0 where
  pub owner : Bytes
  pub resource : ResourceKind
  pub resource_id : Bytes
  pub mutating : Bool

abbrev same : Bool → Bool → Bool
same true b = b
same false b = not b

unfoldable pub validate : Access → Option Err
unfolding resource_eq
validate a =
    if not (is_known a.resource)
    then some invalid_input
    else if not (same (resource_eq a.resource no_resource) (a.resource_id =ᵇ []))
    then some invalid_input
    else none

unfoldable pub bound_scope_permits : Scope → Access → ResourceKind → Bool
unfolding resource_eq
bound_scope_permits s acc want =
    if not (resource_eq acc.resource want) || (acc.resource_id =ᵇ [] || s.resource_id =ᵇ [])
    then false
    else s.resource_id =ᵇ acc.resource_id

-- The switch of `scopePermits`.
permits_kind : ScopeKind → Scope → Access → Bool
permits_kind full_owner s acc = true
permits_kind single_set s acc = bound_scope_permits s acc key_set
permits_kind single_device s acc = bound_scope_permits s acc device
permits_kind _ s acc = false

unfoldable pub scope_permits : Scope → Access → Bool
unfolding permits_kind
scope_permits s acc = permits_kind s.kind s acc

-- The first loop of `permitsAccess`: whether a read-only scope is there, and how many others.
unfoldable pub tally : Bool → ℕ → List Scope → Bool × ℕ
tally read_only grants [] = (read_only, grants)
tally read_only grants (s ∷ rest) =
    tally (if is_read_only s.kind then true else read_only)
      (if is_read_only s.kind then grants else grants + 1) rest

-- The second loop.
unfoldable pub any_grant : List Scope → Access → Bool
any_grant [] acc = false
any_grant (s ∷ rest) acc =
    let later = any_grant rest acc in
    if is_read_only s.kind then later else if scope_permits s acc then true else later

unfoldable pub permits_access : List Scope → Access → Bool
unfolding tally any_grant
permits_access scopes acc =
    let (read_only, grants) = tally false 0 scopes in
    if read_only && acc.mutating
    then false
    else if read_only && grants == 0
    then true
    else any_grant scopes acc

pub record Authorization : Type 0 where
  pub owner : Bytes
  pub token_id : Bytes
  pub credential : Bytes
  pub scopes : List Scope

-- The checks of `decide` behind the denylist's.
decide_scope : AccessToken → Access → Option Err
decide_scope tok acc =
    if not (acc.owner =ᵇ []) && not (acc.owner =ᵇ tok.owner_id)
    then some forbidden
    else if not (permits_access tok.scopes acc)
    then some forbidden
    else none

module _ (digest : Bytes → Bytes) {S : Type 0} (store : Store S) where
  after_denylist : AccessToken → Access → Option Err × S → Option Err × S
  unfolding decide_scope
  after_denylist tok acc (some e, s) = (some auth_failed, s)
  after_denylist tok acc (none, s) = (decide_scope tok acc, s)

  unfoldable pub decide : Context → AccessToken → Access → S → Option Err × S
  unfolding after_denylist
  decide ctx tok acc s =
      if tok.owner_id =ᵇ []
      then (some auth_failed, s)
      else after_denylist tok acc (check digest store ctx (some tok) s)

  module _ (verify : Bytes → Time → Result AccessToken) where
    granted : AccessToken → Option Err × S → Result Authorization × S
    granted tok (some e, s) = (err e, s)
    granted tok (none, s) = (
      ok (record {
        owner = tok.owner_id;
        token_id = tok.id;
        credential = tok.refresh_credential_id;
        scopes = tok.scopes;
      }),
      s,
    )

    authorize_token : Context → Access → S → Result AccessToken → Result Authorization × S
    unfolding granted decide
    authorize_token ctx acc s (err e) = (err auth_failed, s)
    authorize_token ctx acc s (ok tok) = granted tok (decide ctx tok acc s)

    unfoldable pub authorize : Context → Bytes → Access → Time → S → Result Authorization × S
    unfolding authorize_token validate
    authorize ctx presented acc now s = elim (validate acc) [
      | some e ↦ (err auth_failed, s)
      | none ↦ authorize_token ctx acc s (verify presented now)
    ]
