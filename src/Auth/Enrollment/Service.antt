-- ===== src/Auth/Enrollment/Service.antt =====
-- enrollment.go: what a pairing goes through, from its approval to its redemption or revocation.
pub mod Kept
pub mod Redeeming
pub mod Redeemed
pub mod Refused
use sshpilot_vallete.Prelude.{
  ℕ, ◌+◌, Bool, true, false, not, ◌&&◌, ◌||◌, Option, none, some, List, [], ◌∷◌, ◌++◌, Bytes, codes,
  ◌=ᵇ◌, ltb, if◌then◌else◌, Err, Result, ok, err, auth_failed, invalid_input, not_found,
  poll_pending,
}
use sshpilot_vallete.Prelude.Word.{Time, slt}
use sshpilot_vallete.Counter.Port.{Context, Count, Store}
use sshpilot_vallete.Auth.Scopes.{validate_scopes}
use sshpilot_vallete.Auth.Denylist.{RefreshCredential}
use sshpilot_vallete.Auth.Token.{parse_device_code}
use sshpilot_vallete.Auth.UserCode.{normalize_user_code}
use sshpilot_vallete.Auth.Tokens.{Fresh, Issued, Crypto, issue, deny_revoked}
use sshpilot_vallete.Auth.Enrollment.{
  pairing_lifetime, pairing_poll_interval, max_approval_attempts, hash_device_secret,
  hash_user_code, link, authenticate,
}
use sshpilot_vallete.Storage.Db.{Db, DevicePairing}
use sshpilot_vallete.Storage.Credentials.{list_by_lineage, revoke_lineage}
use sshpilot_vallete.Storage.Pairings.{
  is_pending, is_approved, pairing_by_id, pairing_by_user_code, owned_pairing, approve_pairing,
  mark_redeemed, revoke_pairing, touch,
}

module _ (crypto : Crypto) where
  -- An error that is not told apart.
  abbrev pub denied : Result (Unit {0}) × Db → Option Err × Db
  denied (err _, d) = (some auth_failed, d)
  denied (ok _, d) = (none, d)

  linked_after : Bytes → Bytes → Time → Result (Unit {0}) × Db → Option Err × Db
  unfolding link
  linked_after id owner now (err _, d) = (some auth_failed, d)
  linked_after id owner now (ok _, d) = denied (link crypto id owner now d)

  unfoldable pub may_approve : Time → DevicePairing → Bool
  may_approve now p = is_pending p.status && ltb now p.expires_at

  approved_pairing : Bytes → Time → Result DevicePairing × Db → Option Err × Db
  unfolding linked_after approve_pairing may_approve
  approved_pairing owner now (err _, d) = (some auth_failed, d)
  approved_pairing owner now (ok p, d) =
      if may_approve now p
      then linked_after p.id owner now (approve_pairing p.id owner now d)
      else (some auth_failed, d)

  -- Approve behind the limiter.
  unfoldable pub approve_code : Bytes → Bytes → Time → Db → Option Err × Db
  unfolding approved_pairing pairing_by_user_code hash_user_code
  approve_code owner user_code now d = elim (normalize_user_code user_code) [
    | err _ ↦ (some auth_failed, d)
    | ok code ↦ approved_pairing owner now (pairing_by_user_code (hash_user_code crypto code) d)
  ]

  unfoldable pub approval_key : Bytes → Bytes
  approval_key owner = crypto.key_digest (codes "vallet.auth.approval.v1" ++ (0 ∷ owner))

  over_limit : Result Count → Bool
  over_limit (err _) = true
  over_limit (ok c) = slt max_approval_attempts c.value

  -- What `Redeem` does with the owner's pairing, up to the credential it issues; the scopes are those
  -- of the row.
  issued_for : Bytes → Bytes → Fresh → Time → Result DevicePairing × Db → Result Issued × Db
  unfolding issue
  issued_for owner id fresh now (err _, d) = (err auth_failed, d)
  issued_for owner id fresh now (ok p, d) =
      if not (p.id =ᵇ id) || not (p.owner_id =ᵇ owner)
      then (err auth_failed, d)
      else elim (validate_scopes p.scopes) [
        | some _ ↦ (err auth_failed, d)
        | none ↦ issue crypto owner p.scopes p.client_label fresh now d
      ]

  poll_answer : DevicePairing → Option Err
  poll_answer p =
      if is_approved p.status
      then none
      else if is_pending p.status
      then some poll_pending
      else some auth_failed

  touched : DevicePairing → Result (Unit {0}) × Db → Option Err × Db
  unfolding poll_answer
  touched p (err _, d) = (some auth_failed, d)
  touched p (ok _, d) = (poll_answer p, d)

  polled : Bytes → Bytes → Time → Result DevicePairing × Db → Option Err × Db
  unfolding touched touch hash_device_secret
  polled id secret now (err _, d) = (some auth_failed, d)
  polled id secret now (ok p, d) =
      if not (p.id =ᵇ id) || not (p.device_code_hash =ᵇ hash_device_secret crypto secret)
      then (some auth_failed, d)
      else if not (ltb now p.expires_at)
      then (some auth_failed, d)
      else let (r, d') = touch id (now + pairing_poll_interval) d in
        if ltb now p.next_poll_at then (some auth_failed, d') else touched p (r, d')

  -- `Poll`
  unfoldable pub poll : Bytes → Time → Db → Option Err × Db
  unfolding polled pairing_by_id
  poll device_code now d = elim (parse_device_code crypto.encoding device_code) [
    | err _ ↦ (some auth_failed, d)
    | ok p ↦ polled p.0 p.1 now (pairing_by_id p.0 d)
  ]

  module _ {S : Type 0} (store : Store S) where
    -- `checkApprovalLimit`: whether the attempt is refused
    unfoldable pub over_approval_limit : Context → Bytes → S → Bool × S
    unfolding over_limit approval_key
    over_approval_limit ctx owner s =
        let (r, s') = store.increment ctx (approval_key owner) 1 pairing_lifetime s in
        (over_limit r, s')

    -- `Approve`
    unfoldable pub approve : Context → Bytes → Bytes → Time → Db × S → Option Err × (Db × S)
    unfolding over_approval_limit approve_code
    approve ctx owner user_code now (d, s) =
        if owner =ᵇ []
        then (some auth_failed, (d, s))
        else let (over, s') = over_approval_limit ctx owner s in
          let (r, d') = approve_code owner user_code now d in
          if over then (some auth_failed, (d, s')) else (r, (d', s'))

    listed : Context → Time → S → Result (List RefreshCredential) × Db → Db × S
    unfolding deny_revoked
    listed ctx now s (err _, d) = (d, s)
    listed ctx now s (ok rows, d) = (d, deny_revoked crypto store ctx rows now s)

    withdrawn_lineage : Context → Bytes → Bytes → Time → S → Result ℕ × Db → Db × S
    unfolding listed list_by_lineage
    withdrawn_lineage ctx owner lineage now s (err _, d) = (d, s)
    withdrawn_lineage ctx owner lineage now s (ok _, d) =
        listed ctx now s (list_by_lineage owner lineage d)

    -- `revokeLineage`: what fails is only logged
    unfoldable pub withdraw_lineage : Context → Bytes → Bytes → Time → Db × S → Db × S
    unfolding withdrawn_lineage revoke_lineage
    withdraw_lineage ctx owner lineage now (d, s) =
        withdrawn_lineage ctx owner lineage now s (revoke_lineage owner lineage now d)

    -- The conditional consume; the loser of a race gives up the lineage that it issued.
    consumed :
        Context → Bytes → Issued → Time → S → Result (Unit {0}) × Db → Result Issued × (Db × S)
    unfolding withdraw_lineage
    consumed ctx owner issued now s (ok _, d) = (ok issued, (d, s))
    consumed ctx owner issued now s (err _, d) =
        (err auth_failed, withdraw_lineage ctx owner issued.lineage_id now (d, s))

    consuming : Context → Bytes → Bytes → Time → S → Result Issued × Db → Result Issued × (Db × S)
    unfolding consumed mark_redeemed
    consuming ctx owner id now s (err _, d) = (err auth_failed, (d, s))
    consuming ctx owner id now s (ok issued, d) =
        consumed ctx owner issued now s (mark_redeemed owner id issued.lineage_id now d)

    pub redeeming :
        Context → Bytes → Fresh → Time → S → Result Bytes × Db → Result Issued × (Db × S)
    unfolding consuming issued_for owned_pairing
    redeeming ctx id fresh now s (err _, d) = (err auth_failed, (d, s))
    redeeming ctx id fresh now s (ok owner, d) =
        consuming ctx owner id now s (issued_for owner id fresh now (owned_pairing owner id d))

    -- `Redeem`: the provider reads its clock first
    unfoldable pub redeem :
        Context → Bytes → Fresh → Time → Time → Db × S → Result Issued × (Db × S)
    unfolding redeeming authenticate
    redeem ctx device_code fresh checked now (d, s) =
        elim (parse_device_code crypto.encoding device_code) [
          | err _ ↦ (err auth_failed, (d, s))
          | ok p ↦ redeeming ctx p.0 fresh now s (authenticate crypto p.0 p.1 checked d)
        ]

    revoked_row :
        Context → Bytes → DevicePairing → Time → S → Result (Unit {0}) × Db → Option Err × (Db × S)
    unfolding withdraw_lineage
    revoked_row ctx owner p now s (err e, d) = (some e, (d, s))
    revoked_row ctx owner p now s (ok _, d) =
        let after = withdraw_lineage ctx owner p.lineage_id now (d, s) in
        (none, if p.lineage_id =ᵇ [] then (d, s) else after)

    revoking :
        Context → Bytes → Bytes → Time → S → Result DevicePairing × Db → Option Err × (Db × S)
    unfolding revoked_row revoke_pairing
    revoking ctx owner id now s (err e, d) = (some e, (d, s))
    revoking ctx owner id now s (ok p, d) =
        if not (p.owner_id =ᵇ owner)
        then (some not_found, (d, s))
        else revoked_row ctx owner p now s (revoke_pairing owner id now d)

    -- `Revoke`
    unfoldable pub revoke : Context → Bytes → Bytes → Time → Db × S → Option Err × (Db × S)
    unfolding revoking owned_pairing
    revoke ctx owner id now (d, s) =
        if owner =ᵇ [] || id =ᵇ []
        then (some invalid_input, (d, s))
        else revoking ctx owner id now s (owned_pairing owner id d)
