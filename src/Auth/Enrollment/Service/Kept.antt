-- ===== src/Auth/Enrollment/Service/Kept.antt =====
-- enrollment.go: approving, polling, redeeming and revoking as steps of the tables.
use sshpilot_vallete.Prelude.{
  ℕ, ◌+◌, ◌≡◌, refl, sym, subst, inl, inr, not, ◌||◌, Option-cases, List, [], Bytes, ◌=ᵇ◌, ltb,
  Result, Result-cases, Bool-cases, ok, err,
}
use sshpilot_vallete.Prelude.Word.{Time}
use sshpilot_vallete.Counter.Port.{Context, Store}
use sshpilot_vallete.Auth.Scopes.{validate_scopes}
use sshpilot_vallete.Auth.Denylist.{RefreshCredential}
use sshpilot_vallete.Auth.Token.{parse_device_code}
use sshpilot_vallete.Auth.UserCode.{normalize_user_code}
use sshpilot_vallete.Auth.Tokens.{Fresh, Issued, Crypto}
use sshpilot_vallete.Auth.Tokens.Lineage.{issue-Change, issue-rest}
use sshpilot_vallete.Auth.Enrollment.{
  pairing_poll_interval, hash_device_secret, hash_user_code, link, authenticate,
}
use sshpilot_vallete.Auth.Enrollment.Kept.{link-IsStep, authenticate-IsStep}
use sshpilot_vallete.Auth.Enrollment.Service.{
  denied, linked_after, may_approve, approved_pairing, approve_code, over_approval_limit, approve,
  issued_for, touched, polled, poll, listed, withdrawn_lineage, withdraw_lineage, consumed,
  consuming, redeeming, redeem, revoked_row, revoking, revoke,
}
use sshpilot_vallete.Storage.Db.{Db, DevicePairing}
use sshpilot_vallete.Storage.Credentials.{list_by_lineage, revoke_lineage}
use sshpilot_vallete.Storage.Pairings.{
  pairing_by_id, pairing_by_user_code, owned_pairing, approve_pairing, mark_redeemed,
  revoke_pairing, touch,
}
use sshpilot_vallete.Storage.Steps.{IsStep, IsStep-refl, IsStep-trans, Change-IsStep}
use sshpilot_vallete.Storage.Statements.{
  pairing_by_id-IsStep, pairing_by_user_code-IsStep, owned_pairing-IsStep, list_by_lineage-IsStep,
  revoke_lineage-IsStep, approve_pairing-IsStep, mark_redeemed-IsStep, revoke_pairing-IsStep,
  touch-IsStep,
}

module _ (crypto : Crypto) where
  denied-tables : (x : Result (Unit {0}) × Db) → (denied crypto x).1.tables ≡ x.1.tables
  denied-tables (err e, d) = refl
  denied-tables (ok u, d) = refl

  linked_after-IsStep :
      (id owner : Bytes) (now : Time) (x : Result (Unit {0}) × Db)
      → IsStep x.1.tables (linked_after crypto id owner now x).1.tables
  unfolding linked_after
  linked_after-IsStep id owner now (err e, d) = IsStep-refl d.tables
  linked_after-IsStep id owner now (ok u, d) =
      subst (IsStep d.tables) (sym (denied-tables (link crypto id owner now d)))
        (link-IsStep crypto id owner now d)

  approved_pairing-IsStep :
      (owner : Bytes) (now : Time) (x : Result DevicePairing × Db)
      → IsStep x.1.tables (approved_pairing crypto owner now x).1.tables
  unfolding approved_pairing
  approved_pairing-IsStep owner now (err e, d) = IsStep-refl d.tables
  approved_pairing-IsStep owner now (ok p, d) = elim (Bool-cases (may_approve crypto now p)) [
    | inr e ↦ rw (approved_pairing, e) (IsStep-refl d.tables)
    | inl e ↦
        rw (approved_pairing, e)
          (IsStep-trans _ _ _ (approve_pairing-IsStep p.id owner now d)
            (linked_after-IsStep p.id owner now (approve_pairing p.id owner now d)))
  ]

  approve_code-IsStep :
      (owner code : Bytes) (now : Time) (d : Db)
      → IsStep d.tables (approve_code crypto owner code now d).1.tables
  unfolding approve_code
  approve_code-IsStep owner code now d = elim (Result-cases (normalize_user_code code)) [
    | inr (x, e) ↦ rw (approve_code, e) (IsStep-refl d.tables)
    | inl (c, e) ↦
        rw (approve_code, e)
          (IsStep-trans _ _ _ (pairing_by_user_code-IsStep (hash_user_code crypto c) d)
            (approved_pairing-IsStep owner now (pairing_by_user_code (hash_user_code crypto c) d)))
  ]

  touched-IsStep :
      (p : DevicePairing) (x : Result (Unit {0}) × Db)
      → IsStep x.1.tables (touched crypto p x).1.tables
  unfolding touched
  touched-IsStep p (err e, d) = IsStep-refl d.tables
  touched-IsStep p (ok u, d) = IsStep-refl d.tables

  polled-IsStep :
      (id secret : Bytes) (now : Time) (x : Result DevicePairing × Db)
      → IsStep x.1.tables (polled crypto id secret now x).1.tables
  unfolding polled
  polled-IsStep id secret now (err e, d) = IsStep-refl d.tables
  polled-IsStep id secret now (ok p, d) =
      elim (Bool-cases
        (not (p.id =ᵇ id) || not (p.device_code_hash =ᵇ hash_device_secret crypto secret))) [
          | inl e ↦ rw (polled, e) (IsStep-refl d.tables)
          | inr e ↦ elim (Bool-cases (ltb now p.expires_at)) [
            | inr f ↦ rw (polled, e, f) (IsStep-refl d.tables)
            | inl f ↦ elim (Bool-cases (ltb now p.next_poll_at)) [
              | inl g ↦ rw (polled, e, f, g) (touch-IsStep id (now + pairing_poll_interval) d)
              | inr g ↦
                  rw (polled, e, f, g)
                    (IsStep-trans _ _ _ (touch-IsStep id (now + pairing_poll_interval) d)
                      (touched-IsStep p (touch id (now + pairing_poll_interval) d)))
            ]
          ]
        ]

  pub poll-IsStep :
      (code : Bytes) (now : Time) (d : Db) → IsStep d.tables (poll crypto code now d).1.tables
  unfolding poll
  poll-IsStep code now d = elim (Result-cases (parse_device_code crypto.encoding code)) [
    | inr (x, e) ↦ rw (poll, e) (IsStep-refl d.tables)
    | inl (p, e) ↦
        rw (poll, e)
          (IsStep-trans _ _ _ (pairing_by_id-IsStep p.0 d)
            (polled-IsStep p.0 p.1 now (pairing_by_id p.0 d)))
  ]

  issued_for-IsStep :
      (owner id : Bytes) (fresh : Fresh) (now : Time) (x : Result DevicePairing × Db)
      → IsStep x.1.tables (issued_for crypto owner id fresh now x).1.tables
  unfolding issued_for
  issued_for-IsStep owner id fresh now (err e, d) = IsStep-refl d.tables
  issued_for-IsStep owner id fresh now (ok p, d) =
      elim (Bool-cases (not (p.id =ᵇ id) || not (p.owner_id =ᵇ owner))) [
        | inl e ↦ rw (issued_for, e) (IsStep-refl d.tables)
        | inr e ↦ elim (Option-cases (validate_scopes p.scopes)) [
          | inr (x, f) ↦ rw (issued_for, e, f) (IsStep-refl d.tables)
          | inl f ↦
              rw (issued_for, e, f)
                (Change-IsStep d.tables _
                  (issue-Change crypto owner p.scopes p.client_label fresh now d)
                  (issue-rest crypto owner p.scopes p.client_label fresh now d).0
                  (issue-rest crypto owner p.scopes p.client_label fresh now d).1)
        ]
      ]

  module _ {S : Type 0} (store : Store S) where
    pub approve-IsStep :
        (ctx : Context) (owner code : Bytes) (now : Time) (d : Db) (s : S)
        → IsStep d.tables (approve crypto store ctx owner code now (d, s)).1.0.tables
    unfolding approve
    approve-IsStep ctx owner code now d s = elim (Bool-cases (owner =ᵇ [])) [
      | inl e ↦ rw (approve, e) (IsStep-refl d.tables)
      | inr e ↦ elim (Bool-cases (over_approval_limit crypto store ctx owner s).0) [
        | inl f ↦ rw (approve, e, f) (IsStep-refl d.tables)
        | inr f ↦ rw (approve, e, f) (approve_code-IsStep owner code now d)
      ]
    ]

    listed-IsStep :
        (ctx : Context) (now : Time) (s : S) (x : Result (List RefreshCredential) × Db)
        → IsStep x.1.tables (listed crypto store ctx now s x).0.tables
    unfolding listed
    listed-IsStep ctx now s (err e, d) = IsStep-refl d.tables
    listed-IsStep ctx now s (ok rows, d) = IsStep-refl d.tables

    withdrawn_lineage-IsStep :
        (ctx : Context) (owner lineage : Bytes) (now : Time) (s : S) (x : Result ℕ × Db)
        → IsStep x.1.tables (withdrawn_lineage crypto store ctx owner lineage now s x).0.tables
    unfolding withdrawn_lineage
    withdrawn_lineage-IsStep ctx owner lineage now s (err e, d) = IsStep-refl d.tables
    withdrawn_lineage-IsStep ctx owner lineage now s (ok n, d) =
        IsStep-trans _ _ _ (list_by_lineage-IsStep owner lineage d)
          (listed-IsStep ctx now s (list_by_lineage owner lineage d))

    withdraw_lineage-IsStep :
        (ctx : Context) (owner lineage : Bytes) (now : Time) (d : Db) (s : S)
        → IsStep d.tables (withdraw_lineage crypto store ctx owner lineage now (d, s)).0.tables
    unfolding withdraw_lineage
    withdraw_lineage-IsStep ctx owner lineage now d s =
        IsStep-trans _ _ _ (revoke_lineage-IsStep owner lineage now d)
          (withdrawn_lineage-IsStep ctx owner lineage now s (revoke_lineage owner lineage now d))

    consumed-IsStep :
        (ctx : Context) (owner : Bytes) (i : Issued) (now : Time) (s : S)
        (x : Result (Unit {0}) × Db)
        → IsStep x.1.tables (consumed crypto store ctx owner i now s x).1.0.tables
    unfolding consumed
    consumed-IsStep ctx owner i now s (ok u, d) = IsStep-refl d.tables
    consumed-IsStep ctx owner i now s (err e, d) =
        withdraw_lineage-IsStep ctx owner i.lineage_id now d s

    consuming-IsStep :
        (ctx : Context) (owner id : Bytes) (now : Time) (s : S) (x : Result Issued × Db)
        → IsStep x.1.tables (consuming crypto store ctx owner id now s x).1.0.tables
    unfolding consuming
    consuming-IsStep ctx owner id now s (err e, d) = IsStep-refl d.tables
    consuming-IsStep ctx owner id now s (ok i, d) =
        IsStep-trans _ _ _ (mark_redeemed-IsStep owner id i.lineage_id now d)
          (consumed-IsStep ctx owner i now s (mark_redeemed owner id i.lineage_id now d))

    redeeming-IsStep :
        (ctx : Context) (id : Bytes) (fresh : Fresh) (now : Time) (s : S) (x : Result Bytes × Db)
        → IsStep x.1.tables (redeeming crypto store ctx id fresh now s x).1.0.tables
    unfolding redeeming
    redeeming-IsStep ctx id fresh now s (err e, d) = IsStep-refl d.tables
    redeeming-IsStep ctx id fresh now s (ok owner, d) =
        IsStep-trans _ _ _
          (IsStep-trans _ _ _ (owned_pairing-IsStep owner id d)
            (issued_for-IsStep owner id fresh now (owned_pairing owner id d)))
          (consuming-IsStep ctx owner id now s
            (issued_for crypto owner id fresh now (owned_pairing owner id d)))

    pub redeem-IsStep :
        (ctx : Context) (code : Bytes) (fresh : Fresh) (checked now : Time) (d : Db) (s : S)
        → IsStep d.tables (redeem crypto store ctx code fresh checked now (d, s)).1.0.tables
    unfolding redeem
    redeem-IsStep ctx code fresh checked now d s =
        elim (Result-cases (parse_device_code crypto.encoding code)) [
          | inr (x, e) ↦ rw (redeem, e) (IsStep-refl d.tables)
          | inl (p, e) ↦
              rw (redeem, e)
                (IsStep-trans _ _ _ (authenticate-IsStep crypto p.0 p.1 checked d)
                  (redeeming-IsStep ctx p.0 fresh now s (authenticate crypto p.0 p.1 checked d)))
        ]

    revoked_row-IsStep :
        (ctx : Context) (owner : Bytes) (p : DevicePairing) (now : Time) (s : S)
        (x : Result (Unit {0}) × Db)
        → IsStep x.1.tables (revoked_row crypto store ctx owner p now s x).1.0.tables
    unfolding revoked_row
    revoked_row-IsStep ctx owner p now s (err e, d) = IsStep-refl d.tables
    revoked_row-IsStep ctx owner p now s (ok u, d) = elim (Bool-cases (p.lineage_id =ᵇ [])) [
      | inl e ↦ rw (revoked_row, e) (IsStep-refl d.tables)
      | inr e ↦ rw (revoked_row, e) (withdraw_lineage-IsStep ctx owner p.lineage_id now d s)
    ]

    revoking-IsStep :
        (ctx : Context) (owner id : Bytes) (now : Time) (s : S) (x : Result DevicePairing × Db)
        → IsStep x.1.tables (revoking crypto store ctx owner id now s x).1.0.tables
    unfolding revoking
    revoking-IsStep ctx owner id now s (err e, d) = IsStep-refl d.tables
    revoking-IsStep ctx owner id now s (ok p, d) = elim (Bool-cases (p.owner_id =ᵇ owner)) [
      | inr e ↦ rw (revoking, e) (IsStep-refl d.tables)
      | inl e ↦
          rw (revoking, e)
            (IsStep-trans _ _ _ (revoke_pairing-IsStep owner id now d)
              (revoked_row-IsStep ctx owner p now s (revoke_pairing owner id now d)))
    ]

    pub revoke-IsStep :
        (ctx : Context) (owner id : Bytes) (now : Time) (d : Db) (s : S)
        → IsStep d.tables (revoke crypto store ctx owner id now (d, s)).1.0.tables
    unfolding revoke
    revoke-IsStep ctx owner id now d s = elim (Bool-cases (owner =ᵇ [] || id =ᵇ [])) [
      | inl e ↦ rw (revoke, e) (IsStep-refl d.tables)
      | inr e ↦
          rw (revoke, e)
            (IsStep-trans _ _ _ (owned_pairing-IsStep owner id d)
              (revoking-IsStep ctx owner id now s (owned_pairing owner id d)))
    ]
