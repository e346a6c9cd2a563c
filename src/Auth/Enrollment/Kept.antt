-- ===== src/Auth/Enrollment/Kept.antt =====
-- enrollment.go, apitoken.go and authenticator.go: granting and authenticating as steps of the tables.
use sshpilot_vallete.Prelude.{
  inl, inr, not, ◌||◌, Option-cases, List, [], Bytes, ◌=ᵇ◌, Result, Result-cases, Bool-cases, ok,
  err,
}
use sshpilot_vallete.Prelude.Word.{Time}
use sshpilot_vallete.Auth.Scopes.{Scope, validate_scopes}
use sshpilot_vallete.Auth.Token.{validate_client_label}
use sshpilot_vallete.Auth.UserCode.{new_user_code}
use sshpilot_vallete.Auth.Tokens.{Crypto, in_good_standing}
use sshpilot_vallete.Auth.Enrollment.{
  FreshPairing, Grant, hash_user_code, granted_after, filled, asked, create, start_device_grant,
  link_of, link, linked, bound, mint_pairing, validate_principal, code_stands, provided,
  with_resolved, with_link, resolved, authenticate, api_token_provider_id,
}
use sshpilot_vallete.Storage.Db.{Db, Owner, LinkedIdentity, DevicePairing}
use sshpilot_vallete.Storage.Credentials.{owner_get}
use sshpilot_vallete.Storage.Pairings.{create_pairing, pairing_by_id, link_by_subject}
use sshpilot_vallete.Storage.Steps.{IsStep, IsStep-refl, IsStep-trans}
use sshpilot_vallete.Storage.Statements.{
  pairing_by_id-IsStep, link_by_subject-IsStep, owner_get-IsStep, create_link-IsStep,
  create_pairing-IsStep,
}

module _ (crypto : Crypto) where
  granted_after-IsStep :
      (p : DevicePairing) (fresh : FreshPairing) (code : Bytes) (x : Result (Unit {0}) × Db)
      → IsStep x.1.tables (granted_after crypto p fresh code x).1.tables
  unfolding granted_after
  granted_after-IsStep p fresh code (err e, d) = IsStep-refl d.tables
  granted_after-IsStep p fresh code (ok u, d) = IsStep-refl d.tables

  create-IsStep :
      (p : DevicePairing) (fresh : FreshPairing) (code : Bytes) (now : Time) (d : Db)
      → IsStep d.tables (create crypto p fresh code now d).1.tables
  unfolding create
  create-IsStep p fresh code now d =
      IsStep-trans _ _ _ (create_pairing-IsStep (filled crypto p fresh now) d) (
        granted_after-IsStep (filled crypto p fresh now) fresh code
          (create_pairing (filled crypto p fresh now) d))

  pub start_device_grant-IsStep :
      (label : Bytes) (scopes : List Scope) (raw : Bytes) (fresh : FreshPairing) (now : Time)
      (d : Db)
      → IsStep d.tables (start_device_grant crypto label scopes raw fresh now d).1.tables
  unfolding start_device_grant
  start_device_grant-IsStep label scopes raw fresh now d =
      elim (Option-cases (validate_scopes scopes)) [
        | inr (x, e) ↦ rw (start_device_grant, e) (IsStep-refl d.tables)
        | inl e ↦ elim (Option-cases (validate_client_label label)) [
          | inr (x, f) ↦ rw (start_device_grant, e, f) (IsStep-refl d.tables)
          | inl f ↦
              rw (start_device_grant, e, f)
                (create-IsStep
                  (asked crypto label scopes (hash_user_code crypto (new_user_code raw).1)) fresh
                  (new_user_code raw).0 now d)
        ]
      ]

  pub link-IsStep :
      (id owner : Bytes) (now : Time) (d : Db)
      → IsStep d.tables (link crypto id owner now d).1.tables
  unfolding link
  link-IsStep id owner now d = create_link-IsStep (link_of crypto id owner now) d

  linked-IsStep :
      (id owner : Bytes) (now : Time) (x : Result Grant × Db)
      → IsStep x.1.tables (linked crypto id owner now x).1.tables
  unfolding linked
  linked-IsStep id owner now (err e, d) = IsStep-refl d.tables
  linked-IsStep id owner now (ok g, d) = elim (Result-cases (link crypto id owner now d).0) [
    | inl (u, e) ↦ rw (linked, e) (link-IsStep id owner now d)
    | inr (x, e) ↦ rw (linked, e) (link-IsStep id owner now d)
  ]

  pub mint_pairing-IsStep :
      (owner label : Bytes) (scopes : List Scope) (fresh : FreshPairing) (approved now : Time)
      (d : Db)
      → IsStep d.tables (mint_pairing crypto owner label scopes fresh approved now d).1.tables
  unfolding mint_pairing
  mint_pairing-IsStep owner label scopes fresh approved now d = elim (Bool-cases (owner =ᵇ [])) [
    | inl o ↦ rw (mint_pairing, o) (IsStep-refl d.tables)
    | inr o ↦ elim (Option-cases (validate_scopes scopes)) [
      | inr (x, e) ↦ rw (mint_pairing, o, e) (IsStep-refl d.tables)
      | inl e ↦ elim (Option-cases (validate_client_label label)) [
        | inr (x, f) ↦ rw (mint_pairing, o, e, f) (IsStep-refl d.tables)
        | inl f ↦
            rw (mint_pairing, o, e, f)
              (IsStep-trans _ _ _
                (create-IsStep (bound crypto label scopes owner approved) fresh [] now d)
                (linked-IsStep fresh.pairing_id owner approved
                  (create crypto (bound crypto label scopes owner approved) fresh [] now d)))
      ]
    ]
  ]

  provided-IsStep :
      (id secret : Bytes) (now : Time) (x : Result DevicePairing × Db)
      → IsStep x.1.tables (provided crypto id secret now x).1.tables
  unfolding provided
  provided-IsStep id secret now (err e, d) = IsStep-refl d.tables
  provided-IsStep id secret now (ok p, d) = elim (Bool-cases (code_stands crypto id secret now p)) [
    | inl e ↦ rw (provided, e) (IsStep-refl d.tables)
    | inr e ↦ rw (provided, e) (IsStep-refl d.tables)
  ]

  with_resolved-IsStep :
      (owner : Bytes) (x : Result Owner × Db)
      → IsStep x.1.tables (with_resolved crypto owner x).1.tables
  unfolding with_resolved
  with_resolved-IsStep owner (err e, d) = IsStep-refl d.tables
  with_resolved-IsStep owner (ok o, d) =
      elim (Bool-cases (not (o.id =ᵇ owner) || not (in_good_standing o))) [
        | inl e ↦ rw (with_resolved, e) (IsStep-refl d.tables)
        | inr e ↦ rw (with_resolved, e) (IsStep-refl d.tables)
      ]

  with_link-IsStep :
      (principal : Bytes) (x : Result LinkedIdentity × Db)
      → IsStep x.1.tables (with_link crypto principal x).1.tables
  unfolding with_link
  with_link-IsStep principal (err e, d) = IsStep-refl d.tables
  with_link-IsStep principal (ok l, d) =
      elim (Bool-cases
        (not (l.provider =ᵇ api_token_provider_id) || not (l.subject =ᵇ principal))) [
          | inl e ↦ rw (with_link, e) (IsStep-refl d.tables)
          | inr e ↦ elim (Bool-cases (l.owner_id =ᵇ [])) [
            | inl f ↦ rw (with_link, e, f) (IsStep-refl d.tables)
            | inr f ↦
                rw (with_link, e, f)
                  (IsStep-trans _ _ _ (owner_get-IsStep l.owner_id d)
                    (with_resolved-IsStep l.owner_id (owner_get l.owner_id d)))
          ]
        ]

  resolved-IsStep : (x : Result Bytes × Db) → IsStep x.1.tables (resolved crypto x).1.tables
  unfolding resolved
  resolved-IsStep (err e, d) = IsStep-refl d.tables
  resolved-IsStep (ok p, d) = elim (Option-cases (validate_principal p)) [
    | inr (x, e) ↦ rw (resolved, e) (IsStep-refl d.tables)
    | inl e ↦
        rw (resolved, e)
          (IsStep-trans _ _ _ (link_by_subject-IsStep api_token_provider_id p d)
            (with_link-IsStep p (link_by_subject api_token_provider_id p d)))
  ]

  pub authenticate-IsStep :
      (id secret : Bytes) (now : Time) (d : Db)
      → IsStep d.tables (authenticate crypto id secret now d).1.tables
  unfolding authenticate
  authenticate-IsStep id secret now d =
      IsStep-trans _ _ _
        (IsStep-trans _ _ _ (pairing_by_id-IsStep id d)
          (provided-IsStep id secret now (pairing_by_id id d)))
        (resolved-IsStep (provided crypto id secret now (pairing_by_id id d)))
