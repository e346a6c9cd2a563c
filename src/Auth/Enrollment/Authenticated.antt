-- ===== src/Auth/Enrollment/Authenticated.antt =====
-- apitoken.go and authenticator.go: whose device code is accepted.
use sshpilot_vallete.Prelude.{
  ◌≡◌, refl, inl, inr, true, not, ◌||◌, some, Option-cases, [], Bytes, ◌=ᵇ◌, Result, Bool-cases, ok,
  err, arith,
}
use sshpilot_vallete.Prelude.Word.{Time}
use sshpilot_vallete.Auth.Tokens.{Crypto, in_good_standing}
use sshpilot_vallete.Auth.Enrollment.{
  validate_principal, code_stands, provided, with_resolved, with_link, resolved, authenticate,
  api_token_provider_id,
}
use sshpilot_vallete.Storage.Db.{Tables, Db, Owner, LinkedIdentity, DevicePairing}
use sshpilot_vallete.Storage.Table.{at_key}
use sshpilot_vallete.Storage.Credentials.{owner_get}
use sshpilot_vallete.Storage.Credentials.Cases.{owner_get-cases}
use sshpilot_vallete.Storage.Pairings.{is_approved, pairing_at, pairing_by_id, link_by_subject}
use sshpilot_vallete.Storage.Pairings.Answers.{
  pairing_by_id-ok, pairing_by_id-tables, link_by_subject-tables,
}

-- An owner in good standing.
abbrev pub IsStanding : Tables → Bytes → Type 0
IsStanding t owner =
    (o : Owner) × (at_key (λ r. r.id) owner t.owners ≡ some o) × (in_good_standing o ≡ true)

module _ (crypto : Crypto) where
  with_resolved-ok :
      (owner k : Bytes) (x : Result Owner × Db)
      → (with_resolved crypto k x).0 ≡ ok owner
      → (owner ≡ k)
        × ((with_resolved crypto k x).1 ≡ x.1)
        × ((o : Owner) × (x.0 ≡ ok o) × (in_good_standing o ≡ true))
  unfolding with_resolved
  with_resolved-ok owner k (err e, d) h = ground arith
  with_resolved-ok owner k (ok o, d) h = elim (Bool-cases (o.id =ᵇ k)) [
    | inr e ↦ ground arith
    | inl e ↦ elim (Bool-cases (in_good_standing o)) [
      | inr f ↦ ground arith
      | inl f ↦ (ground arith, ground arith, (o, refl, f))
    ]
  ]

  with_link-ok :
      (owner principal : Bytes) (x : Result LinkedIdentity × Db)
      → (with_link crypto principal x).0 ≡ ok owner
      → ((with_link crypto principal x).1.tables ≡ x.1.tables) × IsStanding x.1.tables owner
  unfolding with_link
  with_link-ok owner principal (err e, d) h = ground arith
  with_link-ok owner principal (ok l, d) h =
      elim (Bool-cases
        (not (l.provider =ᵇ api_token_provider_id) || not (l.subject =ᵇ principal))) [
          | inl e ↦ ground arith
          | inr e ↦ elim (Bool-cases (l.owner_id =ᵇ [])) [
            | inl f ↦ ground arith
            | inr f ↦
                let (same, kept, (o, got, good)) =
                  with_resolved-ok owner l.owner_id (owner_get l.owner_id d) (ground arith) in
                let (before, answers) = owner_get-cases l.owner_id d in
                elim answers [
                  | inl (y, g) ↦ ground arith
                  | inr (p, at, g) ↦ (ground arith, (o, ground arith, good))
                ]
          ]
        ]

  resolved-ok :
      (owner : Bytes) (x : Result Bytes × Db)
      → (resolved crypto x).0 ≡ ok owner
      → ((resolved crypto x).1.tables ≡ x.1.tables)
        × ((p : Bytes) × (x.0 ≡ ok p))
        × IsStanding x.1.tables owner
  unfolding resolved
  resolved-ok owner (err e, d) h = ground arith
  resolved-ok owner (ok p, d) h = elim (Option-cases (validate_principal p)) [
    | inr (x, e) ↦ ground arith
    | inl e ↦
        let (kept, (o, at, good)) =
          with_link-ok owner p (link_by_subject api_token_provider_id p d) (ground arith) in
        let same = link_by_subject-tables api_token_provider_id p d in
        (ground arith, (p, refl), (o, ground arith, good))
  ]

  provided-ok :
      (id secret principal : Bytes) (now : Time) (x : Result DevicePairing × Db)
      → (provided crypto id secret now x).0 ≡ ok principal
      → ((provided crypto id secret now x).1 ≡ x.1)
        × ((p : DevicePairing) × (x.0 ≡ ok p) × (code_stands crypto id secret now p ≡ true))
  unfolding provided
  provided-ok id secret principal now (err e, d) h = ground arith
  provided-ok id secret principal now (ok p, d) h =
      elim (Bool-cases (code_stands crypto id secret now p)) [
        | inr e ↦ ground arith
        | inl e ↦ (ground arith, (p, refl, e))
      ]

  pub code_stands-approved :
      (id secret : Bytes) (now : Time) (p : DevicePairing)
      → code_stands crypto id secret now p ≡ true
      → is_approved p.status ≡ true
  unfolding code_stands
  code_stands-approved id secret now p h = elim (Bool-cases (is_approved p.status)) [
    | inl e ↦ e
    | inr e ↦ ground arith
  ]

  -- Who is authenticated by a device code has a pairing for it that stands, and is in good standing.
  pub authenticate-ok :
      (id secret owner : Bytes) (now : Time) (d : Db)
      → (authenticate crypto id secret now d).0 ≡ ok owner
      → ((authenticate crypto id secret now d).1.tables ≡ d.tables)
        × ((p : DevicePairing) × (pairing_at d.tables.pairings id ≡ some p)
            × (code_stands crypto id secret now p ≡ true))
        × IsStanding d.tables owner
  unfolding authenticate
  authenticate-ok id secret owner now d h =
      let (kept, (q, got), (o, at, good)) =
        resolved-ok owner (provided crypto id secret now (pairing_by_id id d)) h in
      let (same, (p, read, stands)) = provided-ok id secret q now (pairing_by_id id d) got in
      let before = pairing_by_id-tables id d in
      (ground arith, (p, pairing_by_id-ok id d p read, stands), (o, ground arith, good))
