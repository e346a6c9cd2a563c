-- ===== src/Auth/Tokens/Answer.antt =====
-- tokenservice.go: what the body of an exchange answers, from the lookup of the credential on.
use sshpilot_vallete.Prelude.{
  ◌<◌, ◌≡◌, refl, ◌⊎◌, inl, inr, true, false, ◌||◌, Option, some, List, [], Bytes, ◌=ᵇ◌, eq_of_=ᵇ,
  Result, Bool-cases, ok, err, arith,
}
use sshpilot_vallete.Prelude.Word.{Time}
use sshpilot_vallete.Auth.Denylist.{RefreshCredential}
use sshpilot_vallete.Auth.Tokens.{
  Fresh, Issued, Crypto, in_good_standing, with_owner, with_credential, exchange_body,
}
use sshpilot_vallete.Storage.Db.{Tables, Db, Owner}
use sshpilot_vallete.Storage.Table.{at_key}
use sshpilot_vallete.Storage.Credentials.Cases.{get_by_id-cases, owner_get-cases}
use sshpilot_vallete.Storage.Credentials.{is_active, by_id, get_by_id, owner_get}
use sshpilot_vallete.Auth.Tokens.Outcome.{IsDenied, IsBurned, IsTurned, redeem-ok}

module _ (crypto : Crypto) (fresh : Fresh) (now : Time) where
  -- What a body that returns no error did: nothing, or it found the credential of the secret, with an
  -- owner in good standing, and burned its lineage or turned it.
  abbrev pub IsAnswer :
      Bytes → Bytes → Tables → Tables → Option Issued → List RefreshCredential → Type 0
  IsAnswer id secret t t' out dead =
      (IsDenied t t' out dead)
      ⊎ ((cred : RefreshCredential) × (by_id t.credentials id ≡ some cred)
          × (cred.id ≡ id)
          × (cred.secret_hash ≡ crypto.hash secret)
          × ((cred.owner_id =ᵇ [] || cred.lineage_id =ᵇ []) ≡ false)
          × ((o : Owner) × (at_key (λ r. r.id) cred.owner_id t.owners ≡ some o)
              × (in_good_standing o ≡ true))
          × ((IsBurned cred now t t' out dead)
              ⊎ ((is_active cred.status ≡ true)
                  × (now < cred.expires_at)
                  × IsTurned crypto cred fresh now t t' out dead)))

  with_owner-ok :
      (cred : RefreshCredential) (x : Result Owner × Db) (out : Option Issued)
      (dead : List RefreshCredential)
      → (with_owner crypto cred fresh now x).0 ≡ ok (out, dead)
      → (IsDenied x.1.tables (with_owner crypto cred fresh now x).1.tables out dead)
        ⊎ (((o : Owner) × (x.0 ≡ ok o) × (in_good_standing o ≡ true))
            × ((IsBurned cred now x.1.tables (with_owner crypto cred fresh now x).1.tables out dead)
                ⊎ ((is_active cred.status ≡ true)
                    × (now < cred.expires_at)
                    × IsTurned crypto cred fresh now x.1.tables
                        (with_owner crypto cred fresh now x).1.tables
                        out
                        dead)))
  unfolding with_owner
  with_owner-ok cred (err e, d) out dead h = inl (ground arith)
  with_owner-ok cred (ok o, d) out dead h = elim (Bool-cases (o.id =ᵇ cred.owner_id)) [
    | inr other ↦ inl (ground arith)
    | inl same ↦ elim (Bool-cases (in_good_standing o)) [
      | inr bad ↦ inl (ground arith)
      | inl good ↦ elim (redeem-ok crypto fresh now cred d out dead (ground arith)) [
        | inl n ↦ inl (ground arith)
        | inr (inl b) ↦ inr ((o, refl, good), inl (ground arith))
        | inr (inr t) ↦ inr ((o, refl, good), inr (ground arith))
      ]
    ]
  ]

  with_credential-ok :
      (id secret : Bytes) (x : Result RefreshCredential × Db) (out : Option Issued)
      (dead : List RefreshCredential)
      → (with_credential crypto id secret fresh now x).0 ≡ ok (out, dead)
      → (IsDenied x.1.tables (with_credential crypto id secret fresh now x).1.tables out dead)
        ⊎ ((cred : RefreshCredential) × (x.0 ≡ ok cred)
            × (cred.id ≡ id)
            × (cred.secret_hash ≡ crypto.hash secret)
            × ((cred.owner_id =ᵇ [] || cred.lineage_id =ᵇ []) ≡ false)
            × ((o : Owner) × (at_key (λ r. r.id) cred.owner_id x.1.tables.owners ≡ some o)
                × (in_good_standing o ≡ true))
            × ((IsBurned cred now x.1.tables
                  (with_credential crypto id secret fresh now x).1.tables
                  out
                  dead)
                ⊎ ((is_active cred.status ≡ true)
                    × (now < cred.expires_at)
                    × IsTurned crypto cred fresh now x.1.tables
                        (with_credential crypto id secret fresh now x).1.tables
                        out
                        dead)))
  unfolding with_credential
  with_credential-ok id secret (err e, d) out dead h = inl (ground arith)
  with_credential-ok id secret (ok cred, d) out dead h = elim (Bool-cases (cred.id =ᵇ id)) [
    | inr other ↦ inl (ground arith)
    | inl same ↦ elim (Bool-cases (cred.secret_hash =ᵇ crypto.hash secret)) [
      | inr wrong ↦ inl (ground arith)
      | inl right ↦ elim (Bool-cases (cred.owner_id =ᵇ [] || cred.lineage_id =ᵇ [])) [
        | inl empty ↦ inl (ground arith)
        | inr whole ↦
            let (kept, answers) = owner_get-cases cred.owner_id d in
            elim (with_owner-ok cred (owner_get cred.owner_id d) out dead (ground arith)) [
              | inl n ↦ inl (ground arith)
              | inr ((o, g, good), work) ↦ elim answers [
                | inl (y, e) ↦ inl (ground arith)
                | inr (p, at, e) ↦
                    let head : (cred.id ≡ id) × (cred.secret_hash ≡ crypto.hash secret) = (
                      eq_of_=ᵇ cred.id id same,
                      eq_of_=ᵇ cred.secret_hash (crypto.hash secret) right,
                    ) in
                    elim work [
                      | inl b ↦ inr (
                        cred,
                        refl,
                        head.0,
                        head.1,
                        whole,
                        (o, ground arith, good),
                        inl (ground arith),
                      )
                      | inr t ↦ inr (
                        cred,
                        refl,
                        head.0,
                        head.1,
                        whole,
                        (o, ground arith, good),
                        inr (ground arith),
                      )
                    ]
              ]
            ]
      ]
    ]
  ]

  pub exchange_body-ok :
      (id secret : Bytes) (d : Db) (out : Option Issued) (dead : List RefreshCredential)
      → (exchange_body crypto id secret fresh now d).0 ≡ ok (out, dead)
      → IsAnswer id secret d.tables (exchange_body crypto id secret fresh now d).1.tables out dead
  unfolding exchange_body
  exchange_body-ok id secret d out dead h =
      let (kept, answers) = get_by_id-cases id d in
      elim (with_credential-ok id secret (get_by_id id d) out dead h) [
        | inl n ↦ inl (ground arith)
        | inr (cred, g, same, right, whole, (o, held, good), work) ↦ elim answers [
          | inl (y, e) ↦ inl (ground arith)
          | inr (c, at, e) ↦ elim work [
            | inl b ↦ inr (
              cred,
              ground arith,
              same,
              right,
              whole,
              (o, ground arith, good),
              inl (ground arith),
            )
            | inr t ↦ inr (
              cred,
              ground arith,
              same,
              right,
              whole,
              (o, ground arith, good),
              inr (ground arith),
            )
          ]
        ]
      ]
