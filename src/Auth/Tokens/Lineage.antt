-- ===== src/Auth/Tokens/Lineage.antt =====
-- tokenservice.go: issuing and exchanging as changes of the table of credentials, whole transactions
-- at a time.
use sshpilot_vallete.Prelude.{
  ◌<◌, ◌≡◌, refl, ap, ◌∙◌, ◌⊎◌, inl, inr, true, false, ◌||◌, none, some, Option-cases, List, [],
  Bytes, ◌=ᵇ◌, Result, Result-cases, Bool-cases, ok, err, auth_failed, arith,
}
use sshpilot_vallete.Prelude.Word.{Time}
use sshpilot_vallete.Counter.Port.{Context, Store}
use sshpilot_vallete.Auth.Denylist.{RefreshCredential}
use sshpilot_vallete.Auth.Scopes.{Scope, validate_scopes}
use sshpilot_vallete.Auth.Token.{parse_refresh_token, validate_client_label}
use sshpilot_vallete.Auth.AccessToken.{issue_access}
use sshpilot_vallete.Auth.Tokens.{
  Fresh, Issued, Crypto, access_of, in_good_standing, root, child_of, mint, minted, issue,
  exchange_body, finished, exchange,
}
use sshpilot_vallete.Auth.Tokens.Answer.{exchange_body-ok}
use sshpilot_vallete.Storage.Db.{Tables, Db, Owner, with_tx, with_tx-cases}
use sshpilot_vallete.Storage.Table.{at_key}
use sshpilot_vallete.Storage.Credentials.{is_active, by_id, rotate_rows, revoke_rows, create}
use sshpilot_vallete.Storage.Credentials.Cases.{create-cases}
use sshpilot_vallete.Storage.Changes.{Change, unchanged, begun, turned, burned, add}

module _ (crypto : Crypto) {S : Type 0} (store : Store S) (ctx : Context) where
  -- What an exchange answers and leaves in the tables.
  abbrev pub IsExchanged : Bytes → Fresh → Time → Tables → Tables → Result Issued → Type 0
  IsExchanged presented fresh now t t' r =
      ((r ≡ err auth_failed) × (t' ≡ t))
      ⊎ ((id : Bytes) × (secret : Bytes) × (parse_refresh_token crypto.encoding presented
            ≡ ok (id, secret))
          × (cred : RefreshCredential) × (by_id t.credentials id ≡ some cred)
          × (cred.id ≡ id)
          × (cred.secret_hash ≡ crypto.hash secret)
          × ((cred.owner_id =ᵇ [] || cred.lineage_id =ᵇ []) ≡ false)
          × ((o : Owner) × (at_key (λ x. x.id) cred.owner_id t.owners ≡ some o)
              × (in_good_standing o ≡ true))
          × (((r ≡ err auth_failed)
                × (t' ≡ record t {
                  credentials = revoke_rows cred.owner_id cred.lineage_id now t.credentials;
                }))
              ⊎ ((is_active cred.status ≡ true)
                  × (now < cred.expires_at)
                  × (by_id t.credentials fresh.credential_id ≡ none)
                  × (t' ≡ record t {
                    credentials =
                        add (child_of crypto cred fresh now)
                          (rotate_rows cred.owner_id cred.id t.credentials);
                  })
                  × (r ≡ mint crypto (child_of crypto cred fresh now) fresh now)
                  × ((i : Issued) × (r ≡ ok i)))))

  finished-lem :
      (fresh : Fresh) (now : Time) (id secret presented : Bytes) (d : Db) (s : S)
      → parse_refresh_token crypto.encoding presented ≡ ok (id, secret)
      → IsExchanged presented fresh now d.tables
          (finished crypto store ctx now s
            (with_tx (exchange_body crypto id secret fresh now) d)).1.0.tables
          (finished crypto store ctx now s (with_tx (exchange_body crypto id secret fresh now) d)).0
  unfolding finished
  finished-lem fresh now id secret presented d s p =
      elim (with_tx-cases (exchange_body crypto id secret fresh now) d) [
        | inl ((e, r), same) ↦ inl (ground arith)
        | inr (b, before, ((out, dead), body, r), after) ↦
            elim (exchange_body-ok crypto fresh now id secret b out dead body) [
              | inl (same, nothing, _) ↦ inl (ground arith)
              | inr (cred, at, own, right, whole, (o, held, good), inl (table, nothing, _)) ↦ inr (
                id,
                secret,
                p,
                cred,
                ground arith,
                own,
                right,
                whole,
                (o, ground arith, good),
                inl (ground arith),
              )
              | inr
                    (
                      cred,
                      at,
                      own,
                      right,
                      whole,
                      (o, held, good),
                      inr (live, soon, (free, table, (i, issued, made), _)),
                    ) ↦
                  inr (
                    id,
                    secret,
                    p,
                    cred,
                    ground arith,
                    own,
                    right,
                    whole,
                    (o, ground arith, good),
                    inr (live, soon, ground arith, ground arith, ground arith, (i, ground arith)),
                  )
            ]
      ]

  -- An exchange answers the one denial and changes no table; or the token is a credential's, with its
  -- secret and an owner in good standing, and it answers the denial and revokes the lineage; or the
  -- credential was active and had not ended, it is rotated, its child is inserted under a new
  -- identifier, and the answer is what is minted for the child.
  pub exchange-cases :
      (presented : Bytes) (fresh : Fresh) (now : Time) (d : Db) (s : S)
      → IsExchanged presented fresh now d.tables
          (exchange crypto store ctx presented fresh now (d, s)).1.0.tables
          (exchange crypto store ctx presented fresh now (d, s)).0
  unfolding exchange
  exchange-cases presented fresh now d s =
      elim (Result-cases (parse_refresh_token crypto.encoding presented)) [
        | inr (e, p) ↦ inl (ground arith)
        | inl ((id, secret), p) ↦ ground (arith, finished-lem fresh now id secret presented d s p)
      ]

  -- An exchange is a change of the table of credentials.
  pub exchange-Change :
      (presented : Bytes) (fresh : Fresh) (now : Time) (d : Db) (s : S)
      → Change d.tables.credentials
          (exchange crypto store ctx presented fresh now (d, s)).1.0.tables.credentials
  exchange-Change presented fresh now d s = elim (exchange-cases presented fresh now d s) [
    | inl (r, t) ↦ unchanged (ap (λ x. x.credentials) t)
    | inr (id, secret, p, cred, at, own, right, whole, o, inl (r, t)) ↦
        burned cred.owner_id cred.lineage_id now (ap (λ x. x.credentials) t)
    | inr (id, secret, p, cred, at, own, right, whole, o, inr (live, soon, free, t, m, i)) ↦
        turned cred (child_of crypto cred fresh now) (ap (by_id d.tables.credentials) own ∙ at) live
          free (refl, refl, refl) (ap (λ x. x.credentials) t)
  ]

module _ (crypto : Crypto) where
  minted-tables :
      (cred : RefreshCredential) (fresh : Fresh) (now : Time) (x : Result (Unit {0}) × Db)
      → (minted crypto cred fresh now x).1.tables ≡ x.1.tables
  unfolding minted
  minted-tables cred fresh now (err e, d) = refl
  minted-tables cred fresh now (ok u, d) = refl

  -- Issuing inserts a root at most.
  pub issue-Change :
      (owner : Bytes) (scopes : List Scope) (label : Bytes) (fresh : Fresh) (now : Time) (d : Db)
      → Change d.tables.credentials
          (issue crypto owner scopes label fresh now d).1.tables.credentials
  unfolding issue
  issue-Change owner scopes label fresh now d = elim (Bool-cases (owner =ᵇ [])) [
    | inl e ↦ unchanged (ground arith)
    | inr e ↦ elim (Option-cases (validate_scopes scopes)) [
      | inr (x, f) ↦ unchanged (ground arith)
      | inl f ↦ elim (Option-cases (validate_client_label label)) [
        | inr (x, g) ↦ unchanged (ground arith)
        | inl g ↦ elim (create-cases (root crypto owner scopes label fresh now) d) [
          | inl (x, same) ↦ unchanged (
              ground (
                arith,
                minted-tables (root crypto owner scopes label fresh now) fresh now
                    (create (root crypto owner scopes label fresh now) d),
              ))
          | inr (free, made, table) ↦ begun (root crypto owner scopes label fresh now) free refl (
              ground (
                arith,
                minted-tables (root crypto owner scopes label fresh now) fresh now
                    (create (root crypto owner scopes label fresh now) d),
              ))
        ]
      ]
    ]
  ]

  -- Issuing leaves the other tables alone.
  pub issue-rest :
      (owner : Bytes) (scopes : List Scope) (label : Bytes) (fresh : Fresh) (now : Time) (d : Db)
      → ((issue crypto owner scopes label fresh now d).1.tables.pairings ≡ d.tables.pairings)
        × ((issue crypto owner scopes label fresh now d).1.tables.owners ≡ d.tables.owners)
  unfolding issue
  issue-rest owner scopes label fresh now d = elim (Bool-cases (owner =ᵇ [])) [
    | inl e ↦ ground arith
    | inr e ↦ elim (Option-cases (validate_scopes scopes)) [
      | inr (x, f) ↦ ground arith
      | inl f ↦ elim (Option-cases (validate_client_label label)) [
        | inr (x, g) ↦ ground arith
        | inl g ↦ elim (create-cases (root crypto owner scopes label fresh now) d) [
          | inl (x, same) ↦ ground (
            arith,
            minted-tables (root crypto owner scopes label fresh now) fresh now
                (create (root crypto owner scopes label fresh now) d),
          )
          | inr (free, made, table) ↦ ground (
            arith,
            minted-tables (root crypto owner scopes label fresh now) fresh now
                (create (root crypto owner scopes label fresh now) d),
          )
        ]
      ]
    ]
  ]

  -- What an issue that succeeds returns and inserts.
  pub issue-ok :
      (owner : Bytes) (scopes : List Scope) (label : Bytes) (fresh : Fresh) (now : Time) (d : Db)
      (i : Issued)
      → (issue crypto owner scopes label fresh now d).0 ≡ ok i
      → (by_id d.tables.credentials fresh.credential_id ≡ none)
        × ((issue crypto owner scopes label fresh now d).1.tables ≡ record d.tables {
          credentials = add (root crypto owner scopes label fresh now) d.tables.credentials;
        })
        × (mint crypto (root crypto owner scopes label fresh now) fresh now ≡ ok i)
  unfolding issue minted
  issue-ok owner scopes label fresh now d i h = elim (Bool-cases (owner =ᵇ [])) [
    | inl e ↦ ground arith
    | inr e ↦ elim (Option-cases (validate_scopes scopes)) [
      | inr (x, f) ↦ ground arith
      | inl f ↦ elim (Option-cases (validate_client_label label)) [
        | inr (x, g) ↦ ground arith
        | inl g ↦ elim (create-cases (root crypto owner scopes label fresh now) d) [
          | inl ((x, bad), same) ↦ ground arith
          | inr (free, made, table) ↦ (free, ground arith, ground arith)
        ]
      ]
    ]
  ]

  -- What is minted for a credential is the credential's.
  pub mint-ok :
      (cred : RefreshCredential) (fresh : Fresh) (now : Time) (i : Issued)
      → mint crypto cred fresh now ≡ ok i
      → (i.owner_id ≡ cred.owner_id)
        × (i.lineage_id ≡ cred.lineage_id)
        × (i.scopes ≡ cred.scopes)
        × (i.refresh_expires_at ≡ cred.expires_at)
  unfolding mint
  mint-ok cred fresh now i h =
      elim (Result-cases
        (issue_access crypto.encoding crypto.signer (access_of crypto cred fresh now))) [
          | inr (e, f) ↦ ground arith
          | inl (raw, f) ↦ ground arith
        ]
