-- ===== src/Auth/Enrollment/Service/Redeeming.antt =====
-- enrollment.go: the steps of a redemption that succeeds.
use sshpilot_vallete.Prelude.{
  ◌≡◌, refl, sym, ap, ◌∙◌, inl, inr, some, Option-cases, Bytes, ◌=ᵇ◌, eq_of_=ᵇ, Result, Bool-cases,
  ok, err, arith,
}
use sshpilot_vallete.Prelude.Word.{Time}
use sshpilot_vallete.Counter.Port.{Context, Store}
use sshpilot_vallete.Auth.Scopes.{validate_scopes}
use sshpilot_vallete.Auth.Tokens.{Fresh, Issued, Crypto, root}
use sshpilot_vallete.Auth.Tokens.Lineage.{issue-ok, mint-ok}
use sshpilot_vallete.Auth.Enrollment.Service.{issued_for, consumed, consuming, redeeming}
use sshpilot_vallete.Storage.Db.{Tables, Db, DevicePairing}
use sshpilot_vallete.Storage.Table.{update, first}
use sshpilot_vallete.Storage.Changes.{add}
use sshpilot_vallete.Storage.Pairings.{
  is_owned_pairing, is_to_redeem, redeem_row, owned_pairing, mark_redeemed,
}
use sshpilot_vallete.Storage.Pairings.Answers.{
  owned_pairing-ok, owned_pairing-tables, mark_redeemed-ok,
}

module _ (crypto : Crypto) where
  issued_for-ok :
      (owner id : Bytes) (fresh : Fresh) (now : Time) (x : Result DevicePairing × Db) (i : Issued)
      → (issued_for crypto owner id fresh now x).0 ≡ ok i
      → (p : DevicePairing) × (x.0 ≡ ok p)
        × (p.id ≡ id)
        × (p.owner_id ≡ owner)
        × ((issued_for crypto owner id fresh now x).1.tables ≡ record x.1.tables {
          credentials =
              add (root crypto owner p.scopes p.client_label fresh now) x.1.tables.credentials;
        })
        × ((i.owner_id ≡ owner) × (i.lineage_id ≡ fresh.credential_id) × (i.scopes ≡ p.scopes))
  unfolding issued_for
  issued_for-ok owner id fresh now (err e, d) i h = ground arith
  issued_for-ok owner id fresh now (ok p, d) i h = elim (Bool-cases (p.id =ᵇ id)) [
    | inr e ↦ ground arith
    | inl e ↦ elim (Bool-cases (p.owner_id =ᵇ owner)) [
      | inr f ↦ ground arith
      | inl f ↦ elim (Option-cases (validate_scopes p.scopes)) [
        | inr (x, g) ↦ ground arith
        | inl g ↦
            let (free, table, minted) =
              issue-ok crypto owner p.scopes p.client_label fresh now d i (ground arith) in
            let (own, lin, sc, ends) =
              mint-ok crypto (root crypto owner p.scopes p.client_label fresh now) fresh now i
                minted in
            (p, refl, eq_of_=ᵇ p.id id e, eq_of_=ᵇ p.owner_id owner f, ground arith, (own, lin, sc))
      ]
    ]
  ]

  module _ {S : Type 0} (store : Store S) where
    consumed-ok :
        (ctx : Context) (owner : Bytes) (j i : Issued) (now : Time) (s : S)
        (x : Result (Unit {0}) × Db)
        → (consumed crypto store ctx owner j now s x).0 ≡ ok i
        → (x.0 ≡ ok tt) × (j ≡ i) × ((consumed crypto store ctx owner j now s x).1.0 ≡ x.1)
    unfolding consumed
    consumed-ok ctx owner j i now s (err e, d) h = ground arith
    consumed-ok ctx owner j i now s (ok u, d) h = (refl, ground arith, refl)

    consuming-ok :
        (ctx : Context) (owner id : Bytes) (i : Issued) (now : Time) (s : S)
        (x : Result Issued × Db)
        → (consuming crypto store ctx owner id now s x).0 ≡ ok i
        → (x.0 ≡ ok i)
          × ((consuming crypto store ctx owner id now s x).1.0.tables ≡ record x.1.tables {
            pairings =
                update (is_to_redeem owner id) (redeem_row i.lineage_id now) x.1.tables.pairings;
          })
    unfolding consuming
    consuming-ok ctx owner id i now s (err e, d) h = ground arith
    consuming-ok ctx owner id i now s (ok j, d) h =
        let (marked, same, after) =
          consumed-ok ctx owner j i now s (mark_redeemed owner id j.lineage_id now d) h in
        (
          ap ok same,
          ap (λ b. b.tables) after
              ∙ mark_redeemed-ok owner id j.lineage_id now d marked
              ∙ ap
                  (λ k. record d.tables {
                    pairings =
                        update (is_to_redeem owner id) (redeem_row k.lineage_id now)
                          d.tables.pairings;
                  })
                  same,
        )

    -- The tables after a redemption: a root of the pairing's own grant, and the pairing spent.
    abbrev pub tables_after : Bytes → Bytes → Bytes → DevicePairing → Fresh → Time → Tables → Tables
    tables_after owner id lineage p fresh now t = record t {
      credentials = add (root crypto owner p.scopes p.client_label fresh now) t.credentials;
      pairings = update (is_to_redeem owner id) (redeem_row lineage now) t.pairings;
    }

    abbrev pub redeemed_tables : DevicePairing → Fresh → Time → Tables → Tables
    redeemed_tables p fresh now t = tables_after p.owner_id p.id fresh.credential_id p fresh now t

    pub redeeming-ok :
        (ctx : Context) (id : Bytes) (fresh : Fresh) (now : Time) (s : S) (i : Issued)
        (x : Result Bytes × Db)
        → (redeeming crypto store ctx id fresh now s x).0 ≡ ok i
        → (owner : Bytes) × (x.0 ≡ ok owner)
          × (p : DevicePairing) × (first (is_owned_pairing owner id) x.1.tables.pairings ≡ some p)
          × ((p.id ≡ id) × (p.owner_id ≡ owner))
          × ((redeeming crypto store ctx id fresh now s x).1.0.tables
              ≡ redeemed_tables p fresh now x.1.tables)
          × ((i.owner_id ≡ owner) × (i.lineage_id ≡ fresh.credential_id) × (i.scopes ≡ p.scopes))
    unfolding redeeming
    redeeming-ok ctx id fresh now s i (err e, d) h = ground arith
    redeeming-ok ctx id fresh now s i (ok owner, d) h =
        let (issued, table) =
          consuming-ok ctx owner id i now s
            (issued_for crypto owner id fresh now (owned_pairing owner id d)) h in
        let (p, got, same, own, root_in, fields) =
          issued_for-ok owner id fresh now (owned_pairing owner id d) i issued in
        let before = owned_pairing-tables owner id d in
        (
          owner,
          refl,
          p,
          owned_pairing-ok owner id d p got,
          (same, own),
          table
              ∙ ap {A = Tables}
                  (λ t. record t {
                    pairings =
                        update (is_to_redeem owner id) (redeem_row i.lineage_id now) t.pairings;
                  })
                  root_in
              ∙ ap (λ t. tables_after owner id i.lineage_id p fresh now t) before
              ∙ ap (λ o. tables_after o id i.lineage_id p fresh now d.tables) (sym own)
              ∙ ap (λ k. tables_after p.owner_id k i.lineage_id p fresh now d.tables) (sym same)
              ∙ ap (λ l. tables_after p.owner_id p.id l p fresh now d.tables) fields.1,
          fields,
        )
