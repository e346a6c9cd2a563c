-- ===== src/Storage/Pairings/Answers.antt =====
-- pairing.go and linkedidentity.go: what an answer without an error says.
use sshpilot_vallete.Prelude.{
  ℕ, zero, suc, ◌≡◌, refl, ap, ◌∙◌, inl, inr, Option, none, some, Bytes, Result, Result-cases, ok,
  err, arith,
}
use sshpilot_vallete.Prelude.Word.{Time}
use sshpilot_vallete.Storage.Table.{update, first}
use sshpilot_vallete.Storage.Db.{Tables, Db, DevicePairing, call, call-cases}
use sshpilot_vallete.Storage.Credentials.{found}
use sshpilot_vallete.Storage.Pairings.{
  pairing_at, is_owned_pairing, pairing_in, pairing_by_id, owned_pairing_in, owned_pairing,
  classify, update_pairings_in, is_to_redeem, redeem_row, mark_redeemed, link_of_in,
  link_by_subject,
}

found-ok : {R : Type 0} (o : Option R) (r : R) → found o ≡ ok r → o ≡ some r
found-ok none r h = ground arith
found-ok (some x) r h = ground arith

-- A query for one row.
query-ok :
    {R : Type 0} (query : Tables → Result R × Tables) (o : Option R) (d : Db) (r : R)
    → query d.tables ≡ (found o, d.tables)
    → (call query d).0 ≡ ok r
    → o ≡ some r
query-ok query o d r q h = elim (call-cases query d) [
  | inl (e, s) ↦ ground arith
  | inr (e, s) ↦ found-ok o r (ground arith)
]

pub pairing_by_id-ok :
    (id : Bytes) (d : Db) (p : DevicePairing)
    → (pairing_by_id id d).0 ≡ ok p
    → pairing_at d.tables.pairings id ≡ some p
unfolding pairing_by_id
pairing_by_id-ok id d p h = query-ok (pairing_in id) (pairing_at d.tables.pairings id) d p refl h

pub owned_pairing-ok :
    (owner id : Bytes) (d : Db) (p : DevicePairing)
    → (owned_pairing owner id d).0 ≡ ok p
    → first (is_owned_pairing owner id) d.tables.pairings ≡ some p
unfolding owned_pairing
owned_pairing-ok owner id d p h =
    query-ok (owned_pairing_in owner id) (first (is_owned_pairing owner id) d.tables.pairings) d p
      refl h

-- A query leaves the tables alone.
query-tables :
    {R : Type 0} (query : Tables → Result R × Tables) (d : Db)
    → (query d.tables).1 ≡ d.tables
    → (call query d).1.tables ≡ d.tables
query-tables query d q = elim (call-cases query d) [ inl (e, s) ↦ s | inr (e, s) ↦ s ∙ q ]

pub pairing_by_id-tables : (id : Bytes) (d : Db) → (pairing_by_id id d).1.tables ≡ d.tables
unfolding pairing_by_id
pairing_by_id-tables id d = query-tables (pairing_in id) d refl

pub owned_pairing-tables :
    (owner id : Bytes) (d : Db) → (owned_pairing owner id d).1.tables ≡ d.tables
unfolding owned_pairing
owned_pairing-tables owner id d = query-tables (owned_pairing_in owner id) d refl

pub link_by_subject-tables :
    (provider subject : Bytes) (d : Db) → (link_by_subject provider subject d).1.tables ≡ d.tables
unfolding link_by_subject
link_by_subject-tables provider subject d = query-tables (link_of_in provider subject) d refl

classify-ok :
    (query : Db → Result DevicePairing × Db) (x : Result ℕ × Db)
    → (classify query x).0 ≡ ok tt
    → ((n : ℕ) × (x.0 ≡ ok n)) × ((classify query x).1 ≡ x.1)
unfolding classify
classify-ok query (err e, d) h = ground arith
classify-ok query (ok (suc n), d) h = ((suc n, refl), refl)
classify-ok query (ok zero, d) h = elim (Result-cases (query d).0) [
  | inl (p, e) ↦ ground arith
  | inr (x, e) ↦ ground arith
]

pub mark_redeemed-ok :
    (owner id lineage : Bytes) (now : Time) (d : Db)
    → (mark_redeemed owner id lineage now d).0 ≡ ok tt
    → (mark_redeemed owner id lineage now d).1.tables ≡ record d.tables {
      pairings = update (is_to_redeem owner id) (redeem_row lineage now) d.tables.pairings;
    }
unfolding mark_redeemed
mark_redeemed-ok owner id lineage now d h =
    let x : Result ℕ × Db =
      call (update_pairings_in (is_to_redeem owner id) (redeem_row lineage now)) d in
    let (n, same) = classify-ok (owned_pairing owner id) x h in
    elim (call-cases (update_pairings_in (is_to_redeem owner id) (redeem_row lineage now)) d) [
      | inl (e, s) ↦ ground arith
      | inr (e, s) ↦ ap (λ b. b.tables) same ∙ s
    ]
