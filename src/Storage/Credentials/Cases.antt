-- ===== src/Storage/Credentials/Cases.antt =====
-- refreshcred.go: how each statement can end.
use sshpilot_vallete.Prelude.{
  ℕ, zero, suc, ◌≡◌, refl, ◌⊎◌, inl, inr, ◌&&◌, none, some, Option-cases, Bytes, Err, Result,
  Result-cases, ok, err, failed, not_found, conflict, arith,
}
use sshpilot_vallete.Prelude.Word.{Time}
use sshpilot_vallete.Auth.Denylist.{RefreshCredential}
use sshpilot_vallete.Storage.Table.{select, insert, at_key, update-unmatched}
use sshpilot_vallete.Storage.Db.{Db, Owner, call, call-cases}
use sshpilot_vallete.Storage.Credentials.{
  is_active, is_owned, is_in_lineage, by_id, rotate_row, rotate_rows, revoke_rows, create_in,
  get_in, get_owned_in, list_in, mark_in, revoke_in, owner_in, create, get_by_id, get_owned,
  list_by_lineage, classify_conditional, mark_rotated, revoke_lineage, owner_get,
}

-- An answer that is an error, with the tables as they were.
abbrev pub IsRefused {ℓ} : {A : Type ℓ} → Db → Result A × Db → Type ℓ
IsRefused d x = ((e : Err) × (x.0 ≡ err e)) × (x.1.tables ≡ d.tables)

pub create-cases :
    (c : RefreshCredential) (d : Db)
    → IsRefused d (create c d)
      ⊎ ((by_id d.tables.credentials c.id ≡ none)
          × ((create c d).0 ≡ ok tt)
          × ((create c d).1.tables
              ≡ record d.tables { credentials = insert (λ r. r.id) c d.tables.credentials }))
unfolding create
create-cases c d = elim (call-cases (create_in c) d) [
  | inl (e, s) ↦ inl ((failed, e), s)
  | inr (e, s) ↦ elim (Option-cases (by_id d.tables.credentials c.id)) [
    | inl n ↦ inr (n, ground arith, ground arith)
    | inr (x, n) ↦ inl ((conflict, ground arith), ground arith)
  ]
]

pub get_by_id-cases :
    (id : Bytes) (d : Db)
    → ((get_by_id id d).1.tables ≡ d.tables)
      × (((e : Err) × ((get_by_id id d).0 ≡ err e))
          ⊎ ((c : RefreshCredential) × (by_id d.tables.credentials id ≡ some c)
              × ((get_by_id id d).0 ≡ ok c)))
unfolding get_by_id
get_by_id-cases id d = elim (call-cases (get_in id) d) [
  | inl (e, s) ↦ (s, inl (failed, e))
  | inr (e, s) ↦ elim (Option-cases (by_id d.tables.credentials id)) [
    | inl n ↦ (s, inl (not_found, ground arith))
    | inr (c, n) ↦ (s, inr (c, n, ground arith))
  ]
]

pub owner_get-cases :
    (id : Bytes) (d : Db)
    → ((owner_get id d).1.tables ≡ d.tables)
      × (((e : Err) × ((owner_get id d).0 ≡ err e))
          ⊎ ((o : Owner) × (at_key (λ r. r.id) id d.tables.owners ≡ some o)
              × ((owner_get id d).0 ≡ ok o)))
unfolding owner_get
owner_get-cases id d = elim (call-cases (owner_in id) d) [
  | inl (e, s) ↦ (s, inl (failed, e))
  | inr (e, s) ↦ elim (Option-cases (at_key (λ o. o.id) id d.tables.owners)) [
    | inl n ↦ (s, inl (not_found, ground arith))
    | inr (c, n) ↦ (s, inr (c, n, ground arith))
  ]
]

pub revoke_lineage-cases :
    (owner lineage : Bytes) (now : Time) (d : Db)
    → IsRefused d (revoke_lineage owner lineage now d)
      ⊎ (((n : ℕ) × ((revoke_lineage owner lineage now d).0 ≡ ok n))
          × ((revoke_lineage owner lineage now d).1.tables ≡ record d.tables {
            credentials = revoke_rows owner lineage now d.tables.credentials;
          }))
unfolding revoke_lineage
revoke_lineage-cases owner lineage now d = elim (call-cases (revoke_in owner lineage now) d) [
  | inl (e, s) ↦ inl ((failed, e), s)
  | inr (e, s) ↦ inr ((_, e), s)
]

pub list_by_lineage-cases :
    (owner lineage : Bytes) (d : Db)
    → ((list_by_lineage owner lineage d).1.tables ≡ d.tables)
      × (((e : Err) × ((list_by_lineage owner lineage d).0 ≡ err e))
          ⊎ ((list_by_lineage owner lineage d).0
              ≡ ok (select (is_in_lineage owner lineage) d.tables.credentials)))
unfolding list_by_lineage
list_by_lineage-cases owner lineage d = elim (call-cases (list_in owner lineage) d) [
  | inl (e, s) ↦ (s, inl (failed, e))
  | inr (e, s) ↦ (s, inr e)
]

get_owned-tables : (owner id : Bytes) (d : Db) → (get_owned owner id d).1.tables ≡ d.tables
unfolding get_owned
get_owned-tables owner id d = elim (call-cases (get_owned_in owner id) d) [
  | inl (e, s) ↦ s
  | inr (e, s) ↦ s
]

-- No row affected is an error, and nothing else is.
classify_conditional-cases :
    (owner id : Bytes) (x : Result ℕ × Db) (n : ℕ)
    → x.0 ≡ ok n
    → ((n ≡ 0) × IsRefused x.1 (classify_conditional owner id x))
      ⊎ (((classify_conditional owner id x).0 ≡ ok tt)
          × ((classify_conditional owner id x).1.tables ≡ x.1.tables))
unfolding classify_conditional
classify_conditional-cases owner id (err e, d) n h = ground arith
classify_conditional-cases owner id (ok (suc m), d) n h = inr (refl, refl)
classify_conditional-cases owner id (ok zero, d) n h =
    elim (Result-cases (get_owned owner id d).0) [
      | inl (c, e) ↦
          inl
            (ground arith, ((conflict, ground arith), ground (arith, get_owned-tables owner id d)))
      | inr (x, e) ↦
          inl (ground arith, ((x, ground arith), ground (arith, get_owned-tables owner id d)))
    ]

pub mark_rotated-cases :
    (owner id : Bytes) (d : Db)
    → IsRefused d (mark_rotated owner id d)
      ⊎ (((mark_rotated owner id d).0 ≡ ok tt)
          × ((mark_rotated owner id d).1.tables
              ≡ record d.tables { credentials = rotate_rows owner id d.tables.credentials }))
unfolding mark_rotated
mark_rotated-cases owner id d = elim (call-cases (mark_in owner id) d) [
  | inl (e, s) ↦ inl ((failed, ground arith), ground arith)
  | inr (e, s) ↦ elim (classify_conditional-cases owner id (call (mark_in owner id) d) _ e) [
    | inl (z, ((x, r), same)) ↦ inl (
      (x, r),
      ground (
        arith,
        update-unmatched (λ c. is_owned owner id c && is_active c.status) rotate_row
            d.tables.credentials z,
      ),
    )
    | inr (r, same) ↦ inr (r, ground arith)
  ]
]
