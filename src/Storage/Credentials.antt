-- ===== src/Storage/Credentials.antt =====
-- internal/storage/sqlite/refreshcred.go, owner.go's Get and linkedidentity.go, as far as they are used.
pub mod Cases
use sshpilot_vallete.Prelude.{
  ℕ, zero, suc, ◌+◌, ◌≡◌, Bool, true, false, not, ◌&&◌, Option, none, some, List, [], ◌∷◌, Bytes,
  ◌=ᵇ◌, Err, Result, ok, err, failed, not_found, conflict, if◌then◌else◌,
}
use sshpilot_vallete.Prelude.Word.{Time}
use sshpilot_vallete.Auth.Denylist.{CredentialStatus, RefreshCredential, rotated, revoked, expired}
use sshpilot_vallete.Auth.Denylist
use sshpilot_vallete.Storage.Table.{update, count, first, select, insert, at_key}
use sshpilot_vallete.Storage.Db.{Tables, Db, Owner, LinkedIdentity, call}

abbrev pub is_active : CredentialStatus → Bool
is_active Denylist.active = true
is_active _ = false

abbrev pub is_revoked : CredentialStatus → Bool
is_revoked revoked = true
is_revoked _ = false

-- A row, or the sentinel of a query without one.
abbrev pub found {ℓ} : {R : Type ℓ} → Option R → Result R
found none = err not_found
found (some r) = ok r

abbrev pub by_id : List RefreshCredential → Bytes → Option RefreshCredential
by_id rs id = at_key (λ c. c.id) id rs

-- An INSERT of a row whose primary key is taken is a conflict.
abbrev pub create_in : RefreshCredential → Tables → Result (Unit {0}) × Tables
create_in c t = elim (by_id t.credentials c.id) [
  | some _ ↦ (err conflict, t)
  | none ↦ (ok tt, record t { credentials = insert (λ r. r.id) c t.credentials })
]

unfoldable pub create : RefreshCredential → Db → Result (Unit {0}) × Db
unfolding call insert
create c d = call (create_in c) d

abbrev pub get_in : Bytes → Tables → Result RefreshCredential × Tables
get_in id t = (found (by_id t.credentials id), t)

unfoldable pub get_by_id : Bytes → Db → Result RefreshCredential × Db
unfolding call
get_by_id id d = call (get_in id) d

-- WHERE id = ? AND owner_id = ?
abbrev pub is_owned : Bytes → Bytes → RefreshCredential → Bool
is_owned owner id r = r.id =ᵇ id && r.owner_id =ᵇ owner

abbrev pub is_in_lineage : Bytes → Bytes → RefreshCredential → Bool
is_in_lineage owner lineage r = r.owner_id =ᵇ owner && r.lineage_id =ᵇ lineage

abbrev pub get_owned_in : Bytes → Bytes → Tables → Result RefreshCredential × Tables
get_owned_in owner id t = (found (first (is_owned owner id) t.credentials), t)

unfoldable pub get_owned : Bytes → Bytes → Db → Result RefreshCredential × Db
unfolding call first
get_owned owner id d = call (get_owned_in owner id) d

abbrev pub list_in : Bytes → Bytes → Tables → Result (List RefreshCredential) × Tables
list_in owner lineage t = (ok (select (is_in_lineage owner lineage) t.credentials), t)

unfoldable pub list_by_lineage : Bytes → Bytes → Db → Result (List RefreshCredential) × Db
unfolding call select
list_by_lineage owner lineage d = call (list_in owner lineage) d

abbrev pub rotate_row : RefreshCredential → RefreshCredential
rotate_row r = record r { status = rotated }

abbrev pub revoke_row : Time → RefreshCredential → RefreshCredential
revoke_row now r = record r { status = revoked; revoked_at = some now }

-- The UPDATE of MarkRotated on the rows.
abbrev pub rotate_rows : Bytes → Bytes → List RefreshCredential → List RefreshCredential
rotate_rows owner id = update (λ r. is_owned owner id r && is_active r.status) rotate_row

-- The UPDATE of RevokeLineage on the rows.
abbrev pub revoke_rows : Bytes → Bytes → Time → List RefreshCredential → List RefreshCredential
revoke_rows owner lineage now =
    update (λ r. is_in_lineage owner lineage r && not (is_revoked r.status)) (revoke_row now)

-- classifyConditional: the rows affected, or what the owner's own row says.
unfoldable pub classify_conditional : Bytes → Bytes → Result ℕ × Db → Result (Unit {0}) × Db
unfolding get_owned
classify_conditional owner id (err e, d) = (err e, d)
classify_conditional owner id (ok (suc n), d) = (ok tt, d)
classify_conditional owner id (ok zero, d) =
    let (r, d') = get_owned owner id d in elim r [ ok _ ↦ (err conflict, d') | err e ↦ (err e, d') ]

abbrev pub mark_in : Bytes → Bytes → Tables → Result ℕ × Tables
mark_in owner id t = (
  ok (count (λ r. is_owned owner id r && is_active r.status) t.credentials),
  record t { credentials = rotate_rows owner id t.credentials },
)

unfoldable pub mark_rotated : Bytes → Bytes → Db → Result (Unit {0}) × Db
unfolding classify_conditional call count update
mark_rotated owner id d = classify_conditional owner id (call (mark_in owner id) d)

abbrev pub revoke_in : Bytes → Bytes → Time → Tables → Result ℕ × Tables
revoke_in owner lineage now t = (
  ok (count (λ r. is_in_lineage owner lineage r && not (is_revoked r.status)) t.credentials),
  record t { credentials = revoke_rows owner lineage now t.credentials },
)

unfoldable pub revoke_lineage : Bytes → Bytes → Time → Db → Result ℕ × Db
unfolding call count update
revoke_lineage owner lineage now d = call (revoke_in owner lineage now) d

-- Revoke moves any row of the owner; no row is not found.
abbrev pub revoke_one_in : Bytes → Bytes → Time → Tables → Result (Unit {0}) × Tables
revoke_one_in owner id now t = elim (count (is_owned owner id) t.credentials) [
  | zero ↦ (err not_found, t)
  | suc _ ↦
      (ok tt, record t { credentials = update (is_owned owner id) (revoke_row now) t.credentials })
]

unfoldable pub revoke_one : Bytes → Bytes → Time → Db → Result (Unit {0}) × Db
unfolding call count update
revoke_one owner id now d = call (revoke_one_in owner id now) d

abbrev pub owner_in : Bytes → Tables → Result Owner × Tables
owner_in id t = (found (at_key (λ o. o.id) id t.owners), t)

unfoldable pub owner_get : Bytes → Db → Result Owner × Db
unfolding call
owner_get id d = call (owner_in id) d
