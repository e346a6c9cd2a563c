-- ===== src/Storage/Pairings.antt =====
-- internal/storage/sqlite/pairing.go and linkedidentity.go, as far as enrollment uses them. A row
-- without an owner, and one without a user code, holds NULL in the column: here the empty text.
pub mod Answers
use sshpilot_vallete.Prelude.{
  ℕ, zero, suc, ◌≡◌, Bool, true, false, not, ◌&&◌, ◌||◌, Option, none, some, List, [], ◌∷◌, Bytes,
  ◌=ᵇ◌, ◌==◌, Err, Result, ok, err, failed, not_found, conflict, if◌then◌else◌,
}
use sshpilot_vallete.Prelude.Word.{Time}
use sshpilot_vallete.Storage.Table.{update, count, first, insert, at_key}
use sshpilot_vallete.Storage.Db
use sshpilot_vallete.Storage.Db.{Tables, Db, LinkedIdentity, PairingStatus, DevicePairing, call}
use sshpilot_vallete.Storage.Credentials.{found}

abbrev pub is_pending : PairingStatus → Bool
is_pending Db.pending = true
is_pending _ = false

abbrev pub is_approved : PairingStatus → Bool
is_approved Db.approved = true
is_approved _ = false

abbrev pub pairing_at : List DevicePairing → Bytes → Option DevicePairing
pairing_at ps id = at_key (λ p. p.id) id ps

abbrev pub is_owned_pairing : Bytes → Bytes → DevicePairing → Bool
is_owned_pairing owner id p = p.id =ᵇ id && p.owner_id =ᵇ owner

abbrev pub create_pairing_in : DevicePairing → Tables → Result (Unit {0}) × Tables
create_pairing_in p t = elim (pairing_at t.pairings p.id) [
  | some _ ↦ (err conflict, t)
  | none ↦ (ok tt, record t { pairings = insert (λ r. r.id) p t.pairings })
]

unfoldable pub create_pairing : DevicePairing → Db → Result (Unit {0}) × Db
unfolding call insert
create_pairing p d = call (create_pairing_in p) d

abbrev pub pairing_in : Bytes → Tables → Result DevicePairing × Tables
pairing_in id t = (found (pairing_at t.pairings id), t)

unfoldable pub pairing_by_id : Bytes → Db → Result DevicePairing × Db
unfolding call
pairing_by_id id d = call (pairing_in id) d

-- No statement is run for an empty hash. The column is not unique; a row of those that match.
abbrev pub user_code_in : Bytes → Tables → Result DevicePairing × Tables
user_code_in hash t = (found (first (λ p. p.user_code_hash =ᵇ hash) t.pairings), t)

unfoldable pub pairing_by_user_code : Bytes → Db → Result DevicePairing × Db
unfolding call first
pairing_by_user_code hash d = if hash =ᵇ [] then (err not_found, d) else call (user_code_in hash) d

abbrev pub owned_pairing_in : Bytes → Bytes → Tables → Result DevicePairing × Tables
owned_pairing_in owner id t = (found (first (is_owned_pairing owner id) t.pairings), t)

unfoldable pub owned_pairing : Bytes → Bytes → Db → Result DevicePairing × Db
unfolding call first
owned_pairing owner id d = call (owned_pairing_in owner id) d

-- classifyByID and classifyByOwner: the rows affected, or what the query for the row says.
unfoldable pub classify : (Db → Result DevicePairing × Db) → Result ℕ × Db → Result (Unit {0}) × Db
classify query (err e, d) = (err e, d)
classify query (ok (suc n), d) = (ok tt, d)
classify query (ok zero, d) =
    let (r, d') = query d in elim r [ ok _ ↦ (err conflict, d') | err e ↦ (err e, d') ]

-- An UPDATE of the pairings, and the number of rows that it matched.
abbrev pub update_pairings_in :
    (DevicePairing → Bool) → (DevicePairing → DevicePairing) → Tables → Result ℕ × Tables
update_pairings_in matches change t =
    (ok (count matches t.pairings), record t { pairings = update matches change t.pairings })

abbrev pub is_to_approve : Bytes → DevicePairing → Bool
is_to_approve id p = p.id =ᵇ id && is_pending p.status

abbrev pub approve_row : Bytes → Time → DevicePairing → DevicePairing
approve_row owner now p = record p {
  status = Db.approved;
  owner_id = owner;
  approved_at = some now;
}

unfoldable pub approve_pairing : Bytes → Bytes → Time → Db → Result (Unit {0}) × Db
unfolding classify pairing_by_id call count update
approve_pairing id owner now d =
    classify (pairing_by_id id)
      (call (update_pairings_in (is_to_approve id) (approve_row owner now)) d)

abbrev pub is_to_redeem : Bytes → Bytes → DevicePairing → Bool
is_to_redeem owner id p = is_owned_pairing owner id p && is_approved p.status

abbrev pub redeem_row : Bytes → Time → DevicePairing → DevicePairing
redeem_row lineage now p = record p {
  status = Db.redeemed;
  lineage_id = lineage;
  redeemed_at = some now;
}

unfoldable pub mark_redeemed : Bytes → Bytes → Bytes → Time → Db → Result (Unit {0}) × Db
unfolding classify owned_pairing call count update
mark_redeemed owner id lineage now d =
    classify (owned_pairing owner id)
      (call (update_pairings_in (is_to_redeem owner id) (redeem_row lineage now)) d)

abbrev pub is_to_revoke : Bytes → Bytes → DevicePairing → Bool
is_to_revoke owner id p =
    is_owned_pairing owner id p && (is_pending p.status || is_approved p.status)

abbrev pub revoke_pairing_row : Time → DevicePairing → DevicePairing
revoke_pairing_row now p = record p { status = Db.revoked; revoked_at = some now }

unfoldable pub revoke_pairing : Bytes → Bytes → Time → Db → Result (Unit {0}) × Db
unfolding classify owned_pairing call count update
revoke_pairing owner id now d =
    classify (owned_pairing owner id)
      (call (update_pairings_in (is_to_revoke owner id) (revoke_pairing_row now)) d)

abbrev pub touch_row : Time → DevicePairing → DevicePairing
touch_row next p = record p { next_poll_at = next }

abbrev pub has_id : Bytes → DevicePairing → Bool
has_id id p = p.id =ᵇ id

-- No row is not found.
abbrev pub touch_in : Bytes → Time → Tables → Result (Unit {0}) × Tables
touch_in id next t = elim (count (has_id id) t.pairings) [
  | zero ↦ (err not_found, t)
  | suc _ ↦ (ok tt, record t { pairings = update (has_id id) (touch_row next) t.pairings })
]

unfoldable pub touch : Bytes → Time → Db → Result (Unit {0}) × Db
unfolding call count update
touch id next d = call (touch_in id next) d

abbrev pub is_link_of : Bytes → Bytes → LinkedIdentity → Bool
is_link_of provider subject l = l.provider =ᵇ provider && l.subject =ᵇ subject

-- The identifier is the primary key, and (provider, subject) a unique index.
abbrev pub link_in : LinkedIdentity → Tables → Result (Unit {0}) × Tables
link_in l t =
    if not (count (λ r. r.id =ᵇ l.id || is_link_of l.provider l.subject r) t.links == 0)
    then (err conflict, t)
    else (ok tt, record t { links = insert (λ r. r.id) l t.links })

unfoldable pub create_link : LinkedIdentity → Db → Result (Unit {0}) × Db
unfolding call insert count
create_link l d = call (link_in l) d

abbrev pub link_of_in : Bytes → Bytes → Tables → Result LinkedIdentity × Tables
link_of_in provider subject t = (found (first (is_link_of provider subject) t.links), t)

unfoldable pub link_by_subject : Bytes → Bytes → Db → Result LinkedIdentity × Db
unfolding call first
link_by_subject provider subject d = call (link_of_in provider subject) d
