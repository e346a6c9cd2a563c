-- ===== src/Storage/Changes.antt =====
-- refreshcred.go: the changes that the services make to the table of refresh credentials, as a step
-- relation.
pub mod Kept
use sshpilot_vallete.Prelude.{
  ℕ, ◌≤◌, ◌<◌, ◌≡◌, refl, sym, ap, subst, ◌∙◌, inl, inr, Bool, true, false, ◌&&◌, none, some, List,
  [], ◌∷◌, Bytes, ◌=ᵇ◌, =ᵇ_iff, =ᵇ_refl, if◌then◌else◌, arith, All, Bool-cases,
}
use sshpilot_vallete.Prelude.Word.{Time}
use sshpilot_vallete.Auth.Denylist.{RefreshCredential}
use sshpilot_vallete.Storage.Table.{
  update, count, first, insert, at_key, at_key-insert, at_key-update, count-insert, count-update-le,
  insert-All, update-All, map-All, at_key-All,
}
use sshpilot_vallete.Storage.Credentials.{
  is_active, is_owned, by_id, rotate_row, revoke_row, rotate_rows, revoke_rows,
}

abbrev pub add : RefreshCredential → List RefreshCredential → List RefreshCredential
add = insert (λ r. r.id)

-- A lineage is begun at its root, turned from a credential to its child, or burned; or one
-- credential is withdrawn.
pub data Change (rows rows' : List RefreshCredential) : Type 0 where
  unchanged : rows' ≡ rows → Change rows rows'
  begun :
      (c : RefreshCredential)
      → by_id rows c.id ≡ none
      → c.lineage_id ≡ c.id
      → rows' ≡ add c rows
      → Change rows rows'
  turned :
      (cred child : RefreshCredential)
      → by_id rows cred.id ≡ some cred
      → is_active cred.status ≡ true
      → by_id rows child.id ≡ none
      → (child.lineage_id ≡ cred.lineage_id)
        × (child.owner_id ≡ cred.owner_id)
        × (child.expires_at ≡ cred.expires_at)
      → rows' ≡ add child (rotate_rows cred.owner_id cred.id rows)
      → Change rows rows'
  burned :
      (owner lineage : Bytes) (now : Time)
      → rows' ≡ revoke_rows owner lineage now rows
      → Change rows rows'
  withdrawn :
      (owner id : Bytes) (now : Time)
      → rows' ≡ update (is_owned owner id) (revoke_row now) rows
      → Change rows rows'

-- The row is of a lineage whose root is there, of the same owner and with the same end.
abbrev pub IsRooted : List RefreshCredential → RefreshCredential → Type 0
IsRooted rows r =
    (root : RefreshCredential) × (by_id rows r.lineage_id ≡ some root)
    × (root.owner_id ≡ r.owner_id)
    × (root.expires_at ≡ r.expires_at)

-- How many credentials of a lineage are active.
unfoldable pub active_in : Bytes → List RefreshCredential → ℕ
unfolding count
active_in lineage rows = count (λ r. r.lineage_id =ᵇ lineage && is_active r.status) rows

-- What the table promises: lineages have their roots, and one active credential at most.
unfoldable pub IsSound : List RefreshCredential → Type 0
unfolding active_in
IsSound rows = All (IsRooted rows) rows × ((lineage : Bytes) → active_in lineage rows ≤ 1)

pub IsSound-IsRooted : (rows : List RefreshCredential) → IsSound rows → All (IsRooted rows) rows
unfolding IsSound
IsSound-IsRooted rows h = h.0

pub IsSound-single :
    (rows : List RefreshCredential) → IsSound rows → (lineage : Bytes) → active_in lineage rows ≤ 1
unfolding IsSound
IsSound-single rows h = h.1

-- The credential of an identifier has been used up or withdrawn.
abbrev pub IsSpent : Bytes → List RefreshCredential → Type 0
IsSpent id rows = (c : RefreshCredential) × (by_id rows id ≡ some c) × (is_active c.status ≡ false)
