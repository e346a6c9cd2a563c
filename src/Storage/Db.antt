-- ===== src/Storage/Db.antt =====
-- The tables, the faults of the engine, and store.go's WithTx.
use sshpilot_vallete.Prelude.{
  ◌≡◌, ◌⊎◌, inl, inr, Bool, false, Option, List, [], ◌∷◌, Bytes, Err, Result, Result-cases,
  Bool-cases, ok, err, failed, if◌then◌else◌, arith,
}
use sshpilot_vallete.Prelude.Word.{Time}
use sshpilot_vallete.Auth.Scopes.{Scope}
use sshpilot_vallete.Auth.Denylist.{RefreshCredential}

-- domain.OwnerStatus and domain.Owner
pub data OwnerStatus : Type 0 where
  active suspended deleted : OwnerStatus

pub record Owner : Type 0 where
  pub id : Bytes
  pub status : OwnerStatus
  pub created_at : Time
  pub updated_at : Time
  pub deleted_at : Option Time

-- domain.LinkedIdentity
pub record LinkedIdentity : Type 0 where
  pub id : Bytes
  pub owner_id : Bytes
  pub provider : Bytes
  pub subject : Bytes
  pub email : Option Bytes
  pub created_at : Time
  pub updated_at : Time

-- domain.PairingStatus and domain.DevicePairing
pub data PairingStatus : Type 0 where
  pending approved redeemed revoked : PairingStatus

pub record DevicePairing : Type 0 where
  pub id : Bytes
  pub owner_id : Bytes
  pub device_code_hash : Bytes
  pub user_code_hash : Bytes
  pub client_label : Bytes
  pub scopes : List Scope
  pub status : PairingStatus
  pub lineage_id : Bytes
  pub next_poll_at : Time
  pub created_at : Time
  pub expires_at : Time
  pub approved_at : Option Time
  pub redeemed_at : Option Time
  pub revoked_at : Option Time

pub record Tables : Type 0 where
  pub owners : List Owner
  pub links : List LinkedIdentity
  pub credentials : List RefreshCredential
  pub pairings : List DevicePairing

-- The database, and which of the next statements the engine refuses; it refuses none after the list.
pub record Db : Type 0 where
  pub tables : Tables
  pub faults : List Bool

-- Whether the engine refuses the next statement, and the database after the answer.
unfoldable pub charge : Db → Bool × Db
charge d = elim d.faults [
  | [] ↦ (false, d)
  | fault ∷ faults ↦ (fault, record { tables = d.tables; faults = faults })
]

pub charge-tables : (d : Db) → (charge d).1.tables ≡ d.tables
unfolding charge
charge-tables d = ground arith

module _ {A : Type 0} where
  -- One statement: a fault of the engine changes nothing.
  unfoldable pub call : (Tables → Result A × Tables) → Db → Result A × Db
  unfolding charge
  call f d =
      let (fault, d') = charge d in
      if fault
      then (err failed, d')
      else ((f d.tables).0, record { tables = (f d.tables).1; faults = d'.faults })

  -- COMMIT of a body that returned no error, and a rollback otherwise. A COMMIT can be refused too.
  unfoldable pub commit_tx : Tables → Result A × Db → Result A × Db
  unfolding charge
  commit_tx before (err e, d) = (err e, record { tables = before; faults = d.faults })
  commit_tx before (ok a, d) =
      let (fault, d') = charge d in
      if fault then (err failed, record { tables = before; faults = d'.faults }) else (ok a, d')

  -- `WithTx`
  unfoldable pub with_tx : (Db → Result A × Db) → Db → Result A × Db
  unfolding charge commit_tx
  with_tx body d =
      let (fault, d') = charge d in if fault then (err failed, d') else commit_tx d.tables (body d')

  -- A statement is refused and changes nothing, or does its work.
  pub call-cases :
      (f : Tables → Result A × Tables) (d : Db)
      → (((call f d).0 ≡ err failed) × ((call f d).1.tables ≡ d.tables))
        ⊎ (((call f d).0 ≡ (f d.tables).0) × ((call f d).1.tables ≡ (f d.tables).1))
  unfolding call
  call-cases f d = elim (Bool-cases (charge d).0) [
    | inl e ↦ inl (ground (arith, charge-tables d))
    | inr e ↦ inr (ground arith)
  ]

  -- A transaction that reports an error changed nothing, and one that does not is its body.
  pub with_tx-cases :
      (body : Db → Result A × Db) (d : Db)
      → (((e : Err) × ((with_tx body d).0 ≡ err e)) × ((with_tx body d).1.tables ≡ d.tables))
        ⊎ ((b : Db) × (b.tables ≡ d.tables)
            × ((a : A) × ((body b).0 ≡ ok a) × ((with_tx body d).0 ≡ ok a))
            × ((with_tx body d).1.tables ≡ (body b).1.tables))
  unfolding with_tx
  with_tx-cases body d = elim (Bool-cases (charge d).0) [
    | inl e ↦ inl ((failed, ground arith), ground (arith, charge-tables d))
    | inr e ↦ elim (Result-cases (body (charge d).1).0) [
      | inr (x, r) ↦ inl ((x, ground arith), ground arith)
      | inl (a, r) ↦ elim (Bool-cases (charge (body (charge d).1).1).0) [
        | inl c ↦ inl ((failed, ground arith), ground arith)
        | inr c ↦ inr (
          (charge d).1,
          charge-tables d,
          (a, r, ground arith),
          ground (arith, charge-tables (body (charge d).1).1),
        )
      ]
    ]
  ]
