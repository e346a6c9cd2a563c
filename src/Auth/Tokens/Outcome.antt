-- ===== src/Auth/Tokens/Outcome.antt =====
-- tokenservice.go: what each branch of an exchange leaves in the tables.
use sshpilot_vallete.Prelude.{
  ℕ, ◌<◌, ◌≡◌, refl, ◌⊎◌, inl, inr, true, ◌&&◌, Option, none, some, Option-cases, List, [], ltb,
  Err, Result, Result-cases, Bool-cases, ok, err, is_conflict, arith,
}
use sshpilot_vallete.Prelude.Word.{Time}
use sshpilot_vallete.Auth.Denylist.{RefreshCredential}
use sshpilot_vallete.Auth.Scopes.{validate_scopes}
use sshpilot_vallete.Auth.Tokens.{
  Fresh, Issued, Crypto, child_of, mint, burn, read_back, created_child, consumed, redeem,
}
use sshpilot_vallete.Storage.Db.{Tables, Db}
use sshpilot_vallete.Storage.Table.{insert, select, update-at_key}
use sshpilot_vallete.Storage.Credentials.Cases.{
  create-cases, revoke_lineage-cases, list_by_lineage-cases, mark_rotated-cases,
}
use sshpilot_vallete.Storage.Credentials.{
  is_active, is_owned, rotate_row, by_id, is_in_lineage, rotate_rows, revoke_rows, revoke_lineage,
  mark_rotated, create,
}

-- Nothing issued, nothing changed, nothing to list.
abbrev pub IsDenied : Tables → Tables → Option Issued → List RefreshCredential → Type 0
IsDenied t t' out dead = (t' ≡ t) × (out ≡ none) × (dead ≡ [])

-- Nothing issued, and every row of the credential's lineage is revoked; they are to be listed unless
-- they could not be read back.
abbrev pub IsBurned :
    RefreshCredential → Time → Tables → Tables → Option Issued → List RefreshCredential → Type 0
IsBurned cred now t t' out dead =
    (t' ≡ record t { credentials = revoke_rows cred.owner_id cred.lineage_id now t.credentials })
    × (out ≡ none)
    × ((dead ≡ []) ⊎ (dead ≡ select (is_in_lineage cred.owner_id cred.lineage_id) t'.credentials))

module _ (crypto : Crypto) where
  read_back-ok :
      (cred : RefreshCredential) (x : Result ℕ × Db) (n : ℕ) (out : Option Issued)
      (dead : List RefreshCredential)
      → x.0 ≡ ok n
      → (read_back crypto cred x).0 ≡ ok (out, dead)
      → ((read_back crypto cred x).1.tables ≡ x.1.tables)
        × (out ≡ none)
        × ((dead ≡ [])
            ⊎ (dead ≡ select (is_in_lineage cred.owner_id cred.lineage_id) x.1.tables.credentials))
  unfolding read_back
  read_back-ok cred (err e, d) n out dead g h = ground arith
  read_back-ok cred (ok m, d) n out dead g h =
      let (s, answers) = list_by_lineage-cases cred.owner_id cred.lineage_id d in
      elim answers [ inl (x, e) ↦ ground arith | inr e ↦ ground arith ]

  burn-ok :
      (cred : RefreshCredential) (now : Time) (d : Db) (out : Option Issued)
      (dead : List RefreshCredential)
      → (burn crypto cred now d).0 ≡ ok (out, dead)
      → IsBurned cred now d.tables (burn crypto cred now d).1.tables out dead
  unfolding burn
  burn-ok cred now d out dead h = elim (revoke_lineage-cases cred.owner_id cred.lineage_id now d) [
    | inl ((x, e), s) ↦ ground arith
    | inr ((n, e), s) ↦
        let (same, none_out, listed) =
          read_back-ok cred (revoke_lineage cred.owner_id cred.lineage_id now d) n out dead e h in
        ground arith
  ]

-- A child is inserted behind its parent, which is rotated away.
abbrev pub IsTurned :
    Crypto
    → RefreshCredential
    → Fresh
    → Time
    → Tables
    → Tables
    → Option Issued
    → List RefreshCredential
    → Type 0
IsTurned crypto cred fresh now t t' out dead =
    (by_id t.credentials fresh.credential_id ≡ none)
    × (t' ≡ record t {
      credentials =
          insert (λ r. r.id) (child_of crypto cred fresh now)
            (rotate_rows cred.owner_id cred.id t.credentials);
    })
    × ((i : Issued) × (out ≡ some i)
        × (mint crypto (child_of crypto cred fresh now) fresh now ≡ ok i))
    × (dead ≡ [])

module _ (crypto : Crypto) (fresh : Fresh) (now : Time) where
  created_child-ok :
      (child : RefreshCredential) (x : Result (Unit {0}) × Db) (out : Option Issued)
      (dead : List RefreshCredential)
      → (created_child crypto child fresh now x).0 ≡ ok (out, dead)
      → ((created_child crypto child fresh now x).1.tables ≡ x.1.tables)
        × (x.0 ≡ ok tt)
        × ((i : Issued) × (out ≡ some i) × (mint crypto child fresh now ≡ ok i))
        × (dead ≡ [])
  unfolding created_child
  created_child-ok child (err e, d) out dead h = ground arith
  created_child-ok child (ok u, d) out dead h = elim (Result-cases (mint crypto child fresh now)) [
    | inr (x, e) ↦ ground arith
    | inl (i, e) ↦ (ground arith, refl, (i, ground arith, ground arith), ground arith)
  ]

  IsTurned-ok :
      (cred : RefreshCredential) (d : Db) (out : Option Issued) (dead : List RefreshCredential)
      → (mark_rotated cred.owner_id cred.id d).0 ≡ ok tt
      → (mark_rotated cred.owner_id cred.id d).1.tables
        ≡ record d.tables { credentials = rotate_rows cred.owner_id cred.id d.tables.credentials }
      → (consumed crypto cred fresh now (mark_rotated cred.owner_id cred.id d)).0 ≡ ok (out, dead)
      → IsTurned crypto cred fresh now d.tables
          (consumed crypto cred fresh now (mark_rotated cred.owner_id cred.id d)).1.tables
          out
          dead
  unfolding consumed
  IsTurned-ok cred d out dead e s h =
      let d' = (mark_rotated cred.owner_id cred.id d).1 in
      let (same, made, issued, nothing) =
        created_child-ok (child_of crypto cred fresh now)
          (create (child_of crypto cred fresh now) d') out dead (ground arith) in
      elim (create-cases (child_of crypto cred fresh now) d') [
        | inl ((x, g), u) ↦ ground arith
        | inr (n, g, u) ↦ (
          update-at_key (λ r. r.id) (λ r. is_owned cred.owner_id cred.id r && is_active r.status)
              rotate_row fresh.credential_id d.tables.credentials (λ r. refl) (ground arith),
          ground arith,
          issued,
          nothing,
        )
      ]

  -- The loser of a race, whose UPDATE found no active row.
  lost_race-ok :
      (cred : RefreshCredential) (x : Result (Unit {0}) × Db) (t : Tables) (e : Err)
      (out : Option Issued) (dead : List RefreshCredential)
      → x.0 ≡ err e
      → x.1.tables ≡ t
      → (consumed crypto cred fresh now x).0 ≡ ok (out, dead)
      → IsBurned cred now t (consumed crypto cred fresh now x).1.tables out dead
  unfolding consumed
  lost_race-ok cred (ok u, d) t e out dead g s h = ground arith
  lost_race-ok cred (err f, d) t e out dead g s h = elim (Bool-cases (is_conflict f)) [
    | inr c ↦ ground arith
    | inl c ↦ ground (arith, burn-ok crypto cred now d out dead)
  ]

  consumed-ok :
      (cred : RefreshCredential) (d : Db) (out : Option Issued) (dead : List RefreshCredential)
      → (consumed crypto cred fresh now (mark_rotated cred.owner_id cred.id d)).0 ≡ ok (out, dead)
      → IsBurned cred now d.tables
          (consumed crypto cred fresh now (mark_rotated cred.owner_id cred.id d)).1.tables
          out
          dead
        ⊎ IsTurned crypto cred fresh now d.tables
            (consumed crypto cred fresh now (mark_rotated cred.owner_id cred.id d)).1.tables
            out
            dead
  consumed-ok cred d out dead h = elim (mark_rotated-cases cred.owner_id cred.id d) [
    | inr (e, s) ↦ inr (IsTurned-ok cred d out dead e s h)
    | inl ((x, e), s) ↦
        inl (lost_race-ok cred (mark_rotated cred.owner_id cred.id d) d.tables x out dead e s h)
  ]

  pub redeem-ok :
      (cred : RefreshCredential) (d : Db) (out : Option Issued) (dead : List RefreshCredential)
      → (redeem crypto cred fresh now d).0 ≡ ok (out, dead)
      → (IsDenied d.tables (redeem crypto cred fresh now d).1.tables out dead)
        ⊎ (IsBurned cred now d.tables (redeem crypto cred fresh now d).1.tables out dead)
        ⊎ ((is_active cred.status ≡ true)
            × (now < cred.expires_at)
            × IsTurned crypto cred fresh now d.tables
                (redeem crypto cred fresh now d).1.tables
                out
                dead)
  unfolding redeem
  redeem-ok cred d out dead h = elim (Bool-cases (is_active cred.status)) [
    | inr spent ↦ inr (inl (ground (arith, burn-ok crypto cred now d out dead)))
    | inl live ↦ elim (Bool-cases (ltb now cred.expires_at)) [
      | inr late ↦ inl (ground arith)
      | inl soon ↦ elim (Option-cases (validate_scopes cred.scopes)) [
        | inr (x, bad) ↦ inl (ground arith)
        | inl fine ↦ elim (consumed-ok cred d out dead (ground arith)) [
          | inl b ↦ inr (inl (ground arith))
          | inr t ↦ inr (inr (live, ground arith, ground arith))
        ]
      ]
    ]
  ]
