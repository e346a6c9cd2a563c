-- ===== src/Storage/Statements.antt =====
-- Each statement that enrollment runs, as a step of the tables.
use sshpilot_vallete.Prelude.{
  ℕ, zero, suc, ◌≡◌, refl, sym, subst, ◌⊎◌, inl, inr, Bool, true, not, ◌||◌, Option, none, some,
  Option-cases, List, [], Bytes, ◌=ᵇ◌, =ᵇ_iff, ◌==◌, Result, Result-cases, Bool-cases, ok, err,
  if◌then◌else◌, arith, &&-true,
}
use sshpilot_vallete.Prelude.Word.{Time}
use sshpilot_vallete.Storage.Table.{
  update, count, insert, at_key-insert, at_key-update, insert-All, map-All, update-All_to,
}
use sshpilot_vallete.Storage.Db.{Tables, Db, DevicePairing, LinkedIdentity, call, call-cases}
use sshpilot_vallete.Storage.Credentials.{list_by_lineage, revoke_lineage, owner_get}
use sshpilot_vallete.Storage.Credentials.Cases.{
  owner_get-cases, revoke_lineage-cases, list_by_lineage-cases,
}
use sshpilot_vallete.Storage.Changes.{burned}
use sshpilot_vallete.Storage.Pairings.{
  is_pending, pairing_at, create_pairing_in, create_pairing, pairing_in, pairing_by_id,
  user_code_in, pairing_by_user_code, owned_pairing_in, owned_pairing, classify, update_pairings_in,
  is_to_approve, approve_row, approve_pairing, is_to_redeem, redeem_row, mark_redeemed,
  is_to_revoke, revoke_pairing_row, revoke_pairing, touch_row, has_id, touch_in, touch, is_link_of,
  link_in, create_link, link_of_in, link_by_subject,
}
use sshpilot_vallete.Storage.Steps.{
  done, IsLater, IsLater-refl, IsKept, IsKept-refl, IsKeyed, IsStep, IsStep-refl, IsStep-trans,
  IsStep-same, Change-IsStep,
}

ℕ-cases : (n : ℕ) → (n ≡ 0) ⊎ ((m : ℕ) × (n ≡ suc m))
ℕ-cases zero = inl refl
ℕ-cases (suc m) = inr (m, refl)

-- A statement is a step if its work is.
call-IsStep :
    {A : Type 0} (f : Tables → Result A × Tables) (d : Db)
    → IsStep d.tables (f d.tables).1
    → IsStep d.tables (call f d).1.tables
call-IsStep f d h = elim (call-cases f d) [
  | inl (e, s) ↦ IsStep-same d.tables _ s
  | inr (e, s) ↦ subst (IsStep d.tables) (sym s) h
]

-- A query changes nothing.
pub pairing_by_id-IsStep : (id : Bytes) (d : Db) → IsStep d.tables (pairing_by_id id d).1.tables
unfolding pairing_by_id
pairing_by_id-IsStep id d = call-IsStep (pairing_in id) d (IsStep-refl d.tables)

pub pairing_by_user_code-IsStep :
    (hash : Bytes) (d : Db) → IsStep d.tables (pairing_by_user_code hash d).1.tables
unfolding pairing_by_user_code
pairing_by_user_code-IsStep hash d = elim (Bool-cases (hash =ᵇ [])) [
  | inl e ↦ rw e (IsStep-refl d.tables)
  | inr e ↦ rw e (call-IsStep (user_code_in hash) d (IsStep-refl d.tables))
]

pub owned_pairing-IsStep :
    (owner id : Bytes) (d : Db) → IsStep d.tables (owned_pairing owner id d).1.tables
unfolding owned_pairing
owned_pairing-IsStep owner id d = call-IsStep (owned_pairing_in owner id) d (IsStep-refl d.tables)

pub link_by_subject-IsStep :
    (provider subject : Bytes) (d : Db)
    → IsStep d.tables (link_by_subject provider subject d).1.tables
unfolding link_by_subject
link_by_subject-IsStep provider subject d =
    call-IsStep (link_of_in provider subject) d (IsStep-refl d.tables)

pub owner_get-IsStep : (id : Bytes) (d : Db) → IsStep d.tables (owner_get id d).1.tables
owner_get-IsStep id d = IsStep-same d.tables _ (owner_get-cases id d).0

pub list_by_lineage-IsStep :
    (owner lineage : Bytes) (d : Db) → IsStep d.tables (list_by_lineage owner lineage d).1.tables
list_by_lineage-IsStep owner lineage d =
    IsStep-same d.tables _ (list_by_lineage-cases owner lineage d).0

-- Statements of the other tables leave the pairings and the credentials alone.
linked-IsStep : (t : Tables) (links : List LinkedIdentity) → IsStep t (record t { links = links })
linked-IsStep t links = record {
  credentials_change = done;
  pairings_kept = λ id. IsKept-refl (pairing_at t.pairings id);
  pairings_keyed = λ h. h;
  owners_same = refl;
}

pub create_link-IsStep : (l : LinkedIdentity) (d : Db) → IsStep d.tables (create_link l d).1.tables
unfolding create_link
create_link-IsStep l d =
    call-IsStep (link_in l) d
      (elim (Bool-cases (
        not (count (λ r. r.id =ᵇ l.id || is_link_of l.provider l.subject r) d.tables.links == 0))) [
          | inl e ↦ rw e (IsStep-refl d.tables)
          | inr e ↦ rw e (linked-IsStep d.tables (insert (λ r. r.id) l d.tables.links))
        ])

pub revoke_lineage-IsStep :
    (owner lineage : Bytes) (now : Time) (d : Db)
    → IsStep d.tables (revoke_lineage owner lineage now d).1.tables
revoke_lineage-IsStep owner lineage now d = elim (revoke_lineage-cases owner lineage now d) [
  | inl (e, s) ↦ IsStep-same d.tables _ s
  | inr (e, s) ↦
      subst (IsStep d.tables) (sym s)
        (Change-IsStep d.tables _ (burned owner lineage now refl) refl refl)
]

pairings-IsStep :
    (t : Tables) (ps : List DevicePairing)
    → ((id : Bytes) → IsKept (pairing_at t.pairings id) (pairing_at ps id))
    → (IsKeyed t.pairings → IsKeyed ps)
    → IsStep t (record t { pairings = ps })
pairings-IsStep t ps h k = record {
  credentials_change = done;
  pairings_kept = h;
  pairings_keyed = k;
  owners_same = refl;
}

IsKept-intro :
    (o o' : Option DevicePairing)
    → ((p : DevicePairing) → o ≡ some p → (q : DevicePairing) × (o' ≡ some q) × IsLater p q)
    → IsKept o o'
IsKept-intro none o' h = tt
IsKept-intro (some p) o' h = h p refl

inserted-IsKept :
    (p : DevicePairing) (id : Bytes) (ps : List DevicePairing)
    → pairing_at ps p.id ≡ none
    → IsKept (pairing_at ps id) (pairing_at (insert (λ r. r.id) p ps) id)
inserted-IsKept p id ps free = IsKept-intro _ _ (λ q e.
    (q, ground (arith, at_key-insert (λ r. r.id) id p ps free, =ᵇ_iff p.id id), IsLater-refl q))

insert-IsKeyed :
    (p : DevicePairing) (ps : List DevicePairing)
    → pairing_at ps p.id ≡ none
    → IsKeyed ps
    → IsKeyed (insert (λ r. r.id) p ps)
insert-IsKeyed p ps free h =
    insert-All (λ r. pairing_at (insert (λ x. x.id) p ps) r.id ≡ some r) (λ r. r.id) p ps
      (ground (arith, at_key-insert (λ r. r.id) p.id p ps free, =ᵇ_iff p.id p.id))
      (map-All (λ r. pairing_at ps r.id ≡ some r)
        (λ r. pairing_at (insert (λ x. x.id) p ps) r.id ≡ some r) ps
        (λ r e. ground (arith, at_key-insert (λ x. x.id) r.id p ps free, =ᵇ_iff p.id r.id)) h)

update-IsKeyed :
    (matches : DevicePairing → Bool) (change : DevicePairing → DevicePairing)
    (ps : List DevicePairing)
    → ((p : DevicePairing) → (change p).id ≡ p.id)
    → IsKeyed ps
    → IsKeyed (update matches change ps)
update-IsKeyed matches change ps keeps h =
    update-All_to (λ r. pairing_at ps r.id ≡ some r)
      (λ r. pairing_at (update matches change ps) r.id ≡ some r) matches change ps
      (λ r e. ground (arith, at_key-update (λ x. x.id) matches change r.id ps keeps, keeps r)) h

pub create_pairing-IsStep :
    (p : DevicePairing) (d : Db) → IsStep d.tables (create_pairing p d).1.tables
unfolding create_pairing
create_pairing-IsStep p d =
    call-IsStep (create_pairing_in p) d (elim (Option-cases (pairing_at d.tables.pairings p.id)) [
      | inr (x, e) ↦ rw (create_pairing_in, e) (IsStep-refl d.tables)
      | inl e ↦
          rw (create_pairing_in, e)
            (pairings-IsStep d.tables _ (λ id. inserted-IsKept p id d.tables.pairings e)
              (insert-IsKeyed p d.tables.pairings e))
    ])

-- An UPDATE moves each row that it matches to a later one.
updated-IsKept :
    (matches : DevicePairing → Bool) (change : DevicePairing → DevicePairing) (id : Bytes)
    (ps : List DevicePairing)
    → ((p : DevicePairing) → (change p).id ≡ p.id)
    → ((p : DevicePairing) → matches p ≡ true → IsLater p (change p))
    → IsKept (pairing_at ps id) (pairing_at (update matches change ps) id)
updated-IsKept matches change id ps keeps later = IsKept-intro _ _ (λ q e. (
  if matches q then change q else q,
  ground (arith, at_key-update (λ r. r.id) matches change id ps keeps),
  elim (Bool-cases (matches q)) [ inl m ↦ rw m (later q m) | inr m ↦ rw m (IsLater-refl q) ],
))

classify-IsStep :
    (query : Db → Result DevicePairing × Db) (x : Result ℕ × Db)
    → ((d : Db) → IsStep d.tables (query d).1.tables)
    → IsStep x.1.tables (classify query x).1.tables
unfolding classify
classify-IsStep query (err e, d) h = IsStep-refl d.tables
classify-IsStep query (ok (suc n), d) h = IsStep-refl d.tables
classify-IsStep query (ok zero, d) h = elim (Result-cases (query d).0) [
  | inl (p, e) ↦ rw (classify, e) (h d)
  | inr (x, e) ↦ rw (classify, e) (h d)
]

updated-IsStep :
    (matches : DevicePairing → Bool) (change : DevicePairing → DevicePairing)
    (query : Db → Result DevicePairing × Db) (d : Db)
    → ((p : DevicePairing) → (change p).id ≡ p.id)
    → ((p : DevicePairing) → matches p ≡ true → IsLater p (change p))
    → ((b : Db) → IsStep b.tables (query b).1.tables)
    → IsStep d.tables (classify query (call (update_pairings_in matches change) d)).1.tables
updated-IsStep matches change query d keeps later h =
    IsStep-trans _ _ _
      (call-IsStep (update_pairings_in matches change) d (
        pairings-IsStep d.tables _
          (λ id. updated-IsKept matches change id d.tables.pairings keeps later)
          (update-IsKeyed matches change d.tables.pairings keeps)))
      (classify-IsStep query (call (update_pairings_in matches change) d) h)

pub approve_pairing-IsStep :
    (id owner : Bytes) (now : Time) (d : Db)
    → IsStep d.tables (approve_pairing id owner now d).1.tables
unfolding approve_pairing
approve_pairing-IsStep id owner now d =
    updated-IsStep (is_to_approve id) (approve_row owner now) (pairing_by_id id) d (λ p. refl)
      (λ p m. (
        (refl, refl, refl, refl),
        inl (&&-true (p.id =ᵇ id) (is_pending p.status) m).1,
        inl ground arith,
      ))
      (pairing_by_id-IsStep id)

pub mark_redeemed-IsStep :
    (owner id lineage : Bytes) (now : Time) (d : Db)
    → IsStep d.tables (mark_redeemed owner id lineage now d).1.tables
unfolding mark_redeemed
mark_redeemed-IsStep owner id lineage now d =
    updated-IsStep (is_to_redeem owner id) (redeem_row lineage now) (owned_pairing owner id) d
      (λ p. refl) (λ p m. ((refl, refl, refl, refl), inr (refl, refl), inl (ground arith)))
      (owned_pairing-IsStep owner id)

pub revoke_pairing-IsStep :
    (owner id : Bytes) (now : Time) (d : Db)
    → IsStep d.tables (revoke_pairing owner id now d).1.tables
unfolding revoke_pairing
revoke_pairing-IsStep owner id now d =
    updated-IsStep (is_to_revoke owner id) (revoke_pairing_row now) (owned_pairing owner id) d
      (λ p. refl)
      (λ p m. (
        (refl, refl, refl, refl),
        elim (Bool-cases (is_pending p.status)) [ inl e ↦ inl e | inr e ↦ inr (refl, refl) ],
        inl (ground arith),
      ))
      (owned_pairing-IsStep owner id)

pub touch-IsStep : (id : Bytes) (at : Time) (d : Db) → IsStep d.tables (touch id at d).1.tables
unfolding touch
touch-IsStep id at d =
    call-IsStep (touch_in id at) d (elim (ℕ-cases (count (has_id id) d.tables.pairings)) [
      | inl e ↦ rw (touch_in, e) (IsStep-refl d.tables)
      | inr (n, e) ↦
          rw (touch_in, e)
            (pairings-IsStep d.tables _
              (λ k.
                updated-IsKept (has_id id) (touch_row at) k d.tables.pairings (λ p. refl)
                  (λ p m. ((refl, refl, refl, refl), (IsLater-refl p).1, (IsLater-refl p).2)))
              (update-IsKeyed (has_id id) (touch_row at) d.tables.pairings (λ p. refl)))
    ])
