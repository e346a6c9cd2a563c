-- ===== src/Storage/Changes/Kept.antt =====
-- refreshcred.go: what the changes of the table of credentials preserve.
use sshpilot_vallete.Prelude.{
  ◌<◌, ◌≡◌, refl, sym, ap, subst, ◌∙◌, inl, inr, Bool, true, false, ◌&&◌, none, some, List, [], ◌∷◌,
  Bytes, ◌=ᵇ◌, =ᵇ_iff, =ᵇ_refl, if◌then◌else◌, arith, All, Bool-cases,
}
use sshpilot_vallete.Auth.Denylist.{RefreshCredential}
use sshpilot_vallete.Storage.Table.{
  update, count, first, at_key, at_key-insert, at_key-update, count-insert, count-update-le,
  insert-All, update-All, map-All, at_key-All,
}
use sshpilot_vallete.Storage.Credentials.{
  is_active, is_owned, by_id, rotate_row, revoke_row, rotate_rows,
}
use sshpilot_vallete.Storage.Changes.{
  add, Change, unchanged, begun, turned, burned, withdrawn, IsRooted, active_in, IsSound,
  IsSound-IsRooted, IsSound-single, IsSpent,
}

-- An insert moves no row away from its key.
by_id-add :
    (c r : RefreshCredential) (id : Bytes) (rows : List RefreshCredential)
    → by_id rows c.id ≡ none
    → by_id rows id ≡ some r
    → by_id (add c rows) id ≡ some r
by_id-add c r id rows free h =
    ground (arith, at_key-insert (λ x. x.id) id c rows free, =ᵇ_iff c.id id)

by_id-update :
    (matches : RefreshCredential → Bool) (change : RefreshCredential → RefreshCredential)
    (id : Bytes) (rows : List RefreshCredential) (c : RefreshCredential)
    → ((r : RefreshCredential) → (change r).id ≡ r.id)
    → by_id rows id ≡ some c
    → by_id (update matches change rows) id ≡ some (if matches c then change c else c)
by_id-update matches change id rows c keeps h =
    ground (arith, at_key-update (λ x. x.id) matches change id rows keeps)

add-IsSpent :
    (c : RefreshCredential) (id : Bytes) (rows : List RefreshCredential)
    → by_id rows c.id ≡ none
    → IsSpent id rows
    → IsSpent id (add c rows)
add-IsSpent c id rows free (x, at, spent) = (x, by_id-add c x id rows free at, spent)

module _ (matches : RefreshCredential → Bool) (change : RefreshCredential → RefreshCredential)
    (keeps : (r : RefreshCredential)
      → ((change r).id ≡ r.id)
        × ((change r).lineage_id ≡ r.lineage_id)
        × ((change r).owner_id ≡ r.owner_id)
        × ((change r).expires_at ≡ r.expires_at))
    (quenches : (r : RefreshCredential) → is_active (change r).status ≡ false) where
  update-IsSpent :
      (id : Bytes) (rows : List RefreshCredential)
      → IsSpent id rows
      → IsSpent id (update matches change rows)
  update-IsSpent id rows (c, at, spent) = (
    if matches c then change c else c,
    by_id-update matches change id rows c (λ r. (keeps r).0) at,
    elim (Bool-cases (matches c)) [ inl e ↦ ground (arith, quenches c) | inr e ↦ ground arith ],
  )

  update-IsRooted :
      (rows : List RefreshCredential) (r : RefreshCredential)
      → IsRooted rows r
      → IsRooted (update matches change rows) r
  update-IsRooted rows r (root, at, own, ends) = (
    if matches root then change root else root,
    by_id-update matches change r.lineage_id rows root (λ x. (keeps x).0) at,
    elim (Bool-cases (matches root)) [ inl e ↦ ground (arith, keeps root) | inr e ↦ ground arith ],
    elim (Bool-cases (matches root)) [ inl e ↦ ground (arith, keeps root) | inr e ↦ ground arith ],
  )

  update-IsSound :
      (rows : List RefreshCredential) → IsSound rows → IsSound (update matches change rows)
  unfolding IsSound active_in
  update-IsSound rows (rooted, single) = (
    update-All (IsRooted (update matches change rows)) matches change rows
        (λ r h. ground (arith, keeps r))
        (map-All (IsRooted rows) (IsRooted (update matches change rows)) rows (update-IsRooted rows)
          rooted),
    λ lineage. omega (
      arith,
      single lineage,
      count-update-le (λ r. r.lineage_id =ᵇ lineage && is_active r.status) matches change rows
          (λ r h. ground (arith, quenches r)),
    ),
  )

-- A lineage without a root has no credential.
active_in-IsRooted :
    (lineage : Bytes) (all rows : List RefreshCredential)
    → by_id all lineage ≡ none
    → All (IsRooted all) rows
    → active_in lineage rows ≡ 0
unfolding active_in count
active_in-IsRooted lineage all [] free h = refl
active_in-IsRooted lineage all (r ∷ rs) free ((root, at, own, ends), h) =
    ground (arith, active_in-IsRooted lineage all rs free h, =ᵇ_iff r.lineage_id lineage)

add-IsSound :
    (c : RefreshCredential) (rows : List RefreshCredential)
    → by_id rows c.id ≡ none
    → IsRooted (add c rows) c
    → active_in c.lineage_id rows ≡ 0
    → IsSound rows
    → IsSound (add c rows)
unfolding IsSound active_in
add-IsSound c rows free own idle (rooted, single) = (
  insert-All (IsRooted (add c rows)) (λ r. r.id) c rows own
      (map-All (IsRooted rows) (IsRooted (add c rows)) rows
        (λ r (root, at, own, ends). (root, by_id-add c root r.lineage_id rows free at, own, ends))
        rooted),
  λ lineage. ground (
    arith,
    single lineage,
    idle,
    =ᵇ_iff c.lineage_id lineage,
    count-insert (λ r. r.id) (λ r. r.lineage_id =ᵇ lineage && is_active r.status) c rows,
  ),
)

add-at :
    (c : RefreshCredential) (rows : List RefreshCredential)
    → by_id rows c.id ≡ none
    → by_id (add c rows) c.id ≡ some c
add-at c rows free = ground (arith, at_key-insert (λ x. x.id) c.id c rows free, =ᵇ_refl c.id)

-- Rotating an active credential away leaves one active credential less in its lineage.
active_in-rotate_rows :
    (cred : RefreshCredential) (rows : List RefreshCredential)
    → by_id rows cred.id ≡ some cred
    → is_active cred.status ≡ true
    → active_in cred.lineage_id (rotate_rows cred.owner_id cred.id rows)
      < active_in cred.lineage_id rows
unfolding active_in count update at_key first
active_in-rotate_rows cred [] at live = ground arith
active_in-rotate_rows cred (r ∷ rs) at live = elim (Bool-cases (r.id =ᵇ cred.id)) [
  | inl e ↦
      let same : r ≡ cred = ground arith in
      ground (
        arith,
        same,
        =ᵇ_refl cred.id,
        =ᵇ_refl cred.owner_id,
        =ᵇ_refl cred.lineage_id,
        count-update-le (λ x. x.lineage_id =ᵇ cred.lineage_id && is_active x.status)
            (λ x. is_owned cred.owner_id cred.id x && is_active x.status) rotate_row rs
            (λ x h. ground arith),
      )
  | inr e ↦ ground (arith, active_in-rotate_rows cred rs)
]

rotate_rows-free :
    (owner id k : Bytes) (rows : List RefreshCredential)
    → by_id rows k ≡ none
    → by_id (rotate_rows owner id rows) k ≡ none
rotate_rows-free owner id k rows h = ground (
  arith,
  at_key-update (λ x. x.id) (λ r. is_owned owner id r && is_active r.status) rotate_row k rows
      (λ r. refl),
)

turned-IsSound :
    (cred child : RefreshCredential) (rows : List RefreshCredential)
    → by_id rows cred.id ≡ some cred
    → is_active cred.status ≡ true
    → by_id rows child.id ≡ none
    → (child.lineage_id ≡ cred.lineage_id)
      × (child.owner_id ≡ cred.owner_id)
      × (child.expires_at ≡ cred.expires_at)
    → IsSound rows
    → IsSound (add child (rotate_rows cred.owner_id cred.id rows))
turned-IsSound cred child rows at live free (lin, own, ends) h =
    let rows1 : List RefreshCredential = rotate_rows cred.owner_id cred.id rows in
    let free1 = rotate_rows-free cred.owner_id cred.id child.id rows free in
    let (root, root_at, root_own, root_ends) =
      update-IsRooted _ rotate_row (λ r. (refl, refl, refl, refl)) (λ r. refl) rows cred
        (at_key-All (IsRooted rows) (λ x. x.id) cred.id cred rows at (IsSound-IsRooted rows h)) in
    add-IsSound child rows1 free1
      (
        root,
        by_id-add child root child.lineage_id rows1 free1 (ap (by_id rows1) lin ∙ root_at),
        root_own ∙ sym own,
        root_ends ∙ sym ends,
      )
      (ground
        (arith, active_in-rotate_rows cred rows at live, IsSound-single rows h cred.lineage_id))
      (update-IsSound _ rotate_row (λ r. (refl, refl, refl, refl)) (λ r. refl) rows h)

-- A turned credential is spent.
pub turned-IsSpent :
    (cred child : RefreshCredential) (rows : List RefreshCredential)
    → by_id rows cred.id ≡ some cred
    → is_active cred.status ≡ true
    → by_id rows child.id ≡ none
    → IsSpent cred.id (add child (rotate_rows cred.owner_id cred.id rows))
turned-IsSpent cred child rows at live free =
    add-IsSpent child cred.id _ (rotate_rows-free cred.owner_id cred.id child.id rows free) (
      rotate_row cred,
      by_id-update (λ r. is_owned cred.owner_id cred.id r && is_active r.status) rotate_row cred.id
            rows cred (λ r. refl) at
          ∙ rw (=ᵇ_refl cred.id, =ᵇ_refl cred.owner_id, live) refl,
      refl,
    )

pub Change-IsSpent :
    (id : Bytes) (rows rows' : List RefreshCredential)
    → Change rows rows'
    → IsSpent id rows
    → IsSpent id rows'
Change-IsSpent id rows rows' (unchanged e) h = subst (IsSpent id) (sym e) h
Change-IsSpent id rows rows' (begun c free root e) h =
    subst (IsSpent id) (sym e) (add-IsSpent c id rows free h)
Change-IsSpent id rows rows' (turned cred child at live free same e) h =
    subst (IsSpent id) (sym e) (
      add-IsSpent child id _ (rotate_rows-free cred.owner_id cred.id child.id rows free)
        (update-IsSpent _ rotate_row (λ r. (refl, refl, refl, refl)) (λ r. refl) id rows h))
Change-IsSpent id rows rows' (burned owner lineage now e) h =
    subst (IsSpent id) (sym e)
      (update-IsSpent _ (revoke_row now) (λ r. (refl, refl, refl, refl)) (λ r. refl) id rows h)
Change-IsSpent id rows rows' (withdrawn owner k now e) h =
    subst (IsSpent id) (sym e)
      (update-IsSpent _ (revoke_row now) (λ r. (refl, refl, refl, refl)) (λ r. refl) id rows h)

pub Change-IsSound :
    (rows rows' : List RefreshCredential) → Change rows rows' → IsSound rows → IsSound rows'
Change-IsSound rows rows' (unchanged e) h = subst IsSound (sym e) h
Change-IsSound rows rows' (begun c free root e) h = subst IsSound (sym e) (
    add-IsSound c rows free (c, ap (by_id (add c rows)) root ∙ add-at c rows free, refl, refl)
      (active_in-IsRooted c.lineage_id rows rows (ap (by_id rows) root ∙ free)
        (IsSound-IsRooted rows h))
      h)
Change-IsSound rows rows' (turned cred child at live free same e) h =
    subst IsSound (sym e) (turned-IsSound cred child rows at live free same h)
Change-IsSound rows rows' (burned owner lineage now e) h =
    subst IsSound (sym e)
      (update-IsSound _ (revoke_row now) (λ r. (refl, refl, refl, refl)) (λ r. refl) rows h)
Change-IsSound rows rows' (withdrawn owner k now e) h =
    subst IsSound (sym e)
      (update-IsSound _ (revoke_row now) (λ r. (refl, refl, refl, refl)) (λ r. refl) rows h)
