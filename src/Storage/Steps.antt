-- ===== src/Storage/Steps.antt =====
-- What one statement can do to the tables: credentials by the changes of their table, pairings one
-- way only, and nothing to the owners.
use sshpilot_vallete.Prelude.{
  ◌≡◌, refl, sym, ap, subst, ◌∙◌, ◌⊎◌, inl, inr, Bool, true, false, ◌||◌, Option, none, some, List,
  Bytes, Bool-cases, arith, All,
}
use sshpilot_vallete.Auth.Denylist.{RefreshCredential}
use sshpilot_vallete.Storage.Db.{Tables, PairingStatus, DevicePairing}
use sshpilot_vallete.Storage.Changes.{Change, IsSound, IsSpent}
use sshpilot_vallete.Storage.Changes.Kept.{Change-IsSound, Change-IsSpent}
use sshpilot_vallete.Storage.Pairings.{is_pending, is_approved, pairing_at}

-- The changes that lead to `rows'`, one after the other.
pub data Changes (rows' : List RefreshCredential) : List RefreshCredential → Type 0 where
  done : Changes rows' rows'
  next :
      (rows between : List RefreshCredential)
      → Change rows between
      → Changes rows' between
      → Changes rows' rows

Changes-append : (b c a : List RefreshCredential) → Changes b a → Changes c b → Changes c a
Changes-append b c a done h = h
Changes-append b c a (next _ m x xs) h = next a m x (Changes-append b c m xs h)

pub Changes-IsSound : (b a : List RefreshCredential) → Changes b a → IsSound a → IsSound b
Changes-IsSound b a done h = h
Changes-IsSound b a (next _ m x xs) h = Changes-IsSound b m xs (Change-IsSound a m x h)

pub Changes-IsSpent :
    (id : Bytes) (b a : List RefreshCredential) → Changes b a → IsSpent id a → IsSpent id b
Changes-IsSpent id b a done h = h
Changes-IsSpent id b a (next _ m x xs) h = Changes-IsSpent id b m xs (Change-IsSpent id a m x h)

-- Redeemed and revoked are the ends.
abbrev pub is_open : PairingStatus → Bool
is_open s = is_pending s || is_approved s

-- A pairing and the same pairing later: what it was asked for stands, its owner is settled once it is
-- not pending any more, and so are its status and its lineage once it is at an end.
abbrev pub IsLater : DevicePairing → DevicePairing → Type 0
IsLater p q =
    ((q.id ≡ p.id)
      × (q.device_code_hash ≡ p.device_code_hash)
      × (q.scopes ≡ p.scopes)
      × (q.expires_at ≡ p.expires_at))
    × ((is_pending p.status ≡ true) ⊎ ((is_pending q.status ≡ false) × (q.owner_id ≡ p.owner_id)))
    × ((is_open p.status ≡ true) ⊎ ((q.status ≡ p.status) × (q.lineage_id ≡ p.lineage_id)))

pub IsLater-refl : (p : DevicePairing) → IsLater p p
IsLater-refl p = (
  (refl, refl, refl, refl),
  elim (Bool-cases (is_pending p.status)) [ inl e ↦ inl e | inr e ↦ inr (e, refl) ],
  elim (Bool-cases (is_open p.status)) [ inl e ↦ inl e | inr e ↦ inr (refl, refl) ],
)

pub IsLater-trans : (p q r : DevicePairing) → IsLater p q → IsLater q r → IsLater p r
IsLater-trans p q r ((a, b, c, d), own, end) ((a', b', c', d'), own', end') = (
  (a' ∙ a, b' ∙ b, c' ∙ c, d' ∙ d),
  elim own [
    | inl e ↦ inl e
    | inr (e, f) ↦ elim own' [ inl g ↦ ground arith | inr (g, h) ↦ inr (g, h ∙ f) ]
  ],
  elim end [
    | inl e ↦ inl e
    | inr (e, f) ↦ elim end' [
      | inl g ↦ inl (ap is_open (sym e) ∙ g)
      | inr (g, h) ↦ inr (g ∙ e, h ∙ f)
    ]
  ],
)

-- The rows under one identifier, before and after: a row stays, and is later.
abbrev pub IsKept : Option DevicePairing → Option DevicePairing → Type 0
IsKept none q = Unit
IsKept (some p) q = (r : DevicePairing) × (q ≡ some r) × IsLater p r

pub IsKept-refl : (o : Option DevicePairing) → IsKept o o
IsKept-refl none = tt
IsKept-refl (some p) = (p, refl, IsLater-refl p)

IsKept-trans : (a b c : Option DevicePairing) → IsKept a b → IsKept b c → IsKept a c
IsKept-trans none b c h k = tt
IsKept-trans (some p) none c (q, e, l) k = ground arith
IsKept-trans (some p) (some q) c (q', e, l) (r, f, l') =
    (r, f, IsLater-trans p q r (ground arith) l')

-- The identifier is the key: every row is the one under its own.
abbrev pub IsKeyed : List DevicePairing → Type 0
IsKeyed ps = All (λ p. pairing_at ps p.id ≡ some p) ps

pub record IsStep (t t' : Tables) : Type 0 where
  pub credentials_change : Changes t'.credentials t.credentials
  pub pairings_kept : (id : Bytes) → IsKept (pairing_at t.pairings id) (pairing_at t'.pairings id)
  pub pairings_keyed : IsKeyed t.pairings → IsKeyed t'.pairings
  pub owners_same : t'.owners ≡ t.owners

pub IsStep-refl : (t : Tables) → IsStep t t
IsStep-refl t = record {
  credentials_change = done;
  pairings_kept = λ id. IsKept-refl (pairing_at t.pairings id);
  pairings_keyed = λ h. h;
  owners_same = refl;
}

pub IsStep-trans : (a b c : Tables) → IsStep a b → IsStep b c → IsStep a c
IsStep-trans a b c h k = record {
  credentials_change =
      Changes-append b.credentials c.credentials a.credentials h.credentials_change
        k.credentials_change;
  pairings_kept = λ id. IsKept-trans _ _ _ (h.pairings_kept id) (k.pairings_kept id);
  pairings_keyed = λ x. k.pairings_keyed (h.pairings_keyed x);
  owners_same = k.owners_same ∙ h.owners_same;
}

pub IsStep-same : (t t' : Tables) → t' ≡ t → IsStep t t'
IsStep-same t t' e = subst (IsStep t) (sym e) (IsStep-refl t)

pub Change-IsStep :
    (t t' : Tables)
    → Change t.credentials t'.credentials
    → t'.pairings ≡ t.pairings
    → t'.owners ≡ t.owners
    → IsStep t t'
Change-IsStep t t' c p o = record {
  credentials_change = next _ _ c done;
  pairings_kept = λ id.
      subst (λ x. IsKept (pairing_at t.pairings id) (pairing_at x id)) (sym p)
        (IsKept-refl (pairing_at t.pairings id));
  pairings_keyed = subst IsKeyed (sym p);
  owners_same = o;
}
