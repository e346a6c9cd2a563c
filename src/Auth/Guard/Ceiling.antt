-- ===== src/Auth/Guard/Ceiling.antt =====
-- authorization.go: what a scope set permits.
use sshpilot_vallete.Prelude.{
  ℕ, ◌+◌, ◌≡◌, ◌⊎◌, inl, inr, ◌↔◌, refl, Bool, true, false, none, List, [], ◌∷◌, =ᵇ_iff, arith,
  if◌then◌else◌,
}
use sshpilot_vallete.Auth.Scopes.{
  Scope, single_set, single_device, is_read_only, binds_resource, validate, validate_scopes,
}
use sshpilot_vallete.Auth.Scopes.Shape.{IsGrant, validate_scopes-IsGrant}
use sshpilot_vallete.Auth.Guard.{
  Access, ResourceKind, key_set, device, resource_eq, bound_scope_permits, scope_permits, tally,
  permits_access,
}

tally_read_only : (g : ℕ) (ss : List Scope) → (tally true g ss).0 ≡ true
unfolding tally
tally_read_only g [] = refl
tally_read_only g (s ∷ ss) = ground (arith, tally_read_only g ss, tally_read_only (g + 1) ss)

-- A set that holds a read-only scope permits no mutation, whatever else it holds.
abbrev pub holds_read_only : List Scope → Bool
holds_read_only [] = false
holds_read_only (s ∷ ss) = if is_read_only s.kind then true else holds_read_only ss

tally_holds : (g : ℕ) (ss : List Scope) → (tally false g ss).0 ≡ holds_read_only ss
unfolding tally
tally_holds g [] = refl
tally_holds g (s ∷ ss) = ground (arith, tally_holds (g + 1) ss, tally_read_only g ss)

-- No set that holds a read-only scope permits a mutating request, whatever else it holds, and the
-- empty set permits nothing.
pub read_only_ceiling :
    (ss : List Scope) (acc : Access)
    → ((holds_read_only ss ≡ true) × (acc.mutating ≡ true)) ⊎ (ss ≡ [])
    → permits_access ss acc ≡ false
unfolding permits_access
read_only_ceiling ss acc h = ground (arith, tally_holds 0 ss)

-- The request addresses exactly the resource that the scope names.
abbrev pub Addresses : Scope → Access → Type 0
Addresses s acc =
    (((s.kind ≡ single_set) × (acc.resource ≡ key_set))
      ⊎ ((s.kind ≡ single_device) × (acc.resource ≡ device)))
    × (s.resource_id ≡ acc.resource_id)

resource_eq_iff :
    (r : ResourceKind)
    → ((resource_eq r key_set ≡ true) ↔ (r ≡ key_set))
      × ((resource_eq r device ≡ true) ↔ (r ≡ device))
unfolding resource_eq
resource_eq_iff r = ((λ h. ground arith, λ h. ground arith), (λ h. ground arith, λ h. ground arith))

-- A resource binding permits exactly the requests that address its resource.
scope_permits_binding :
    (s : Scope) (acc : Access)
    → validate s ≡ none
    → binds_resource s.kind ≡ true
    → (scope_permits s acc ≡ true) ↔ Addresses s acc
unfolding scope_permits bound_scope_permits validate
scope_permits_binding s acc v b = (
  λ h. ground (arith, resource_eq_iff acc.resource, =ᵇ_iff s.resource_id acc.resource_id),
  λ h. ground (arith, resource_eq_iff acc.resource, =ᵇ_iff s.resource_id acc.resource_id),
)

-- Every restriction of the set is met: a read-only scope by a request that changes nothing, a
-- binding by a request that addresses its resource.
abbrev pub Admits : List Scope → Access → Type 0
Admits [] acc = Unit
Admits (s ∷ ss) acc =
    ((is_read_only s.kind ≡ false) ⊎ (acc.mutating ≡ false))
    × ((binds_resource s.kind ≡ false) ⊎ Addresses s acc)
    × Admits ss acc

roles :
    (s : Scope) (acc : Access)
    → validate s ≡ none
    → (is_read_only s.kind ≡ true)
      ⊎ ((binds_resource s.kind ≡ true)
          ⊎ ((is_read_only s.kind ≡ false) × (scope_permits s acc ≡ true)))
unfolding validate scope_permits
roles s acc v = ground arith

restrict : {P : Type 0} (b : Bool) → (b ≡ true → P) → (b ≡ false) ⊎ P
restrict true f = inr (f refl)
restrict false f = inl refl

unrestrict : {P : Type 0} (b : Bool) → (b ≡ false) ⊎ P → b ≡ true → P
unrestrict b (inl h) t = absurd (ground arith)
unrestrict b (inr p) t = p

permits_one :
    (s : Scope) (acc : Access)
    → validate s ≡ none
    → (permits_access (s ∷ []) acc ≡ true) ↔ Admits (s ∷ []) acc
unfolding permits_access validate
permits_one s acc v = (
  λ h. (
    restrict (is_read_only s.kind) (λ r. ground arith),
    restrict (binds_resource s.kind) (λ b. (scope_permits_binding s acc v b).0 (ground arith)),
    tt,
  ),
  λ h. elim (roles s acc v) [
    | inl ro ↦ ground (arith, unrestrict (is_read_only s.kind) h.0 ro)
    | inr (inl b) ↦
        ground
          (arith, (scope_permits_binding s acc v b).1 (unrestrict (binds_resource s.kind) h.1 b))
    | inr (inr (f, p)) ↦ ground arith
  ],
)

permits_two :
    (a b : Scope) (acc : Access)
    → IsGrant (a ∷ b ∷ [])
    → (permits_access (a ∷ b ∷ []) acc ≡ true) ↔ Admits (a ∷ b ∷ []) acc
unfolding permits_access
permits_two a b acc (va, vb, inl (ra, bb)) = (
  λ h. (
    restrict (is_read_only a.kind) (λ r. ground arith),
    restrict (binds_resource a.kind) (λ c. ground arith),
    (
      restrict (is_read_only b.kind) (λ r. ground arith),
      restrict (binds_resource b.kind) (λ c. (scope_permits_binding b acc vb bb).0 (ground arith)),
      tt,
    ),
  ),
  λ h. ground (
    arith,
    (scope_permits_binding b acc vb bb).1 (unrestrict (binds_resource b.kind) h.2.1 bb),
    unrestrict (is_read_only a.kind) h.0 ra,
  ),
)
permits_two a b acc (va, vb, inr (ba, rb)) = (
  λ h. (
    restrict (is_read_only a.kind) (λ r. ground arith),
    restrict (binds_resource a.kind) (λ c. (scope_permits_binding a acc va ba).0 (ground arith)),
    (
      restrict (is_read_only b.kind) (λ r. ground arith),
      restrict (binds_resource b.kind) (λ c. ground arith),
      tt,
    ),
  ),
  λ h. ground (
    arith,
    (scope_permits_binding a acc va ba).1 (unrestrict (binds_resource a.kind) h.1 ba),
    unrestrict (is_read_only b.kind) h.2.0 rb,
  ),
)

-- On every scope set that can be issued, a request is permitted exactly if it meets every
-- restriction of the set.
pub permits_access-Admits :
    (ss : List Scope) (acc : Access)
    → validate_scopes ss ≡ none
    → (permits_access ss acc ≡ true) ↔ Admits ss acc
permits_access-Admits [] acc h = absurd ((validate_scopes-IsGrant []).0 h)
permits_access-Admits (s ∷ []) acc h = permits_one s acc ((validate_scopes-IsGrant (s ∷ [])).0 h)
permits_access-Admits (a ∷ b ∷ []) acc h =
    permits_two a b acc ((validate_scopes-IsGrant (a ∷ b ∷ [])).0 h)
permits_access-Admits (a ∷ b ∷ c ∷ rest) acc h =
    absurd ((validate_scopes-IsGrant (a ∷ b ∷ c ∷ rest)).0 h)
