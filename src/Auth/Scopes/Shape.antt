-- ===== src/Auth/Scopes/Shape.antt =====
-- token.go: the scope sets that ValidateScopes accepts.
use sshpilot_vallete.Prelude.{
  ℕ, ◌+◌, ◌≤◌, ◌<◌, ◌≡◌, ◌⊎◌, inl, inr, ◌↔◌, refl, ◌&&◌, Bool, true, false, none, List, [], ◌∷◌,
  ◌=ᵇ◌, =ᵇ_iff, arith, length, ltb, if◌then◌else◌,
}
use sshpilot_vallete.Auth.Scopes.{
  read_only, Scope, binds_resource, is_read_only, is_full_owner, validate, seen_before,
  validate_each, validate_scopes,
}

abbrev read_only_scope : Scope
read_only_scope = record { kind = read_only; resource_id = [] }

abbrev one_if : Bool → ℕ
one_if true = 1
one_if false = 0

-- What the loop has found out about a scope that it passes.
accepted_head :
    (n : ℕ) (s : Scope) (ss seen : List Scope) (b : ℕ)
    → validate_each n seen b (s ∷ ss) ≡ none
    → (validate s ≡ none)
      × (seen_before s seen ≡ false)
      × ((is_full_owner s.kind && ltb 1 n) ≡ false)
      × (validate_each n (s ∷ seen) (if binds_resource s.kind then b + 1 else b) ss ≡ none)
unfolding validate_each
accepted_head n s ss seen b e = ground arith

-- A read-only scope that is well-formed is the one read-only scope.
read_only_unique :
    (s : Scope) → validate s ≡ none → is_read_only s.kind ≡ true → s ≡ read_only_scope
unfolding validate
read_only_unique s v r = ground (arith, =ᵇ_iff s.resource_id [])

-- A scope of an accepted set of two or more is read-only or binds a resource.
two_roles :
    (s : Scope) (n : ℕ)
    → 1 < n
    → validate s ≡ none
    → (is_full_owner s.kind && ltb 1 n) ≡ false
    → ((is_read_only s.kind ≡ true) × (binds_resource s.kind ≡ false))
      ⊎ ((is_read_only s.kind ≡ false) × (binds_resource s.kind ≡ true))
unfolding validate
two_roles s n h v f = ground arith

seen_cons_read_only :
    (seen : List Scope) → seen_before read_only_scope (read_only_scope ∷ seen) ≡ true
unfolding seen_before ◌=ᵇ◌
seen_cons_read_only seen = refl

seen_cons_other :
    (s : Scope) (seen : List Scope)
    → is_read_only s.kind ≡ false
    → seen_before read_only_scope (s ∷ seen) ≡ seen_before read_only_scope seen
unfolding seen_before
seen_cons_other s seen h = ground arith

-- What is left of a set of two or more scopes fits beside what was seen: one read-only scope and one
-- resource binding at most.
room_left :
    (n : ℕ) (ss seen : List Scope) (b : ℕ)
    → 1 < n
    → validate_each n seen b ss ≡ none
    → b + length ss + one_if (seen_before read_only_scope seen) ≤ 2
unfolding validate_each
room_left n [] seen b h e = ground arith
room_left n (s ∷ ss) seen b h e =
    let (v, fresh, alone, rest) = accepted_head n s ss seen b e in
    elim (two_roles s n h v alone) [
      | inl (r, f) ↦
          let same = read_only_unique s v r in
          let later =
            room_left n ss (s ∷ seen) (if binds_resource s.kind then b + 1 else b) h rest in
          ground (arith, later, seen_cons_read_only seen, same)
      | inr (r, f) ↦
          let later =
            room_left n ss (s ∷ seen) (if binds_resource s.kind then b + 1 else b) h rest in
          ground (arith, later, seen_cons_other s seen r)
    ]

-- One well-formed scope, or a read-only scope beside a resource binding, in either order.
abbrev pub IsGrant : List Scope → Type 0
IsGrant [] = ⊥
IsGrant (s ∷ []) = validate s ≡ none
IsGrant (a ∷ b ∷ []) =
    (validate a ≡ none)
    × (validate b ≡ none)
    × (((is_read_only a.kind ≡ true) × (binds_resource b.kind ≡ true))
        ⊎ ((binds_resource a.kind ≡ true) × (is_read_only b.kind ≡ true)))
IsGrant (a ∷ b ∷ c ∷ rest) = ⊥

accepted_one : (s : Scope) → (validate_scopes (s ∷ []) ≡ none) ↔ (validate s ≡ none)
unfolding validate_scopes seen_before
accepted_one s = (λ h. ground arith, λ h. ground arith)

two_read_only :
    (a b : Scope)
    → validate a ≡ none
    → validate b ≡ none
    → is_read_only a.kind ≡ true
    → is_read_only b.kind ≡ true
    → seen_before b (a ∷ []) ≡ false
    → ⊥
two_read_only a b va vb ra rb h =
    ground (arith, read_only_unique a va ra, read_only_unique b vb rb, seen_cons_read_only [])

two_bindings :
    (a b : Scope)
    → binds_resource a.kind ≡ true
    → binds_resource b.kind ≡ true
    → validate_each 2
        (b ∷ a ∷ [])
        (if binds_resource b.kind
          then (if binds_resource a.kind then 1 else 0) + 1
          else (if binds_resource a.kind then 1 else 0))
        []
      ≡ none
    → ⊥
unfolding validate_each
two_bindings a b ha hb h = ground arith

accepted_two : (a b : Scope) → validate_scopes (a ∷ b ∷ []) ≡ none → IsGrant (a ∷ b ∷ [])
unfolding validate_scopes
accepted_two a b h =
    let (va, fa, oa, ra) = accepted_head 2 a (b ∷ []) [] 0 h in
    let (vb, fb, ob, rb) =
      accepted_head 2 b [] (a ∷ []) (if binds_resource a.kind then 1 else 0) ra in
    elim (two_roles a 2 (omega arith) va oa) [
      | inl (pa, qa) ↦ elim (two_roles b 2 (omega arith) vb ob) [
        | inl (pb, qb) ↦ absurd (two_read_only a b va vb pa pb fb)
        | inr (pb, qb) ↦ (va, vb, inl (pa, qb))
      ]
      | inr (pa, qa) ↦ elim (two_roles b 2 (omega arith) vb ob) [
        | inl (pb, qb) ↦ (va, vb, inr (qa, pb))
        | inr (pb, qb) ↦ absurd (two_bindings a b qa qb rb)
      ]
    ]

grant_two : (a b : Scope) → IsGrant (a ∷ b ∷ []) → validate_scopes (a ∷ b ∷ []) ≡ none
unfolding validate_scopes seen_before
grant_two a b h = ground arith

accepted_none : validate_scopes [] ≡ none → ⊥
unfolding validate_scopes
accepted_none h = cc

accepted_many : (a b c : Scope) (rest : List Scope) → validate_scopes (a ∷ b ∷ c ∷ rest) ≡ none → ⊥
unfolding validate_scopes seen_before
accepted_many a b c rest h = absurd (
    omega (
      arith,
      room_left (length (a ∷ b ∷ c ∷ rest)) (a ∷ b ∷ c ∷ rest) [] 0 (omega arith) (ground arith),
    ))

-- The sets that `ValidateScopes` accepts are exactly these: one scope that is well-formed, or a
-- read-only scope and one resource binding, both well-formed.
pub validate_scopes-IsGrant : (ss : List Scope) → (validate_scopes ss ≡ none) ↔ IsGrant ss
validate_scopes-IsGrant [] = (λ h. accepted_none h, λ h. elim h [ ])
validate_scopes-IsGrant (s ∷ []) = accepted_one s
validate_scopes-IsGrant (a ∷ b ∷ []) = (accepted_two a b, grant_two a b)
validate_scopes-IsGrant (a ∷ b ∷ c ∷ rest) = (accepted_many a b c rest, λ h. elim h [ ])
