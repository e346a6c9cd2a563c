-- ===== src/Auth/Scopes.antt =====
-- internal/domain/scope.go, and ValidateScopes of internal/auth/token.go.
pub mod Shape
use sshpilot_vallete.Prelude.{
  ℕ, ◌+◌, Bool, true, false, ◌&&◌, ◌||◌, not, Option, none, some, List, [], ◌∷◌, Bytes, ◌=ᵇ◌, Err,
  ltb, length, if◌then◌else◌, invalid_input,
}

-- A string type: its four constants, and any other text.
pub data ScopeKind : Type 0 where
  full_owner : ScopeKind
  read_only : ScopeKind
  single_set : ScopeKind
  single_device : ScopeKind
  unknown : Bytes → ScopeKind

abbrev pub is_valid : ScopeKind → Bool
is_valid (unknown _) = false
is_valid _ = true

abbrev pub binds_resource : ScopeKind → Bool
binds_resource single_set = true
binds_resource single_device = true
binds_resource _ = false

abbrev pub is_read_only : ScopeKind → Bool
is_read_only read_only = true
is_read_only _ = false

abbrev pub is_full_owner : ScopeKind → Bool
is_full_owner full_owner = true
is_full_owner _ = false

-- == of two kinds
unfoldable pub kind_eq : ScopeKind → ScopeKind → Bool
kind_eq full_owner full_owner = true
kind_eq read_only read_only = true
kind_eq single_set single_set = true
kind_eq single_device single_device = true
kind_eq (unknown a) (unknown b) = a =ᵇ b
kind_eq _ _ = false

pub record Scope : Type 0 where
  pub kind : ScopeKind
  pub resource_id : Bytes

-- == of two scopes, as the keys of a map
unfoldable pub scope_eq : Scope → Scope → Bool
unfolding kind_eq
scope_eq a b = kind_eq a.kind b.kind && a.resource_id =ᵇ b.resource_id

-- `Validate`: no error, or one of the class ErrInvalidInput.
unfoldable pub validate : Scope → Option Err
validate s =
    if not (is_valid s.kind)
    then some invalid_input
    else if binds_resource s.kind && s.resource_id =ᵇ []
    then some invalid_input
    else if not (binds_resource s.kind) && not (s.resource_id =ᵇ [])
    then some invalid_input
    else none

abbrev pub max_scopes : ℕ
max_scopes = 32

-- Whether the map `seen` has the key.
unfoldable pub seen_before : Scope → List Scope → Bool
unfolding scope_eq
seen_before s [] = false
seen_before s (x ∷ xs) = scope_eq x s || seen_before s xs

-- The loop of `ValidateScopes` over a set of `n` scopes, with the map and the counter so far.
unfoldable pub validate_each : ℕ → List Scope → ℕ → List Scope → Option Err
validate_each n seen bindings [] = if ltb 1 bindings then some invalid_input else none
validate_each n seen bindings (s ∷ rest) =
    let later =
      validate_each n (s ∷ seen) (if binds_resource s.kind then bindings + 1 else bindings) rest in
    elim (validate s) [
      | some e ↦ some e
      | none ↦
          if seen_before s seen
          then some invalid_input
          else if is_full_owner s.kind && ltb 1 n
          then some invalid_input
          else later
    ]

unfoldable pub validate_scopes : List Scope → Option Err
unfolding validate_each
validate_scopes [] = some invalid_input
validate_scopes scopes =
    if ltb max_scopes (length scopes)
    then some invalid_input
    else validate_each (length scopes) [] 0 scopes
