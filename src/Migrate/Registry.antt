-- ===== src/Migrate/Registry.antt =====
-- internal/migrate: migration.go, migrate.go and registry.go, the migrations and their registry.
-- `D` is the type of a database's states, which a precondition's check reads.
pub mod Built
use sshpilot_vallete.Prelude.{
  precedes, ℕ, Bool, true, false, not, ◌&&◌, ◌||◌, Option, none, some, List, [], ◌∷◌, ◌++◌, Bytes,
  codes, ◌=ᵇ◌, Err, Result, ok, err, ◌>>=◌, leb, ltb, ◌==◌, if◌then◌else◌, invalid_registry,
}
use sshpilot_vallete.Prelude.Assoc
use sshpilot_vallete.Prelude.Assoc.{Assoc}

-- An engine is a string: a ledger row may hold any.
abbrev pub Engine : Type 0
Engine = Bytes

abbrev pub engine_sqlite : Engine
engine_sqlite = codes "sqlite"

abbrev pub engine_postgres : Engine
engine_postgres = codes "postgres"

unfoldable pub valid : Engine → Bool
valid e = e =ᵇ engine_sqlite || e =ᵇ engine_postgres

pub record Steps : Type 0 where
  pub sqlite : List Bytes
  pub postgres : List Bytes

unfoldable pub for_engine : Steps → Engine → List Bytes
for_engine s e =
    if e =ᵇ engine_sqlite then s.sqlite else if e =ᵇ engine_postgres then s.postgres else []

-- The check may use the transaction, so it returns the transaction's next state.
pub record Precondition (D : Type 0) : Type 0 where
  pub description : Bytes
  pub check : Engine → D → Option Err × D

pub record Migration (D : Type 0) : Type 0 where
  pub id : Bytes
  pub name : Bytes
  pub requires : List Bytes
  pub preconditions : List (Precondition D)
  pub up : Steps
  pub down : Steps
  pub destructive : Bool
  pub irreversible_reason : Bytes

is_digit : ℕ → Bool
is_digit c = leb 48 c && leb c 57

-- idPattern: exactly four decimal digits.
unfoldable pub matches_id : Bytes → Bool
unfolding is_digit
matches_id (a ∷ b ∷ c ∷ d ∷ []) = is_digit a && is_digit b && is_digit c && is_digit d
matches_id _ = false

is_empty : List Bytes → Bool
is_empty [] = true
is_empty (x ∷ xs) = false

unfoldable pub empty_steps : Steps → Bool
unfolding is_empty
empty_steps s = is_empty s.sqlite || is_empty s.postgres

module _ {D : Type 0} where
  -- The descriptions of the preconditions are all filled.
  unfoldable pub described : List (Precondition D) → Bool
  described [] = true
  described (p ∷ ps) = not (p.description =ᵇ []) && described ps

  unfoldable pub knows : Assoc (Migration D) → Bytes → Bool
  knows by_id req = elim (Assoc.get req by_id) [ none ↦ false | some _ ↦ true ]

  -- Every requirement is a migration that stands earlier.
  unfoldable pub knows_all : Assoc (Migration D) → List Bytes → Bool
  unfolding knows
  knows_all by_id [] = true
  knows_all by_id (req ∷ reqs) = knows by_id req && knows_all by_id reqs

  -- The tests on one migration, after those that were accepted: `prev` is the last of them, if any.
  unfoldable pub admissible : Assoc (Migration D) → Option Bytes → Migration D → Bool
  unfolding matches_id knows described knows_all empty_steps
  admissible by_id prev m =
      matches_id m.id
      && not (knows by_id m.id)
      && elim prev [ none ↦ true | some p ↦ precedes p m.id ]
      && not (m.name =ᵇ [])
      && not (empty_steps m.up)
      && not (m.irreversible_reason =ᵇ [] && empty_steps m.down)
      && described m.preconditions
      && knows_all by_id m.requires

pub record Registry (D : Type 0) : Type 0 where
  pub ordered : List (Migration D)
  pub by_id : Assoc (Migration D)

module _ {D : Type 0} where
  unfoldable pub register :
      List (Migration D)
      → List (Migration D)
      → Assoc (Migration D)
      → Option Bytes
      → Result (Registry D)
  register [] ordered by_id prev = ok (record { ordered = ordered; by_id = by_id })
  register (m ∷ ms) ordered by_id prev =
      let rest = register ms (ordered ++ (m ∷ [])) (Assoc.put m.id m by_id) (some m.id) in
      if admissible by_id prev m then rest else err invalid_registry

  -- Values are not shared here, so the defensive copies of the source are the values themselves.
  unfoldable pub new_registry : List (Migration D) → Result (Registry D)
  new_registry ms = register ms [] [] none

  unfoldable pub all : Registry D → List (Migration D)
  all r = r.ordered

  unfoldable pub get : Registry D → Bytes → Option (Migration D)
  get r id = Assoc.get id r.by_id
