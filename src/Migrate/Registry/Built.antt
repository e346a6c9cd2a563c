-- ===== src/Migrate/Registry/Built.antt =====
-- registry.go: what holds of every registry that NewRegistry returns.
use sshpilot_vallete.Prelude.{
  precedes, ◌≡◌, refl, true, Option, none, some, List, [], ◌∷◌, ◌++◌, append-nil, append_assoc,
  Bytes, =ᵇ_iff, =ᵇ_refl, ok, arith, All,
}
use sshpilot_vallete.Prelude.Assoc
use sshpilot_vallete.Prelude.Assoc.{Assoc, get-put}
use sshpilot_vallete.Migrate.Registry.{
  Migration, Registry, admissible, register, new_registry, get, knows, knows_all,
}
use sshpilot_vallete.Migrate.Runner.{mem_id, all_in, check_dependencies}

module _ {D : Type 0} where
  -- The ids ascend strictly, from above `prev` on.
  abbrev pub IsAscending : Option Bytes → List (Migration D) → Type 0
  IsAscending prev [] = Unit
  IsAscending none (m ∷ ms) = IsAscending (some m.id) ms
  IsAscending (some p) (m ∷ ms) = (precedes p m.id ≡ true) × IsAscending (some m.id) ms

  register-ordered :
      (ms ordered : List (Migration D)) (by_id : Assoc (Migration D)) (prev : Option Bytes)
      (r : Registry D)
      → register ms ordered by_id prev ≡ ok r
      → r.ordered ≡ ordered ++ ms
  unfolding register
  register-ordered [] ordered by_id prev r h = ground (arith, append-nil ordered)
  register-ordered (m ∷ ms) ordered by_id prev r h = ground (
    arith,
    register-ordered ms (ordered ++ (m ∷ [])) (Assoc.put m.id m by_id) (some m.id) r,
    append_assoc ordered (m ∷ []) ms,
  )

  register-IsAscending :
      (ms ordered : List (Migration D)) (by_id : Assoc (Migration D)) (prev : Option Bytes)
      (r : Registry D)
      → register ms ordered by_id prev ≡ ok r
      → IsAscending prev ms
  unfolding register admissible
  register-IsAscending [] ordered by_id prev r h = tt
  register-IsAscending (m ∷ ms) ordered by_id none r h =
      ground (
        arith,
        register-IsAscending ms (ordered ++ (m ∷ [])) (Assoc.put m.id m by_id) (some m.id) r,
      )
  register-IsAscending (m ∷ ms) ordered by_id (some p) r h =
      ground (
        arith,
        register-IsAscending ms (ordered ++ (m ∷ [])) (Assoc.put m.id m by_id) (some m.id) r,
      )

  -- What a map knows, the registry that is built from it knows.
  register-keeps :
      (ms ordered : List (Migration D)) (by_id : Assoc (Migration D)) (prev : Option Bytes)
      (r : Registry D) (id : Bytes) (v : Migration D)
      → register ms ordered by_id prev ≡ ok r
      → Assoc.get id by_id ≡ some v
      → get r id ≡ some v
  unfolding register admissible get knows
  register-keeps [] ordered by_id prev r id v h e = ground arith
  register-keeps (m ∷ ms) ordered by_id prev r id v h e = ground (
    arith,
    register-keeps ms (ordered ++ (m ∷ [])) (Assoc.put m.id m by_id) (some m.id) r id v,
    get-put m.id id m by_id,
    =ᵇ_iff m.id id,
  )

  -- Every migration is found under its id.
  register-IsFound :
      (ms ordered : List (Migration D)) (by_id : Assoc (Migration D)) (prev : Option Bytes)
      (r : Registry D)
      → register ms ordered by_id prev ≡ ok r
      → All (λ m. get r m.id ≡ some m) ms
  unfolding register
  register-IsFound [] ordered by_id prev r h = tt
  register-IsFound (m ∷ ms) ordered by_id prev r h = ground (
    arith,
    register-IsFound ms (ordered ++ (m ∷ [])) (Assoc.put m.id m by_id) (some m.id) r,
    register-keeps ms (ordered ++ (m ∷ [])) (Assoc.put m.id m by_id) (some m.id) r m.id m,
    get-put m.id m.id m by_id,
    =ᵇ_refl m.id,
  )

  -- A registry that NewRegistry returns holds the migrations that it was given, their ids strictly
  -- ascending, and finds each of them under its id.
  pub new_registry-IsAscending :
      (ms : List (Migration D)) (r : Registry D)
      → new_registry ms ≡ ok r
      → (r.ordered ≡ ms) × IsAscending none r.ordered × All (λ m. get r m.id ≡ some m) r.ordered
  unfolding new_registry get
  new_registry-IsAscending ms r h =
      let e = register-ordered ms [] [] none r h in
      rw (e) (refl, register-IsAscending ms [] [] none r h, register-IsFound ms [] [] none r h)

  knows-put :
      (m : Migration D) (by_id : Assoc (Migration D)) (have : List Bytes)
      → ((id : Bytes) → knows by_id id ≡ true → mem_id id have ≡ true)
      → (id : Bytes) → knows (Assoc.put m.id m by_id) id ≡ true
      → mem_id id (m.id ∷ have) ≡ true
  unfolding knows mem_id
  knows-put m by_id have sub id h = ground (arith, get-put m.id id m by_id, sub id)

  knows_all-all_in :
      (by_id : Assoc (Migration D)) (have reqs : List Bytes)
      → ((id : Bytes) → knows by_id id ≡ true → mem_id id have ≡ true)
      → knows_all by_id reqs ≡ true
      → all_in have reqs ≡ true
  unfolding knows_all all_in
  knows_all-all_in by_id have [] sub h = refl
  knows_all-all_in by_id have (q ∷ qs) sub h =
      ground (arith, sub q, knows_all-all_in by_id have qs sub)

  admissible-requires :
      (by_id : Assoc (Migration D)) (prev : Option Bytes) (m : Migration D)
      → admissible by_id prev m ≡ true
      → knows_all by_id m.requires ≡ true
  unfolding admissible
  admissible-requires by_id prev m h = ground arith

  pub register-dependencies :
      (ms ordered : List (Migration D)) (by_id : Assoc (Migration D)) (prev : Option Bytes)
      (r : Registry D) (have : List Bytes)
      → register ms ordered by_id prev ≡ ok r
      → ((id : Bytes) → knows by_id id ≡ true → mem_id id have ≡ true)
      → check_dependencies have ms ≡ none
  unfolding register check_dependencies
  register-dependencies [] ordered by_id prev r have h sub = refl
  register-dependencies (m ∷ ms) ordered by_id prev r have h sub = ground (
    arith,
    register-dependencies ms (ordered ++ (m ∷ [])) (Assoc.put m.id m by_id) (some m.id) r
        (m.id ∷ have),
    knows-put m by_id have sub,
    knows_all-all_in by_id have m.requires sub,
    admissible-requires by_id prev m,
  )
