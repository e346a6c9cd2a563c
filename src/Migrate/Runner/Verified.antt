-- ===== src/Migrate/Runner/Verified.antt =====
-- runner.go: what a ledger that verify accepts looks like, and the errors that it cannot return.
use sshpilot_vallete.Prelude.{
  ℕ, zero, suc, ◌≡◌, ◌≢◌, refl, ap, true, none, some, List, [], ◌∷◌, ◌++◌, map, Bytes, =ᵇ_iff, ok,
  err, dependency_unmet, arith, Option-cases, inl, inr, All, take, drop, length,
}
use sshpilot_vallete.Prelude.Assoc
use sshpilot_vallete.Migrate.Registry
use sshpilot_vallete.Migrate.Registry.{Migration, Registry, new_registry, knows}
use sshpilot_vallete.Migrate.Registry.Built.{register-dependencies, new_registry-IsAscending}
use sshpilot_vallete.Migrate.Ledger.{Ledger, Codec, checksum_for}
use sshpilot_vallete.Migrate.Runner.{
  Runner, mem_id, all_in, check_dependencies, is_prefix, check_row, check_rows, verify_rows,
}

mem_id_cons :
    (k : Bytes) (have more : List Bytes)
    → ((id : Bytes) → mem_id id have ≡ true → mem_id id more ≡ true)
    → (id : Bytes) → mem_id id (k ∷ have) ≡ true
    → mem_id id (k ∷ more) ≡ true
unfolding mem_id
mem_id_cons k have more sub id h = ground (arith, sub id)

mem_id_head :
    (k : Bytes) (have more ids : List Bytes)
    → ((id : Bytes) → mem_id id have ≡ true → mem_id id more ≡ true)
    → ((id : Bytes) → mem_id id (k ∷ ids) ≡ true → mem_id id more ≡ true)
    → (id : Bytes) → mem_id id (k ∷ have) ≡ true
    → mem_id id more ≡ true
unfolding mem_id
mem_id_head k have more ids sub new id h = ground (arith, sub id, new id)

mem_id_tail :
    (k : Bytes) (more ids : List Bytes)
    → ((id : Bytes) → mem_id id (k ∷ ids) ≡ true → mem_id id more ≡ true)
    → (id : Bytes) → mem_id id ids ≡ true
    → mem_id id more ≡ true
unfolding mem_id
mem_id_tail k more ids new id h = ground (arith, new id)

all_in_mono :
    (have more reqs : List Bytes)
    → ((id : Bytes) → mem_id id have ≡ true → mem_id id more ≡ true)
    → all_in have reqs ≡ true
    → all_in more reqs ≡ true
unfolding all_in
all_in_mono have more [] sub h = refl
all_in_mono have more (q ∷ qs) sub h = ground (arith, sub q, all_in_mono have more qs sub)

module _ {D : Type 0} where
  is_prefix-ids :
      (rows : List Ledger) (ms : List (Migration D))
      → is_prefix rows ms ≡ true
      → map (λ l. l.id) rows ≡ map (λ m. m.id) (take (length rows) ms)
  unfolding is_prefix
  is_prefix-ids [] ms h = refl
  is_prefix-ids (l ∷ ls) [] h = ground arith
  is_prefix-ids (l ∷ ls) (m ∷ ms) h = ground (arith, is_prefix-ids ls ms, =ᵇ_iff l.id m.id)

  map-take-drop :
      (n : ℕ) (ms : List (Migration D))
      → map (λ m. m.id) (take n ms) ++ map (λ m. m.id) (drop n ms) ≡ map (λ m. m.id) ms
  map-take-drop zero ms = refl
  map-take-drop (suc n) [] = refl
  map-take-drop (suc n) (m ∷ ms) = ap (λ t. m.id ∷ t) (map-take-drop n ms)

  -- With more ids at hand, no requirement is missed.
  check_dependencies_mono :
      (have more : List Bytes) (ms : List (Migration D))
      → ((id : Bytes) → mem_id id have ≡ true → mem_id id more ≡ true)
      → check_dependencies have ms ≡ none
      → check_dependencies more ms ≡ none
  unfolding check_dependencies
  check_dependencies_mono have more [] sub h = refl
  check_dependencies_mono have more (m ∷ ms) sub h = ground (
    arith,
    check_dependencies_mono (m.id ∷ have) (m.id ∷ more) ms,
    mem_id_cons m.id have more sub,
    all_in_mono have more m.requires sub,
  )

  -- The dependencies of the tail, once the ids of a prefix are at hand.
  check_dependencies-drop :
      (n : ℕ) (have more : List Bytes) (ms : List (Migration D))
      → ((id : Bytes) → mem_id id have ≡ true → mem_id id more ≡ true)
      → ((id : Bytes) → mem_id id (map (λ m. m.id) (take n ms)) ≡ true → mem_id id more ≡ true)
      → check_dependencies have ms ≡ none
      → check_dependencies more (drop n ms) ≡ none
  unfolding check_dependencies
  check_dependencies-drop zero have more ms sub ids h = check_dependencies_mono have more ms sub h
  check_dependencies-drop (suc n) have more [] sub ids h = refl
  check_dependencies-drop (suc n) have more (m ∷ ms) sub ids h = ground (
    arith,
    check_dependencies-drop n (m.id ∷ have) more ms,
    mem_id_head m.id have more (map (λ k. k.id) (take n ms)) sub ids,
    mem_id_tail m.id more (map (λ k. k.id) (take n ms)) ids,
  )

module _ {D : Type 0} (codec : Codec) (r : Runner D) where
  -- A row that its registry's migration vouches for.
  abbrev pub IsVouched : Ledger → Type 0
  IsVouched row =
      (m : Migration D) × (Registry.get r.reg row.id ≡ some m)
      × (row.engine ≡ r.engine)
      × (row.checksum ≡ checksum_for codec m r.engine)

  check_row-IsVouched : (row : Ledger) → check_row codec r row ≡ none → IsVouched row
  unfolding check_row
  check_row-IsVouched row h = elim (Option-cases (Registry.get r.reg row.id)) [
    | inl e ↦ ground arith
    | inr (m, e) ↦ (
      m,
      e,
      ground (arith, =ᵇ_iff row.engine r.engine),
      ground (arith, =ᵇ_iff row.checksum (checksum_for codec m r.engine)),
    )
  ]

  check_rows-IsVouched : (rows : List Ledger) → check_rows codec r rows ≡ none → All IsVouched rows
  unfolding check_rows
  check_rows-IsVouched [] h = tt
  check_rows-IsVouched (row ∷ rows) h =
      ground (arith, check_row-IsVouched row, check_rows-IsVouched rows)

  check_row_met : (row : Ledger) → check_row codec r row ≢ some dependency_unmet
  unfolding check_row
  check_row_met row h = ground arith

  check_rows_met : (rows : List Ledger) → check_rows codec r rows ≢ some dependency_unmet
  unfolding check_rows
  check_rows_met [] h = ground arith
  check_rows_met (row ∷ rows) h = ground (arith, check_row_met row, check_rows_met rows)

  prefix_dependencies :
      (ms : List (Migration D)) (rows : List Ledger)
      → new_registry ms ≡ ok r.reg
      → is_prefix rows r.reg.ordered ≡ true
      → check_dependencies (map (λ l. l.id) rows) (drop (length rows) r.reg.ordered) ≡ none
  unfolding mem_id new_registry knows Assoc.get
  prefix_dependencies ms rows h p =
      let ids = is_prefix-ids rows r.reg.ordered p in
      check_dependencies-drop (length rows) [] (map (λ l. l.id) rows) r.reg.ordered
        (λ id e. ground arith) (λ id e. ground (arith, ids))
        (rw ((new_registry-IsAscending ms r.reg h).0)
          (register-dependencies ms [] [] none r.reg [] h (λ id e. ground arith)))

  -- A ledger that verify accepts is a prefix of the registry: its ids and those of the pending
  -- migrations, in this order, are the registry's, and the registry vouches for every row's engine
  -- and checksum.
  pub verify_rows-IsVouched :
      (rows applied : List Ledger) (pending : List (Migration D))
      → verify_rows codec r rows ≡ ok (applied, pending)
      → (applied ≡ rows)
        × (map (λ l. l.id) applied ++ map (λ m. m.id) pending ≡ map (λ m. m.id) r.reg.ordered)
        × All IsVouched applied
  unfolding verify_rows
  verify_rows-IsVouched rows applied pending h = ground (
    arith,
    check_rows-IsVouched rows,
    is_prefix-ids rows r.reg.ordered,
    map-take-drop (length rows) r.reg.ordered,
  )

  -- Over a registry that NewRegistry built, verify never reports an unmet dependency, whatever the
  -- ledger holds.
  pub verify_rows_never_unmet :
      (ms : List (Migration D)) (rows : List Ledger)
      → new_registry ms ≡ ok r.reg
      → verify_rows codec r rows ≢ err dependency_unmet
  unfolding verify_rows
  verify_rows_never_unmet ms rows h e =
      ground (arith, check_rows_met rows, prefix_dependencies ms rows h)
