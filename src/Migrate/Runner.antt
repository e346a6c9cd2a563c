-- ===== src/Migrate/Runner.antt =====
-- internal/migrate/runner.go: the runner. Every method takes the database's state and returns its
-- next one beside the method's results.
pub mod Verified
pub mod Atomic
pub mod Gated
use sshpilot_vallete.Prelude.{
  ℕ, suc, ◌+◌, Bool, true, false, not, ◌&&◌, ◌||◌, Option, none, some, List, [], ◌∷◌, ◌++◌, map,
  Bytes, ◌=ᵇ◌, Err, Result, ok, err, ◌>>=◌, ltb, length, drop, if◌then◌else◌, conflict, forbidden,
  ledger_ahead, ledger_order, engine_mismatch, checksum_mismatch, dependency_unmet,
  precondition_failed, destructive_blocked, irreversible, unknown_target, invalid_input,
}
use sshpilot_vallete.Prelude.Word.{Time}
use sshpilot_vallete.Migrate.Registry
use sshpilot_vallete.Migrate.Registry.{Engine, valid, Precondition, Migration, for_engine, Registry}
use mathlib.Core.Option
use sshpilot_vallete.Migrate.Transaction.{
  and_then, check_preconditions, exec_all, in_transaction, batch,
}
use sshpilot_vallete.Migrate.Ledger.{
  Ledger, Db, Codec, checksum_for, ensure_ledger_table, insert_ledger, delete_ledger, load_ledger,
}

-- `now` is the clock: what it shows when the migration of that identifier is recorded.
pub record Runner (D : Type 0) : Type 0 where
  pub engine : Engine
  pub reg : Registry D
  pub now : Bytes → Time
  pub allow_destructive : Bool

configure : {D : Type 0} → List (Runner D → Runner D) → Runner D → Runner D
configure [] r = r
configure (o ∷ os) r = configure os (o r)

-- The runner of a database and a registry that are there; an option is a change of the runner.
unfoldable pub new_runner :
    {D : Type 0}
    → Engine
    → Registry D
    → (Bytes → Time)
    → List (Runner D → Runner D)
    → Result (Runner D)
unfolding valid configure
new_runner engine reg now opts =
    if valid engine
    then ok (
        configure opts
          (record { engine = engine; reg = reg; now = now; allow_destructive = false }))
    else err invalid_input

unfoldable pub with_clock : {D : Type 0} → (Bytes → Time) → Runner D → Runner D
with_clock now r = record r { now = now }

unfoldable pub with_destructive : {D : Type 0} → Runner D → Runner D
with_destructive r = record r { allow_destructive = true }

-- The position of the row with an id, if it is there.
unfoldable pub index_of : Bytes → List Ledger → Option ℕ
index_of id [] = none
index_of id (l ∷ ls) = if l.id =ᵇ id then some 0 else Option.map suc (index_of id ls)

unfoldable pub mem_id : Bytes → List Bytes → Bool
mem_id id [] = false
mem_id id (j ∷ js) = j =ᵇ id || mem_id id js

unfoldable pub all_in : List Bytes → List Bytes → Bool
unfolding mem_id
all_in have [] = true
all_in have (req ∷ reqs) = mem_id req have && all_in have reqs

-- `have` is the set of the ids that are applied once the migrations before these are.
unfoldable pub check_dependencies : {D : Type 0} → List Bytes → List (Migration D) → Option Err
unfolding all_in
check_dependencies have [] = none
check_dependencies have (m ∷ ms) =
    if all_in have m.requires then check_dependencies (m.id ∷ have) ms else some dependency_unmet

-- The loop `row.ID != all[i].ID`; the source has tested that the rows are not the longer list.
unfoldable pub is_prefix : {D : Type 0} → List Ledger → List (Migration D) → Bool
is_prefix [] ms = true
is_prefix (l ∷ ls) [] = false
is_prefix (l ∷ ls) (m ∷ ms) = l.id =ᵇ m.id && is_prefix ls ms

-- How many of the applied rows a target keeps.
unfoldable pub kept : Bytes → List Ledger → Result ℕ
unfolding index_of
kept to applied =
    if to =ᵇ []
    then ok 0
    else elim (index_of to applied) [ none ↦ err unknown_target | some i ↦ ok (i + 1) ]

module _ {D : Type 0} (r : Runner D) where
  -- The pre-flight test of one row: its migration, or why it may not be reverted.
  unfoldable pub gate : Ledger → Result (Migration D)
  gate l = elim (Registry.get r.reg l.id) [
    | none ↦ err ledger_ahead
    | some m ↦
        if not (m.irreversible_reason =ᵇ [])
        then err irreversible
        else if m.destructive && not r.allow_destructive
        then err destructive_blocked
        else ok m
  ]

  unfoldable pub gate_all : List Ledger → Result (List (Ledger × Migration D))
  unfolding gate
  gate_all [] = ok []
  gate_all (l ∷ ls) = gate l >>= λ m. gate_all ls >>= λ rest. ok (rest ++ ((l, m) ∷ []))

module _ {D : Type 0} (codec : Codec) (r : Runner D) where
  unfoldable pub ledger_for : Migration D → Ledger
  ledger_for m = record {
    id = m.id;
    name = m.name;
    checksum = checksum_for codec m r.engine;
    applied_at = r.now m.id;
    engine = r.engine;
  }

  -- The tests of verify on one row of the ledger.
  unfoldable pub check_row : Ledger → Option Err
  unfolding checksum_for
  check_row row = elim (Registry.get r.reg row.id) [
    | none ↦ some ledger_ahead
    | some m ↦
        if not (row.engine =ᵇ r.engine)
        then some engine_mismatch
        else if not (row.checksum =ᵇ checksum_for codec m r.engine)
        then some checksum_mismatch
        else none
  ]

  unfoldable pub check_rows : List Ledger → Option Err
  unfolding check_row
  check_rows [] = none
  check_rows (row ∷ rows) = elim (check_row row) [ some e ↦ some e | none ↦ check_rows rows ]

  -- verify once the ledger is loaded.
  unfoldable pub verify_rows : List Ledger → Result (List Ledger × List (Migration D))
  unfolding check_rows is_prefix check_dependencies
  verify_rows applied =
      if ltb (length r.reg.ordered) (length applied)
      then err ledger_ahead
      else elim (check_rows applied) [
        | some e ↦ err e
        | none ↦
            if not (is_prefix applied r.reg.ordered)
            then err ledger_order
            else elim (check_dependencies (map (λ l. l.id) applied)
                (drop (length applied) r.reg.ordered)) [
                  | some e ↦ err e
                  | none ↦ ok (applied, drop (length applied) r.reg.ordered)
                ]
      ]

module _ {D : Type 0} (db : Db D) (codec : Codec) (r : Runner D) where
  -- What applyOne does on the transaction.
  unfoldable pub apply_body : Migration D → D → Option Err × D
  unfolding check_preconditions exec_all ledger_for for_engine insert_ledger
  apply_body m t = and_then (check_preconditions db m.preconditions r.engine t) (λ t₁.
      and_then (exec_all db (for_engine m.up r.engine) t₁)
        (λ t₂. insert_ledger db codec (ledger_for codec r m) t₂))

  -- The row that applyOne returns, where there is no error, is the migration's own.
  unfoldable pub apply_one : Migration D → D → Option Err × D
  unfolding in_transaction
  apply_one m d = in_transaction db (apply_body m) d

  unfoldable pub revert_body : Migration D → D → Option Err × D
  unfolding exec_all for_engine delete_ledger
  revert_body m t =
      and_then (exec_all db (for_engine m.down r.engine) t)
        (λ t₁. delete_ledger db codec r.engine m.id t₁)

  unfoldable pub revert_one : Migration D → D → Option Err × D
  unfolding in_transaction
  revert_one m d = in_transaction db (revert_body m) d

  unfoldable pub verify : D → Result (List Ledger × List (Migration D))
  unfolding load_ledger verify_rows
  verify d = load_ledger db codec d >>= verify_rows codec r

  -- The rows that were applied, the error, and the database; no rows and no error when nothing is
  -- pending.
  unfoldable pub up : D → (List Ledger × Option Err) × D
  unfolding ensure_ledger_table verify apply_one ledger_for
  up d =
      let e = ensure_ledger_table db codec d in
      elim e.0 [
        | some x ↦ (([], some x), e.1)
        | none ↦ elim (verify e.1) [
          | err x ↦ (([], some x), e.1)
          | ok v ↦ batch apply_one (ledger_for codec r) v.1 e.1
        ]
      ]

  unfoldable pub status : D → Result (List Ledger × List Bytes) × D
  unfolding ensure_ledger_table verify
  status d =
      let e = ensure_ledger_table db codec d in
      elim e.0 [
        | some x ↦ (err x, e.1)
        | none ↦ (verify e.1 >>= (λ v. ok (v.0, map (λ m. m.id) v.1)), e.1)
      ]

  -- The batch of Down: the gated rows come newest first.
  unfoldable pub revert_all :
      Result (List (Ledger × Migration D)) → D → (List Ledger × Option Err) × D
  unfolding revert_one
  revert_all (err e) d = (([], some e), d)
  revert_all (ok gated) d = batch (λ p. revert_one p.1) (λ p. p.0) gated d

  unfoldable pub down : Bytes → D → (List Ledger × Option Err) × D
  unfolding ensure_ledger_table verify kept gate_all revert_all
  down to d =
      let e = ensure_ledger_table db codec d in
      elim e.0 [
        | some x ↦ (([], some x), e.1)
        | none ↦
            revert_all (verify e.1 >>= λ v. kept to v.0 >>= λ keep. gate_all r (drop keep v.0)) e.1
      ]
