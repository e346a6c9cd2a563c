-- ===== src/Migrate/Transaction.antt =====
-- internal/migrate/runner.go: one transaction and a batch of them, each on a state `D` of the database.
use sshpilot_vallete.Prelude.{
  is_conflict, Option, none, some, List, [], ◌∷◌, Bytes, Err, ok, err, if◌then◌else◌,
  precondition_failed,
}
use sshpilot_vallete.Migrate.Registry.{Engine, Precondition}
use sshpilot_vallete.Migrate.Ledger.{Ledger, Db}

-- `if err := first; err != nil { return err }` and then the rest.
abbrev pub and_then : {D : Type 0} → Option Err × D → (D → Option Err × D) → Option Err × D
and_then (none, d) k = k d
and_then (some e, d) k = (some e, d)

-- What applyOne makes of the answer of a precondition's check.
precondition_error : {D : Type 0} → Option Err × D → Option Err × D
unfolding is_conflict
precondition_error (none, t) = (none, t)
precondition_error (some e, t) = (some (if is_conflict e then precondition_failed else e), t)

module _ {D : Type 0} (db : Db D) where
  unfoldable pub check_preconditions : List (Precondition D) → Engine → D → Option Err × D
  unfolding precondition_error
  check_preconditions [] engine t = (none, t)
  check_preconditions (p ∷ ps) engine t =
      and_then (precondition_error (p.check engine t)) (λ t'. check_preconditions ps engine t')

  unfoldable pub exec_all : List Bytes → D → Option Err × D
  exec_all [] t = (none, t)
  exec_all (stmt ∷ stmts) t = and_then (db.exec stmt [] t) (λ t'. exec_all stmts t')

  -- The body between Begin and Commit ran on the transaction's state: a failure rolls it back, so
  -- the database's own state `d` stays; otherwise the commit decides.
  unfoldable pub finish : D → Option Err × D → Option Err × D
  finish d (some e, t) = (some e, d)
  finish d (none, t) = db.commit t d

  -- Begin, the body on the transaction, Commit; the deferred Rollback in every other case.
  unfoldable pub in_transaction : (D → Option Err × D) → D → Option Err × D
  unfolding finish
  in_transaction body d = elim (db.begin d) [ err e ↦ (some e, d) | ok t ↦ finish d (body t) ]

-- The loop that ends a batch of transactions at the first failure: the rows of those that were
-- committed, in order, the error if there is one, and the database.
abbrev pub batch :
    {D : Type 0} {A : Type 0}
    → (A → D → Option Err × D)
    → (A → Ledger)
    → List A
    → D
    → (List Ledger × Option Err) × D
batch one row [] d = (([], none), d)
batch one row (a ∷ rest) d =
    let r = one a d in
    let later = batch one row rest r.1 in
    elim r.0 [ some e ↦ (([], some e), r.1) | none ↦ ((row a ∷ later.0.0, later.0.1), later.1) ]
