-- ===== src/Migrate/Runner/Atomic.antt =====
-- runner.go: Up and Down as batches of transactions, each applied as a whole or not at all.
use sshpilot_vallete.Prelude.{
  ℕ, suc, ◌≡◌, ◌≢◌, ◌⊎◌, inl, inr, refl, ap, Option, none, some, List, [], ◌∷◌, map, Err, ok, err,
  arith, take, Option-cases, Result-cases,
}
use sshpilot_vallete.Migrate.Registry.{Migration}
use sshpilot_vallete.Migrate.Ledger.{Ledger, Db, Codec, ensure_ledger_table}
use sshpilot_vallete.Migrate.Transaction.{finish, in_transaction, batch}
use sshpilot_vallete.Migrate.Runner.{
  Runner, ledger_for, apply_body, revert_body, apply_one, revert_one, verify, up,
}

-- The database after a run of transactions.
abbrev pub after : {D : Type 0} {A : Type 0} → (A → D → Option Err × D) → List A → D → D
after one [] d = d
after one (a ∷ rest) d = after one rest (one a d).1

module _ {D : Type 0} {A : Type 0} (one : A → D → Option Err × D) (row : A → Ledger)
    (atomic : (a : A) (d : D) (e : Err) → (one a d).0 ≡ some e → (one a d).1 ≡ d) where
  -- A batch whose transactions change nothing when they fail commits a first part of the list: the
  -- whole list if there is no error. Its rows are that part's, and the database is that part's.
  pub batch_first_part :
      (xs : List A) (d : D)
      → (n : ℕ) × ((batch one row xs d).0.0 ≡ map row (take n xs))
        × ((batch one row xs d).1 ≡ after one (take n xs) d)
        × (((batch one row xs d).0.1 ≢ none) ⊎ (take n xs ≡ xs))
  batch_first_part [] d = (0, refl, refl, inr refl)
  batch_first_part (x ∷ xs) d = elim (Option-cases (one x d).0) [
    | inl e ↦
        let (n, rows, state, end) = batch_first_part xs (one x d).1 in
        (suc n, ground (arith, rows), ground (arith, state), ground (arith, end))
    | inr (z, e) ↦ (0, ground arith, ground (arith, atomic x d z), ground arith)
  ]

module _ {D : Type 0} (db : Db D)
    (commit_atomic : (t d : D) (e : Err) → (db.commit t d).0 ≡ some e → (db.commit t d).1 ≡ d) where
  in_transaction_atomic :
      (body : D → Option Err × D) (d : D) (e : Err)
      → (in_transaction db body d).0 ≡ some e
      → (in_transaction db body d).1 ≡ d
  unfolding in_transaction finish
  in_transaction_atomic body d e h = elim (Result-cases (db.begin d)) [
    | inl (t, b) ↦ ground (arith, commit_atomic (body t).1 d e)
    | inr (x, b) ↦ ground arith
  ]

  module _ (codec : Codec) (r : Runner D) where
    apply_one_atomic :
        (m : Migration D) (d : D) (e : Err)
        → (apply_one db codec r m d).0 ≡ some e
        → (apply_one db codec r m d).1 ≡ d
    unfolding apply_one
    apply_one_atomic m d e h = in_transaction_atomic (apply_body db codec r m) d e h

    pub revert_one_atomic :
        (m : Migration D) (d : D) (e : Err)
        → (revert_one db codec r m d).0 ≡ some e
        → (revert_one db codec r m d).1 ≡ d
    unfolding revert_one
    revert_one_atomic m d e h = in_transaction_atomic (revert_body db codec r m) d e h

    -- If a commit that fails leaves the database as it was, Up on a ledger that verifies applies a
    -- first part of the pending migrations and nothing of the next: it returns their rows, the
    -- database is the one after them, and they are all of the pending ones unless there is an error.
    pub up_first_part :
        (d d' : D) (applied : List Ledger) (pending : List (Migration D))
        → ensure_ledger_table db codec d ≡ (none, d')
        → verify db codec r d' ≡ ok (applied, pending)
        → (n : ℕ) × ((up db codec r d).0.0 ≡ map (ledger_for codec r) (take n pending))
          × ((up db codec r d).1 ≡ after (apply_one db codec r) (take n pending) d')
          × (((up db codec r d).0.1 ≢ none) ⊎ (take n pending ≡ pending))
    unfolding up
    up_first_part d d' applied pending h v =
        rw (up, h, ap (λ p. p.1) h, v, ap (λ p. p.1) h)
          (batch_first_part (apply_one db codec r) (ledger_for codec r) apply_one_atomic pending d')

    -- An Up that finds an error before the first migration changes nothing but the ledger's table.
    pub up_refused :
        (d d' : D) (e : Err)
        → ensure_ledger_table db codec d ≡ (none, d')
        → verify db codec r d' ≡ err e
        → up db codec r d ≡ (([], some e), d')
    unfolding up
    up_refused d d' e h v = rw (up, h, ap (λ p. p.1) h, v, ap (λ p. p.1) h) refl
