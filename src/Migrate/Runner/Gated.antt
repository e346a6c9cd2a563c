-- ===== src/Migrate/Runner/Gated.antt =====
-- runner.go: what the pre-flight test of Down lets through.
use sshpilot_vallete.Prelude.{
  ℕ, ◌≡◌, ◌≢◌, ◌⊎◌, inl, inr, refl, ap, true, false, none, some, List, [], ◌∷◌, ◌++◌, map, Bytes,
  =ᵇ_iff, Err, ok, arith, All, All-append, take, drop, Option-cases, Result-cases,
}
use sshpilot_vallete.Migrate.Registry
use sshpilot_vallete.Migrate.Registry.{Migration}
use sshpilot_vallete.Migrate.Ledger.{Ledger, Db, Codec, ensure_ledger_table}
use sshpilot_vallete.Migrate.Runner.{
  Runner, revert_one, verify, kept, gate, gate_all, revert_all, down,
}
use sshpilot_vallete.Migrate.Runner.Atomic.{after, batch_first_part, revert_one_atomic}

abbrev pub reversed : List Ledger → List Ledger
reversed [] = []
reversed (l ∷ ls) = reversed ls ++ (l ∷ [])

module _ {D : Type 0} (r : Runner D) where
  -- A migration that may be reverted.
  abbrev pub IsRevertible : Migration D → Type 0
  IsRevertible m =
      (m.irreversible_reason ≡ []) × ((m.destructive ≡ false) ⊎ (r.allow_destructive ≡ true))

  abbrev pub IsGated : Ledger × Migration D → Type 0
  IsGated p = (Registry.get r.reg p.0.id ≡ some p.1) × IsRevertible p.1

  gate-IsGated : (l : Ledger) (m : Migration D) → gate r l ≡ ok m → IsGated (l, m)
  unfolding gate
  gate-IsGated l m h = elim (Option-cases (Registry.get r.reg l.id)) [
    | inl e ↦ ground arith
    | inr (k, e) ↦ ground (arith, =ᵇ_iff k.irreversible_reason [])
  ]

  map-append :
      (xs ys : List (Ledger × Migration D))
      → map (λ p. p.0) (xs ++ ys) ≡ map (λ p. p.0) xs ++ map (λ p. p.0) ys
  map-append [] ys = refl
  map-append (x ∷ xs) ys = ap (λ t. x.0 ∷ t) (map-append xs ys)

  -- What passes the test is every row, newest first, beside a migration that may be reverted.
  gate_all-IsGated :
      (ls : List Ledger) (gated : List (Ledger × Migration D))
      → gate_all r ls ≡ ok gated
      → (map (λ p. p.0) gated ≡ reversed ls) × All IsGated gated
  unfolding gate_all
  gate_all-IsGated [] gated h = ground arith
  gate_all-IsGated (l ∷ ls) gated h = elim (Result-cases (gate r l)) [
    | inl (m, e) ↦ elim (Result-cases (gate_all r ls)) [
      | inl (rest, f) ↦ ground (
        arith,
        gate-IsGated l m e,
        gate_all-IsGated ls rest f,
        map-append rest ((l, m) ∷ []),
        All-append IsGated rest ((l, m) ∷ []),
      )
      | inr (x, f) ↦ ground arith
    ]
    | inr (x, e) ↦ ground arith
  ]

module _ {D : Type 0} (db : Db D)
    (commit_atomic : (t d : D) (e : Err) → (db.commit t d).0 ≡ some e → (db.commit t d).1 ≡ d)
    (codec : Codec) (r : Runner D) where
  -- If a commit that fails leaves the database as it was, Down on a ledger that verifies, to a target
  -- that it holds, either returns no row, an error and the database as it is, or reverts a first part
  -- of the rows above the target, newest first, each of which has a migration that may be reverted:
  -- it returns those rows, the database is the one after them, and they are all of the rows above
  -- the target unless there is an error.
  pub down-IsGated :
      (to : Bytes) (d d' : D) (applied : List Ledger) (pending : List (Migration D)) (keep : ℕ)
      → ensure_ledger_table db codec d ≡ (none, d')
      → verify db codec r d' ≡ ok (applied, pending)
      → kept to applied ≡ ok keep
      → ((e : Err) × (down db codec r to d ≡ (([], some e), d')))
        ⊎ ((gated : List (Ledger × Migration D)) × (n : ℕ) × (map (λ p. p.0) gated
              ≡ reversed (drop keep applied))
            × All (IsGated r) gated
            × ((down db codec r to d).0.0 ≡ map (λ p. p.0) (take n gated))
            × ((down db codec r to d).1 ≡ after (λ p. revert_one db codec r p.1) (take n gated) d')
            × (((down db codec r to d).0.1 ≢ none) ⊎ (take n gated ≡ gated)))
  unfolding down
  down-IsGated to d d' applied pending keep h v k =
      elim (Result-cases (gate_all r (drop keep applied))) [
        | inl (gated, g) ↦
            let (ids, passed) = gate_all-IsGated r (drop keep applied) gated g in
            let (n, rows, state, end) =
              batch_first_part (λ p. revert_one db codec r p.1) (λ p. p.0)
                (λ p s e f. revert_one_atomic db commit_atomic codec r p.1 s e f) gated d' in
            let out : down db codec r to d ≡ revert_all db codec r (ok gated) d' =
              rw (down, h, ap (λ p. p.1) h, v, k, g) refl in
            inr (
              gated,
              n,
              ids,
              passed,
              rw (out, revert_all) rows,
              rw (out, revert_all) state,
              rw (out, revert_all) end,
            )
        | inr (e, g) ↦ inl (e, rw (down, h, ap (λ p. p.1) h, v, k, g, revert_all) refl)
      ]
