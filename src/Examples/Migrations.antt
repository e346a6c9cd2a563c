-- ===== src/Examples/Migrations.antt =====
-- internal/migrate on two migrations and a database that is the list of the ledger's rows.
use sshpilot_vallete.Prelude.{
  precedes, ℕ, ◌≡◌, ◌≢◌, ◌⊎◌, refl, false, Option, none, some, List, [], ◌∷◌, ◌++◌, map, Bytes,
  codes, ◌=ᵇ◌, Err, Result, ok, arith, if◌then◌else◌, All, take,
}
use sshpilot_vallete.Prelude.Assoc
use sshpilot_vallete.Migrate.Registry
use sshpilot_vallete.Migrate.Registry.{
  Migration, Registry, Steps, engine_sqlite, new_registry, register, admissible, matches_id, knows,
  knows_all, described, empty_steps, for_engine,
}
use sshpilot_vallete.Migrate.Registry.Built.{IsAscending, new_registry-IsAscending}
use sshpilot_vallete.Migrate.Ledger.{
  Row, Db, Ledger, Codec, checksum_for, ensure_ledger_table, load_ledger, scan_rows, scan_row, join,
}
use sshpilot_vallete.Migrate.Runner.{
  Runner, verify_rows, verify, check_rows, check_row, is_prefix, check_dependencies, all_in, mem_id,
  ledger_for, apply_one, revert_one, up, down, kept,
}
use sshpilot_vallete.Migrate.Runner.Verified.{IsVouched, verify_rows-IsVouched}
use sshpilot_vallete.Migrate.Runner.Atomic.{after, up_first_part}
use sshpilot_vallete.Migrate.Runner.Gated.{IsGated, down-IsGated}

abbrev rows_of : List Row → List (Result Row)
rows_of [] = []
rows_of (r ∷ rs) = ok r ∷ rows_of rs

abbrev without : Bytes → List Row → List Row
without id [] = []
without id (r ∷ rs) = if r.id =ᵇ id then without id rs else r ∷ without id rs

abbrev run : Bytes → List Bytes → List Row → Option Err × List Row
run q (id ∷ name ∷ sum ∷ at ∷ engine ∷ []) d = (
  none,
  d ++ (record { id = id; name = name; checksum = sum; applied_at = at; engine = engine } ∷ []),
)
run q (id ∷ []) d = (none, without id d)
run q _ d = (none, d)

abbrev table : Db (List Row)
table = record {
  exec = run;
  query = λ q d. ok (record { scanned = rows_of d; err = none });
  begin = λ d. ok d;
  commit = λ t d. (none, t);
}

abbrev plain_codec : Codec
plain_codec = record { format_time = λ t. []; parse_time = λ b. some 0; sha256_hex = λ b. b }

abbrev step : Bytes → Steps
step s = record { sqlite = s ∷ []; postgres = s ∷ [] }

abbrev users : Migration (List Row)
users = record {
  id = codes "0001";
  name = codes "users";
  requires = [];
  preconditions = [];
  up = step (codes "U");
  down = step (codes "V");
  destructive = false;
  irreversible_reason = [];
}

abbrev groups : Migration (List Row)
groups = record users { id = codes "0002"; name = codes "groups"; requires = codes "0001" ∷ [] }

abbrev both : Registry (List Row)
both = record {
  ordered = users ∷ groups ∷ [];
  by_id = (codes "0002", groups) ∷ (codes "0001", users) ∷ [];
}

abbrev runner : Runner (List Row)
runner = record { engine = engine_sqlite; reg = both; now = λ _. 7; allow_destructive = false }

both_registry : new_registry (users ∷ groups ∷ []) ≡ ok both
unfolding new_registry register admissible matches_id knows knows_all described empty_steps precedes
    ◌=ᵇ◌ Assoc.get Assoc.put Assoc.remove
both_registry = refl

new_registry-IsAscending_example :
    (both.ordered ≡ users ∷ groups ∷ [])
    × IsAscending none both.ordered
    × All (λ m. Registry.get both m.id ≡ some m) both.ordered
new_registry-IsAscending_example = new_registry-IsAscending (users ∷ groups ∷ []) both both_registry

abbrev first_row : Ledger
first_row = record {
  id = codes "0001";
  name = codes "users";
  checksum = checksum_for plain_codec users engine_sqlite;
  applied_at = 0;
  engine = engine_sqlite;
}

first_verified : verify_rows plain_codec runner (first_row ∷ []) ≡ ok (first_row ∷ [], groups ∷ [])
unfolding verify_rows check_rows check_row is_prefix check_dependencies all_in mem_id checksum_for
    join for_engine ◌=ᵇ◌ Registry.get Assoc.get
first_verified = refl

verify_rows-IsVouched_example :
    (first_row ∷ [] ≡ first_row ∷ [])
    × (codes "0001" ∷ codes "0002" ∷ [] ≡ codes "0001" ∷ codes "0002" ∷ [])
    × All (IsVouched plain_codec runner) (first_row ∷ [])
verify_rows-IsVouched_example =
    verify_rows-IsVouched plain_codec runner (first_row ∷ []) (first_row ∷ []) (groups ∷ [])
      first_verified

empty_verified : verify table plain_codec runner [] ≡ ok ([], users ∷ groups ∷ [])
unfolding verify load_ledger scan_rows scan_row verify_rows check_rows check_row is_prefix
    check_dependencies all_in mem_id checksum_for join for_engine ◌=ᵇ◌
empty_verified = refl

table_atomic : (t d : List Row) (e : Err) → (table.commit t d).0 ≡ some e → (table.commit t d).1 ≡ d
table_atomic t d e h = ground arith

ensured : (d : List Row) → ensure_ledger_table table plain_codec d ≡ (none, d)
unfolding ensure_ledger_table
ensured d = refl

up_first_part_example :
    (n : ℕ) × ((up table plain_codec runner []).0.0
      ≡ map (ledger_for plain_codec runner) (take n (users ∷ groups ∷ [])))
    × ((up table plain_codec runner []).1
        ≡ after (apply_one table plain_codec runner) (take n (users ∷ groups ∷ [])) [])
    × (((up table plain_codec runner []).0.1 ≢ none)
        ⊎ (take n (users ∷ groups ∷ []) ≡ users ∷ groups ∷ []))
up_first_part_example =
    up_first_part table table_atomic plain_codec runner [] [] [] (users ∷ groups ∷ []) (ensured [])
      empty_verified

abbrev first_stored : List Row
first_stored =
    record {
      id = codes "0001";
      name = codes "users";
      checksum = checksum_for plain_codec users engine_sqlite;
      applied_at = [];
      engine = engine_sqlite;
    }
    ∷ []

stored_verified : verify table plain_codec runner first_stored ≡ ok (first_row ∷ [], groups ∷ [])
unfolding verify load_ledger scan_rows scan_row verify_rows check_rows check_row is_prefix
    check_dependencies all_in mem_id checksum_for join for_engine ◌=ᵇ◌ Registry.get Assoc.get
stored_verified = refl

none_kept : kept [] (first_row ∷ []) ≡ ok 0
unfolding kept ◌=ᵇ◌
none_kept = refl

down-IsGated_example :
    ((e : Err) × (down table plain_codec runner [] first_stored ≡ (([], some e), first_stored)))
    ⊎ ((gated : List (Ledger × Migration (List Row))) × (n : ℕ) × (map (λ p. p.0) gated
          ≡ first_row ∷ [])
        × All (IsGated runner) gated
        × ((down table plain_codec runner [] first_stored).0.0 ≡ map (λ p. p.0) (take n gated))
        × ((down table plain_codec runner [] first_stored).1
            ≡ after (λ p. revert_one table plain_codec runner p.1) (take n gated) first_stored)
        × (((down table plain_codec runner [] first_stored).0.1 ≢ none) ⊎ (take n gated ≡ gated)))
down-IsGated_example =
    down-IsGated table table_atomic plain_codec runner [] first_stored first_stored (first_row ∷ [])
      (groups ∷ []) 0 (ensured first_stored) stored_verified none_kept
