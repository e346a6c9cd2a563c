-- ===== src/Migrate/Ledger.antt =====
-- internal/migrate: port.go and ledger.go, the database ports and the table schema_migrations.
-- The database, the time's text form and the hash are code of other packages and parameters here.
use sshpilot_vallete.Prelude.{
  Option, none, some, List, [], ◌∷◌, ◌++◌, Bytes, codes, ◌=ᵇ◌, Err, Result, ok, err, ◌>>=◌,
  if◌then◌else◌, conflict,
}
use sshpilot_vallete.Prelude.Word.{Time}
use sshpilot_vallete.Migrate.Registry.{Engine, engine_postgres, Migration, for_engine}

-- A row of the table as the columns' texts.
pub record Row : Type 0 where
  pub id : Bytes
  pub name : Bytes
  pub checksum : Bytes
  pub applied_at : Bytes
  pub engine : Bytes

-- The answer to a query: each row or its scan's error, then the cursor's own error.
pub record Rows : Type 0 where
  pub scanned : List (Result Row)
  pub err : Option Err

-- The ports Executor, Tx and DB over the states `D` of one database. `exec` and `query` work on the
-- database or on an open transaction's own state, `commit` takes the transaction's state and the
-- database's; what a rollback leaves is the database's state itself.
pub record Db (D : Type 0) : Type 0 where
  pub exec : Bytes → List Bytes → D → Option Err × D
  pub query : Bytes → D → Result Rows
  pub begin : D → Result D
  pub commit : D → D → Option Err × D

pub record Ledger : Type 0 where
  pub id : Bytes
  pub name : Bytes
  pub checksum : Bytes
  pub applied_at : Time
  pub engine : Engine

-- What the runner takes from the packages time and crypto/sha256.
pub record Codec : Type 0 where
  pub format_time : Time → Bytes
  pub parse_time : Bytes → Option Time
  pub sha256_hex : Bytes → Bytes

abbrev pub create_ledger_sql : Bytes
create_ledger_sql =
    codes
      "CREATE TABLE IF NOT EXISTS schema_migrations (\n\tid TEXT PRIMARY KEY,\n\tname TEXT NOT NULL,\n\tchecksum TEXT NOT NULL,\n\tapplied_at TEXT NOT NULL,\n\tengine TEXT NOT NULL\n)"

abbrev pub select_ledger_sql : Bytes
select_ledger_sql =
    codes "SELECT id, name, checksum, applied_at, engine FROM schema_migrations ORDER BY id"

unfoldable pub insert_ledger_sql : Engine → Bytes
insert_ledger_sql e =
    if e =ᵇ engine_postgres
    then codes
        "INSERT INTO schema_migrations (id, name, checksum, applied_at, engine) VALUES ($1, $2, $3, $4, $5)"
    else codes
        "INSERT INTO schema_migrations (id, name, checksum, applied_at, engine) VALUES (?, ?, ?, ?, ?)"

unfoldable pub delete_ledger_sql : Engine → Bytes
delete_ledger_sql e =
    if e =ᵇ engine_postgres
    then codes "DELETE FROM schema_migrations WHERE id = $1"
    else codes "DELETE FROM schema_migrations WHERE id = ?"

-- strings.Join
unfoldable pub join : Bytes → List Bytes → Bytes
join sep [] = []
join sep (s ∷ []) = s
join sep (s ∷ t ∷ ts) = s ++ sep ++ join sep (t ∷ ts)

unfoldable pub checksum_for : {D : Type 0} → Codec → Migration D → Engine → Bytes
checksum_for codec m e = codec.sha256_hex (join (0 ∷ []) (m.id ∷ m.name ∷ for_engine m.up e))

stamped : Row → Option Time → Result Ledger
stamped row none = err conflict
stamped row (some ts) = ok (record {
  id = row.id;
  name = row.name;
  checksum = row.checksum;
  applied_at = ts;
  engine = row.engine;
})

module _ {D : Type 0} (db : Db D) (codec : Codec) where
  unfoldable pub ensure_ledger_table : D → Option Err × D
  ensure_ledger_table d = db.exec create_ledger_sql [] d

  unfoldable pub insert_ledger : Ledger → D → Option Err × D
  insert_ledger l d =
      db.exec (insert_ledger_sql l.engine)
        (l.id ∷ l.name ∷ l.checksum ∷ codec.format_time l.applied_at ∷ l.engine ∷ []) d

  unfoldable pub delete_ledger : Engine → Bytes → D → Option Err × D
  delete_ledger engine id d = db.exec (delete_ledger_sql engine) (id ∷ []) d

  -- One turn of the loop of loadLedger: the row's Ledger, or the error that ends the loop.
  unfoldable pub scan_row : Result Row → Result Ledger
  unfolding stamped
  scan_row (err e) = err e
  scan_row (ok row) = stamped row (codec.parse_time row.applied_at)

  unfoldable pub scan_rows : List (Result Row) → Result (List Ledger)
  unfolding scan_row
  scan_rows [] = ok []
  scan_rows (r ∷ rs) = scan_row r >>= λ l. scan_rows rs >>= λ ls. ok (l ∷ ls)

  unfoldable pub load_ledger : D → Result (List Ledger)
  unfolding scan_rows
  load_ledger d = db.query select_ledger_sql d >>= λ rows.
      scan_rows rows.scanned >>= λ out. elim rows.err [ none ↦ ok out | some e ↦ err e ]
