-- ===== src/Examples/Pairings.antt =====
-- internal/auth's enrollment on concrete pairings.
use sshpilot_vallete.Prelude.{
  ◌+◌, ◌≡◌, refl, none, some, [], ◌∷◌, ◌++◌, Bytes, codes, ok, err, arith, replicate, auth_failed,
  conflict, ◌=ᵇ◌,
}
use sshpilot_vallete.Prelude.Assoc
use sshpilot_vallete.Prelude.Runes.{runes}
use sshpilot_vallete.Counter.Memory.{MemoryStore, new_memory_store, memory_port}
use sshpilot_vallete.Counter.Memory.Refines.{memory-Contract}
use sshpilot_vallete.Auth.Scopes
use sshpilot_vallete.Auth.Scopes.{Scope, read_only, single_set, validate_scopes, seen_before}
use sshpilot_vallete.Auth.Denylist.{RefreshCredential}
use sshpilot_vallete.Auth.Denylist
use sshpilot_vallete.Auth.AccessToken.{claims_of}
use sshpilot_vallete.Auth.Token.{
  contains, token_separator, cut_prefix, cut, parse_device_code, validate_client_label,
  refresh_token_prefix,
}
use sshpilot_vallete.Auth.Tokens.{Issued, refresh_lineage_lifetime}
use sshpilot_vallete.Auth.Tokens.Replay.{sound_engine}
use sshpilot_vallete.Auth.Enrollment.{hash_device_secret, authenticate, validate_principal}
use sshpilot_vallete.Auth.Enrollment.Service.{approval_key, approve, redeem, revoke}
use sshpilot_vallete.Auth.Enrollment.Service.Redeemed.{IsRedeemed, redeem-IsRedeemed}
use sshpilot_vallete.Auth.Enrollment.Service.Refused.{revoke-late, approve-over_limit}
use sshpilot_vallete.Auth.Sessions.{revoke_call, run, run-IsLater, redeemed_once}
use sshpilot_vallete.Storage.Table.{at_key, first, count}
use sshpilot_vallete.Storage.Pairings.{pairing_at}
use sshpilot_vallete.Storage.Steps.{IsLater, IsKeyed}
use sshpilot_vallete.Storage.Db
use sshpilot_vallete.Storage.Db.{Owner, Tables, Db, DevicePairing, LinkedIdentity}
use sshpilot_vallete.Examples.Sessions.{
  raw_access, plain, shift, shift_back, crypto, one_set, next_fresh, last_fresh, tables, db, at_ten,
  calls,
}

abbrev device_id : Bytes
device_id = plain.encode (replicate 16 5)

abbrev pairing : DevicePairing
pairing = record {
  id = device_id;
  owner_id = codes "o1";
  device_code_hash = hash_device_secret crypto (replicate 32 6);
  user_code_hash = [];
  client_label = codes "phone";
  scopes = one_set;
  status = Db.approved;
  lineage_id = [];
  next_poll_at = 0;
  created_at = 0;
  expires_at = 600000000000;
  approved_at = some 0;
  redeemed_at = none;
  revoked_at = none;
}

abbrev pairing_link : LinkedIdentity
pairing_link = record {
  id = device_id;
  owner_id = codes "o1";
  provider = codes "api-token";
  subject = device_id;
  email = none;
  created_at = 0;
  updated_at = 0;
}

abbrev paired : Db
paired = record {
  tables = record tables { links = pairing_link ∷ []; pairings = pairing ∷ [] };
  faults = [];
}

abbrev device_code : Bytes
device_code = codes "svd_" ++ (device_id ++ (token_separator ∷ plain.encode (replicate 32 6)))

abbrev device_issued : Issued
device_issued = record {
  refresh_token =
      refresh_token_prefix
      ++ (plain.encode (replicate 16 2) ++ (token_separator ∷ plain.encode (replicate 32 8)));
  refresh_expires_at = 10 + refresh_lineage_lifetime;
  access_token = raw_access;
  access_expires_at = 10 + Denylist.access_token_lifetime;
  owner_id = codes "o1";
  lineage_id = plain.encode (replicate 16 2);
  scopes = one_set;
}

paired-IsKeyed : IsKeyed paired.tables.pairings
unfolding at_key ◌=ᵇ◌ shift
paired-IsKeyed = (refl, tt)

redeemed_device :
    (redeem crypto memory_port at_ten device_code next_fresh 9 10 (paired, new_memory_store)).0
    ≡ ok device_issued
unfolding redeem parse_device_code shift shift_back cut_prefix cut contains ◌=ᵇ◌ validate_scopes
    Scopes.validate seen_before authenticate at_key validate_principal runes validate_client_label
    claims_of
redeemed_device = refl

redeem-IsRedeemed_example :
    (id : Bytes) × (secret : Bytes) × (parse_device_code plain device_code ≡ ok (id, secret))
    × IsRedeemed crypto memory_port id secret next_fresh 9 10 paired.tables
        (redeem crypto memory_port at_ten device_code next_fresh 9 10 (paired, new_memory_store))
        device_issued
redeem-IsRedeemed_example =
    redeem-IsRedeemed crypto memory_port at_ten device_code next_fresh 9 10 paired new_memory_store
      device_issued paired-IsKeyed redeemed_device

redeemed_once_example :
    (redeem crypto memory_port at_ten device_code last_fresh 11 12 (
      run crypto memory_port calls
        (redeem crypto memory_port at_ten device_code next_fresh 9 10
          (paired, new_memory_store)).1)).0
    ≡ err auth_failed
redeemed_once_example =
    redeemed_once crypto memory_port at_ten at_ten device_code next_fresh last_fresh 9 10 11 12
      device_issued calls paired new_memory_store paired-IsKeyed redeemed_device

run-IsLater_example :
    (q : DevicePairing) × (pairing_at
        (run crypto memory_port
          (revoke_call at_ten (codes "o1") device_id 10 ∷ calls)
          (paired, new_memory_store)).0.tables.pairings
        device_id
      ≡ some q)
    × IsLater pairing q
unfolding at_key ◌=ᵇ◌ shift
run-IsLater_example =
    run-IsLater crypto memory_port (revoke_call at_ten (codes "o1") device_id 10 ∷ calls) paired
      new_memory_store device_id pairing refl

abbrev redeemed_tables : Tables
redeemed_tables = record tables {
  pairings =
      record pairing { status = Db.redeemed; lineage_id = plain.encode (replicate 16 1) } ∷ [];
}

-- The lineage of the pairing has an active credential all along.
revoke-late_example :
    revoke crypto memory_port at_ten
      (codes "o1")
      device_id
      20
      (sound_engine redeemed_tables, new_memory_store)
    ≡ (some conflict, (sound_engine redeemed_tables, new_memory_store))
unfolding first count ◌=ᵇ◌ shift
revoke-late_example =
    revoke-late crypto memory_port at_ten (codes "o1") device_id 20 redeemed_tables new_memory_store
      (record pairing { status = Db.redeemed; lineage_id = plain.encode (replicate 16 1) }) refl
      refl refl

abbrev tried : MemoryStore
tried = record {
  entries = (approval_key crypto (codes "o1"), record { value = 20; expires_at = 500 }) ∷ [];
  ops = 3;
}

approve-over_limit_example :
    ((approve crypto memory_port at_ten (codes "o1") (codes "ABCD-EFGH") 10 (db, tried)).0
      ≡ some auth_failed)
    × ((approve crypto memory_port at_ten (codes "o1") (codes "ABCD-EFGH") 10 (db, tried)).1.0 ≡ db)
unfolding approval_key Assoc.get ◌=ᵇ◌
approve-over_limit_example =
    approve-over_limit crypto memory_port memory-Contract at_ten (codes "o1") (codes "ABCD-EFGH") 10
      db tried 20 500 (refl, tt) refl (λ e. cc) refl (omega arith) (omega arith)
