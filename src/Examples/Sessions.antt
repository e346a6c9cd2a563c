-- ===== src/Examples/Sessions.antt =====
-- internal/auth's sessions on concrete tokens, codes and tables.
use sshpilot_vallete.Prelude.{
  Result, Option, subst, ◌+◌, ◌-◌, ◌≡◌, refl, ap, false, none, some, List, [], ◌∷◌, ◌++◌, Bytes,
  codes, ok, err, arith, length, replicate, take, length, drop, auth_failed, ◌=ᵇ◌, is_not_found,
}
use sshpilot_vallete.Counter.Port.{Context}
use sshpilot_vallete.Counter.Memory.{new_memory_store, memory_port}
use sshpilot_vallete.Auth.Scopes
use sshpilot_vallete.Auth.Scopes.{Scope, read_only, single_set, validate_scopes, seen_before}
use sshpilot_vallete.Auth.Denylist.{RefreshCredential}
use sshpilot_vallete.Auth.Denylist
use sshpilot_vallete.Auth.Token.{
  Encoding, contains, token_separator, cut_prefix, cut, parse_refresh_token, parse_device_code,
  format_refresh_token, format_device_code, refresh_token_prefix,
}
use sshpilot_vallete.Auth.AccessToken.{
  AccessClaims, Signer, access_token_prefix, to_unix, from_unix, claims_of, token_of, issue_access,
  verify_access,
}
use sshpilot_vallete.Auth.AccessToken.Verified.{verify_access-issue_access}
use sshpilot_vallete.Auth.Denylist.{AccessToken}
use sshpilot_vallete.Auth.Token.Codec.{IsBase64, parse-format}
use sshpilot_vallete.Auth.UserCode.{new_user_code, normalize_user_code}
use sshpilot_vallete.Auth.UserCode.Typed.{normalize_user_code-new_user_code}
use sshpilot_vallete.Auth.Tokens.{
  Fresh, Issued, Crypto, root, mint, exchange, refresh_lineage_lifetime,
}
use sshpilot_vallete.Auth.Tokens.Lineage.{IsExchanged, exchange-cases}
use sshpilot_vallete.Auth.Sessions.{
  Call, issue_call, exchange_call, poll_call, run, run-IsSound, exchanged_once,
}
use sshpilot_vallete.Storage.Table.{at_key, first, count}
use sshpilot_vallete.Storage.Changes.{IsSound, active_in}
use sshpilot_vallete.Storage.Db
use sshpilot_vallete.Storage.Db.{Owner, Tables, Db, DevicePairing, LinkedIdentity}
use sshpilot_vallete.Storage.Credentials.{get_by_id, owner_get, mark_rotated, create, rotate_row}

-- A stand-in for base64: six bytes in front, and each byte moved past the full stop.
unfoldable pub shift_back : Bytes → Bytes
shift_back [] = []
shift_back (c ∷ cs) = (c - 47) ∷ shift_back cs

unfoldable pub shift : Bytes → Bytes
shift [] = []
shift (c ∷ cs) = (c + 47) ∷ shift cs

shift_back-shift : (b : Bytes) → shift_back (shift b) ≡ b
unfolding shift_back shift
shift_back-shift [] = refl
shift_back-shift (c ∷ cs) = ground (arith, shift_back-shift cs)

shift_plain : (b : Bytes) → contains token_separator (shift b) ≡ false
unfolding shift contains
shift_plain [] = refl
shift_plain (c ∷ cs) = ground (arith, shift_plain cs)

length-shift : (b : Bytes) → length (shift b) ≡ length b
unfolding shift
length-shift [] = refl
length-shift (c ∷ cs) = ground (arith, length-shift cs)

abbrev filler : Bytes
filler = 47 ∷ 47 ∷ 47 ∷ 47 ∷ 47 ∷ 47 ∷ []

abbrev pub plain : Encoding
plain = record { encode = λ b. filler ++ shift b; decode = λ b. some (shift_back (drop 6 b)) }

plain-IsBase64 : IsBase64 plain
unfolding contains
plain-IsBase64 = record {
  decode_encode = λ b. ap some (shift_back-shift b);
  encode_plain = λ b. shift_plain b;
  encode_id = λ b h. omega (arith, length-shift b);
}

parse-format_example :
    (parse_refresh_token plain
        (format_refresh_token plain (plain.encode (replicate 16 3)) (replicate 32 7))
      ≡ ok (plain.encode (replicate 16 3), replicate 32 7))
    × (parse_device_code plain
          (format_device_code plain (plain.encode (replicate 16 3)) (replicate 32 7))
        ≡ ok (plain.encode (replicate 16 3), replicate 32 7))
    × (parse_refresh_token plain
          (format_device_code plain (plain.encode (replicate 16 3)) (replicate 32 7))
        ≡ err auth_failed)
    × (parse_device_code plain
          (format_refresh_token plain (plain.encode (replicate 16 3)) (replicate 32 7))
        ≡ err auth_failed)
parse-format_example = parse-format plain plain-IsBase64 (replicate 16 3) (replicate 32 7) refl refl

normalize_user_code-new_user_code_example :
    (normalize_user_code (new_user_code (codes "abcdefgh")).0
      ≡ ok (new_user_code (codes "abcdefgh")).1)
    × (normalize_user_code (new_user_code (codes "abcdefgh")).1
        ≡ ok (new_user_code (codes "abcdefgh")).1)
normalize_user_code-new_user_code_example =
    normalize_user_code-new_user_code (codes "abcdefgh") refl

abbrev pub one_set : List Scope
one_set = record { kind = single_set; resource_id = codes "s1" } ∷ []

-- A stand-in for JSON: the fields one after the other, each text behind its length.
abbrev marshal : AccessClaims → Result Bytes
marshal c = ok (
    c.ver
    ∷ (c.issued_at
        ∷ (c.expires ∷ (length c.id ∷ (length c.owner ∷ (c.id ++ (c.owner ++ c.refresh)))))))

abbrev unmarshal : Bytes → Option AccessClaims
unmarshal (ver ∷ (issued_at ∷ (expires ∷ (m ∷ (n ∷ rest))))) = some (record {
  ver = ver;
  id = take m rest;
  owner = take n (drop m rest);
  refresh = drop n (drop m rest);
  scopes = one_set;
  issued_at = issued_at;
  expires = expires;
})
unmarshal _ = none

abbrev signer : Signer
signer = record { mac = λ b. 3 ∷ b; marshal = marshal; unmarshal = unmarshal }

abbrev pub crypto : Crypto
crypto = record { encoding = plain; hash = λ b. 7 ∷ b; key_digest = λ b. 1 ∷ b; signer = signer }

abbrev pub first_fresh : Fresh
first_fresh = record {
  credential_id = plain.encode (replicate 16 1);
  secret = replicate 32 7;
  token_id = codes "t1";
}

abbrev pub next_fresh : Fresh
next_fresh = record {
  credential_id = plain.encode (replicate 16 2);
  secret = replicate 32 8;
  token_id = codes "t2";
}

abbrev pub last_fresh : Fresh
last_fresh = record {
  credential_id = plain.encode (replicate 16 4);
  secret = replicate 32 9;
  token_id = codes "t3";
}

abbrev owner : Owner
owner = record {
  id = codes "o1";
  status = Db.active;
  created_at = 0;
  updated_at = 0;
  deleted_at = none;
}

abbrev pub first_root : RefreshCredential
first_root = root crypto (codes "o1") one_set (codes "laptop") first_fresh 5

abbrev pub tables : Tables
tables = record { owners = owner ∷ []; links = []; credentials = first_root ∷ []; pairings = [] }

abbrev pub db : Db
db = record { tables = tables; faults = [] }

abbrev presented : Bytes
presented =
    refresh_token_prefix
    ++ (plain.encode (replicate 16 1) ++ (token_separator ∷ plain.encode (replicate 32 7)))

abbrev pub at_ten : Context
at_ten = record { canceled = false; now = 10 }

-- The text of an access token for the second identifier.
abbrev payload : Bytes
payload =
    1 ∷ (0 ∷ (900 ∷ (2 ∷ (2 ∷ (codes "t2" ++ (codes "o1" ++ plain.encode (replicate 16 2)))))))

abbrev pub raw_access : Bytes
raw_access =
    access_token_prefix
    ++ (plain.encode payload ++ (token_separator ∷ plain.encode (3 ∷ plain.encode payload)))

abbrev issued : Issued
issued = record {
  refresh_token =
      refresh_token_prefix
      ++ (plain.encode (replicate 16 2) ++ (token_separator ∷ plain.encode (replicate 32 8)));
  refresh_expires_at = 5 + refresh_lineage_lifetime;
  access_token = raw_access;
  access_expires_at = 10 + Denylist.access_token_lifetime;
  owner_id = codes "o1";
  lineage_id = plain.encode (replicate 16 1);
  scopes = one_set;
}

exchanged :
    (exchange crypto memory_port at_ten presented next_fresh 10 (db, new_memory_store)).0
    ≡ ok issued
unfolding exchange parse_refresh_token shift shift_back cut_prefix cut contains ◌=ᵇ◌ validate_scopes
    Scopes.validate seen_before get_by_id owner_get mark_rotated create format_refresh_token mint
    is_not_found at_key claims_of
exchanged = refl

exchange-cases_example :
    IsExchanged crypto memory_port at_ten presented next_fresh 10 tables
      (exchange crypto memory_port at_ten presented next_fresh 10 (db, new_memory_store)).1.0.tables
      (exchange crypto memory_port at_ten presented next_fresh 10 (db, new_memory_store)).0
exchange-cases_example =
    exchange-cases crypto memory_port at_ten presented next_fresh 10 db new_memory_store

-- An issue for another client, and the second exchange of the first token.
abbrev pub calls : List Call
calls =
    issue_call (codes "o1") one_set (codes "phone") last_fresh 20
    ∷ exchange_call at_ten presented next_fresh 10
    ∷ exchange_call at_ten presented next_fresh 12
    ∷ poll_call (codes "svd_x") 13
    ∷ []

tables-IsSound : IsSound tables.credentials
unfolding IsSound active_in count at_key first ◌=ᵇ◌ shift
tables-IsSound = (((first_root, refl, refl, refl), tt), λ lineage. ground arith)

run-IsSound_example :
    IsSound (run crypto memory_port calls (db, new_memory_store)).0.tables.credentials
run-IsSound_example = run-IsSound crypto memory_port calls (db, new_memory_store) tables-IsSound

exchanged_once_example :
    (exchange crypto memory_port at_ten presented last_fresh 30 (
      run crypto memory_port calls
        (exchange crypto memory_port at_ten presented next_fresh 10 (db, new_memory_store)).1)).0
    ≡ err auth_failed
exchanged_once_example =
    exchanged_once crypto memory_port at_ten at_ten presented next_fresh last_fresh 10 30 issued
      calls db new_memory_store exchanged

abbrev spent_tables : Tables
spent_tables = record tables { credentials = rotate_row first_root ∷ [] }

abbrev access : AccessToken
access = record {
  id = codes "t2";
  owner_id = codes "o1";
  refresh_credential_id = plain.encode (replicate 16 2);
  scopes = one_set;
  issued_at = 10;
  expires_at = 10 + Denylist.access_token_lifetime;
}

access_issued : issue_access plain signer access ≡ ok raw_access
unfolding issue_access claims_of to_unix validate_scopes Scopes.validate seen_before ◌=ᵇ◌ shift
access_issued = refl

access_reads :
    (p : Bytes)
    → signer.marshal (claims_of access) ≡ ok p
    → signer.unmarshal p ≡ some (claims_of access)
unfolding claims_of to_unix shift
access_reads p e =
    let same : payload ≡ p = ground arith in
    subst (λ x. signer.unmarshal x ≡ some (claims_of access)) same refl

verify_access-issue_access_example :
    verify_access plain signer raw_access 20 ≡ ok (token_of (claims_of access))
unfolding claims_of to_unix from_unix shift
verify_access-issue_access_example =
    verify_access-issue_access plain signer plain-IsBase64 access raw_access 20 access_reads
      access_issued (omega arith) (omega arith)
