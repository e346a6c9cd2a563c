-- ===== src/Examples/Grants.antt =====
-- internal/auth on concrete scope sets, requests and tokens.
use sshpilot_vallete.Prelude.{
  ◌≢◌, ◌≡◌, ◌↔◌, refl, true, false, none, some, List, [], ◌∷◌, Bytes, codes, Result, ok, arith,
  auth_failed, ◌=ᵇ◌,
}
use sshpilot_vallete.Prelude.Assoc
use sshpilot_vallete.Prelude.Word.{Time}
use sshpilot_vallete.Counter.Port.{Context, Call, incr, del, run}
use sshpilot_vallete.Counter.Memory.{new_memory_store, increment, get, memory_port}
use sshpilot_vallete.Counter.Memory.Refines.{memory-Contract}
use sshpilot_vallete.Auth.Scopes
use sshpilot_vallete.Auth.Scopes.{Scope, read_only, single_set, validate_scopes, seen_before}
use sshpilot_vallete.Auth.Scopes.Shape.{IsGrant, validate_scopes-IsGrant}
use sshpilot_vallete.Auth.Denylist.{AccessToken, check, revoke_credential, credential_key}
use sshpilot_vallete.Auth.Denylist.Revoked.{revoked_for_life}
use sshpilot_vallete.Auth.Denylist.Standing.{Spares}
use sshpilot_vallete.Auth.Guard
use sshpilot_vallete.Auth.Guard.{Access, Authorization, key_set, permits_access, authorize}
use sshpilot_vallete.Auth.Guard.Ceiling.{Admits, permits_access-Admits}
use sshpilot_vallete.Auth.Guard.Denies.{IsEarned, authorize-IsEarned}
use sshpilot_vallete.Auth.Guard.Revocation.{revoked_unauthorized}

abbrev one_set : List Scope
one_set =
    record { kind = read_only; resource_id = [] }
    ∷ record { kind = single_set; resource_id = codes "s1" }
    ∷ []

abbrev read_set : Access
read_set = record {
  owner = codes "o1";
  resource = key_set;
  resource_id = codes "s1";
  mutating = false;
}

abbrev write_set : Access
write_set = record read_set { mutating = true }

validate_scopes-IsGrant_example : (validate_scopes one_set ≡ none) ↔ IsGrant one_set
validate_scopes-IsGrant_example = validate_scopes-IsGrant one_set

one_set_accepted : validate_scopes one_set ≡ none
unfolding validate_scopes Scopes.validate seen_before ◌=ᵇ◌
one_set_accepted = refl

permits_access-Admits_example : (permits_access one_set read_set ≡ true) ↔ Admits one_set read_set
permits_access-Admits_example = permits_access-Admits one_set read_set one_set_accepted

abbrev at_ten : Context
at_ten = record { canceled = false; now = 10 }

abbrev at_twenty : Context
at_twenty = record { canceled = false; now = 20 }

-- A stand-in for the digest: what it gives is never empty.
abbrev digest : Bytes → Bytes
digest b = 1 ∷ b

abbrev token : AccessToken
token = record {
  id = codes "t1";
  owner_id = codes "o1";
  refresh_credential_id = codes "r1";
  scopes = one_set;
  issued_at = 5;
  expires_at = 900000000005;
}

-- Another client's counter comes and goes, and the credential is revoked again.
abbrev between : List Call
between =
    incr at_ten (codes "x") 5 50
    ∷ del at_ten (codes "x")
    ∷ incr at_ten (credential_key digest (codes "r1")) 1 60
    ∷ []

first_revocation :
    (revoke_credential digest memory_port at_ten (codes "r1") new_memory_store).0 ≡ none
unfolding revoke_credential increment new_memory_store Assoc.get credential_key ◌=ᵇ◌
first_revocation = refl

between-Spares : Spares 20 (credential_key digest (codes "r1")) between
unfolding credential_key ◌=ᵇ◌
between-Spares =
    (omega arith, λ h. absurd (ground arith), (omega arith, refl, (omega arith, λ h. refl, tt)))

revoked_for_life_example :
    (check digest memory_port at_twenty (some token) (
      run memory_port between
        (revoke_credential digest memory_port at_ten (codes "r1") new_memory_store).1)).0
    ≡ some auth_failed
unfolding new_memory_store Assoc.get
revoked_for_life_example =
    revoked_for_life digest (λ b e. cc) memory_port memory-Contract at_ten at_twenty token
      new_memory_store between tt first_revocation (λ e h. absurd (ground arith)) (omega arith)
      (omega arith) between-Spares (omega arith) (omega arith) (omega arith)

-- A stand-in for the signer: every text is the token.
abbrev verify : Bytes → Time → Result AccessToken
verify presented now = ok token

abbrev grant : Authorization
grant = record {
  owner = codes "o1";
  token_id = codes "t1";
  credential = codes "r1";
  scopes = one_set;
}

granted :
    (authorize digest memory_port verify at_ten (codes "sva_x") read_set 10 new_memory_store).0
    ≡ ok grant
unfolding authorize Guard.validate check get new_memory_store Assoc.get credential_key
    permits_access Guard.decide Guard.scope_permits Guard.bound_scope_permits ◌=ᵇ◌
granted = refl

authorize-IsEarned_example :
    (tok : AccessToken) × (verify (codes "sva_x") 10 ≡ ok tok)
    × IsEarned digest memory_port at_ten read_set new_memory_store tok
    × (grant.owner ≡ tok.owner_id)
    × (grant.token_id ≡ tok.id)
    × (grant.credential ≡ tok.refresh_credential_id)
    × (grant.scopes ≡ tok.scopes)
authorize-IsEarned_example =
    authorize-IsEarned digest memory_port verify at_ten (codes "sva_x") read_set 10 new_memory_store
      grant granted

revoked_unauthorized_example :
    (authorize digest memory_port verify at_twenty (codes "sva_x") read_set 20 (
      run memory_port between
        (revoke_credential digest memory_port at_ten (codes "r1") new_memory_store).1)).0
    ≢ ok grant
unfolding new_memory_store Assoc.get
revoked_unauthorized_example =
    revoked_unauthorized digest (λ b e. cc) memory_port memory-Contract verify at_ten at_twenty
      token new_memory_store between (codes "sva_x") read_set 20 grant refl tt first_revocation
      (λ e h. absurd (ground arith)) (omega arith) (omega arith) between-Spares (omega arith)
      (omega arith) (omega arith)
