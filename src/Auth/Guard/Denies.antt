-- ===== src/Auth/Guard/Denies.antt =====
-- authorization.go: when a request is authorized, and by what.
use sshpilot_vallete.Prelude.{
  ◌≡◌, ◌≢◌, ◌⊎◌, inl, inr, true, none, some, [], Bytes, =ᵇ_iff, Result, ok, arith, Option-cases,
  Result-cases,
}
use sshpilot_vallete.Prelude.Word.{Time}
use sshpilot_vallete.Counter.Port.{Context, Store}
use sshpilot_vallete.Auth.Denylist.{AccessToken, check}
use sshpilot_vallete.Auth.Guard.{Access, Authorization, validate, permits_access, decide, authorize}

-- What a grant rests on: a well-formed request, a verified token with an owner that is not on the
-- denylist, the owner's boundary, and the token's scopes.
pub record IsEarned (digest : Bytes → Bytes) {S : Type 0} (store : Store S) (c : Context)
    (acc : Access) (s : S) (tok : AccessToken) : Type 0 where
  pub well_formed : validate acc ≡ none
  pub owned : tok.owner_id ≢ []
  pub not_listed : (check digest store c (some tok) s).0 ≡ none
  pub within_owner : (acc.owner ≡ []) ⊎ (acc.owner ≡ tok.owner_id)
  pub in_scope : permits_access tok.scopes acc ≡ true

module _ (digest : Bytes → Bytes) {S : Type 0} (store : Store S)
    (verify : Bytes → Time → Result AccessToken) (c : Context) (presented : Bytes) (acc : Access)
    (now : Time) (s : S) where
  IsEarned-decide :
      (tok : AccessToken)
      → validate acc ≡ none
      → (decide digest store c tok acc s).0 ≡ none
      → IsEarned digest store c acc s tok
  unfolding decide
  IsEarned-decide tok v h = record {
    well_formed = v;
    owned = λ e. ground (arith, =ᵇ_iff tok.owner_id []);
    not_listed = ground arith;
    within_owner = ground (arith, =ᵇ_iff acc.owner [], =ᵇ_iff acc.owner tok.owner_id);
    in_scope = ground arith;
  }

  -- A request is authorized only if the presented token verifies and the grant is earned, and then
  -- the authorization carries the owner, both identifiers and the scopes of that token.
  pub authorize-IsEarned :
      (a : Authorization)
      → (authorize digest store verify c presented acc now s).0 ≡ ok a
      → (tok : AccessToken) × (verify presented now ≡ ok tok)
        × IsEarned digest store c acc s tok
        × (a.owner ≡ tok.owner_id)
        × (a.token_id ≡ tok.id)
        × (a.credential ≡ tok.refresh_credential_id)
        × (a.scopes ≡ tok.scopes)
  unfolding authorize
  authorize-IsEarned a h = elim (Option-cases (validate acc)) [
    | inr (e, bad) ↦ absurd (ground arith)
    | inl v ↦ elim (Result-cases (verify presented now)) [
      | inr (e, bad) ↦ absurd (ground arith)
      | inl (tok, good) ↦ (
        tok,
        good,
        IsEarned-decide tok v (ground arith),
        ground arith,
        ground arith,
        ground arith,
        ground arith,
      )
    ]
  ]
