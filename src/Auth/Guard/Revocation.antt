-- ===== src/Auth/Guard/Revocation.antt =====
-- authorization.go over denylist.go: the guard after a revocation.
use sshpilot_vallete.Prelude.{
  ◌+◌, ◌≤◌, ◌<◌, ◌≡◌, ◌≢◌, Option, none, some, List, [], Bytes, Result, ok, arith, length,
}
use sshpilot_vallete.Prelude.Word.{Time, sign_bit}
use sshpilot_vallete.Counter.Port.{Context, Entry, Store, Contract, Call, run}
use sshpilot_vallete.Auth.Denylist.{
  AccessToken, access_token_lifetime, credential_key, revoke_credential,
}
use sshpilot_vallete.Auth.Denylist.Revoked.{revoked_for_life}
use sshpilot_vallete.Auth.Denylist.Standing.{Spares}
use sshpilot_vallete.Auth.Guard.{Access, Authorization, authorize}
use sshpilot_vallete.Auth.Guard.Denies.{authorize-IsEarned}

module _ (digest : Bytes → Bytes) (digest_filled : (b : Bytes) → digest b ≢ []) {S : Type 0}
    (store : Store S) {IsValid : S → Type 0} {view : S → Time → Bytes → Option Entry}
    (contract : Contract store IsValid view) (verify : Bytes → Time → Result AccessToken) where
  -- On any store that meets the port's contract, with a digest that is never empty: once a
  -- revocation of a credential answered no error, no request that presents one of the access tokens
  -- that it minted until then, for at most the access token's lifetime, is authorized, whatever it
  -- asks for, at any check before the token's expiry. In between the store's clients may have made
  -- fewer than 2 ^ 63 - 1 other calls up to the check, none of which deletes the credential's entry
  -- or adds other than one to it; an entry that the revocation found already there is asked to
  -- outlive the token and to have room for these counts.
  pub revoked_unauthorized :
      (c d : Context) (tok : AccessToken) (s : S) (cs : List Call) (presented : Bytes)
      (acc : Access) (now : Time) (a : Authorization)
      → verify presented now ≡ ok tok
      → IsValid s
      → (revoke_credential digest store c tok.refresh_credential_id s).0 ≡ none
      → ((e : Entry)
          → view s c.now (credential_key digest tok.refresh_credential_id) ≡ some e
          → (tok.expires_at ≤ e.expires_at) × (e.value + 1 + length cs < sign_bit))
      → tok.issued_at ≤ c.now
      → tok.expires_at ≤ tok.issued_at + access_token_lifetime
      → Spares d.now (credential_key digest tok.refresh_credential_id) cs
      → 1 + length cs < sign_bit
      → c.now ≤ d.now
      → d.now < tok.expires_at
      → (authorize digest store verify d presented acc now
          (run store cs (revoke_credential digest store c tok.refresh_credential_id s).1)).0
        ≢ ok a
  revoked_unauthorized c d tok s cs presented acc now a good v h covers minted life spares room le
        lt granted =
      let after = run store cs (revoke_credential digest store c tok.refresh_credential_id s).1 in
      let (tok', same, earned, _, _, _, _) =
        authorize-IsEarned digest store verify d presented acc now after a granted in
      let refused =
        revoked_for_life digest digest_filled store contract c d tok s cs v h covers minted life
          spares room le lt in
      ground (arith, earned.not_listed)
