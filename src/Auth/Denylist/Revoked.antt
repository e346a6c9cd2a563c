-- ===== src/Auth/Denylist/Revoked.antt =====
-- denylist.go: a revoked credential is refused for as long as its tokens live, whatever else the
-- store's clients call in between, on any store that meets the port's contract.
use sshpilot_vallete.Prelude.{
  ◌+◌, ◌≤◌, ◌<◌, ◌≡◌, ◌≢◌, ◌∙◌, false, Option, none, some, List, [], Bytes, =ᵇ_iff, =ᵇ_refl,
  auth_failed, unavailable, if◌then◌else◌, arith, length, Option-cases, inl, inr, ℕ,
}
use sshpilot_vallete.Prelude.Word.{Time, sign_bit}
use sshpilot_vallete.Counter.Port.{Context, Entry, Store, Contract, live, bump, refused, Call, run}
use sshpilot_vallete.Auth.Denylist.{
  AccessToken, access_token_lifetime, denylist_entry_ttl, credential_key, check, revoke_credential,
}
use sshpilot_vallete.Auth.Denylist.Standing.{Spares, Stands, run-Stands}

module _ (digest : Bytes → Bytes) (digest_filled : (b : Bytes) → digest b ≢ []) {S : Type 0}
    (store : Store S) {IsValid : S → Type 0} {view : S → Time → Bytes → Option Entry}
    (contract : Contract store IsValid view) where
  key_filled : (id : Bytes) → credential_key digest id ≢ []
  unfolding credential_key
  key_filled id = digest_filled _

  -- An entry that stands at the check is a refusal.
  check_listed :
      (d : Context) (tok : AccessToken) (s : S)
      → Stands store contract d.now (credential_key digest tok.refresh_credential_id) s 0
      → tok.refresh_credential_id ≢ []
      → (check digest store d (some tok) s).0
        ≡ some (if d.canceled then unavailable else auth_failed)
  unfolding check
  check_listed d tok s (v, e, h, p, b) n = ground (
    arith,
    =ᵇ_iff tok.refresh_credential_id [],
    contract.get_result d (credential_key digest tok.refresh_credential_id) s v
        (key_filled tok.refresh_credential_id),
    contract.get_canceled d (credential_key digest tok.refresh_credential_id) s v
        (key_filled tok.refresh_credential_id),
  )

  -- A revocation that answers no error has written its entry.
  revoked-write :
      (c : Context) (id : Bytes) (s : S)
      → IsValid s
      → (revoke_credential digest store c id s).0 ≡ none
      → (id ≢ [])
        × (c.canceled ≡ false)
        × ((revoke_credential digest store c id s).1
            ≡ (store.increment c (credential_key digest id) 1 denylist_entry_ttl s).1)
  unfolding revoke_credential
  revoked-write c id s v h = (
    λ e. ground (arith, =ᵇ_iff id []),
    ground (
      arith,
      contract.increment_canceled c (credential_key digest id) 1 denylist_entry_ttl s v
          (key_filled id),
    ),
    ground arith,
  )

  -- What an increment by one leaves of an entry of the key, or starts.
  started-Stands :
      (c : Context) (key : Bytes) (s : S) (t : Time) (n : ℕ)
      → ((e : Entry)
          → view s c.now key ≡ some e
          → (t < e.expires_at) × (e.value + 1 + n < sign_bit))
      → t < c.now + denylist_entry_ttl
      → 1 + n < sign_bit
      → (e : Entry) × (live t (some (bump c.now 1 denylist_entry_ttl (view s c.now key))) ≡ some e)
        × (0 < e.value)
        × (e.value + n < sign_bit)
  started-Stands c key s t n covers lt room = elim (Option-cases (view s c.now key)) [
    | inl new ↦ (
      record { value = 1; expires_at = c.now + denylist_entry_ttl },
      rw new (ground arith),
      omega arith,
      omega arith,
    )
    | inr (e, old) ↦ (
      record { value = e.value + 1; expires_at = e.expires_at },
      rw old (ground (arith, covers e old)),
      omega arith,
      omega (arith, covers e old),
    )
  ]

  -- The entry that stands after a revocation, for as long as the one it wrote or found.
  revoked-Stands :
      (c : Context) (id : Bytes) (s : S) (t : Time) (n : ℕ)
      → IsValid s
      → (revoke_credential digest store c id s).0 ≡ none
      → ((e : Entry)
          → view s c.now (credential_key digest id) ≡ some e
          → (t < e.expires_at) × (e.value + 1 + n < sign_bit))
      → c.now ≤ t
      → t < c.now + denylist_entry_ttl
      → 1 + n < sign_bit
      → Stands store contract t
          (credential_key digest id)
          (revoke_credential digest store c id s).1
          n
  revoked-Stands c id s t n v h covers le lt room =
      let key = credential_key digest id in
      let (filled, open_call, written) = revoked-write c id s v h in
      let accepted : refused c key 1 denylist_entry_ttl ≡ false =
        ground (arith, =ᵇ_iff key [], key_filled id) in
      let after = contract.increment_view c key 1 denylist_entry_ttl s t key v accepted le in
      let w = started-Stands c key s t n covers lt room in
      rw written (
        contract.increment_IsValid c key 1 denylist_entry_ttl s v,
        w.0,
        after ∙ rw (=ᵇ_refl key) w.1,
        w.2,
        w.3,
      )

  -- On any store that meets the port's contract, with a digest that is never empty: once a
  -- revocation of a credential answered no error, every access token that the credential minted
  -- until then, for at most the access token's lifetime, is refused at every check before the
  -- token's own expiry, with the denial or, where the check's context is canceled, with the store's
  -- error. In between the store's clients may have made fewer than 2 ^ 63 - 1 other calls up to the
  -- check, none of which deletes the credential's entry or adds other than one to it; an entry that
  -- the revocation found already there, whose expiry it does not extend, is asked to outlive the
  -- token and to have room for these counts.
  pub revoked_for_life :
      (c d : Context) (tok : AccessToken) (s : S) (cs : List Call)
      → IsValid s
      → (revoke_credential digest store c tok.refresh_credential_id s).0 ≡ none
      → ((e : Entry)
          → view s c.now (credential_key digest tok.refresh_credential_id) ≡ some e
          → (tok.expires_at ≤ e.expires_at) × (e.value + 1 + length cs < sign_bit))
      → tok.issued_at ≤ c.now
      → tok.expires_at ≤ tok.issued_at + access_token_lifetime
      → Spares d.now (credential_key digest tok.refresh_credential_id) cs
      → 1 + length cs < sign_bit
      → c.now ≤ d.now
      → d.now < tok.expires_at
      → (check digest store d
          (some tok)
          (run store cs (revoke_credential digest store c tok.refresh_credential_id s).1)).0
        ≡ some (if d.canceled then unavailable else auth_failed)
  revoked_for_life c d tok s cs v h covers minted life spares room le lt =
      let key = credential_key digest tok.refresh_credential_id in
      let stands =
        revoked-Stands c tok.refresh_credential_id s d.now (length cs) v h
          (λ e seen. let (a, b) = covers e seen in (omega arith, b)) le (omega arith) room in
      check_listed d tok
        (run store cs (revoke_credential digest store c tok.refresh_credential_id s).1)
        (run-Stands store contract d.now key cs
          (revoke_credential digest store c tok.refresh_credential_id s).1 0 spares
          (stands.0, stands.1, stands.2, stands.3, omega (arith, stands.4)))
        (revoked-write c tok.refresh_credential_id s v h).0
