-- ===== src/Auth/Enrollment/Service/Refused.antt =====
-- enrollment.go: what is refused: a code that is spent, a revocation that comes too late, an approval
-- over the limit.
use sshpilot_vallete.Prelude.{
  ℕ, ◌+◌, ◌≤◌, ◌<◌, ◌≡◌, ◌≢◌, refl, inl, inr, true, false, ◌||◌, Option, some, [], Bytes, ◌=ᵇ◌,
  =ᵇ_iff, Err, Result, Result-cases, Bool-cases, ok, err, auth_failed, conflict, arith, &&-true,
}
use sshpilot_vallete.Prelude.Word.{Time, sign_bit}
use sshpilot_vallete.Counter.Port.{Context, Entry, Store, Contract}
use sshpilot_vallete.Auth.Token.{parse_device_code}
use sshpilot_vallete.Auth.Tokens.{Fresh, Crypto}
use sshpilot_vallete.Auth.Enrollment.{authenticate, pairing_lifetime, max_approval_attempts}
use sshpilot_vallete.Auth.Enrollment.Authenticated.{authenticate-ok, code_stands-approved}
use sshpilot_vallete.Auth.Enrollment.Service.{
  redeeming, redeem, approval_key, over_limit, over_approval_limit, approve, revoked_row, revoking,
  revoke,
}
use sshpilot_vallete.Storage.Db.{Tables, Db, DevicePairing, call, charge}
use sshpilot_vallete.Storage.Table.{count, first, update-unmatched, first-test}
use sshpilot_vallete.Storage.Pairings.{
  is_approved, pairing_at, is_owned_pairing, is_to_revoke, revoke_pairing_row, classify,
  owned_pairing, revoke_pairing,
}

module _ (crypto : Crypto) {S : Type 0} (store : Store S) where
  denied_redeeming :
      (ctx : Context) (id : Bytes) (fresh : Fresh) (now : Time) (s : S) (e : Err)
      (x : Result Bytes × Db)
      → x.0 ≡ err e
      → (redeeming crypto store ctx id fresh now s x).0 ≡ err auth_failed
  unfolding redeeming
  denied_redeeming ctx id fresh now s e (err y, d) h = refl
  denied_redeeming ctx id fresh now s e (ok y, d) h = ground arith

  -- A device code whose pairing is not approved redeems nothing.
  pub redeem-denied :
      (ctx : Context) (code id secret : Bytes) (fresh : Fresh) (checked now : Time) (d : Db) (s : S)
      (p : DevicePairing)
      → parse_device_code crypto.encoding code ≡ ok (id, secret)
      → pairing_at d.tables.pairings id ≡ some p
      → is_approved p.status ≡ false
      → (redeem crypto store ctx code fresh checked now (d, s)).0 ≡ err auth_failed
  unfolding redeem
  redeem-denied ctx code id secret fresh checked now d s p e at spent =
      rw (redeem, e)
        (elim (Result-cases (authenticate crypto id secret checked d).0) [
          | inr (y, f) ↦
              denied_redeeming ctx id fresh now s y (authenticate crypto id secret checked d) f
          | inl (owner, f) ↦
              let (kept, (q, held, stands), standing) =
                authenticate-ok crypto id secret owner checked d f in
              let approved = code_stands-approved crypto id secret checked q stands in
              let agree : q ≡ p = ground arith in ground (arith, agree)
        ])

  -- The conditional UPDATE that matches no row.
  revoking_late :
      (owner id : Bytes) (now : Time) (t : Tables) (p : DevicePairing)
      → first (is_owned_pairing owner id) t.pairings ≡ some p
      → count (is_to_revoke owner id) t.pairings ≡ 0
      → revoke_pairing owner id now (record { tables = t; faults = [] })
        ≡ (err conflict, record { tables = t; faults = [] })
  unfolding revoke_pairing classify owned_pairing call charge
  revoking_late owner id now t p at late =
      rw
        (
          revoke_pairing,
          update-unmatched (is_to_revoke owner id) (revoke_pairing_row now) t.pairings late,
          late,
          classify,
          owned_pairing,
          at,
        )
        refl

  -- On an engine that refuses nothing, Revoke of a pairing of the owner's that is neither pending nor
  -- approved any more is a conflict that changes nothing: the credentials and the denylist stay as
  -- they are.
  pub revoke-late :
      (ctx : Context) (owner id : Bytes) (now : Time) (t : Tables) (s : S) (p : DevicePairing)
      → (owner =ᵇ [] || id =ᵇ []) ≡ false
      → first (is_owned_pairing owner id) t.pairings ≡ some p
      → count (is_to_revoke owner id) t.pairings ≡ 0
      → revoke crypto store ctx owner id now (record { tables = t; faults = [] }, s)
        ≡ (some conflict, (record { tables = t; faults = [] }, s))
  unfolding revoke revoking revoked_row owned_pairing call charge
  revoke-late ctx owner id now t s p filled at late =
      let own =
        (&&-true (p.id =ᵇ id) (p.owner_id =ᵇ owner)
          (first-test (is_owned_pairing owner id) p t.pairings at)).1 in
      rw (revoke, filled, owned_pairing, at, revoking, own, revoking_late owner id now t p at late)
        refl

  over_limit_lem :
      {IsValid : S → Type 0} {view : S → Time → Bytes → Option Entry}
      (contract : Contract store IsValid view) (ctx : Context) (owner : Bytes) (s : S) (n end : ℕ)
      → IsValid s
      → ctx.canceled ≡ false
      → approval_key crypto owner ≢ []
      → view s ctx.now (approval_key crypto owner) ≡ some (record { value = n; expires_at = end })
      → max_approval_attempts ≤ n
      → n + 1 < sign_bit
      → (over_approval_limit crypto store ctx owner s).0 ≡ true
  unfolding over_approval_limit over_limit
  over_limit_lem contract ctx owner s n end valid live filled seen many small = ground (
    arith,
    contract.increment_result ctx (approval_key crypto owner) 1 pairing_lifetime s valid,
    =ᵇ_iff (approval_key crypto owner) [],
  )

  -- On any counter store that meets the port's contract, once an owner has made twenty attempts in the
  -- limiter's window, Approve answers the denial and leaves the database as it is, whatever the code.
  pub approve-over_limit :
      {IsValid : S → Type 0} {view : S → Time → Bytes → Option Entry}
      (contract : Contract store IsValid view) (ctx : Context) (owner code : Bytes) (now : Time)
      (d : Db) (s : S) (n end : ℕ)
      → IsValid s
      → ctx.canceled ≡ false
      → approval_key crypto owner ≢ []
      → view s ctx.now (approval_key crypto owner) ≡ some (record { value = n; expires_at = end })
      → max_approval_attempts ≤ n
      → n + 1 < sign_bit
      → ((approve crypto store ctx owner code now (d, s)).0 ≡ some auth_failed)
        × ((approve crypto store ctx owner code now (d, s)).1.0 ≡ d)
  unfolding approve
  approve-over_limit contract ctx owner code now d s n end valid live filled seen many small =
      let over = over_limit_lem contract ctx owner s n end valid live filled seen many small in
      elim (Bool-cases (owner =ᵇ [])) [
        | inl e ↦ rw (approve, e) (refl, refl)
        | inr e ↦ rw (approve, e, over) (refl, refl)
      ]
