-- ===== src/Auth/Sessions.antt =====
-- The token service and enrollment over the same tables: any sequence of their calls, each of them
-- whole. The engine may refuse any statement of any of them.
use sshpilot_vallete.Prelude.{
  ◌≡◌, ap, subst, inl, inr, some, List, [], ◌∷◌, Bytes, ok, err, auth_failed, arith,
}
use sshpilot_vallete.Prelude.Word.{Time}
use sshpilot_vallete.Counter.Port.{Context, Store}
use sshpilot_vallete.Auth.Scopes.{Scope}
use sshpilot_vallete.Auth.Tokens.{Fresh, Issued, Crypto, issue, exchange}
use sshpilot_vallete.Auth.Tokens.Lineage.{exchange-cases, exchange-Change, issue-Change, issue-rest}
use sshpilot_vallete.Auth.Tokens.Replay.{exchange-IsSpent, exchange_ok-IsSpent}
use sshpilot_vallete.Auth.Enrollment.{FreshPairing, start_device_grant, mint_pairing}
use sshpilot_vallete.Auth.Enrollment.Kept.{start_device_grant-IsStep, mint_pairing-IsStep}
use sshpilot_vallete.Auth.Enrollment.Service.{approve, poll, redeem, revoke}
use sshpilot_vallete.Auth.Enrollment.Service.Kept.{
  approve-IsStep, poll-IsStep, redeem-IsStep, revoke-IsStep,
}
use sshpilot_vallete.Auth.Enrollment.Service.Redeemed.{redeem-IsRedeemed, redeem-spent}
use sshpilot_vallete.Auth.Enrollment.Service.Refused.{redeem-denied}
use sshpilot_vallete.Storage.Db.{Db, DevicePairing}
use sshpilot_vallete.Storage.Changes.{IsSound}
use sshpilot_vallete.Storage.Pairings.{is_approved, pairing_at, redeem_row}
use sshpilot_vallete.Storage.Steps.{
  IsLater, IsKept, IsKeyed, IsStep, IsStep-refl, IsStep-trans, Change-IsStep, Changes-IsSound,
  Changes-IsSpent,
}

pub data Call : Type 0 where
  issue_call : Bytes → List Scope → Bytes → Fresh → Time → Call
  exchange_call : Context → Bytes → Fresh → Time → Call
  start_call : Bytes → List Scope → Bytes → FreshPairing → Time → Call
  mint_call : Bytes → Bytes → List Scope → FreshPairing → Time → Time → Call
  approve_call : Context → Bytes → Bytes → Time → Call
  poll_call : Bytes → Time → Call
  redeem_call : Context → Bytes → Fresh → Time → Time → Call
  revoke_call : Context → Bytes → Bytes → Time → Call

module _ (crypto : Crypto) {S : Type 0} (store : Store S) where
  -- The state after a call, whatever it answered.
  unfoldable pub apply : Call → Db × S → Db × S
  unfolding issue exchange start_device_grant mint_pairing approve poll redeem revoke
  apply (issue_call owner scopes label fresh now) (d, s) =
      ((issue crypto owner scopes label fresh now d).1, s)
  apply (exchange_call ctx presented fresh now) (d, s) =
      (exchange crypto store ctx presented fresh now (d, s)).1
  apply (start_call label scopes raw fresh now) (d, s) =
      ((start_device_grant crypto label scopes raw fresh now d).1, s)
  apply (mint_call owner label scopes fresh approved now) (d, s) =
      ((mint_pairing crypto owner label scopes fresh approved now d).1, s)
  apply (approve_call ctx owner code now) (d, s) =
      (approve crypto store ctx owner code now (d, s)).1
  apply (poll_call code now) (d, s) = ((poll crypto code now d).1, s)
  apply (redeem_call ctx code fresh checked now) (d, s) =
      (redeem crypto store ctx code fresh checked now (d, s)).1
  apply (revoke_call ctx owner id now) (d, s) = (revoke crypto store ctx owner id now (d, s)).1

  unfoldable pub run : List Call → Db × S → Db × S
  unfolding apply
  run [] x = x
  run (c ∷ cs) x = run cs (apply c x)

  exchange-IsStep :
      (ctx : Context) (presented : Bytes) (fresh : Fresh) (now : Time) (d : Db) (s : S)
      → IsStep d.tables (exchange crypto store ctx presented fresh now (d, s)).1.0.tables
  exchange-IsStep ctx presented fresh now d s =
      let c = exchange-Change crypto store ctx presented fresh now d s in
      elim (exchange-cases crypto store ctx presented fresh now d s) [
        | inl (r, t) ↦ Change-IsStep d.tables _ c (ap (λ x. x.pairings) t) (ap (λ x. x.owners) t)
        | inr (id, w, p, cred, at, own, right, whole, o, inl (r, t)) ↦
            Change-IsStep d.tables _ c (ap (λ x. x.pairings) t) (ap (λ x. x.owners) t)
        | inr (id, w, p, cred, at, own, right, whole, o, inr (live, soon, free, t, m, i)) ↦
            Change-IsStep d.tables _ c (ap (λ x. x.pairings) t) (ap (λ x. x.owners) t)
      ]

  apply-IsStep : (c : Call) (x : Db × S) → IsStep x.0.tables (apply c x).0.tables
  unfolding apply
  apply-IsStep (issue_call owner scopes label fresh now) (d, s) =
      Change-IsStep d.tables _ (issue-Change crypto owner scopes label fresh now d)
        (issue-rest crypto owner scopes label fresh now d).0
        (issue-rest crypto owner scopes label fresh now d).1
  apply-IsStep (exchange_call ctx presented fresh now) (d, s) =
      exchange-IsStep ctx presented fresh now d s
  apply-IsStep (start_call label scopes raw fresh now) (d, s) =
      start_device_grant-IsStep crypto label scopes raw fresh now d
  apply-IsStep (mint_call owner label scopes fresh approved now) (d, s) =
      mint_pairing-IsStep crypto owner label scopes fresh approved now d
  apply-IsStep (approve_call ctx owner code now) (d, s) =
      approve-IsStep crypto store ctx owner code now d s
  apply-IsStep (poll_call code now) (d, s) = poll-IsStep crypto code now d
  apply-IsStep (redeem_call ctx code fresh checked now) (d, s) =
      redeem-IsStep crypto store ctx code fresh checked now d s
  apply-IsStep (revoke_call ctx owner id now) (d, s) =
      revoke-IsStep crypto store ctx owner id now d s

  run-IsStep : (cs : List Call) (x : Db × S) → IsStep x.0.tables (run cs x).0.tables
  unfolding run
  run-IsStep [] x = IsStep-refl x.0.tables
  run-IsStep (c ∷ cs) x = IsStep-trans _ _ _ (apply-IsStep c x) (run-IsStep cs (apply c x))

  -- Whatever calls are made, and whatever statements the engine refuses, a sound table of credentials
  -- stays sound: every lineage has its root, with the same owner and the same end as all its
  -- credentials, and one active credential at most.
  pub run-IsSound :
      (cs : List Call) (x : Db × S)
      → IsSound x.0.tables.credentials
      → IsSound (run cs x).0.tables.credentials
  run-IsSound cs x h = Changes-IsSound _ _ (run-IsStep cs x).credentials_change h

  -- A refresh token that was exchanged once is refused at every exchange after any further calls.
  pub exchanged_once :
      (ctx later : Context) (presented : Bytes) (fresh again : Fresh) (now then : Time) (i : Issued)
      (cs : List Call) (d : Db) (s : S)
      → (exchange crypto store ctx presented fresh now (d, s)).0 ≡ ok i
      → (exchange crypto store later presented again then
          (run cs (exchange crypto store ctx presented fresh now (d, s)).1)).0
        ≡ err auth_failed
  exchanged_once ctx later presented fresh again now then i cs d s h =
      elim (exchange-cases crypto store ctx presented fresh now d s) [
        | inl (r, t) ↦ ground arith
        | inr (id, w, p, cred, at, own, right, whole, o, work) ↦
            exchange-IsSpent crypto store later presented id w again then _ _ p (
              Changes-IsSpent id _ _
                (run-IsStep cs
                  (exchange crypto store ctx presented fresh now (d, s)).1).credentials_change
                (exchange_ok-IsSpent crypto store ctx presented id w fresh now d s i p h))
      ]

  -- Whatever calls are made, a pairing stays: the digest of its device code, its scopes and its end
  -- never change, its owner is settled once it is not pending any more, and its status and its lineage
  -- are settled once it is redeemed or revoked.
  pub run-IsLater :
      (cs : List Call) (d : Db) (s : S) (id : Bytes) (p : DevicePairing)
      → pairing_at d.tables.pairings id ≡ some p
      → (q : DevicePairing) × (pairing_at (run cs (d, s)).0.tables.pairings id ≡ some q)
        × IsLater p q
  run-IsLater cs d s id p h =
      subst (λ o. IsKept o (pairing_at (run cs (d, s)).0.tables.pairings id)) h
        ((run-IsStep cs (d, s)).pairings_kept id)

  -- In tables where pairings are keyed by their identifier, a device code that was redeemed once is
  -- refused at every redemption after any further calls.
  pub redeemed_once :
      (ctx later : Context) (code : Bytes) (fresh again : Fresh) (checked now rechecked then : Time)
      (i : Issued) (cs : List Call) (d : Db) (s : S)
      → IsKeyed d.tables.pairings
      → (redeem crypto store ctx code fresh checked now (d, s)).0 ≡ ok i
      → (redeem crypto store later code again rechecked then
          (run cs (redeem crypto store ctx code fresh checked now (d, s)).1)).0
        ≡ err auth_failed
  redeemed_once ctx later code fresh again checked now rechecked then i cs d s keyed h =
      let (id, secret, e, was) =
        redeem-IsRedeemed crypto store ctx code fresh checked now d s i keyed h in
      let (p, spent) =
        redeem-spent crypto store ctx code id secret fresh checked now d s i keyed e h in
      let x : Db × S = (redeem crypto store ctx code fresh checked now (d, s)).1 in
      let (q, at, (asked, own, end)) =
        run-IsLater cs x.0 x.1 id (redeem_row fresh.credential_id now p) spent in
      redeem-denied crypto store later code id secret again rechecked then (run cs x).0 (run cs x).1
        q e at (elim end [ inl still ↦ ground arith | inr (same, lin) ↦ ap is_approved same ])

  -- The key of the pairings is never given up.
  pub run-IsKeyed :
      (cs : List Call) (x : Db × S)
      → IsKeyed x.0.tables.pairings
      → IsKeyed (run cs x).0.tables.pairings
  run-IsKeyed cs x h = (run-IsStep cs x).pairings_keyed h
