-- ===== src/Auth/Tokens/Replay.antt =====
-- tokenservice.go: a refresh token that is presented again.
use sshpilot_vallete.Prelude.{
  ℕ, ◌≡◌, sym, ap, subst, ◌∙◌, inl, inr, not, ◌&&◌, List, [], Bytes, ok, err, auth_failed, arith,
}
use sshpilot_vallete.Prelude.Word.{Time}
use sshpilot_vallete.Counter.Port.{Context, Store}
use sshpilot_vallete.Auth.Denylist.{RefreshCredential}
use sshpilot_vallete.Auth.Token.{parse_refresh_token}
use sshpilot_vallete.Auth.Tokens.{Fresh, Issued, Crypto, child_of, exchange}
use sshpilot_vallete.Auth.Tokens.Lineage.{exchange-cases}
use sshpilot_vallete.Storage.Db.{Tables, Db}
use sshpilot_vallete.Storage.Table.{count}
use sshpilot_vallete.Storage.Credentials.{is_revoked, by_id, is_in_lineage}
use sshpilot_vallete.Storage.Changes.{IsSpent}
use sshpilot_vallete.Storage.Changes.Kept.{turned-IsSpent}

-- A database whose engine refuses nothing.
abbrev pub sound_engine : Tables → Db
sound_engine t = record { tables = t; faults = [] }

-- How many credentials of a lineage are still not revoked.
abbrev pub unrevoked_in : Bytes → Bytes → List RefreshCredential → ℕ
unrevoked_in owner lineage = count (λ r. is_in_lineage owner lineage r && not (is_revoked r.status))

module _ (crypto : Crypto) {S : Type 0} (store : Store S) where
  -- A token whose credential is spent is denied.
  pub exchange-IsSpent :
      (ctx : Context) (presented id secret : Bytes) (fresh : Fresh) (now : Time) (d : Db) (s : S)
      → parse_refresh_token crypto.encoding presented ≡ ok (id, secret)
      → IsSpent id d.tables.credentials
      → (exchange crypto store ctx presented fresh now (d, s)).0 ≡ err auth_failed
  exchange-IsSpent ctx presented id secret fresh now d s p (c, at, spent) =
      elim (exchange-cases crypto store ctx presented fresh now d s) [
        | inl (r, t) ↦ r
        | inr (k, w, q, cred, held, own, right, whole, o, inl (r, t)) ↦ r
        | inr (k, w, q, cred, held, own, right, whole, o, inr (live, soon, free, t, m, i)) ↦
            ground arith
      ]

  -- A token that has been exchanged is spent.
  pub exchange_ok-IsSpent :
      (ctx : Context) (presented id secret : Bytes) (fresh : Fresh) (now : Time) (d : Db) (s : S)
      (i : Issued)
      → parse_refresh_token crypto.encoding presented ≡ ok (id, secret)
      → (exchange crypto store ctx presented fresh now (d, s)).0 ≡ ok i
      → IsSpent id (exchange crypto store ctx presented fresh now (d, s)).1.0.tables.credentials
  exchange_ok-IsSpent ctx presented id secret fresh now d s i p h =
      elim (exchange-cases crypto store ctx presented fresh now d s) [
        | inl (r, t) ↦ ground arith
        | inr (k, w, q, cred, held, own, right, whole, o, inl (r, t)) ↦ ground arith
        | inr (k, w, q, cred, held, own, right, whole, o, inr (live, soon, free, t, m, j)) ↦
            let same : cred.id ≡ id = ground arith in
            subst
              (λ x.
                IsSpent x
                  (exchange crypto store ctx presented fresh now (d, s)).1.0.tables.credentials)
              same
              (subst (IsSpent cred.id) (sym (ap (λ x. x.credentials) t)) (
                turned-IsSpent cred (child_of crypto cred fresh now) d.tables.credentials
                  (ap (by_id d.tables.credentials) own ∙ held) live free))
      ]
