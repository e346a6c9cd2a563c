-- ===== src/Auth/Enrollment/Service/Redeemed.antt =====
-- enrollment.go: what a redemption that succeeds had, and what it left.
use sshpilot_vallete.Prelude.{
  ◌≡◌, refl, sym, ap, subst, ◌∙◌, inl, inr, true, some, Bytes, =ᵇ_iff, =ᵇ_refl, Result,
  Result-cases, ok, arith,
}
use sshpilot_vallete.Prelude.Word.{Time}
use sshpilot_vallete.Counter.Port.{Context, Store}
use sshpilot_vallete.Auth.Token.{parse_device_code}
use sshpilot_vallete.Auth.Tokens.{Fresh, Issued, Crypto}
use sshpilot_vallete.Auth.Enrollment.{code_stands, authenticate}
use sshpilot_vallete.Auth.Enrollment.Authenticated.{
  IsStanding, authenticate-ok, code_stands-approved,
}
use sshpilot_vallete.Auth.Enrollment.Service.{redeeming, redeem}
use sshpilot_vallete.Storage.Db.{Tables, Db, DevicePairing}
use sshpilot_vallete.Storage.Table.{first, first-All, at_key-key, at_key-update}
use sshpilot_vallete.Storage.Pairings.{
  is_approved, pairing_at, is_owned_pairing, is_to_redeem, redeem_row,
}
use sshpilot_vallete.Storage.Steps.{IsKeyed}
use sshpilot_vallete.Auth.Enrollment.Service.Redeeming.{redeemed_tables, redeeming-ok}

module _ (crypto : Crypto) {S : Type 0} (store : Store S) where
  -- What a redemption that succeeds had, and what it left.
  abbrev pub IsRedeemed :
      Bytes → Bytes → Fresh → Time → Time → Tables → Result Issued × (Db × S) → Issued → Type 0
  IsRedeemed id secret fresh checked now t x i =
      (p : DevicePairing) × (pairing_at t.pairings id ≡ some p)
      × (code_stands crypto id secret checked p ≡ true)
      × IsStanding t p.owner_id
      × (x.1.0.tables ≡ redeemed_tables crypto store p fresh now t)
      × ((i.owner_id ≡ p.owner_id) × (i.lineage_id ≡ fresh.credential_id) × (i.scopes ≡ p.scopes))

  agreed :
      (id secret owner : Bytes) (fresh : Fresh) (checked now : Time) (t : Tables)
      (x : Result Issued × (Db × S)) (i : Issued) (p q : DevicePairing)
      → IsKeyed t.pairings
      → first (is_owned_pairing owner id) t.pairings ≡ some p
      → p.id ≡ id
      → p.owner_id ≡ owner
      → pairing_at t.pairings id ≡ some q
      → code_stands crypto id secret checked q ≡ true
      → IsStanding t owner
      → x.1.0.tables ≡ redeemed_tables crypto store p fresh now t
      → (i.owner_id ≡ owner) × (i.lineage_id ≡ fresh.credential_id) × (i.scopes ≡ p.scopes)
      → IsRedeemed id secret fresh checked now t x i
  agreed id secret owner fresh checked now t x i p q keyed at same own held stands standing table
        (io, il, isc) =
      let (found_at, named) =
        first-All (λ r. pairing_at t.pairings r.id ≡ some r) (is_owned_pairing owner id) p
          t.pairings at keyed in
      let here : pairing_at t.pairings id ≡ some p =
        ap (pairing_at t.pairings) (sym same) ∙ found_at in
      let agree : q ≡ p = ground arith in
      (
        p,
        here,
        subst (λ y. code_stands crypto id secret checked y ≡ true) agree stands,
        subst (IsStanding t) (sym own) standing,
        table,
        (io ∙ sym own, il, isc),
      )

  redeeming-IsRedeemed :
      (ctx : Context) (id secret : Bytes) (fresh : Fresh) (checked now : Time) (d : Db) (s : S)
      (i : Issued)
      → IsKeyed d.tables.pairings
      → (redeeming crypto store ctx id fresh now s (authenticate crypto id secret checked d)).0
        ≡ ok i
      → IsRedeemed id secret fresh checked now d.tables
          (redeeming crypto store ctx id fresh now s (authenticate crypto id secret checked d))
          i
  redeeming-IsRedeemed ctx id secret fresh checked now d s i keyed h =
      let (owner, got, p, at, (same, own), table, fields) =
        redeeming-ok crypto store ctx id fresh now s i (authenticate crypto id secret checked d)
          h in
      let (kept, (q, held, stands), standing) =
        authenticate-ok crypto id secret owner checked d got in
      agreed id secret owner fresh checked now d.tables
        (redeeming crypto store ctx id fresh now s (authenticate crypto id secret checked d)) i p q
        keyed (ap (λ t. first (is_owned_pairing owner id) t.pairings) (sym kept) ∙ at) same own held
        stands standing (table ∙ ap (redeemed_tables crypto store p fresh now) kept) fields

  redeem-parsed :
      (ctx : Context) (code id secret : Bytes) (fresh : Fresh) (checked now : Time) (d : Db) (s : S)
      → parse_device_code crypto.encoding code ≡ ok (id, secret)
      → redeeming crypto store ctx id fresh now s (authenticate crypto id secret checked d)
        ≡ redeem crypto store ctx code fresh checked now (d, s)
  unfolding redeem
  redeem-parsed ctx code id secret fresh checked now d s e = rw (redeem, e) refl

  redeem-parse :
      (ctx : Context) (code : Bytes) (fresh : Fresh) (checked now : Time) (d : Db) (s : S)
      (i : Issued)
      → (redeem crypto store ctx code fresh checked now (d, s)).0 ≡ ok i
      → (id : Bytes) × (secret : Bytes) × (parse_device_code crypto.encoding code ≡ ok (id, secret))
  unfolding redeem
  redeem-parse ctx code fresh checked now d s i h =
      elim (Result-cases (parse_device_code crypto.encoding code)) [
        | inr (x, e) ↦ ground arith
        | inl ((id, secret), e) ↦ (id, secret, e)
      ]

  -- In tables where pairings are keyed by their identifier, a redemption that succeeds had a pairing
  -- under the code's identifier with the digest of its secret, approved, owned and not at its end,
  -- whose owner is in good standing; it inserts a root of that owner with that pairing's scopes and
  -- marks the pairing redeemed with the new lineage, and what it returns is the owner's, of that
  -- lineage and with those scopes.
  pub redeem-IsRedeemed :
      (ctx : Context) (code : Bytes) (fresh : Fresh) (checked now : Time) (d : Db) (s : S)
      (i : Issued)
      → IsKeyed d.tables.pairings
      → (redeem crypto store ctx code fresh checked now (d, s)).0 ≡ ok i
      → (id : Bytes) × (secret : Bytes) × (parse_device_code crypto.encoding code ≡ ok (id, secret))
        × IsRedeemed id secret fresh checked now d.tables
            (redeem crypto store ctx code fresh checked now (d, s))
            i
  redeem-IsRedeemed ctx code fresh checked now d s i keyed h =
      let (id, secret, e) = redeem-parse ctx code fresh checked now d s i h in
      let same = redeem-parsed ctx code id secret fresh checked now d s e in
      (
        id,
        secret,
        e,
        subst (λ x. IsRedeemed id secret fresh checked now d.tables x i) same
            (redeeming-IsRedeemed ctx id secret fresh checked now d s i keyed
              (ap (λ x. x.0) same ∙ h)),
      )

  -- The pairing is spent by it.
  pub redeem-spent :
      (ctx : Context) (code id secret : Bytes) (fresh : Fresh) (checked now : Time) (d : Db) (s : S)
      (i : Issued)
      → IsKeyed d.tables.pairings
      → parse_device_code crypto.encoding code ≡ ok (id, secret)
      → (redeem crypto store ctx code fresh checked now (d, s)).0 ≡ ok i
      → (p : DevicePairing) × (pairing_at
            (redeem crypto store ctx code fresh checked now (d, s)).1.0.tables.pairings
            id
          ≡ some (redeem_row fresh.credential_id now p))
  redeem-spent ctx code id secret fresh checked now d s i keyed e h =
      let (k, w, g, (p, at, stands, o, table, fields)) =
        redeem-IsRedeemed ctx code fresh checked now d s i keyed h in
      let same : k ≡ id = ground arith in
      let named : p.id ≡ id =
        ground (arith, at_key-key (λ x. x.id) k p d.tables.pairings at, =ᵇ_iff p.id k) in
      let approved : is_approved p.status ≡ true =
        code_stands-approved crypto k w checked p stands in
      (
        p,
        ap (λ t. pairing_at t.pairings id) table
            ∙ at_key-update (λ x. x.id) (is_to_redeem p.owner_id p.id)
                (redeem_row fresh.credential_id now) id d.tables.pairings (λ r. refl)
            ∙ rw
                (
                  ap (pairing_at d.tables.pairings) (sym same) ∙ at,
                  =ᵇ_refl p.id,
                  =ᵇ_refl p.owner_id,
                  approved,
                )
                refl,
      )
