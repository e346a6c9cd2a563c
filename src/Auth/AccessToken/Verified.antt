-- ===== src/Auth/AccessToken/Verified.antt =====
-- accesstoken.go: what is issued is verified.
use sshpilot_vallete.Prelude.{
  ◌≤◌, ◌<◌, ◌≡◌, refl, ap, subst, ◌∙◌, inl, inr, false, ◌||◌, none, some, Option-cases, [], ◌∷◌,
  ◌++◌, Bytes, ◌=ᵇ◌, =ᵇ_refl, ltb, le→ltb, lt→ltb, Result, Bool-cases, ok, err, arith,
}
use sshpilot_vallete.Prelude.Word.{Time}
use sshpilot_vallete.Auth.Scopes.{validate_scopes}
use sshpilot_vallete.Auth.Denylist.{AccessToken}
use sshpilot_vallete.Auth.Token.{Encoding, token_separator}
use sshpilot_vallete.Auth.Token.Codec.{IsBase64, cut_prefix-append, cut-append}
use sshpilot_vallete.Auth.AccessToken.{
  access_token_prefix, AccessClaims, Signer, to_unix, from_unix, claims_of, token_of, accept_claims,
  sealed, issue_access, with_claims, with_payload, with_mac, with_parts, with_body, verify_access,
}

accept_claims-claims_of :
    (tok : AccessToken) (now : Time)
    → (tok.id =ᵇ [] || tok.owner_id =ᵇ [] || tok.refresh_credential_id =ᵇ []) ≡ false
    → validate_scopes tok.scopes ≡ none
    → from_unix (to_unix tok.issued_at) ≤ now
    → now < from_unix (to_unix tok.expires_at)
    → accept_claims now (claims_of tok) ≡ ok (token_of (claims_of tok))
unfolding accept_claims claims_of
accept_claims-claims_of tok now filled fine from to =
    rw
      (
        accept_claims,
        filled,
        fine,
        le→ltb now (from_unix (to_unix tok.issued_at)) from,
        lt→ltb now (from_unix (to_unix tok.expires_at)) to,
      )
      refl

module _ (encoding : Encoding) (signer : Signer) (laws : IsBase64 encoding) where
  verify_sealed :
      (payload : Bytes) (now : Time)
      → verify_access encoding signer
          (access_token_prefix
            ++ (encoding.encode payload
                ++ (token_separator ∷ encoding.encode (signer.mac (encoding.encode payload)))))
          now
        ≡ with_claims encoding signer now (signer.unmarshal payload)
  unfolding verify_access with_body with_parts with_mac with_payload
  verify_sealed payload now =
      rw
        (
          verify_access,
          cut_prefix-append access_token_prefix (
              encoding.encode payload
              ++ (token_separator ∷ encoding.encode (signer.mac (encoding.encode payload)))),
          cut-append token_separator (encoding.encode payload)
              (encoding.encode (signer.mac (encoding.encode payload))) (laws.encode_plain payload),
          laws.encode_plain (signer.mac (encoding.encode payload)),
          laws.decode_encode (signer.mac (encoding.encode payload)),
          =ᵇ_refl (signer.mac (encoding.encode payload)),
          laws.decode_encode payload,
        )
        refl

  with_claims-some :
      (c : AccessClaims) (now : Time)
      → with_claims encoding signer now (some c) ≡ accept_claims now c
  unfolding with_claims
  with_claims-some c now = refl

  sealed-ok :
      (r : Result Bytes) (raw : Bytes)
      → sealed encoding signer r ≡ ok raw
      → (payload : Bytes) × (r ≡ ok payload)
        × (access_token_prefix
              ++ (encoding.encode payload
                  ++ (token_separator ∷ encoding.encode (signer.mac (encoding.encode payload))))
            ≡ raw)
  unfolding sealed
  sealed-ok (err e) raw h = ground arith
  sealed-ok (ok payload) raw h = (payload, refl, ground arith)

  issue_access-ok :
      (tok : AccessToken) (raw : Bytes)
      → issue_access encoding signer tok ≡ ok raw
      → ((tok.id =ᵇ [] || tok.owner_id =ᵇ [] || tok.refresh_credential_id =ᵇ []) ≡ false)
        × (validate_scopes tok.scopes ≡ none)
        × (sealed encoding signer (signer.marshal (claims_of tok)) ≡ ok raw)
  unfolding issue_access
  issue_access-ok tok raw h =
      elim (Bool-cases (tok.id =ᵇ [] || tok.owner_id =ᵇ [] || tok.refresh_credential_id =ᵇ [])) [
        | inl e ↦ ground arith
        | inr e ↦ elim (Option-cases (validate_scopes tok.scopes)) [
          | inr (x, f) ↦ ground arith
          | inl f ↦ elim (Bool-cases (ltb tok.issued_at tok.expires_at)) [
            | inr g ↦ ground arith
            | inl g ↦ (e, f, ground arith)
          ]
        ]
      ]

  -- With base64 as documented, and a decoder that reads back what was encoded of the token's claims, a
  -- token that was issued is verified at every instant from the second of its issue on and before the
  -- second of its expiry, as the token that was issued with its times cut to whole seconds.
  pub verify_access-issue_access :
      (tok : AccessToken) (raw : Bytes) (now : Time)
      → ((payload : Bytes)
          → signer.marshal (claims_of tok) ≡ ok payload
          → signer.unmarshal payload ≡ some (claims_of tok))
      → issue_access encoding signer tok ≡ ok raw
      → from_unix (to_unix tok.issued_at) ≤ now
      → now < from_unix (to_unix tok.expires_at)
      → verify_access encoding signer raw now ≡ ok (token_of (claims_of tok))
  verify_access-issue_access tok raw now reads h from to =
      let (filled, fine, made) = issue_access-ok tok raw h in
      let (payload, marshaled, form) = sealed-ok (signer.marshal (claims_of tok)) raw made in
      subst (λ x. verify_access encoding signer x now ≡ ok (token_of (claims_of tok))) form
        (verify_sealed payload now
          ∙ ap (with_claims encoding signer now) (reads payload marshaled)
          ∙ with_claims-some (claims_of tok) now
          ∙ accept_claims-claims_of tok now filled fine from to)
