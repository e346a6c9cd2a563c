-- ===== src/Auth/Token/Codec.antt =====
-- token.go and pairingcode.go: what is formatted is parsed again, and nothing else is.
use sshpilot_vallete.Prelude.{
  ℕ, ◌≡◌, refl, false, Option, none, some, Option-cases, inl, inr, [], ◌∷◌, ◌++◌, Bytes, ==_refl,
  length, ok, err, auth_failed, arith,
}
use sshpilot_vallete.Auth.Token.{
  refresh_token_prefix, token_separator, cut_prefix, cut, contains, Encoding, sized, checked,
  split_parts, split_body, parse_refresh_token, parse_device_code, format_refresh_token,
  format_device_code,
}

pub cut_prefix-append : (p s : Bytes) → cut_prefix p (p ++ s) ≡ some s
unfolding cut_prefix
cut_prefix-append [] s = refl
cut_prefix-append (c ∷ cs) s = ground (arith, cut_prefix-append cs s)

append-cut_prefix : (p s b : Bytes) → cut_prefix p s ≡ some b → s ≡ p ++ b
unfolding cut_prefix
append-cut_prefix [] s b h = ground arith
append-cut_prefix (p ∷ ps) [] b h = ground arith
append-cut_prefix (p ∷ ps) (c ∷ cs) b h = ground (arith, append-cut_prefix ps cs b)

pub cut-append :
    (sep : ℕ) (a b : Bytes) → contains sep a ≡ false → cut sep (a ++ (sep ∷ b)) ≡ some (a, b)
unfolding cut contains
cut-append sep [] b h = ground arith
cut-append sep (c ∷ cs) b h = ground (arith, cut-append sep cs b)

append-cut : (sep : ℕ) (s a b : Bytes) → cut sep s ≡ some (a, b) → s ≡ a ++ (sep ∷ b)
unfolding cut
append-cut sep [] a b h = ground arith
append-cut sep (c ∷ cs) a b h = elim (Option-cases (cut sep cs)) [
  | inl n ↦ ground arith
  | inr ((x, y), e) ↦ ground (arith, append-cut sep cs x y e)
]

-- What the code relies on of unpadded base64url: it decodes what it encodes, its alphabet has no full
-- stop, and 16 bytes are 22 characters.
pub record IsBase64 (encoding : Encoding) : Type 0 where
  pub decode_encode : (b : Bytes) → encoding.decode (encoding.encode b) ≡ some b
  pub encode_plain : (b : Bytes) → contains token_separator (encoding.encode b) ≡ false
  pub encode_id : (b : Bytes) → length b ≡ 16 → length (encoding.encode b) ≡ 22

module _ (encoding : Encoding) (laws : IsBase64 encoding) where
  split_body-format :
      (n : ℕ) (raw secret : Bytes)
      → length raw ≡ 16
      → length secret ≡ n
      → split_body encoding n
          (some (encoding.encode raw ++ (token_separator ∷ encoding.encode secret)))
        ≡ ok (encoding.encode raw, secret)
  unfolding split_body split_parts checked sized
  split_body-format n raw secret h k =
      rw
        (
          cut-append token_separator (encoding.encode raw) (encoding.encode secret)
              (laws.encode_plain raw),
          laws.encode_plain secret,
          laws.encode_id raw h,
          laws.decode_encode raw,
          laws.decode_encode secret,
          k,
          ==_refl n,
        )
        refl

  -- With base64 as documented, a refresh token and a device code are parsed to the identifier and the
  -- secret that they were formatted from, and neither is ever taken for the other.
  pub parse-format :
      (raw secret : Bytes)
      → length raw ≡ 16
      → length secret ≡ 32
      → (parse_refresh_token encoding (format_refresh_token encoding (encoding.encode raw) secret)
          ≡ ok (encoding.encode raw, secret))
        × (parse_device_code encoding (format_device_code encoding (encoding.encode raw) secret)
            ≡ ok (encoding.encode raw, secret))
        × (parse_refresh_token encoding (format_device_code encoding (encoding.encode raw) secret)
            ≡ err auth_failed)
        × (parse_device_code encoding (format_refresh_token encoding (encoding.encode raw) secret)
            ≡ err auth_failed)
  unfolding parse_refresh_token parse_device_code format_refresh_token format_device_code split_body
      cut_prefix
  parse-format raw secret h k =
      (split_body-format 32 raw secret h k, split_body-format 32 raw secret h k, refl, refl)

module _ (encoding : Encoding) where
  checked-ok :
      (n : ℕ) (a part id secret : Bytes)
      → checked encoding n a part ≡ ok (id, secret)
      → (a ≡ id) × (encoding.decode part ≡ some secret) × (length id ≡ 22) × (length secret ≡ n)
  unfolding checked sized
  checked-ok n a part id secret h = elim (Option-cases (encoding.decode a)) [
    | inl e ↦ ground arith
    | inr (x, e) ↦ elim (Option-cases (encoding.decode part)) [
      | inl f ↦ ground arith
      | inr (y, f) ↦ ground arith
    ]
  ]

  split_body-ok :
      (n : ℕ) (o : Option Bytes) (id secret : Bytes)
      → split_body encoding n o ≡ ok (id, secret)
      → (part : Bytes) × (o ≡ some (id ++ (token_separator ∷ part)))
        × (encoding.decode part ≡ some secret)
        × (length id ≡ 22)
        × (length secret ≡ n)
  unfolding split_body split_parts
  split_body-ok n none id secret h = ground arith
  split_body-ok n (some body) id secret h = elim (Option-cases (cut token_separator body)) [
    | inl e ↦ ground arith
    | inr ((a, part), e) ↦
        let (same, d, l, m) = checked-ok n a part id secret (ground arith) in
        (part, ground (arith, append-cut token_separator body a part e), d, l, m)
  ]

  -- A presented text that is parsed as a refresh token has that very form: the prefix, an identifier
  -- of 22 bytes, the separator, and text that decodes to a secret of 32 bytes.
  pub parse_refresh_token-ok :
      (presented id secret : Bytes)
      → parse_refresh_token encoding presented ≡ ok (id, secret)
      → (part : Bytes) × (presented ≡ refresh_token_prefix ++ (id ++ (token_separator ∷ part)))
        × (encoding.decode part ≡ some secret)
        × (length id ≡ 22)
        × (length secret ≡ 32)
  unfolding parse_refresh_token
  parse_refresh_token-ok presented id secret h =
      let (part, o, d, l, m) =
        split_body-ok 32 (cut_prefix refresh_token_prefix presented) id secret h in
      (part, append-cut_prefix refresh_token_prefix presented _ o, d, l, m)
