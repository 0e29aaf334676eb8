-- ===== src/Tokens/Signing.antt =====
-- `generateLeadToken`, `parseLeadToken` and `verifyLeadToken` of apps/edge/src/lib/lead-token.ts. The
-- HMAC is the platform's: `sign` gives none where it throws.
use globaltracker.Prelude.{
  ◌≡◌, refl, sym, ◌∙◌, ap, inl, inr, ℕ, Bool, true, false, ◌==◌, ◌&&◌, [], ◌∷◌, ◌++◌, Option, none,
  some, Option-cases, eq_of_some, Text, text_eq, text_eq_refl, is_empty, if◌then◌else◌, all, arith,
}
use globaltracker.Tokens.Encoding.{
  Bytes, Base64, is_no_dot, bytes_to_base64url, base64url_to_bytes, base64url_to_bytes-back,
  base64url_dotless,
}
use globaltracker.Tokens.Claims.{
  Texts, Claims, is_ascii, is_no_colon, encode_payload, decode_payload, decode_payload-back,
  decoded_filled,
}

pub record Hmac : Type 0 where
  pub sign : Bytes → Bytes → Option Bytes
  pub verify : Bytes → Bytes → Bytes → Bool
  pub verify-sign : (secret m s : Bytes) → sign secret m ≡ some s → verify secret s m ≡ true

-- What stands before the last dot and after it.
abbrev pub before_dot : ℕ → Text → Option (Text × Text) → Option (Text × Text)
before_dot c s (some (a, b)) = some (c ∷ a, b)
before_dot c s none = if c == 46 then some ([], s) else none

unfoldable pub last_dot : Text → Option (Text × Text)
last_dot [] = none
last_dot (c ∷ s) = before_dot c s (last_dot s)

module _ (base64 : Base64) (texts : Texts) (hmac : Hmac) where
  abbrev pub signed : Text → Option Bytes → Option Text
  signed payload none = none
  signed payload (some s) = some (payload ++ (46 ∷ bytes_to_base64url base64 s))

  unfoldable pub generate_lead_token : Text → Text → Bytes → ℕ → Option Text
  unfolding encode_payload
  generate_lead_token lead_id workspace_id secret now_sec =
      let payload = encode_payload base64 texts workspace_id lead_id now_sec in
      signed payload (hmac.sign secret (texts.utf8 payload))

  -- A token needs a character before its last dot.
  abbrev pub parsed_parts : Option (Text × Text) → Option Claims
  parsed_parts none = none
  parsed_parts (some (payload, s)) =
      if is_empty payload then none else decode_payload base64 texts payload

  unfoldable pub parse_lead_token : Text → Option Claims
  unfolding last_dot decode_payload
  parse_lead_token token = parsed_parts (last_dot token)

  abbrev pub signature_holds : Bytes → Text → Option Bytes → Bool
  signature_holds secret payload none = false
  signature_holds secret payload (some s) = hmac.verify secret s (texts.utf8 payload)

  abbrev pub parts_hold : Bytes → Option (Text × Text) → Bool
  parts_hold secret none = false
  parts_hold secret (some (payload, s)) =
      signature_holds secret payload (base64url_to_bytes base64 s)

  abbrev pub claims_match : Text → Text → Option Claims → Bool
  claims_match lead_id workspace_id none = false
  claims_match lead_id workspace_id (some c) =
      text_eq c.lead_id lead_id && text_eq c.workspace_id workspace_id

  unfoldable pub verify_lead_token : Text → Text → Text → Bytes → Bool
  unfolding parse_lead_token last_dot base64url_to_bytes
  verify_lead_token token lead_id workspace_id secret =
      claims_match lead_id workspace_id (parse_lead_token token)
      && parts_hold secret (last_dot token)

last_dot-none : (s : Text) → all is_no_dot s ≡ true → last_dot s ≡ none
unfolding last_dot
last_dot-none [] h = refl
last_dot-none (c ∷ s) h = rw (last_dot-none s (ground arith)) (ground arith)

last_dot-append : (a b : Text) → all is_no_dot b ≡ true → last_dot (a ++ (46 ∷ b)) ≡ some (a, b)
unfolding last_dot
last_dot-append [] b h = rw (last_dot-none b h) refl
last_dot-append (c ∷ a) b h = rw (last_dot-append a b h) refl

none_ne_some : {A : Type 0} {a : A} → none ≡ some a → ⊥
none_ne_some h = cc

module _ (base64 : Base64) (texts : Texts) (hmac : Hmac) (w l : Text) (secret : Bytes) (n : ℕ)
    (aw : all is_ascii w ≡ true) (al : all is_ascii l ≡ true) (cl : all is_no_colon l ≡ true)
    (ew : is_empty w ≡ false) (el : is_empty l ≡ false) (en : (n == 0) ≡ false) where
  abbrev pub claims : Claims
  claims = record { lead_id = l; workspace_id = w; issued_at = n }

  -- The two parts of a token that was generated.
  token_parts :
      (token : Text)
      → generate_lead_token base64 texts hmac l w secret n ≡ some token
      → (s : Bytes) × (hmac.sign secret (texts.utf8 (encode_payload base64 texts w l n)) ≡ some s)
        × (last_dot token ≡ some (encode_payload base64 texts w l n, bytes_to_base64url base64 s))
  unfolding generate_lead_token
  token_parts token h =
      elim (Option-cases (hmac.sign secret (texts.utf8 (encode_payload base64 texts w l n)))) [
        | inl q ↦ absurd (
            none_ne_some
              (sym (ap (signed base64 texts hmac (encode_payload base64 texts w l n)) q) ∙ h))
        | inr t ↦
            let made =
              eq_of_some
                (sym (ap (signed base64 texts hmac (encode_payload base64 texts w l n)) t.1) ∙ h) in
            (
              t.0,
              t.1,
              ap last_dot (sym made)
                  ∙ last_dot-append (encode_payload base64 texts w l n)
                      (bytes_to_base64url base64 t.0) (base64url_dotless base64 t.0),
            )
      ]

  -- A token that was generated has the claims that went into it.
  pub parse_lead_token-generated :
      (token : Text)
      → generate_lead_token base64 texts hmac l w secret n ≡ some token
      → parse_lead_token base64 texts hmac token ≡ some claims
  unfolding parse_lead_token
  parse_lead_token-generated token h =
      let (s, signs, parts) = token_parts token h in
      let back : (decode_payload base64 texts (encode_payload base64 texts w l n) ≡ some claims) =
        decode_payload-back base64 texts w l n aw al cl ew el en in
      ap (parsed_parts base64 texts hmac) parts
      ∙ rw (decoded_filled base64 texts (encode_payload base64 texts w l n) claims back) back

  -- And its signature holds.
  pub verify_lead_token-generated :
      (token : Text)
      → generate_lead_token base64 texts hmac l w secret n ≡ some token
      → verify_lead_token base64 texts hmac token l w secret ≡ true
  unfolding verify_lead_token
  verify_lead_token-generated token h =
      let (s, signs, parts) = token_parts token h in
      rw
        (
          parse_lead_token-generated token h,
          text_eq_refl l,
          text_eq_refl w,
          parts,
          base64url_to_bytes-back base64 s,
        )
        (hmac.verify-sign secret (texts.utf8 (encode_payload base64 texts w l n)) s signs)
