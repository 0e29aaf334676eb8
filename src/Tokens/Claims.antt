-- ===== src/Tokens/Claims.antt =====
-- `encodePayload` and `decodePayload` of apps/edge/src/lib/lead-token.ts: the claims in a token, between
-- colons. `utf8` and `utf8_decode` are TextEncoder and TextDecoder; `to_number` is `Number`, which is
-- none where the text is no number of seconds, and which is taken as exact, as it is up to 2 ^ 53.
use globaltracker.Prelude.{
  ◌≡◌, refl, sym, ◌∙◌, ap, inl, inr, ℕ, Bool, true, false, not, ◌==◌, ltb, List, [], ◌∷◌, ◌++◌,
  Option, none, some, Text, codes, is_empty, decimal, all_digits, decimal-digits, join,
  if◌then◌else◌, all, Bool-cases, arith,
}
use globaltracker.Tokens.Encoding.{
  Bytes, Base64, bytes_to_base64url, base64url_to_bytes, base64url_to_bytes-back,
}

abbrev pub is_ascii : ℕ → Bool
is_ascii c = ltb c 128

pub record Texts : Type 0 where
  pub utf8 : Text → Bytes
  pub utf8_decode : Bytes → Text
  pub to_number : Text → Option ℕ
  pub utf8_decode-utf8 : (s : Text) → all is_ascii s ≡ true → utf8_decode (utf8 s) ≡ s
  pub utf8_decode-nil : utf8_decode [] ≡ []
  pub to_number-decimal : (n : ℕ) → to_number (decimal n) ≡ some n

-- `LeadTokenPayload`.
pub record Claims : Type 0 where
  pub lead_id : Text
  pub workspace_id : Text
  pub issued_at : ℕ

-- `raw.split(':')`.
abbrev pub cons_first : ℕ → List Text → List Text
cons_first c [] = (c ∷ []) ∷ []
cons_first c (p ∷ ps) = (c ∷ p) ∷ ps

unfoldable pub split_colons : Text → List Text
split_colons [] = [] ∷ []
split_colons (c ∷ s) = let rest = split_colons s in if c == 58 then [] ∷ rest else cons_first c rest

-- The last two parts, after those before them.
abbrev pub pair_of : Text → List Text → Option (List Text × (Text × Text))
pair_of a (b ∷ []) = some ([], (a, b))
pair_of a _ = none

abbrev pub with_first :
    Text → List Text → Option (List Text × (Text × Text)) → Option (List Text × (Text × Text))
with_first a rest none = pair_of a rest
with_first a rest (some (front, p)) = some (a ∷ front, p)

unfoldable pub last_two : List Text → Option (List Text × (Text × Text))
last_two [] = none
last_two (a ∷ rest) = with_first a rest (last_two rest)

module _ (base64 : Base64) (texts : Texts) where
  abbrev pub raw_payload : Text → Text → ℕ → Text
  raw_payload workspace_id lead_id issued_at =
      join (codes ":") (workspace_id ∷ lead_id ∷ decimal issued_at ∷ [])

  unfoldable pub encode_payload : Text → Text → ℕ → Text
  unfolding bytes_to_base64url
  encode_payload workspace_id lead_id issued_at =
      bytes_to_base64url base64 (texts.utf8 (raw_payload workspace_id lead_id issued_at))

  -- The checks on the claims: the time is positive, and neither identifier is empty.
  abbrev pub checked_claims : List Text → Text → Option ℕ → Option Claims
  checked_claims front lead_id none = none
  checked_claims front lead_id (some issued_at) =
      if issued_at == 0
      then none
      else if is_empty (join (codes ":") front)
      then none
      else if is_empty lead_id
      then none
      else some (record {
        lead_id = lead_id;
        workspace_id = join (codes ":") front;
        issued_at = issued_at;
      })

  -- Fewer than three parts are refused.
  abbrev pub claims_of : Option (List Text × (Text × Text)) → Option Claims
  claims_of none = none
  claims_of (some ([], p)) = none
  claims_of (some (w ∷ ws, p)) = checked_claims (w ∷ ws) p.0 (texts.to_number p.1)

  abbrev pub decoded : Option Bytes → Option Claims
  unfolding split_colons last_two
  decoded none = none
  decoded (some bytes) = claims_of (last_two (split_colons (texts.utf8_decode bytes)))

  unfoldable pub decode_payload : Text → Option Claims
  unfolding base64url_to_bytes decoded
  decode_payload encoded = decoded (base64url_to_bytes base64 encoded)

abbrev pub is_no_colon : ℕ → Bool
is_no_colon c = not (c == 58)

split_cases : (s : Text) → (p : Text) × (ps : List Text) × (split_colons s ≡ p ∷ ps)
unfolding split_colons
split_cases [] = ([], [], refl)
split_cases (c ∷ s) =
    let (p, ps, e) = split_cases s in
    elim (Bool-cases (c == 58)) [
      | inl h ↦ rw h ([], split_colons s, refl)
      | inr h ↦ rw (h, e) (c ∷ p, ps, refl)
    ]

join-cons_first :
    (c : ℕ) (p : Text) (ps : List Text)
    → join (codes ":") (cons_first c (p ∷ ps)) ≡ c ∷ join (codes ":") (p ∷ ps)
join-cons_first c p [] = refl
join-cons_first c p (q ∷ ps) = refl

join-split : (s : Text) → join (codes ":") (split_colons s) ≡ s
unfolding split_colons
join-split [] = refl
join-split (c ∷ s) =
    let (p, ps, e) = split_cases s in
    let back : (join (codes ":") (p ∷ ps) ≡ s) = sym (ap (join (codes ":")) e) ∙ join-split s in
    elim (Bool-cases (c == 58)) [
      | inl h ↦ rw (h, e) (ground (arith, back))
      | inr h ↦ rw (h, e) (join-cons_first c p ps ∙ ap (λ t. c ∷ t) back)
    ]

split-append : (s t : Text) → split_colons (s ++ (58 ∷ t)) ≡ split_colons s ++ split_colons t
unfolding split_colons
split-append [] t = refl
split-append (c ∷ s) t =
    let (p, ps, e) = split_cases s in
    elim (Bool-cases (c == 58)) [
      | inl h ↦ rw h (ap (λ l. [] ∷ l) (split-append s t))
      | inr h ↦ rw (h, split-append s t, e) refl
    ]

split-none : (s : Text) → all is_no_colon s ≡ true → split_colons s ≡ s ∷ []
unfolding split_colons
split-none [] h = refl
split-none (c ∷ s) h = ground (arith, split-none s)

last_two-append :
    (front : List Text) (a b : Text) → last_two (front ++ (a ∷ b ∷ [])) ≡ some (front, (a, b))
unfolding last_two
last_two-append [] a b = refl
last_two-append (w ∷ ws) a b = rw (last_two-append ws a b) refl

digits_plain :
    (s : Text) → all_digits s ≡ true → (all is_no_colon s ≡ true) × (all is_ascii s ≡ true)
digits_plain [] h = (refl, refl)
digits_plain (c ∷ s) h =
    let t : ((all is_no_colon s ≡ true) × (all is_ascii s ≡ true)) =
      digits_plain s (ground arith) in
    (ground (arith, t.0), ground (arith, t.1))

ascii_append :
    (s t : Text) → all is_ascii s ≡ true → all is_ascii t ≡ true → all is_ascii (s ++ t) ≡ true
ascii_append [] t h k = k
ascii_append (c ∷ s) t h k = ground (arith, ascii_append s t)

module _ (base64 : Base64) (texts : Texts) (w l : Text) (n : ℕ) where
  split-payload :
      all is_no_colon l ≡ true
      → split_colons (raw_payload base64 texts w l n) ≡ split_colons w ++ (l ∷ decimal n ∷ [])
  split-payload h =
      split-append w (l ++ (58 ∷ decimal n))
      ∙ ap (λ t. split_colons w ++ t)
          (split-append l (decimal n)
            ∙ rw
                (
                  split-none l h,
                  split-none (decimal n) (digits_plain (decimal n) (decimal-digits n)).0,
                )
                refl)

  ascii_payload :
      all is_ascii w ≡ true
      → all is_ascii l ≡ true
      → all is_ascii (raw_payload base64 texts w l n) ≡ true
  ascii_payload aw al =
      ascii_append w (58 ∷ (l ++ (58 ∷ decimal n))) aw
        (ascii_append l (58 ∷ decimal n) al (digits_plain (decimal n) (decimal-digits n)).1)

  claims_of_split :
      is_empty w ≡ false
      → is_empty l ≡ false
      → (n == 0) ≡ false
      → claims_of base64 texts (some (split_colons w, (l, decimal n)))
        ≡ some (record { lead_id = l; workspace_id = w; issued_at = n })
  claims_of_split ew el en =
      let (p, ps, e) = split_cases w in
      let whole : (join (codes ":") (p ∷ ps) ≡ w) = sym (ap (join (codes ":")) e) ∙ join-split w in
      ap (λ f. claims_of base64 texts (some (f, (l, decimal n)))) e
      ∙ (ap (checked_claims base64 texts (p ∷ ps) l) (texts.to_number-decimal n)
          ∙ rw (whole, en, ew, el) refl)

-- The claims that are encoded are decoded, where the two identifiers are ASCII and not empty, the
-- lead's has no colon, and the time is not zero.
pub decode_payload-back :
    (base64 : Base64) (texts : Texts) (workspace_id lead_id : Text) (issued_at : ℕ)
    → all is_ascii workspace_id ≡ true
    → all is_ascii lead_id ≡ true
    → all is_no_colon lead_id ≡ true
    → is_empty workspace_id ≡ false
    → is_empty lead_id ≡ false
    → (issued_at == 0) ≡ false
    → decode_payload base64 texts (encode_payload base64 texts workspace_id lead_id issued_at)
      ≡ some (record { lead_id = lead_id; workspace_id = workspace_id; issued_at = issued_at })
unfolding decode_payload encode_payload decoded
decode_payload-back base64 texts w l n aw al cl ew el en =
    let raw : Text = raw_payload base64 texts w l n in
    ap (decoded base64 texts) (base64url_to_bytes-back base64 (texts.utf8 raw))
    ∙ (ap (λ t. claims_of base64 texts (last_two (split_colons t)))
          (texts.utf8_decode-utf8 raw (ascii_payload base64 texts w l n aw al))
        ∙ (ap (λ ps. claims_of base64 texts (last_two ps)) (split-payload base64 texts w l n cl)
            ∙ (ap (claims_of base64 texts) (last_two-append (split_colons w) l (decimal n))
                ∙ claims_of_split base64 texts w l n ew el en)))

some_ne_none : {A : Type 0} {a : A} → some a ≡ none → ⊥
some_ne_none h = cc

decode_payload-nil : (base64 : Base64) (texts : Texts) → decode_payload base64 texts [] ≡ none
unfolding decode_payload base64url_to_bytes decoded split_colons last_two
decode_payload-nil base64 texts =
    ap (decoded base64 texts) base64.atob-nil
    ∙ ap (λ t. claims_of base64 texts (last_two (split_colons t))) texts.utf8_decode-nil

-- A payload with claims is not empty.
pub decoded_filled :
    (base64 : Base64) (texts : Texts) (payload : Text) (c : Claims)
    → decode_payload base64 texts payload ≡ some c
    → is_empty payload ≡ false
decoded_filled base64 texts [] c h = absurd (some_ne_none (sym h ∙ decode_payload-nil base64 texts))
decoded_filled base64 texts (d ∷ s) c h = refl
