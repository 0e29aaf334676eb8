-- ===== src/Tokens/Encoding.antt =====
-- `bytesToBase64url` and `base64urlToBytes` of apps/edge/src/lib/lead-token.ts. Bytes are numbers, and
-- `btoa` and `atob` are the platform's, by the laws of base64: a body of the alphabet, filled up with
-- `=` to a multiple of four.
use globaltracker.Prelude.{
  append-nil, ◌≡◌, ◌≢◌, refl, sym, ◌∙◌, ap, ℕ, zero, suc, ◌+◌, ◌-◌, ◌%◌, ◌<◌, Bool, true, not, all,
  ◌==◌, List, [], ◌∷◌, ◌++◌, Option, some, Text, codes, if◌then◌else◌, All, length, take, arith,
}

abbrev pub Bytes : Type 0
Bytes = List ℕ

-- A character of base64 but for the padding: a letter, a digit, `+` or `/`.
abbrev pub IsBody : ℕ → Type 0
IsBody c = (c ≢ 45) × ((c ≢ 95) × ((c ≢ 61) × (c ≢ 46)))

abbrev pub padding : ℕ → Text
padding n = take n (codes "===")

pub record Base64 : Type 0 where
  pub btoa : Bytes → Text
  pub atob : Text → Option Bytes
  pub body : Bytes → Text
  pub pad : Bytes → ℕ
  pub btoa_form : (b : Bytes) → btoa b ≡ body b ++ padding (pad b)
  pub body-IsBody : (b : Bytes) → All IsBody (body b)
  pub pad_bound : (b : Bytes) → pad b < 3
  pub btoa_length : (b : Bytes) → (length (body b) + pad b) % 4 ≡ 0
  pub atob-nil : atob [] ≡ some []
  pub atob-btoa : (b : Bytes) → atob (btoa b) ≡ some b

abbrev pub is_no_dot : ℕ → Bool
is_no_dot c = not (c == 46)

-- `replace(/+/g, '-')`, `replace(/\//g, '_')` and `replace(/=/g, '')`.
abbrev pub replace : ℕ → ℕ → Text → Text
replace old new [] = []
replace old new (c ∷ s) = (if c == old then new else c) ∷ replace old new s

abbrev pub remove : ℕ → Text → Text
remove old [] = []
remove old (c ∷ s) = if c == old then remove old s else c ∷ remove old s

module _ (base64 : Base64) where
  unfoldable pub bytes_to_base64url : Bytes → Text
  bytes_to_base64url bytes = remove 61 (replace 47 95 (replace 43 45 (base64.btoa bytes)))

  -- `pad === 0 ? padded : padded + '==='.slice(0, 4 - pad)`.
  abbrev pub repadded : Text → Text
  repadded padded =
      if length padded % 4 == 0 then padded else padded ++ padding (4 - length padded % 4)

  unfoldable pub base64url_to_bytes : Text → Option Bytes
  base64url_to_bytes b64 = base64.atob (repadded (replace 95 47 (replace 45 43 b64)))

  -- The text of a body.
  abbrev safe : Text → Text
  safe s = replace 47 95 (replace 43 45 s)

  safe_append : (s t : Text) → remove 61 (safe (s ++ t)) ≡ remove 61 (safe s) ++ remove 61 (safe t)
  safe_append [] t = refl
  safe_append (c ∷ s) t = ground (arith, safe_append s t)

  no_padding : (n : ℕ) → n < 3 → remove 61 (safe (padding n)) ≡ []
  no_padding zero h = refl
  no_padding (suc zero) h = refl
  no_padding (suc (suc zero)) h = refl
  no_padding (suc (suc (suc n))) h = absurd (omega arith)

  -- A body comes back.
  safe-back : (s : Text) → All IsBody s → replace 95 47 (replace 45 43 (remove 61 (safe s))) ≡ s
  safe-back [] h = refl
  safe-back (c ∷ s) h = ground (arith, safe-back s h.1)

  safe_length : (s : Text) → length (replace 95 47 (replace 45 43 s)) ≡ length s
  safe_length [] = refl
  safe_length (c ∷ s) = ap suc (safe_length s)

  base64url-body : (b : Bytes) → bytes_to_base64url b ≡ remove 61 (safe (base64.body b))
  unfolding bytes_to_base64url
  base64url-body b =
      rw
        (
          base64.btoa_form b,
          safe_append (base64.body b) (padding (base64.pad b)),
          no_padding (base64.pad b) (base64.pad_bound b),
        )
        (append-nil (remove 61 (safe (base64.body b))))

  repadded-body : (s : Text) (n : ℕ) → n < 3 → (length s + n) % 4 ≡ 0 → repadded s ≡ s ++ padding n
  repadded-body s zero few h = let r : (length s % 4 ≡ 0) = omega arith in rw r (sym (append-nil s))
  repadded-body s (suc zero) few h = let r : (length s % 4 ≡ 3) = omega arith in rw r refl
  repadded-body s (suc (suc zero)) few h = let r : (length s % 4 ≡ 2) = omega arith in rw r refl
  repadded-body s (suc (suc (suc n))) few h = absurd (omega arith)

  -- What is encoded is decoded.
  pub base64url_to_bytes-back : (b : Bytes) → base64url_to_bytes (bytes_to_base64url b) ≡ some b
  unfolding base64url_to_bytes
  base64url_to_bytes-back b =
      ap (λ t. base64.atob (repadded (replace 95 47 (replace 45 43 t)))) (base64url-body b)
      ∙ (ap (λ t. base64.atob (repadded t)) (safe-back (base64.body b) (base64.body-IsBody b))
          ∙ (ap base64.atob (
                repadded-body (base64.body b) (base64.pad b) (base64.pad_bound b)
                  (base64.btoa_length b)
                ∙ sym (base64.btoa_form b))
              ∙ base64.atob-btoa b))

  -- The separator of a token is not in it.
  safe_dotless : (s : Text) → All IsBody s → all is_no_dot (remove 61 (safe s)) ≡ true
  safe_dotless [] h = refl
  safe_dotless (c ∷ s) h = ground (arith, safe_dotless s h.1)

  pub base64url_dotless : (b : Bytes) → all is_no_dot (bytes_to_base64url b) ≡ true
  base64url_dotless b =
      ap (all is_no_dot) (base64url-body b) ∙ safe_dotless (base64.body b) (base64.body-IsBody b)
