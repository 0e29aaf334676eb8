-- ===== src/Tokens/Tests.antt =====
-- Runs of apps/edge/src/lib/lead-token.ts, with functions that obey the laws of base64, UTF-8 and HMAC
-- in the place of the platform's.
use globaltracker.Prelude.{
  ◌≡◌, refl, ap, subst, eq_of_some, ℕ, ◌+◌, ◌-◌, ◌%◌, true, false, [], ◌∷◌, ◌++◌, Option, none,
  some, Text, codes, text_eq, text_eq_refl, decimal, number_from, number_from-decimal, All, length,
  arith,
}
use globaltracker.Tokens.Encoding.{Bytes, IsBody, bytes_to_base64url}
use globaltracker.Tokens.Claims.{encode_payload}
use globaltracker.Tokens.Signing.{generate_lead_token}
use globaltracker.Tokens.Stored.{
  LeadToken, IssueResult, ValidateResult, Crypto, token_row, issue_lead_token, validate_lead_token,
}
use globaltracker.Tokens.Validity.{issued_token_validates, reissue_refused}

-- Every byte four times, above the characters that a token uses otherwise.
abbrev fours : Bytes → Text
fours [] = []
fours (c ∷ b) = (96 + c) ∷ (96 + c) ∷ (96 + c) ∷ (96 + c) ∷ fours b

abbrev consed : ℕ → Option Bytes → Option Bytes
consed c none = none
consed c (some b) = some (c ∷ b)

abbrev unfours : Text → Option Bytes
unfours (c ∷ _ ∷ _ ∷ _ ∷ s) = consed (c - 96) (unfours s)
unfours [] = some []
unfours _ = none

unfours-fours : (b : Bytes) → unfours (fours b) ≡ some b
unfours-fours [] = refl
unfours-fours (c ∷ b) = rw (unfours-fours b) (ap (λ d. some (d ∷ b)) (omega arith))

fours-IsBody : (b : Bytes) → All IsBody (fours b)
fours-IsBody [] = tt
fours-IsBody (c ∷ b) =
    let one : IsBody (96 + c) =
      (λ h. omega arith, (λ h. omega arith, (λ h. omega arith, λ h. omega arith))) in
    (one, (one, (one, (one, fours-IsBody b))))

length-fours : (b : Bytes) → (length (fours b) + 0) % 4 ≡ 0
length-fours [] = refl
length-fours (c ∷ b) = omega (arith, length-fours b)

fours_form : (b : Bytes) → fours b ≡ fours b ++ []
fours_form [] = refl
fours_form (c ∷ b) = ap (λ t. (96 + c) ∷ (96 + c) ∷ (96 + c) ∷ (96 + c) ∷ t) (fours_form b)

abbrev crypto : Crypto
crypto = record {
  base64 = record {
    btoa = fours;
    atob = unfours;
    body = fours;
    pad = λ b. 0;
    btoa_form = fours_form;
    body-IsBody = fours-IsBody;
    pad_bound = λ b. omega arith;
    btoa_length = length-fours;
    atob-nil = refl;
    atob-btoa = unfours-fours;
  };
  texts = record {
    utf8 = λ s. s;
    utf8_decode = λ b. b;
    to_number = λ s. some (number_from 0 s);
    utf8_decode-utf8 = λ s h. refl;
    utf8_decode-nil = refl;
    to_number-decimal = λ n. ap some (number_from-decimal n);
  };
  hmac = record {
    sign = λ secret m. some (secret ++ m);
    verify = λ secret s m. text_eq s (secret ++ m);
    verify-sign = λ secret m s h.
        subst (λ t. text_eq t (secret ++ m) ≡ true) (eq_of_some h) (text_eq_refl (secret ++ m));
  };
  sha256_hex = λ s. 35 ∷ s;
}

abbrev secret : Bytes
secret = codes "k"

-- The token of lead `l` in workspace `w`, five seconds after the epoch.
abbrev token : Text
token = fours (codes "w:l:5") ++ (46 ∷ fours (codes "k" ++ fours (codes "w:l:5")))

abbrev row : LeadToken
row = token_row crypto (codes "l") (codes "w") (codes "page") 60 5000 5001 (codes "id") token

issue_run :
    issue_lead_token crypto
      (codes "l")
      (codes "w")
      (codes "page")
      60
      5000
      5001
      (codes "id")
      secret
      false
      []
    ≡ (IssueResult.issued token row.expires_at (codes "id"), row ∷ [])
unfolding issue_lead_token generate_lead_token encode_payload bytes_to_base64url decimal
issue_run = refl

issued_token_validates_example :
    (validate_lead_token crypto token (codes "page") secret 9000 false false (row ∷ [])).0
    ≡ ValidateResult.valid (codes "l")
unfolding text_eq
issued_token_validates_example =
    issued_token_validates crypto (codes "l") (codes "w") (codes "page") 60 5000 5001 (codes "id")
      secret [] (row ∷ []) token (codes "id") (codes "page") row.expires_at 9000 false false refl
      refl refl refl refl refl issue_run

reissue_refused_example :
    issue_lead_token crypto
      (codes "l")
      (codes "w")
      (codes "other")
      60
      5400
      5401
      (codes "id2")
      secret
      false
      (row ∷ [])
    ≡ (IssueResult.db_error, row ∷ [])
reissue_refused_example =
    reissue_refused crypto (codes "l") (codes "w") (codes "page") (codes "other") 60 60 5000 5001
      5400 5401 (codes "id") (codes "id2") secret [] (row ∷ []) token (codes "id") row.expires_at
      false false issue_run refl
