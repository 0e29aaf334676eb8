-- ===== src/Tokens/Validity.antt =====
-- What validation says of a token that was issued, by apps/edge/src/lib/lead-token.ts.
use globaltracker.Prelude.{
  ◌≡◌, refl, sym, ◌∙◌, ap, inl, inr, ℕ, ◌/◌, Bool, true, false, leb, ◌==◌, List, [], ◌∷◌, ◌++◌,
  Option, none, some, Text, text_eq, text_eq_refl, is_empty, if◌then◌else◌, find, find-append_none,
  all, Bool-cases, arith,
}
use globaltracker.Tokens.Encoding.{Bytes}
use globaltracker.Tokens.Claims.{is_ascii, is_no_colon}
use globaltracker.Tokens.Signing.{
  generate_lead_token, parse_lead_token-generated, verify_lead_token-generated,
}
use globaltracker.Tokens.Stored.{
  LeadToken, IssueResult, ValidateResult, Crypto, has_hash, has_hash_in, token_row, inserted,
  generated, issue_lead_token, row_checked, row_found, claims_read, validate_lead_token,
}

find-weaker :
    (h w : Text) (rows : List LeadToken)
    → find (has_hash h) rows ≡ none
    → find (has_hash_in h w) rows ≡ none
find-weaker h w [] e = refl
find-weaker h w (r ∷ rows) e = ground (arith, find-weaker h w rows)

refused : {t id : Text} {e : ℕ} → IssueResult.db_error ≡ IssueResult.issued t e id → ⊥
refused h = cc

ungenerated :
    {t id : Text} {e : ℕ} → IssueResult.token_generation_failed ≡ IssueResult.issued t e id → ⊥
ungenerated h = cc

parts_of :
    {t u id k : Text} {e f : ℕ}
    → IssueResult.issued t e id ≡ IssueResult.issued u f k
    → (t ≡ u) × (e ≡ f)
parts_of h = (cc, cc)

module _ (crypto : Crypto) (lead_id workspace_id page : Text) (ttl_days now now_later : ℕ)
    (new_id : Text) where
  abbrev row_of : Text → LeadToken
  row_of t = token_row crypto lead_id workspace_id page ttl_days now now_later new_id t

  inserted_issued :
      (t token id : Text) (expiry : ℕ) (fails : Bool) (o : Option LeadToken)
      (rows after : List LeadToken)
      → inserted crypto lead_id workspace_id page ttl_days now now_later new_id t fails o rows
        ≡ (IssueResult.issued token expiry id, after)
      → (o ≡ none)
        × ((t ≡ token) × (((row_of t).expires_at ≡ expiry) × (rows ++ row_of t ∷ [] ≡ after)))
  inserted_issued t token id expiry fails (some r) rows after h = absurd (refused (ap (λ p. p.0) h))
  inserted_issued t token id expiry true none rows after h = absurd (refused (ap (λ p. p.0) h))
  inserted_issued t token id expiry false none rows after h =
      let same = parts_of (ap (λ p. p.0) h) in (refl, (same.0, (same.1, ap (λ p. p.1) h)))

  generated_issued :
      (secret : Bytes) (token id : Text) (expiry : ℕ) (fails : Bool) (o : Option Text)
      (rows after : List LeadToken)
      → generated crypto lead_id workspace_id page ttl_days now now_later new_id fails o rows
        ≡ (IssueResult.issued token expiry id, after)
      → (o ≡ some token)
        × ((find (has_hash (crypto.sha256_hex token)) rows ≡ none)
            × (((row_of token).expires_at ≡ expiry) × (rows ++ row_of token ∷ [] ≡ after)))
  generated_issued secret token id expiry fails none rows after h =
      absurd (ungenerated (ap (λ p. p.0) h))
  generated_issued secret token id expiry fails (some t) rows after h =
      let (fresh, (same, (time, whole))) =
        inserted_issued t token id expiry fails (find (has_hash (crypto.sha256_hex t)) rows) rows
          after h in
      (
        ap some same,
        (
          ap (λ u. find (has_hash (crypto.sha256_hex u)) rows) (sym same) ∙ fresh,
          (time, ap (λ u. rows ++ row_of u ∷ []) (sym same) ∙ whole),
        ),
      )

  -- What is said of a row that is not revoked.
  abbrev verdict_at : Text → ℕ → ℕ → ValidateResult
  verdict_at current_page later expiry =
      if leb expiry later
      then ValidateResult.expired
      else if text_eq page current_page
      then ValidateResult.valid lead_id
      else ValidateResult.page_mismatch

  row_verdict :
      (token current_page : Text) (secret : Bytes) (later : ℕ) (write_fails : Bool)
      (row : LeadToken) (after : List LeadToken)
      → (row_checked crypto token current_page secret later false write_fails
          (row_of token)
          none
          after).0
        ≡ verdict_at current_page later (row_of token).expires_at
  row_verdict token current_page secret later write_fails row after =
      elim (Bool-cases (leb (row_of token).expires_at later)) [
        | inl e ↦ rw e refl
        | inr e ↦ elim (Bool-cases (text_eq page current_page)) [
          | inl q ↦ rw (e, q) refl
          | inr q ↦ rw (e, q) refl
        ]
      ]

  -- For identifiers that are ASCII and not empty, a lead's without a colon, and a clock past the first
  -- second: a token that was issued is, at any later time and for any page, expired from its expiry on,
  -- before that valid for the lead on its own page, and refused on any other, where the database answers.
  pub issued_token_validates :
      (secret : Bytes) (rows after : List LeadToken) (token id current_page : Text)
      (expiry later : ℕ) (fails write_fails : Bool)
      → all is_ascii workspace_id ≡ true
      → all is_ascii lead_id ≡ true
      → all is_no_colon lead_id ≡ true
      → is_empty workspace_id ≡ false
      → is_empty lead_id ≡ false
      → (now / 1000 == 0) ≡ false
      → issue_lead_token crypto lead_id workspace_id page ttl_days now now_later new_id secret fails
          rows
        ≡ (IssueResult.issued token expiry id, after)
      → (validate_lead_token crypto token current_page secret later false write_fails after).0 ≡ (
          if leb expiry later
          then ValidateResult.expired
          else if text_eq page current_page
          then ValidateResult.valid lead_id
          else ValidateResult.page_mismatch)
  unfolding issue_lead_token validate_lead_token claims_read
  issued_token_validates secret rows after token id current_page expiry later fails write_fails aw
        al cl ew el en h =
      let (made, (fresh, (time, whole))) =
        generated_issued secret token id expiry fails _ rows after h in
      let row : LeadToken = row_of token in
      let stored : (find (has_hash_in (crypto.sha256_hex token) workspace_id) after ≡ some row) =
        ap (find (has_hash_in (crypto.sha256_hex token) workspace_id)) (sym whole)
        ∙ (find-append_none (has_hash_in (crypto.sha256_hex token) workspace_id) rows (row ∷ [])
              (find-weaker (crypto.sha256_hex token) workspace_id rows fresh)
            ∙ rw (text_eq_refl (crypto.sha256_hex token), text_eq_refl workspace_id) refl) in
      ap (λ o. (claims_read crypto token current_page secret later false write_fails o after).0)
        (parse_lead_token-generated crypto.base64 crypto.texts crypto.hmac workspace_id lead_id
          secret (now / 1000) aw al cl ew el en token made)
      ∙ rw
          (verify_lead_token-generated crypto.base64 crypto.texts crypto.hmac workspace_id lead_id
            secret (now / 1000) aw al cl ew el en token made)
          (ap (λ o. (row_found crypto token current_page secret later false write_fails o after).0)
              stored
            ∙ (row_verdict token current_page secret later write_fails row after
                ∙ ap (verdict_at current_page later) time))

-- A token holds the seconds of its issue, so a second issue for the lead in the same second, for
-- whichever page, makes the same token, and the unique index refuses it.
pub reissue_refused :
    (crypto : Crypto) (lead_id workspace_id page other_page : Text)
    (ttl_days other_ttl now now_later again again_later : ℕ) (new_id other_id : Text)
    (secret : Bytes) (rows after : List LeadToken) (token id : Text) (expiry : ℕ)
    (fails later_fails : Bool)
    → issue_lead_token crypto lead_id workspace_id page ttl_days now now_later new_id secret fails
        rows
      ≡ (IssueResult.issued token expiry id, after)
    → again / 1000 ≡ now / 1000
    → issue_lead_token crypto lead_id workspace_id other_page other_ttl again again_later other_id
        secret later_fails after
      ≡ (IssueResult.db_error, after)
unfolding issue_lead_token
reissue_refused crypto l w page other_page ttl other_ttl now now_later again again_later new_id
      other_id secret rows after token id expiry fails later_fails h second =
    let (made, (fresh, (time, whole))) =
      generated_issued crypto l w page ttl now now_later new_id secret token id expiry fails _ rows
        after h in
    let row : LeadToken = token_row crypto l w page ttl now now_later new_id token in
    let stored : (find (has_hash (crypto.sha256_hex token)) after ≡ some row) =
      ap (find (has_hash (crypto.sha256_hex token))) (sym whole)
      ∙ (find-append_none (has_hash (crypto.sha256_hex token)) rows (row ∷ []) fresh
          ∙ rw (text_eq_refl (crypto.sha256_hex token)) refl) in
    ap
      (λ o.
        generated crypto l w other_page other_ttl again again_later other_id later_fails o after)
      (ap (generate_lead_token crypto.base64 crypto.texts crypto.hmac l w secret) second ∙ made)
    ∙ ap
        (λ o.
          inserted crypto l w other_page other_ttl again again_later other_id token later_fails o
            after)
        stored
