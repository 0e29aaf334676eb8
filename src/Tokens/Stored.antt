-- ===== src/Tokens/Stored.antt =====
-- `issueLeadToken` and `validateLeadToken` of apps/edge/src/lib/lead-token.ts, with the table of
-- packages/db/src/schema/lead_token.ts. Times are milliseconds. The faults say which statements the
-- database refuses; of the two clock reads of an issue the first gives the seconds of the claims.
use globaltracker.Prelude.{
  ℕ, ◌+◌, ◌*◌, ◌/◌, Bool, true, false, leb, ◌&&◌, List, [], ◌∷◌, ◌++◌, Option, none, some, Text,
  text_eq, if◌then◌else◌, find, update,
}
use globaltracker.Tokens.Encoding.{Bytes, Base64}
use globaltracker.Tokens.Claims.{Texts, Claims}
use globaltracker.Tokens.Signing.{Hmac, generate_lead_token, parse_lead_token, verify_lead_token}

pub record LeadToken : Type 0 where
  pub id : Text
  pub workspace_id : Text
  pub lead_id : Text
  pub token_hash : Text
  pub page_token_hash : Text
  pub issued_at : ℕ
  pub expires_at : ℕ
  pub revoked_at : Option ℕ
  pub last_used_at : Option ℕ

pub data IssueResult : Type 0 where
  issued : Text → ℕ → Text → IssueResult
  token_generation_failed db_error : IssueResult

pub data ValidateResult : Type 0 where
  valid : Text → ValidateResult
  invalid_token hmac_invalid expired revoked page_mismatch db_error : ValidateResult

pub record Crypto : Type 0 where
  pub base64 : Base64
  pub texts : Texts
  pub hmac : Hmac
  pub sha256_hex : Text → Text

-- The unique index is on the hash.
abbrev pub has_hash : Text → LeadToken → Bool
has_hash h r = text_eq r.token_hash h

abbrev pub has_hash_in : Text → Text → LeadToken → Bool
has_hash_in h workspace_id r = text_eq r.token_hash h && text_eq r.workspace_id workspace_id

abbrev pub has_token_id : Text → LeadToken → Bool
has_token_id id r = text_eq r.id id

module _ (crypto : Crypto) where
  module _ (lead_id workspace_id page_token_hash : Text) (ttl_days now now_later : ℕ)
      (new_id : Text) where
    abbrev pub token_row : Text → LeadToken
    token_row token = record {
      id = new_id;
      workspace_id = workspace_id;
      lead_id = lead_id;
      token_hash = crypto.sha256_hex token;
      page_token_hash = page_token_hash;
      issued_at = now_later;
      expires_at = now_later + ttl_days * 24 * 60 * 60 * 1000;
      revoked_at = none;
      last_used_at = none;
    }

    -- The insert, which the unique index or the database may refuse.
    abbrev pub inserted :
        Text → Bool → Option LeadToken → List LeadToken → IssueResult × List LeadToken
    inserted token fails (some r) rows = (IssueResult.db_error, rows)
    inserted token true none rows = (IssueResult.db_error, rows)
    inserted token false none rows =
        (IssueResult.issued token (token_row token).expires_at new_id, rows ++ token_row token ∷ [])

    abbrev pub generated : Bool → Option Text → List LeadToken → IssueResult × List LeadToken
    generated fails none rows = (IssueResult.token_generation_failed, rows)
    generated fails (some token) rows =
        inserted token fails (find (has_hash (crypto.sha256_hex token)) rows) rows

    unfoldable pub issue_lead_token : Bytes → Bool → List LeadToken → IssueResult × List LeadToken
    unfolding generate_lead_token
    issue_lead_token secret fails rows =
        generated fails
          (generate_lead_token crypto.base64 crypto.texts crypto.hmac lead_id workspace_id secret
            (now / 1000))
          rows

  module _ (token current_page : Text) (secret : Bytes) (now : ℕ)
      (read_fails write_fails : Bool) where
    abbrev pub used : LeadToken → LeadToken
    used r = record r { last_used_at = some now }

    -- The row's checks, in their order. A failure of the last write is not an error.
    abbrev pub row_checked : LeadToken → Option ℕ → List LeadToken → ValidateResult × List LeadToken
    row_checked r (some t) rows = (ValidateResult.revoked, rows)
    row_checked r none rows =
        if leb r.expires_at now
        then (ValidateResult.expired, rows)
        else if text_eq r.page_token_hash current_page
        then (
          ValidateResult.valid r.lead_id,
          if write_fails then rows else update (has_token_id r.id) used rows,
        )
        else (ValidateResult.page_mismatch, rows)

    abbrev pub row_found : Option LeadToken → List LeadToken → ValidateResult × List LeadToken
    row_found none rows = (ValidateResult.invalid_token, rows)
    row_found (some r) rows = row_checked r r.revoked_at rows

    unfoldable pub claims_read : Option Claims → List LeadToken → ValidateResult × List LeadToken
    unfolding verify_lead_token
    claims_read none rows = (ValidateResult.invalid_token, rows)
    claims_read (some c) rows =
        if verify_lead_token crypto.base64 crypto.texts crypto.hmac token c.lead_id c.workspace_id
          secret
        then (if read_fails
            then (ValidateResult.db_error, rows)
            else row_found (find (has_hash_in (crypto.sha256_hex token) c.workspace_id) rows) rows)
        else (ValidateResult.hmac_invalid, rows)

    unfoldable pub validate_lead_token : List LeadToken → ValidateResult × List LeadToken
    unfolding parse_lead_token claims_read
    validate_lead_token rows =
        claims_read (parse_lead_token crypto.base64 crypto.texts crypto.hmac token) rows
