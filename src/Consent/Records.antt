-- ===== src/Consent/Records.antt =====
-- `createLeadConsent` and `getLatestConsent` of apps/edge/src/lib/consent.ts, with the table of
-- packages/db/src/schema/lead_consent.ts, less the generated `id` and the `event_id`, which is
-- always null. Times are milliseconds; `fails` says that the database refuses the statement.
use globaltracker.Prelude.{
  ℕ, ltb, Bool, ◌||◌, ◌&&◌, List, [], ◌∷◌, ◌++◌, Option, none, some, or_else, Text, text_eq,
  is_empty, select, if◌then◌else◌,
}

pub data ConsentValue : Type 0 where
  granted denied unknown : ConsentValue

pub data ConsentFinality : Type 0 where
  analytics marketing ad_user_data ad_personalization customer_match : ConsentFinality

pub record ConsentSnapshot : Type 0 where
  pub analytics : ConsentValue
  pub marketing : ConsentValue
  pub ad_user_data : ConsentValue
  pub ad_personalization : ConsentValue
  pub customer_match : ConsentValue

-- A row of `lead_consents`.
pub record LeadConsent : Type 0 where
  pub workspace_id : Text
  pub lead_id : Text
  pub consent_analytics : ConsentValue
  pub consent_marketing : ConsentValue
  pub consent_ad_user_data : ConsentValue
  pub consent_ad_personalization : ConsentValue
  pub consent_customer_match : ConsentValue
  pub source : Text
  pub policy_version : Text
  pub ts : ℕ

pub data ConsentOutcome {ℓ} (A : Type ℓ) : Type ℓ where
  ok : A → ConsentOutcome A
  db_error invalid_lead not_found : ConsentOutcome A

abbrev pub consent_row : ConsentSnapshot → Text → Option Text → Text → Text → ℕ → LeadConsent
consent_row consent source policy_version workspace_id lead_id now = record {
  workspace_id = workspace_id;
  lead_id = lead_id;
  consent_analytics = consent.analytics;
  consent_marketing = consent.marketing;
  consent_ad_user_data = consent.ad_user_data;
  consent_ad_personalization = consent.ad_personalization;
  consent_customer_match = consent.customer_match;
  source = source;
  policy_version = or_else policy_version [];
  ts = now;
}

unfoldable pub create_lead_consent :
    Bool
    → ℕ
    → Text
    → ConsentSnapshot
    → Text
    → Option Text
    → Text
    → List LeadConsent
    → ConsentOutcome LeadConsent × List LeadConsent
create_lead_consent fails now lead_id consent source policy_version workspace_id rows =
    let row = consent_row consent source policy_version workspace_id lead_id now in
    if is_empty lead_id || is_empty workspace_id
    then (ConsentOutcome.invalid_lead, rows)
    else if fails
    then (ConsentOutcome.db_error, rows)
    else (ConsentOutcome.ok row, rows ++ row ∷ [])

-- ORDER BY ts DESC LIMIT 1. The database promises nothing on rows of one time; here the last of them
-- is taken.
abbrev later : LeadConsent → Option LeadConsent → LeadConsent
later r none = r
later r (some q) = if ltb q.ts r.ts then r else q

unfoldable pub newest : List LeadConsent → Option LeadConsent
newest [] = none
newest (r ∷ rs) = some (later r (newest rs))

-- `finalityToValue`.
abbrev pub finality_to_value : LeadConsent → ConsentFinality → ConsentValue
finality_to_value row ConsentFinality.analytics = row.consent_analytics
finality_to_value row ConsentFinality.marketing = row.consent_marketing
finality_to_value row ConsentFinality.ad_user_data = row.consent_ad_user_data
finality_to_value row ConsentFinality.ad_personalization = row.consent_ad_personalization
finality_to_value row ConsentFinality.customer_match = row.consent_customer_match

abbrev pub is_consent_of : Text → Text → LeadConsent → Bool
is_consent_of lead_id workspace_id r =
    text_eq r.lead_id lead_id && text_eq r.workspace_id workspace_id

abbrev pub value_found : ConsentFinality → Option LeadConsent → ConsentOutcome ConsentValue
value_found finality none = ConsentOutcome.not_found
value_found finality (some row) = ConsentOutcome.ok (finality_to_value row finality)

unfoldable pub get_latest_consent :
    Bool → Text → ConsentFinality → Text → List LeadConsent → ConsentOutcome ConsentValue
unfolding newest
get_latest_consent fails lead_id finality workspace_id rows =
    if fails
    then ConsentOutcome.db_error
    else value_found finality (newest (select (is_consent_of lead_id workspace_id) rows))
