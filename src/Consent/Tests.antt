-- ===== src/Consent/Tests.antt =====
-- Runs of apps/edge/src/lib/consent.ts.
use globaltracker.Prelude.{◌≡◌, refl, false, List, [], ◌∷◌, none, Text, codes, text_eq, arith}
use globaltracker.Consent.Records.{
  ConsentValue, ConsentFinality, ConsentSnapshot, LeadConsent, ConsentOutcome, consent_row,
  create_lead_consent, get_latest_consent,
}
use globaltracker.Consent.Effective.{create_lead_consent-effective}

abbrev all_of : ConsentValue → ConsentSnapshot
all_of value = record {
  analytics = value;
  marketing = value;
  ad_user_data = value;
  ad_personalization = value;
  customer_match = value;
}

abbrev lead : Text
lead = 1 ∷ []

abbrev workspace : Text
workspace = 2 ∷ []

abbrev earlier : List LeadConsent
earlier = consent_row (all_of ConsentValue.granted) (codes "tracker") none workspace lead 10 ∷ []

-- A consent that is withdrawn.
create_lead_consent-effective_example :
    get_latest_consent false lead ConsentFinality.marketing workspace
      (create_lead_consent false 20 lead
        (all_of ConsentValue.denied)
        (codes "admin")
        none
        workspace
        earlier).1
    ≡ ConsentOutcome.ok ConsentValue.denied
unfolding text_eq
create_lead_consent-effective_example =
    create_lead_consent-effective 20 lead (all_of ConsentValue.denied) (codes "admin") none
      workspace ConsentFinality.marketing earlier refl (omega arith, tt)
