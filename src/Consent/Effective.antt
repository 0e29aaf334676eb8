-- ===== src/Consent/Effective.antt =====
-- BR-CONSENT-001 over the functions of apps/edge/src/lib/consent.ts: the value that holds is that of
-- the latest record.
use globaltracker.Prelude.{
  select-append, ℕ, ◌≡◌, ◌≢◌, refl, ap, ◌∙◌, ◌<◌, Bool, false, ◌||◌, List, [], ◌∷◌, ◌++◌, Option,
  some, Text, text_eq_refl, text_eq_of_ne, is_empty, select, All, arith, if◌then◌else◌, Bool-cases,
  inl, inr,
}
use globaltracker.Consent.Records.{
  ConsentFinality, ConsentSnapshot, ConsentValue, LeadConsent, ConsentOutcome, consent_row,
  create_lead_consent, newest, finality_to_value, is_consent_of, value_found, get_latest_consent,
}

select_skips :
    (p : LeadConsent → Bool) (rs : List LeadConsent) (r : LeadConsent)
    → p r ≡ false
    → select p (rs ++ r ∷ []) ≡ select p rs
select_skips p [] r n = rw n
select_skips p (x ∷ xs) r n = elim (Bool-cases (p x)) [
  | inl e ↦ rw (e, select_skips p xs r n)
  | inr e ↦ rw (e, select_skips p xs r n)
]

newest-append :
    (rs : List LeadConsent) (r : LeadConsent)
    → All (λ q. q.ts < r.ts) rs
    → newest (rs ++ r ∷ []) ≡ some r
unfolding newest
newest-append [] r h = refl
newest-append (q ∷ rs) r h = rw (newest-append rs r h.1) (ground (arith, h.0))

-- What a consent says for a finality.
abbrev pub said : ConsentSnapshot → ConsentFinality → ConsentValue
said c ConsentFinality.analytics = c.analytics
said c ConsentFinality.marketing = c.marketing
said c ConsentFinality.ad_user_data = c.ad_user_data
said c ConsentFinality.ad_personalization = c.ad_personalization
said c ConsentFinality.customer_match = c.customer_match

row-said :
    (consent : ConsentSnapshot) (source : Text) (policy_version : Option Text)
    (workspace_id lead_id : Text) (now : ℕ) (finality : ConsentFinality)
    → finality_to_value
        (consent_row consent source policy_version workspace_id lead_id now)
        finality
      ≡ said consent finality
row-said consent source policy_version workspace_id lead_id now ConsentFinality.analytics = refl
row-said consent source policy_version workspace_id lead_id now ConsentFinality.marketing = refl
row-said consent source policy_version workspace_id lead_id now ConsentFinality.ad_user_data = refl
row-said consent source policy_version workspace_id lead_id now ConsentFinality.ad_personalization =
    refl
row-said consent source policy_version workspace_id lead_id now ConsentFinality.customer_match =
    refl

-- A consent that the database accepts, recorded later than the lead's others in the workspace: where
-- the database answers afterwards, each finality reads what the consent said for it.
pub create_lead_consent-effective :
    (now : ℕ) (lead_id : Text) (consent : ConsentSnapshot) (source : Text)
    (policy_version : Option Text) (workspace_id : Text) (finality : ConsentFinality)
    (rows : List LeadConsent)
    → is_empty lead_id || is_empty workspace_id ≡ false
    → All (λ r. r.ts < now) (select (is_consent_of lead_id workspace_id) rows)
    → get_latest_consent false lead_id finality workspace_id
        (create_lead_consent false now lead_id consent source policy_version workspace_id rows).1
      ≡ ConsentOutcome.ok (said consent finality)
unfolding get_latest_consent create_lead_consent
create_lead_consent-effective now lead_id consent source policy_version workspace_id finality rows
      valid older =
    let row = consent_row consent source policy_version workspace_id lead_id now in
    rw
      (
        valid,
        select-append (is_consent_of lead_id workspace_id) rows (row ∷ []),
        text_eq_refl lead_id,
        text_eq_refl workspace_id,
      )
      (ap (value_found finality)
          (newest-append (select (is_consent_of lead_id workspace_id) rows) row older)
        ∙ ap ConsentOutcome.ok
            (row-said consent source policy_version workspace_id lead_id now finality))

-- No call, accepted or not, changes what another lead has consented to.
pub create_lead_consent_other :
    (fails down : Bool) (now : ℕ) (lead_id other : Text) (consent : ConsentSnapshot) (source : Text)
    (policy_version : Option Text) (workspace_id : Text) (finality : ConsentFinality)
    (rows : List LeadConsent)
    → lead_id ≢ other
    → get_latest_consent down other finality workspace_id
        (create_lead_consent fails now lead_id consent source policy_version workspace_id rows).1
      ≡ get_latest_consent down other finality workspace_id rows
unfolding get_latest_consent create_lead_consent
create_lead_consent_other fails down now lead_id other consent source policy_version workspace_id
      finality rows ne =
    let row = consent_row consent source policy_version workspace_id lead_id now in
    elim (Bool-cases (is_empty lead_id || is_empty workspace_id)) [
      | inl e ↦ rw e
      | inr e ↦ elim (Bool-cases fails) [
        | inl f ↦ rw (e, f)
        | inr f ↦
            rw (e, f)
              (ap (λ rs. if down then ConsentOutcome.db_error else value_found finality (newest rs))
                (select_skips (is_consent_of other workspace_id) rows row
                  (rw (text_eq_of_ne lead_id other ne))))
      ]
    ]
