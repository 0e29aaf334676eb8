-- ===== src/Audience/Evaluate.antt =====
-- `evaluateAudience` of apps/edge/src/lib/audience.ts with `loadFunnelStageOrder`. A fragment is one
-- of the SQL conditions that the code builds; `holds` is what the database answers to it.
use globaltracker.Prelude.{
  ℕ, Bool, true, false, ◌&&◌, not, ltb, leb, ◌==◌, List, [], ◌∷◌, ◌++◌, map, Option, none, some,
  Text, codes, text_eq, is_empty, if◌then◌else◌, any, all, select, find, join, length,
}
use globaltracker.Payload.Json.{Json, Items}
use globaltracker.Identity.Types.{Lead, LeadStatus}
use globaltracker.Consent.Records.{LeadConsent, ConsentValue}
use globaltracker.Audience.Types.{
  Condition, QueryDefinition, Audience, LeadStage, LeadIcpScore, Launch, Sources, AudienceError,
  Result, return, ◌>>=◌,
}
use globaltracker.Audience.Schema.{get, is_some, parse_definition}

-- The slugs of the stages that have one.
unfoldable pub slug_of : Json → Option Text
unfolding get
slug_of (Json.obj fs) = elim (get (codes "slug") fs) [ Json.str s ↦ some s | _ ↦ none ]
slug_of _ = none

abbrev add_slug : Option Text → List Text → List Text
add_slug none ss = ss
add_slug (some s) ss = s ∷ ss

unfoldable pub slugs : Items → List Text
unfolding slug_of
slugs Items.nil = []
slugs (Items.cons j js) = add_slug (slug_of j) (slugs js)

unfoldable pub stages_of : Json → Option (List Text)
unfolding get slugs
stages_of (Json.obj fs) = elim (get (codes "stages") fs) [
  | Json.arr js ↦ some (slugs js)
  | _ ↦ none
]
stages_of _ = none

-- What stands outside: the two functions of the platform, and whether the database refuses the read
-- of `launches`.
pub record Outside : Type 0 where
  pub json_parse : Text → Option Json
  pub sha256_hex : Text → Text
  pub launches_fail : Bool

module _ (out : Outside) where
  -- A blueprint that comes as a string is parsed first.
  abbrev pub blueprint_stages : Json → Option (List Text)
  blueprint_stages (Json.str s) = elim (out.json_parse s) [ none ↦ none | some j ↦ stages_of j ]
  blueprint_stages j = stages_of j

  unfoldable pub load_funnel_stage_order : Text → List Launch → Option (List Text)
  load_funnel_stage_order launch_id launches =
      if out.launches_fail
      then none
      else elim (find (λ (l : Launch). text_eq l.id launch_id) launches) [
        | none ↦ none
        | some l ↦ blueprint_stages l.funnel_blueprint
      ]

pub data Fragment : Type 0 where
  has_stage : Text → Fragment
  has_no_stage : Text → Fragment
  has_stage_in : List Text → Fragment
  has_icp : Fragment
  grants_customer_match : Fragment

module _ (src : Sources) (lead_id : Text) where
  -- EXISTS in `lead_stages`, with a stage of the list.
  abbrev pub in_stages : List Text → Bool
  in_stages names =
      any (λ (r : LeadStage). text_eq r.lead_id lead_id && any (text_eq r.stage) names)
        src.lead_stages

  abbrev pub is_icp_score : LeadIcpScore → Bool
  is_icp_score r = text_eq r.lead_id lead_id && r.is_icp

  abbrev pub is_granted : ConsentValue → Bool
  is_granted ConsentValue.granted = true
  is_granted _ = false

  abbrev pub is_of_lead : LeadConsent → Bool
  is_of_lead r = text_eq r.lead_id lead_id

  -- `ts = MAX(ts)` of the lead's records.
  abbrev pub is_latest_grant : LeadConsent → Bool
  is_latest_grant r =
      is_of_lead r
      && is_granted r.consent_customer_match
      && all (λ (q : LeadConsent). leb q.ts r.ts) (select is_of_lead src.lead_consents)

  unfoldable pub holds : Fragment → Bool
  holds (Fragment.has_stage s) = in_stages (s ∷ [])
  holds (Fragment.has_no_stage s) = not (in_stages (s ∷ []))
  holds (Fragment.has_stage_in names) = in_stages names
  holds Fragment.has_icp = any is_icp_score src.lead_icp_scores
  holds Fragment.grants_customer_match = any is_latest_grant src.lead_consents

-- `a ?? b` on optional values.
abbrev pub first_of : Option Text → Option Text → Option Text
first_of none b = b
first_of (some a) b = some a

abbrev pub eq_fragments : Option Text → List Fragment
eq_fragments none = []
eq_fragments (some s) = Fragment.has_stage s ∷ []

abbrev pub not_fragments : Option Text → List Fragment
not_fragments none = []
not_fragments (some s) = Fragment.has_no_stage s ∷ []

abbrev pub icp_fragments : Option Bool → List Fragment
icp_fragments (some true) = Fragment.has_icp ∷ []
icp_fragments _ = []

abbrev pub purchased_fragments : Option Bool → List Fragment
purchased_fragments none = []
purchased_fragments (some true) = Fragment.has_stage (codes "purchased") ∷ []
purchased_fragments (some false) = Fragment.has_no_stage (codes "purchased") ∷ []

-- `order.slice(order.indexOf(target))`, which is empty where the target is missing.
unfoldable pub from_stage : Text → List Text → List Text
from_stage target [] = []
from_stage target (s ∷ ss) = if text_eq s target then s ∷ ss else from_stage target ss

abbrev pub stage_in_fragments : List Text → Result (List Fragment)
stage_in_fragments [] = Result.err AudienceError.stage_not_in_funnel
stage_in_fragments (s ∷ ss) = Result.ok (Fragment.has_stage_in (s ∷ ss) ∷ [])

abbrev pub gte_fragments : List Text → Option Text → Result (List Fragment)
gte_fragments order none = Result.ok []
gte_fragments order (some target) = stage_in_fragments (from_stage target order)

unfoldable pub condition_fragments : List Text → Condition → Result (List Fragment)
condition_fragments order c = do
  gte ← gte_fragments order c.stage_gte
  return (
      eq_fragments (first_of c.stage_eq c.stage)
      ++ (not_fragments (first_of c.stage_not c.not_stage)
          ++ (gte ++ (icp_fragments c.is_icp ++ purchased_fragments c.purchased))))

unfoldable pub query_fragments : List Text → List Condition → Result (List Fragment)
unfolding condition_fragments
query_fragments order [] = Result.ok []
query_fragments order (c ∷ cs) = do
  fs ← condition_fragments order c
  rest ← query_fragments order cs
  return (fs ++ rest)

-- `consentPolicy.require_customer_match === true`.
unfoldable pub requires_customer_match : Json → Bool
unfolding get
requires_customer_match (Json.obj fs) = elim (get (codes "require_customer_match") fs) [
  | Json.bool b ↦ b
  | _ ↦ false
]
requires_customer_match _ = false

abbrev pub consent_fragments : Json → List Fragment
consent_fragments policy =
    if requires_customer_match policy then Fragment.grants_customer_match ∷ [] else []

-- `a < b` on strings, by code units.
unfoldable pub text_leb : Text → Text → Bool
text_leb [] t = true
text_leb (a ∷ s) [] = false
text_leb (a ∷ s) (b ∷ t) = if a == b then text_leb s t else ltb a b

-- `sort()`.
unfoldable pub insert_text : Text → List Text → List Text
unfolding text_leb
insert_text t [] = t ∷ []
insert_text t (u ∷ us) = if text_leb t u then t ∷ u ∷ us else u ∷ insert_text t us

unfoldable pub sort_texts : List Text → List Text
unfolding insert_text
sort_texts [] = []
sort_texts (t ∷ ts) = insert_text t (sort_texts ts)

pub record EvalResult : Type 0 where
  pub member_count : ℕ
  pub snapshot_hash : Text
  pub members : List Text

abbrev pub is_active_lead : LeadStatus → Bool
is_active_lead LeadStatus.active = true
is_active_lead _ = false

module _ (out : Outside) (src : Sources) (workspace_id : Text) where
  abbrev pub needs_stage_order : List Condition → Bool
  needs_stage_order cs = any (λ (c : Condition). is_some c.stage_gte) cs

  unfoldable pub order_of_launch : Option Text → Result (List Text)
  unfolding load_funnel_stage_order
  order_of_launch none = Result.err AudienceError.stage_gte_without_launch
  order_of_launch (some launch_id) =
      if is_empty launch_id
      then Result.err AudienceError.stage_gte_without_launch
      else elim (load_funnel_stage_order out launch_id src.launches) [
        | none ↦ Result.err AudienceError.funnel_blueprint_not_loadable
        | some order ↦ Result.ok order
      ]

  unfoldable pub stage_order : QueryDefinition → Result (List Text)
  unfolding order_of_launch
  stage_order q =
      if needs_stage_order q.conditions then order_of_launch q.launch_id else Result.ok []

  -- The WHERE of the query.
  unfoldable pub selects : List Fragment → Lead → Bool
  unfolding holds
  selects fragments l =
      text_eq l.workspace_id workspace_id
      && is_active_lead l.status
      && all (holds src l.id) fragments

  abbrev pub evaluation : List Text → EvalResult
  evaluation members = record {
    member_count = length members;
    snapshot_hash = out.sha256_hex (join (codes ",") members);
    members = members;
  }

  unfoldable pub evaluate_definition : Audience → QueryDefinition → Result EvalResult
  unfolding stage_order query_fragments selects sort_texts
  evaluate_definition audience q = do
    order ← stage_order q
    fragments ← query_fragments order q.conditions
    let chosen = fragments ++ consent_fragments audience.consent_policy
    return (evaluation (sort_texts (map (λ (l : Lead). l.id) (select (selects chosen) src.leads))))

  abbrev pub checked : Option QueryDefinition → Result QueryDefinition
  checked none = Result.err AudienceError.invalid_query_definition
  checked (some q) = Result.ok q

  abbrev pub is_audience : Text → Audience → Bool
  is_audience audience_id a = text_eq a.id audience_id && text_eq a.workspace_id workspace_id

  unfoldable pub audience_found : Option Audience → Result EvalResult
  unfolding evaluate_definition parse_definition
  audience_found none = Result.err AudienceError.audience_not_found
  audience_found (some audience) = do
    q ← checked (parse_definition audience.query_definition)
    evaluate_definition audience q

  unfoldable pub evaluate_audience : Text → Result EvalResult
  evaluate_audience audience_id = audience_found (find (is_audience audience_id) src.audiences)
