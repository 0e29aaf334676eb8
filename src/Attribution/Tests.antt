-- ===== src/Attribution/Tests.antt =====
-- Runs of apps/edge/src/lib/attribution.ts.
use globaltracker.Prelude.{
  ℕ, ◌≡◌, refl, Bool, true, false, not, Option, none, some, or_else, List, [], ◌∷◌, Text, codes,
  text_eq, any, find, select,
}
use globaltracker.Attribution.Types.{
  TouchType, in_scope, AttributionParams, RecordTouchesInput, RecordTouchesOutcome, Touch,
}
use globaltracker.Attribution.Touches.{
  attribution_params_to_row, touch_row, scope_of, record_touches,
}
use globaltracker.Attribution.Laws.{first_touch_stays, record_touches_ok}
use globaltracker.Attribution.History.{record_touches-history}

abbrev params : Option Text → AttributionParams
params source = record {
  utm_source = source;
  utm_medium = none;
  utm_campaign = none;
  utm_content = none;
  utm_term = none;
  fbclid = none;
  gclid = none;
  gbraid = none;
  wbraid = none;
  fbc = none;
  fbp = none;
  gcl_au = none;
  ga = none;
  referrer_domain = none;
  link_id = none;
  ad_account_id = none;
  campaign_id = none;
  adset_id = none;
  ad_id = none;
  creative_id = none;
}

abbrev visit : ℕ → Option Text → RecordTouchesInput
visit time source = record {
  lead_id = 1 ∷ [];
  launch_id = 2 ∷ [];
  workspace_id = 3 ∷ [];
  attribution = params source;
  event_time = time;
}

abbrev works : TouchType → Bool
works type = false

abbrev breaks : TouchType → Bool
breaks TouchType.first = false
breaks TouchType.last = false
breaks TouchType.all = true

abbrev late : RecordTouchesInput
late = visit 50 (some (codes "google"))

abbrev early : RecordTouchesInput
early = visit 20 none

abbrev visited : List Touch
visited =
    touch_row 60 late TouchType.first
    ∷ touch_row 60 late TouchType.last
    ∷ touch_row 60 late TouchType.all
    ∷ []

-- An earlier event that arrives later, and whose last statement fails.
first_touch_stays_example :
    find (scope_of late TouchType.first) (record_touches breaks 70 early visited).1
    ≡ some (touch_row 60 late TouchType.first)
unfolding text_eq
first_touch_stays_example =
    first_touch_stays breaks 70 early (3 ∷ []) (2 ∷ []) (1 ∷ []) visited
      (touch_row 60 late TouchType.first) refl

record_touches_ok_example :
    ((record_touches works 70 early visited).0
      ≡ RecordTouchesOutcome.ok (record {
        first_created = not (any (scope_of early TouchType.first) visited);
        last_updated = true;
      }))
    × (find (scope_of early TouchType.first) (record_touches works 70 early visited).1
        ≡ some (
            or_else
              (find (scope_of early TouchType.first) visited)
              (touch_row 70 early TouchType.first)))
    × ((t : Touch) × (find (scope_of early TouchType.last) (record_touches works 70 early visited).1
          ≡ some t)
        × (t.ts ≡ 20)
        × (t.columns ≡ attribution_params_to_row (params none)))
record_touches_ok_example = record_touches_ok works 70 early visited refl (λ type. refl)

record_touches-history_example :
    select
      (in_scope TouchType.all (3 ∷ []) (2 ∷ []) (1 ∷ []))
      (record_touches works 70 early visited).1
    ≡ touch_row 60 late TouchType.all ∷ touch_row 70 early TouchType.all ∷ []
unfolding record_touches text_eq
record_touches-history_example =
    record_touches-history works 70 early visited (3 ∷ []) (2 ∷ []) (1 ∷ [])
