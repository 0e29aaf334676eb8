-- ===== src/Attribution/Touches.antt =====
-- `recordTouches` and `getLeadAttribution` of apps/edge/src/lib/attribution.ts. The call has no
-- transaction: the parameter `fails` says which of its three statements the database refuses, and
-- what the earlier ones wrote then stays.
use globaltracker.Prelude.{
  ℕ, Bool, true, not, ◌||◌, ◌&&◌, List, [], ◌∷◌, ◌++◌, Option, Text, text_eq, is_empty, any, find,
  update, if◌then◌else◌,
}
use globaltracker.Attribution.Types.{
  TouchType, touch_eq, AttributionParams, AttributionColumns, RecordTouchesInput, Touch,
  RecordTouchesOutcome, in_scope,
}

abbrev pub attribution_params_to_row : AttributionParams → AttributionColumns
attribution_params_to_row p = record {
  source = p.utm_source;
  medium = p.utm_medium;
  campaign = p.utm_campaign;
  content = p.utm_content;
  term = p.utm_term;
  link_id = p.link_id;
  ad_account_id = p.ad_account_id;
  campaign_id = p.campaign_id;
  adset_id = p.adset_id;
  ad_id = p.ad_id;
  creative_id = p.creative_id;
  fbclid = p.fbclid;
  gclid = p.gclid;
  gbraid = p.gbraid;
  wbraid = p.wbraid;
  fbc = p.fbc;
  fbp = p.fbp;
}

-- The row that each of the three statements inserts.
abbrev pub touch_row : ℕ → RecordTouchesInput → TouchType → Touch
touch_row now input type = record {
  workspace_id = input.workspace_id;
  launch_id = input.launch_id;
  lead_id = input.lead_id;
  touch_type = type;
  columns = attribution_params_to_row input.attribution;
  ts = input.event_time;
  created_at = now;
  updated_at = now;
}

abbrev pub scope_of : RecordTouchesInput → TouchType → Touch → Bool
scope_of input type = in_scope type input.workspace_id input.launch_id input.lead_id

-- INSERT ... ON CONFLICT DO NOTHING, on the partial unique index of the first touches.
unfoldable pub insert_first : ℕ → RecordTouchesInput → List Touch → List Touch
insert_first now input rows =
    if any (scope_of input TouchType.first) rows
    then rows
    else rows ++ touch_row now input TouchType.first ∷ []

-- INSERT ... ON CONFLICT DO UPDATE, on that of the last touches; `created_at` is not in the SET.
abbrev pub overwrite : ℕ → RecordTouchesInput → Touch → Touch
overwrite now input t = record t {
  ts = input.event_time;
  updated_at = now;
  columns = attribution_params_to_row input.attribution;
}

unfoldable pub upsert_last : ℕ → RecordTouchesInput → List Touch → List Touch
upsert_last now input rows =
    if any (scope_of input TouchType.last) rows
    then update (scope_of input TouchType.last) (overwrite now input) rows
    else rows ++ touch_row now input TouchType.last ∷ []

abbrev pub is_invalid : RecordTouchesInput → Bool
is_invalid input =
    is_empty input.lead_id || (is_empty input.launch_id || is_empty input.workspace_id)

-- The upsert returns its row either way, so `last_updated` is true whenever it is reached.
unfoldable pub record_touches :
    (TouchType → Bool) → ℕ → RecordTouchesInput → List Touch → RecordTouchesOutcome × List Touch
unfolding insert_first upsert_last
record_touches fails now input rows =
    let rows1 = insert_first now input rows in
    let rows2 = upsert_last now input rows1 in
    if is_invalid input
    then (RecordTouchesOutcome.invalid_input, rows)
    else if fails TouchType.first
    then (RecordTouchesOutcome.db_error, rows)
    else if fails TouchType.last
    then (RecordTouchesOutcome.db_error, rows1)
    else if fails TouchType.all
    then (RecordTouchesOutcome.db_error, rows2)
    else (
      RecordTouchesOutcome.ok (record {
        first_created = not (any (scope_of input TouchType.first) rows);
        last_updated = true;
      }),
      rows2 ++ touch_row now input TouchType.all ∷ [],
    )

-- `getLeadAttribution` does not ask for a workspace.
abbrev pub get_lead_attribution : Text → Text → TouchType → List Touch → Option Touch
get_lead_attribution lead_id launch_id type rows =
    find
      (λ t.
        text_eq t.lead_id lead_id && (text_eq t.launch_id launch_id && touch_eq t.touch_type type))
      rows
