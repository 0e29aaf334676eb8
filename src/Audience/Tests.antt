-- ===== src/Audience/Tests.antt =====
-- Runs of apps/edge/src/lib/audience.ts and of its cron.
use globaltracker.Prelude.{
  ◌≡◌, refl, ◌↔◌, ◌+◌, true, false, List, [], ◌∷◌, none, some, Text, codes, text_eq, arith,
}
use mathlib.Core.List.{Memᴰ}
use globaltracker.Payload.Json.{Json, Items, Fields}
use globaltracker.Identity.Types.{Lead, LeadStatus}
use globaltracker.Audience.Types.{
  Condition, QueryDefinition, AudienceStatus, Platform, DestinationStrategy, Audience, LeadStage,
  Sources, SnapshotMember, SnapshotTables, Result,
}
use globaltracker.Audience.Schema.{
  get, has_field, refined, parse_condition, parse_conditions, parse_all, parse_definition,
  condition_value, condition_values, definition_value, is_valid, parse_definition-back,
}
use globaltracker.Audience.Evaluate.{
  Outside, slug_of, slugs, stages_of, load_funnel_stage_order, holds, from_stage,
  condition_fragments, query_fragments, requires_customer_match, text_leb, insert_text, sort_texts,
  EvalResult, order_of_launch, stage_order, selects, evaluation, evaluate_definition,
  audience_found, evaluate_audience,
}
use globaltracker.Audience.Membership.{Qualifies, evaluate_audience-Qualifies}
use globaltracker.Audience.Planning.{holds_after, previous_members, sync_plan-holds_after}
use globaltracker.Audience.Jobs.{members_of, sync_plan, djb2_bits, djb2}
use globaltracker.Audience.Retention.{AtMostTwoActive}
use globaltracker.Audience.Growth.{latest_hash}
use globaltracker.Audience.Cron.{Faults, Supply, RunState, process_audience, run_audience_sync}
use globaltracker.Audience.Losses.{refused_job_is_lost}
use globaltracker.Audience.Runs.{run_audience_sync-AtMostTwoActive, run_audience_sync-latest_hash}

-- Leads at the second stage of a funnel or later.
abbrev reached : Condition
reached = record {
  stage_eq = none;
  stage_not = none;
  stage_gte = some (codes "paid");
  stage = none;
  not_stage = none;
  is_icp = none;
  purchased = none;
}

abbrev query : QueryDefinition
query = record {
  launch_id = some (codes "launch");
  launch_public_id = none;
  conditions = reached ∷ [];
}

parse_definition-back_example : parse_definition (definition_value query) ≡ some query
unfolding is_valid has_field
parse_definition-back_example = parse_definition-back query

abbrev workspace : Text
workspace = 7 ∷ []

abbrev audience : Audience
unfolding definition_value condition_values condition_value
audience = record {
  id = 5 ∷ [];
  workspace_id = workspace;
  public_id = codes "aud";
  platform = Platform.google;
  destination_strategy = DestinationStrategy.google_ads_api_allowlisted;
  query_definition = definition_value query;
  consent_policy = Json.obj Fields.end;
  status = AudienceStatus.active;
}

abbrev lead_row : Text → Lead
lead_row id = record {
  id = id;
  workspace_id = workspace;
  status = LeadStatus.active;
  merged_into = none;
  first_seen_at = 0;
  last_seen_at = 0;
  email_hash = none;
  phone_hash = none;
  email_hash_external = none;
  phone_hash_external = none;
  updated_at = 0;
}

abbrev stage_row : Text → Text → LeadStage
stage_row lead_id stage = record { lead_id = lead_id; stage = stage }

abbrev stage_value : Text → Json
stage_value slug = Json.obj (Fields.field (codes "slug") (Json.str slug) Fields.end)

abbrev sources : Sources
sources = record {
  audiences = audience ∷ [];
  leads = lead_row (2 ∷ []) ∷ lead_row (3 ∷ []) ∷ lead_row (1 ∷ []) ∷ [];
  lead_stages =
      stage_row (2 ∷ []) (codes "attended")
      ∷ stage_row (3 ∷ []) (codes "lead")
      ∷ stage_row (1 ∷ []) (codes "paid")
      ∷ [];
  lead_icp_scores = [];
  lead_consents = [];
  launches =
      record {
        id = codes "launch";
        funnel_blueprint = Json.obj (
            Fields.field (codes "stages")
              (Json.arr (
                Items.cons (stage_value (codes "lead")) (
                  Items.cons (stage_value (codes "paid"))
                    (Items.cons (stage_value (codes "attended")) Items.nil))))
              Fields.end);
      }
      ∷ [];
}

abbrev outside : Outside
outside = record { json_parse = λ s. none; sha256_hex = λ s. 35 ∷ s; launches_fail = false }

abbrev order : List Text
order = codes "lead" ∷ codes "paid" ∷ codes "attended" ∷ []

abbrev evaluated_to : EvalResult
evaluated_to = evaluation outside sources workspace ((1 ∷ []) ∷ (2 ∷ []) ∷ [])

evaluation_run : evaluate_audience outside sources workspace audience.id ≡ Result.ok evaluated_to
unfolding evaluate_audience audience_found parse_definition parse_all parse_conditions
    parse_condition refined has_field get text_eq evaluate_definition stage_order order_of_launch
    load_funnel_stage_order stages_of slugs slug_of query_fragments condition_fragments from_stage
    selects holds sort_texts insert_text text_leb requires_customer_match definition_value
    condition_values condition_value
evaluation_run = refl

evaluate_audience-Qualifies_example : Memᴰ (1 ∷ []) evaluated_to.members ↔ (
    (l : Lead) × Memᴰ l sources.leads
    × ((l.id ≡ 1 ∷ []) × Qualifies sources workspace order audience query l))
unfolding text_eq parse_definition parse_all parse_conditions parse_condition refined has_field get
    definition_value condition_values condition_value stage_order order_of_launch
    load_funnel_stage_order stages_of slugs slug_of
evaluate_audience-Qualifies_example =
    evaluate_audience-Qualifies outside sources workspace audience.id audience query order
      evaluated_to (1 ∷ []) refl refl refl evaluation_run

-- A cron whose clock is at the number of snapshots, with no snapshot so far.
abbrev supply : Supply
supply = record { times = λ n. 100 + n; snapshot_ids = λ n. n ∷ []; job_ids = λ n. n ∷ [] }

abbrev faults : Faults
faults = record {
  workspace_list_fails = false;
  list_fails = λ w. false;
  snapshot_fails = λ a. false;
  job_fails = λ a. true;
}

abbrev tables : SnapshotTables
tables = record { snapshots = []; members = []; sync_jobs = [] }

run_audience_sync-latest_hash_example :
    latest_hash workspace audience.id
      (run_audience_sync outside sources faults supply tables).tables.snapshots
    ≡ some evaluated_to.snapshot_hash
unfolding audience
run_audience_sync-latest_hash_example =
    run_audience_sync-latest_hash outside sources faults supply (λ n. omega arith) audience
      evaluated_to tables tt (Memᴰ.head refl) refl refl refl refl evaluation_run

run_audience_sync-AtMostTwoActive_example :
    AtMostTwoActive (run_audience_sync outside sources faults supply tables).tables.snapshots
unfolding AtMostTwoActive
run_audience_sync-AtMostTwoActive_example =
    run_audience_sync-AtMostTwoActive outside sources faults supply tables (λ a. omega arith)

abbrev member : Text → Text → SnapshotMember
member snapshot_id lead_id = record { snapshot_id = snapshot_id; lead_id = lead_id }

-- One lead goes, one stays and one comes.
abbrev members : List SnapshotMember
members =
    member (1 ∷ []) (10 ∷ [])
    ∷ member (1 ∷ []) (11 ∷ [])
    ∷ member (2 ∷ []) (11 ∷ [])
    ∷ member (2 ∷ []) (12 ∷ [])
    ∷ []

sync_plan-holds_after_example :
    holds_after
      (12 ∷ [])
      (previous_members (some (1 ∷ [])) members)
      (sync_plan (2 ∷ []) (some (1 ∷ [])) members)
    ≡ true
unfolding text_eq members_of
sync_plan-holds_after_example = sync_plan-holds_after (12 ∷ []) (2 ∷ []) (some (1 ∷ [])) members

djb2_example : djb2 (codes "ab") ≡ 5863208
unfolding djb2 djb2_bits
djb2_example = refl

-- The job is refused in `faults`; afterwards nothing fails.
abbrev no_faults : Faults
no_faults = record faults { job_fails = λ a. false }

abbrev start : RunState
start = record {
  tables = tables;
  totals = record { snapshots = 0; noops = 0; jobs = 0; errors = 0 };
}

refused_job_is_lost_example :
    ((process_audience outside sources faults supply workspace audience start).tables.sync_jobs
      ≡ [])
    × ((process_audience outside sources no_faults supply workspace audience
          (process_audience outside sources faults supply workspace audience start)).tables
        ≡ (process_audience outside sources faults supply workspace audience start).tables)
refused_job_is_lost_example =
    refused_job_is_lost outside sources supply faults no_faults workspace audience evaluated_to
      start tt evaluation_run refl refl
