-- ===== src/Sync/Tests.antt =====
-- Runs of apps/edge/src/dispatchers/audience-sync.
use globaltracker.Prelude.{
  ◌≡◌, refl, ℕ, zero, suc, List, [], ◌∷◌, ◌++◌, none, some, Text, codes, text_eq, All, find,
}
use globaltracker.Payload.Json.{Json}
use globaltracker.Identity.Types.{Lead, LeadStatus}
use globaltracker.Audience.Types.{
  AudienceStatus, Platform, DestinationStrategy, Audience, SnapshotMember, SnapshotTables, SyncJob,
}
use globaltracker.Audience.Jobs.{
  Plan, job_row, create_sync_job, sync_plan, members_of, djb2_bits, djb2, acquire_sync_lock,
}
use globaltracker.Sync.Client.{Reply, attempts, call_users_endpoint}
use globaltracker.Sync.Batches.{batches, batch_members}
use globaltracker.Sync.Store.{
  Delivery, Direction, member_of_lead, Reads, SyncStore, is_job, set_job, processing, succeeded,
  failed_until, to_members,
}
use globaltracker.Sync.Process.{
  World, delivery, send_batches, send_members, send_plan, process_sync_job,
}
use globaltracker.Sync.Outcomes.{google_job_unsent, retry_never_comes}
use globaltracker.Sync.Sending.{is_addition, is_removal, people, send_plan-people}
use globaltracker.Sync.Accepted.{acknowledged, IsSmall}

abbrev audience_on : Platform → DestinationStrategy → Audience
audience_on platform strategy = record {
  id = 5 ∷ [];
  workspace_id = 7 ∷ [];
  public_id = codes "aud";
  platform = platform;
  destination_strategy = strategy;
  query_definition = Json.null;
  consent_policy = Json.null;
  status = AudienceStatus.active;
}

abbrev member : Text → SnapshotMember
member lead_id = record { snapshot_id = 1 ∷ []; lead_id = lead_id }

abbrev tables : SnapshotTables
tables = record { snapshots = []; members = member (10 ∷ []) ∷ []; sync_jobs = [] }

abbrev lead_row : Lead
lead_row = record {
  id = 10 ∷ [];
  workspace_id = 7 ∷ [];
  status = LeadStatus.active;
  merged_into = none;
  first_seen_at = 0;
  last_seen_at = 0;
  email_hash = some (codes "e");
  phone_hash = none;
  email_hash_external = none;
  phone_hash_external = none;
  updated_at = 0;
}

abbrev reads : Reads
reads = record { snapshot_members = tables.members; leads = lead_row ∷ [] }

abbrev world_of : ℕ → World
world_of status = record {
  now = 100;
  locks = [];
  fetch = λ n. Reply.answered status none none;
  google_call = λ n. none;
  jitter = 3;
}

abbrev plan : Plan
plan = record { additions = (10 ∷ []) ∷ []; removals = [] }

abbrev job : SyncJob
job = job_row (7 ∷ []) (5 ∷ []) (1 ∷ []) none (9 ∷ []) plan

abbrev store_on : Platform → DestinationStrategy → SyncStore
store_on platform strategy = record {
  jobs = job ∷ [];
  audiences = audience_on platform strategy ∷ [];
  requests = [];
}

abbrev google_store : SyncStore
google_store = store_on Platform.google DestinationStrategy.google_ads_api_allowlisted

google_job_unsent_example :
    (find (is_job (9 ∷ [])) (process_sync_job (world_of 200) reads (9 ∷ []) google_store).1.jobs
      ≡ some (succeeded 100 0 0 (processing 100 job)))
    × ((process_sync_job (world_of 200) reads (9 ∷ []) google_store).1.requests ≡ [])
unfolding create_sync_job sync_plan members_of text_eq
google_job_unsent_example =
    google_job_unsent (world_of 200) reads
      (audience_on Platform.google DestinationStrategy.google_ads_api_allowlisted) (1 ∷ []) (9 ∷ [])
      none tables (record tables { sync_jobs = job ∷ [] }) job google_store refl refl refl refl refl

abbrev meta_store : SyncStore
meta_store = store_on Platform.meta DestinationStrategy.meta_custom_audience

abbrev begun : SyncStore
begun = record meta_store { jobs = processing 100 job ∷ [] }

-- The request for the one addition.
abbrev tried : Delivery
tried = delivery Direction.addition (codes "aud") (member_of_lead lead_row ∷ [])

-- Meta answers 503 three times.
retry_never_comes_example :
    (find (is_job (9 ∷ [])) (process_sync_job (world_of 503) reads (9 ∷ []) meta_store).1.jobs
      ≡ some (failed_until 63100 (codes "UNKNOWN") (processing 100 job)))
    × ((process_sync_job
          (world_of 200)
          reads
          (9 ∷ [])
          (process_sync_job (world_of 503) reads (9 ∷ []) meta_store).1).1
        ≡ (process_sync_job (world_of 503) reads (9 ∷ []) meta_store).1)
unfolding text_eq acquire_sync_lock djb2 djb2_bits send_plan send_members send_batches
    call_users_endpoint attempts batches batch_members to_members sync_plan members_of set_job
retry_never_comes_example =
    retry_never_comes (world_of 503) (world_of 200) reads reads (9 ∷ []) job
      (audience_on Platform.meta DestinationStrategy.meta_custom_audience) (codes "UNKNOWN")
      meta_store (record begun { requests = tried ∷ tried ∷ tried ∷ [] }) refl refl refl refl refl
      refl refl

-- Meta's answer to the first request is lost, and the second is answered with success.
abbrev lossy : World
lossy = record (world_of 200) {
  fetch = λ n. elim n [ zero ↦ Reply.network_failure | suc m ↦ Reply.answered 200 none none ];
}

abbrev sent_store : SyncStore
unfolding send_plan send_members send_batches call_users_endpoint attempts batches batch_members
    to_members text_eq
sent_store = (send_plan lossy reads (codes "aud") plan meta_store).1

send_plan-people_example :
    (new : List Delivery) × (sent_store.requests ≡ meta_store.requests ++ new)
    × (people is_addition (acknowledged lossy.fetch 0 new) ≡ to_members plan.additions reads.leads)
    × (people is_removal (acknowledged lossy.fetch 0 new) ≡ to_members plan.removals reads.leads)
    × All IsSmall new
unfolding send_plan send_members send_batches call_users_endpoint attempts batches batch_members
    to_members text_eq sent_store
send_plan-people_example =
    send_plan-people lossy reads (codes "aud") plan meta_store sent_store (1, 0) refl
