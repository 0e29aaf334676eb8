-- ===== src/Sync/Process.antt =====
-- `processSyncJob` of apps/edge/src/dispatchers/audience-sync/index.ts, `processMetaSyncJob` of
-- meta/index.ts and `processGoogleSyncJob` of google/index.ts. What the advisory locks of other
-- transactions are, the answers of the platforms and the random delays are parameters.
use globaltracker.Prelude.{
  ℕ, ◌+◌, ◌*◌, Bool, true, false, not, List, [], ◌∷◌, ◌++◌, Option, none, some, Text, codes,
  text_eq, is_empty, if◌then◌else◌, or_else, find, update, length,
}
use globaltracker.Audience.Types.{Platform, DestinationStrategy, Audience, SyncStatus, SyncJob}
use globaltracker.Audience.Jobs.{Plan, sync_plan, acquire_sync_lock}
use globaltracker.Audience.Cron.{is_disabled}
use globaltracker.Sync.Client.{Reply, SyncError, Outcome, call_users_endpoint}
use globaltracker.Sync.Batches.{batch_members}
use globaltracker.Sync.Store.{
  Member, Direction, Delivery, Reads, SyncStore, Ran, is_job, set_job, processing, succeeded,
  requeued, failed_for_good, failed_until, to_members,
}

-- `fetch` is Meta's side, `google_call` what the Google client's call of the given number ends with.
pub record World : Type 0 where
  pub now : ℕ
  pub locks : List ℕ
  pub fetch : ℕ → Reply
  pub google_call : ℕ → Option SyncError
  pub jitter : ℕ

abbrev pub meta_batch_size : ℕ
meta_batch_size = 10000

abbrev pub add_received : ℕ → Outcome ℕ × List Delivery → Outcome ℕ × List Delivery
add_received n (Outcome.ok m, r) = (Outcome.ok (n + m), r)
add_received n (Outcome.err e, r) = (Outcome.err e, r)

-- What one batch ends with: an error leaves those after it out.
abbrev pub batch_done :
    Outcome ℕ → Outcome ℕ × List Delivery → List Delivery → Outcome ℕ × List Delivery
batch_done (Outcome.err e) onward r = (Outcome.err e, r)
batch_done (Outcome.ok n) onward r = add_received n onward

abbrev pub delivery : Direction → Text → List Member → Delivery
delivery direction resource members = record {
  direction = direction;
  resource_id = resource;
  members = members;
}

-- The strategy of Google, by `selectGoogleStrategy`.
pub data GoogleStrategy : Type 0 where
  data_manager ads_api disabled : GoogleStrategy

abbrev pub select_google_strategy : DestinationStrategy → GoogleStrategy
select_google_strategy DestinationStrategy.google_data_manager = GoogleStrategy.data_manager
select_google_strategy DestinationStrategy.google_ads_api_allowlisted = GoogleStrategy.ads_api
select_google_strategy _ = GoogleStrategy.disabled

-- `checkGoogleEligibility`.
abbrev pub check_google_eligibility : DestinationStrategy → Option Text → Bool
check_google_eligibility strategy resource =
    if is_disabled strategy then false else not (is_empty (or_else resource []))

abbrev pub is_audience_id : Text → Audience → Bool
is_audience_id id a = text_eq a.id id

-- FLOW-05: an account that is not on the list loses the destination.
abbrev pub demoted : Audience → Audience
demoted a = record a { destination_strategy = DestinationStrategy.disabled_not_eligible }

-- A job that is not pending is left alone.
abbrev pub is_pending : SyncStatus → Bool
is_pending SyncStatus.pending = true
is_pending _ = false

abbrev pub after_sends : SyncStore → List Delivery → SyncStore
after_sends st r = record st { requests = r }

-- What both directions end with; an error in the additions leaves the removals out.
abbrev pub both_sent :
    Outcome ℕ × List Delivery → Outcome ℕ × List Delivery → SyncStore → Outcome (ℕ × ℕ) × SyncStore
both_sent (Outcome.err e, r) removes st = (Outcome.err e, after_sends st r)
both_sent (Outcome.ok n, r) (Outcome.err e, q) st = (Outcome.err e, after_sends st q)
both_sent (Outcome.ok n, r) (Outcome.ok m, q) st = (Outcome.ok (n, m), after_sends st q)

module _ (world : World) (reads : Reads) where
  -- One direction, batch by batch, with the requests made so far.
  unfoldable pub send_batches :
      Direction → Text → List (List Member) → List Delivery → Outcome ℕ × List Delivery
  unfolding call_users_endpoint
  send_batches direction resource [] requests = (Outcome.ok 0, requests)
  send_batches direction resource (b ∷ bs) requests =
      let r = call_users_endpoint world.fetch (length b) (delivery direction resource b) requests in
      let onward = send_batches direction resource bs r.1 in batch_done r.0 onward r.1

  -- `to_members` of the leads, in batches.
  unfoldable pub send_members :
      Direction → Text → List Text → List Delivery → Outcome ℕ × List Delivery
  unfolding send_batches batch_members to_members
  send_members direction resource ids requests =
      send_batches direction resource (batch_members meta_batch_size (to_members ids reads.leads))
        requests

  -- The additions, and after them the removals, with how many were received of each.
  unfoldable pub send_plan : Text → Plan → SyncStore → Outcome (ℕ × ℕ) × SyncStore
  unfolding send_members
  send_plan resource plan st =
      let adds = send_members Direction.addition resource plan.additions st.requests in
      both_sent adds (send_members Direction.removal resource plan.removals adds.1) st

  -- The delay of a retry in milliseconds, at attempt 0: a minute and the random seconds.
  abbrev pub retry_backoff : ℕ
  retry_backoff = (60 + world.jitter) * 1000

  -- What is written after an error, before it is thrown on.
  abbrev pub failure : SyncError → SyncJob → SyncJob
  failure (SyncError.audience_error code true) = failed_until (world.now + retry_backoff) code
  failure (SyncError.audience_error code false) = failed_for_good world.now code
  failure SyncError.not_allowlisted = failed_for_good world.now (codes "CUSTOMER_NOT_ALLOWLISTED")
  failure SyncError.unexpected = failed_until (world.now + 60000) (codes "INTERNAL_ERROR")

  unfoldable pub meta_sent : SyncJob → Outcome (ℕ × ℕ) × SyncStore → Ran × SyncStore
  unfolding set_job
  meta_sent job (Outcome.ok counts, st) =
      (Ran.finished, set_job job.id (succeeded world.now counts.0 counts.1) st)
  meta_sent job (Outcome.err e, st) =
      (Ran.threw (codes "sync_failed"), set_job job.id (failure e) st)

  unfoldable pub meta_of_audience : SyncJob → Option Audience → SyncStore → Ran × SyncStore
  unfolding set_job acquire_sync_lock send_plan sync_plan meta_sent
  meta_of_audience job none st =
      (Ran.finished, set_job job.id (failed_for_good world.now (codes "AUDIENCE_NOT_FOUND")) st)
  meta_of_audience job (some a) st =
      if is_disabled a.destination_strategy
      then (Ran.finished, set_job job.id (succeeded world.now 0 0) st)
      else if acquire_sync_lock job.audience_id job.platform_resource_id world.locks
      then meta_sent job (
          send_plan (or_else job.platform_resource_id a.public_id)
            (sync_plan job.snapshot_id job.prev_snapshot_id reads.snapshot_members) st)
      else (Ran.finished, set_job job.id (requeued world.now) st)

  unfoldable pub meta_job_found : Option SyncJob → SyncStore → Ran × SyncStore
  unfolding set_job meta_of_audience
  meta_job_found none st = (Ran.threw (codes "audience_sync_job_not_found"), st)
  meta_job_found (some job) st =
      if is_pending job.status
      then meta_of_audience job (find (is_audience_id job.audience_id) st.audiences)
          (set_job job.id (processing world.now) st)
      else (Ran.finished, st)

  unfoldable pub process_meta_sync_job : Text → SyncStore → Ran × SyncStore
  unfolding meta_job_found
  process_meta_sync_job id st = meta_job_found (find (is_job id) st.jobs) st

  -- One direction at Google: no call where there is nobody.
  abbrev pub google_send :
      Direction → Text → List Member → List Delivery → Option SyncError × List Delivery
  google_send direction resource [] requests = (none, requests)
  google_send direction resource (m ∷ ms) requests =
      (world.google_call (length requests), requests ++ delivery direction resource (m ∷ ms) ∷ [])

  unfoldable pub google_plan : Text → Plan → SyncStore → Outcome (ℕ × ℕ) × SyncStore
  unfolding to_members
  google_plan resource plan st =
      let additions = to_members plan.additions reads.leads in
      let removals = to_members plan.removals reads.leads in
      let adds = google_send Direction.addition resource additions st.requests in
      let removes = google_send Direction.removal resource removals adds.1 in
      elim adds.0 [
        | some e ↦ (Outcome.err e, after_sends st adds.1)
        | none ↦ elim removes.0 [
          | some e ↦ (Outcome.err e, after_sends st removes.1)
          | none ↦ (Outcome.ok (length additions, length removals), after_sends st removes.1)
        ]
      ]

  abbrev pub demotion : SyncError → Text → SyncStore → SyncStore
  demotion SyncError.not_allowlisted audience_id st = record st {
    audiences = update (is_audience_id audience_id) demoted st.audiences;
  }
  demotion _ audience_id st = st

  -- An unforeseen error waits as long as one that may be tried again.
  abbrev pub google_failure : SyncError → SyncJob → SyncJob
  google_failure SyncError.unexpected =
      failed_until (world.now + retry_backoff) (codes "INTERNAL_ERROR")
  google_failure e = failure e

  unfoldable pub google_sent : SyncJob → Outcome (ℕ × ℕ) × SyncStore → Ran × SyncStore
  unfolding set_job
  google_sent job (Outcome.ok counts, st) =
      (Ran.finished, set_job job.id (succeeded world.now counts.0 counts.1) st)
  google_sent job (Outcome.err e, st) = (
    Ran.threw (codes "sync_failed"),
    set_job job.id (google_failure e) (demotion e job.audience_id st),
  )

  -- The Data Manager's call is a stub that sends nobody.
  unfoldable pub google_strategy : GoogleStrategy → SyncJob → SyncStore → Ran × SyncStore
  unfolding set_job sync_plan google_plan google_sent acquire_sync_lock
  google_strategy GoogleStrategy.disabled job st =
      (Ran.finished, set_job job.id (succeeded world.now 0 0) st)
  google_strategy GoogleStrategy.data_manager job st = (
    Ran.finished,
    set_job job.id
        (if acquire_sync_lock job.audience_id job.platform_resource_id world.locks
          then succeeded world.now 0 0
          else requeued world.now)
        st,
  )
  google_strategy GoogleStrategy.ads_api job st =
      if acquire_sync_lock job.audience_id job.platform_resource_id world.locks
      then google_sent job (
          google_plan (or_else job.platform_resource_id [])
            (sync_plan job.snapshot_id job.prev_snapshot_id reads.snapshot_members) st)
      else (Ran.finished, set_job job.id (requeued world.now) st)

  unfoldable pub google_of_audience : SyncJob → Option Audience → SyncStore → Ran × SyncStore
  unfolding set_job google_strategy
  google_of_audience job none st =
      (Ran.finished, set_job job.id (failed_for_good world.now (codes "AUDIENCE_NOT_FOUND")) st)
  google_of_audience job (some a) st =
      if check_google_eligibility a.destination_strategy job.platform_resource_id
      then google_strategy (select_google_strategy a.destination_strategy) job st
      else (Ran.finished, set_job job.id (succeeded world.now 0 0) st)

  unfoldable pub google_job_found : Option SyncJob → SyncStore → Ran × SyncStore
  unfolding set_job google_of_audience
  google_job_found none st = (Ran.threw (codes "audience_sync_job_not_found"), st)
  google_job_found (some job) st =
      if is_pending job.status
      then google_of_audience job (find (is_audience_id job.audience_id) st.audiences)
          (set_job job.id (processing world.now) st)
      else (Ran.finished, st)

  unfoldable pub process_google_sync_job : Text → SyncStore → Ran × SyncStore
  unfolding google_job_found
  process_google_sync_job id st = google_job_found (find (is_job id) st.jobs) st

  abbrev pub on_platform : Platform → Text → SyncStore → Ran × SyncStore
  on_platform Platform.meta id st = process_meta_sync_job id st
  on_platform Platform.google id st = process_google_sync_job id st

  abbrev pub routed : Text → Option Audience → SyncStore → Ran × SyncStore
  routed id none st = (Ran.threw (codes "audience_not_found"), st)
  routed id (some a) st = on_platform a.platform id st

  abbrev pub route_of : Text → Option SyncJob → SyncStore → Ran × SyncStore
  route_of id none st = (Ran.threw (codes "sync_job_not_found"), st)
  route_of id (some job) st = routed id (find (is_audience_id job.audience_id) st.audiences) st

  unfoldable pub process_sync_job : Text → SyncStore → Ran × SyncStore
  unfolding process_meta_sync_job process_google_sync_job
  process_sync_job id st = route_of id (find (is_job id) st.jobs) st
