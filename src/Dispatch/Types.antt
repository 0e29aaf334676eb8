-- ===== src/Dispatch/Types.antt =====
-- The rows, results and errors of apps/edge/src/lib/dispatch.ts, with the columns of
-- packages/db/src/schema/dispatch_job.ts and dispatch_attempt.ts. Times are milliseconds.
use globaltracker.Prelude.{ℕ, Bool, List, Option, Text, text_eq, true, false, codes}
use globaltracker.Payload.Json.{Json}

pub data Destination : Type 0 where
  meta_capi ga4_mp google_ads_conversion google_enhancement audience_sync : Destination

-- The string that stands for a destination.
unfoldable pub destination_text : Destination → Text
destination_text Destination.meta_capi = codes "meta_capi"
destination_text Destination.ga4_mp = codes "ga4_mp"
destination_text Destination.google_ads_conversion = codes "google_ads_conversion"
destination_text Destination.google_enhancement = codes "google_enhancement"
destination_text Destination.audience_sync = codes "audience_sync"

pub data Status : Type 0 where
  pending processing succeeded retrying failed skipped dead_letter : Status

pub data AttemptStatus : Type 0 where
  succeeded retryable_failure permanent_failure : AttemptStatus

-- `IdempotencyKeyParams`.
pub record KeyParams : Type 0 where
  pub workspace_id : Text
  pub event_id : Text
  pub destination : Destination
  pub destination_resource_id : Text
  pub destination_subresource : Option Text

-- `DispatchJobInput`.
pub record JobInput : Type 0 where
  pub workspace_id : Text
  pub event_id : Text
  pub lead_id : Option Text
  pub destination : Destination
  pub destination_account_id : Text
  pub destination_resource_id : Text
  pub destination_subresource : Option Text
  pub payload : Option Json
  pub eligibility_reason : Option Text
  pub max_attempts : Option ℕ

-- A row of `dispatch_jobs`.
pub record Job : Type 0 where
  pub id : Text
  pub workspace_id : Text
  pub lead_id : Option Text
  pub event_id : Text
  pub event_workspace_id : Text
  pub destination : Destination
  pub destination_account_id : Text
  pub destination_resource_id : Text
  pub destination_subresource : Option Text
  pub idempotency_key : Text
  pub status : Status
  pub eligibility_reason : Option Text
  pub skip_reason : Option Text
  pub payload : Json
  pub attempt_count : ℕ
  pub max_attempts : ℕ
  pub next_attempt_at : Option ℕ
  pub scheduled_at : ℕ
  pub created_at : ℕ
  pub updated_at : ℕ
  pub replayed_from : Option Text

-- A row of `dispatch_attempts`, less its generated `id` and `created_at`, which are never read,
-- and `response_status`, which is never written.
pub record Attempt : Type 0 where
  pub workspace_id : Text
  pub dispatch_job_id : Text
  pub attempt_number : ℕ
  pub status : AttemptStatus
  pub request_payload : Json
  pub response_payload : Json
  pub error_code : Option Text
  pub error_message : Option Text
  pub started_at : ℕ
  pub finished_at : ℕ

-- The two tables.
pub record Store : Type 0 where
  pub jobs : List Job
  pub attempts : List Attempt

-- `DispatchPayloadCapture`.
pub record Capture : Type 0 where
  pub request : Option Json
  pub response : Option Json

-- `DispatchResult`.
pub data DispatchResult : Type 0 where
  success : Capture → DispatchResult
  rate_limit : Capture → DispatchResult
  server_error : ℕ → Capture → DispatchResult
  permanent_failure : Text → Capture → DispatchResult
  skip : Text → Capture → DispatchResult

-- A call of the injected dispatcher returns a result or throws.
pub data Outcome : Type 0 where
  returned : DispatchResult → Outcome
  threw : Outcome

-- `ProcessingError`. `invalid_state` is declared in the source and never returned.
pub data ProcessingError : Type 0 where
  job_not_found already_processing : ProcessingError
  invalid_state : Text → ProcessingError

-- What `processDispatchJob` ends in: an attempt, an error value, or an exception.
pub data Processed : Type 0 where
  recorded : Attempt → Processed
  refused : ProcessingError → Processed
  thrown : Processed

-- `eq(dispatchJobs.id, jobId)`.
abbrev pub has_id : Text → Job → Bool
has_id id j = text_eq j.id id

-- `inArray(dispatchJobs.status, ['pending', 'retrying'])`.
abbrev pub is_open : Status → Bool
is_open Status.pending = true
is_open Status.processing = false
is_open Status.succeeded = false
is_open Status.retrying = true
is_open Status.failed = false
is_open Status.skipped = false
is_open Status.dead_letter = false

abbrev pub is_dead_letter : Status → Bool
is_dead_letter Status.dead_letter = true
is_dead_letter _ = false
