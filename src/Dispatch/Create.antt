-- ===== src/Dispatch/Create.antt =====
-- `createDispatchJobs` and `createSkippedJob` of apps/edge/src/lib/dispatch.ts. The identifiers
-- that the database generates come from `new_id`, one for each row, and `now` is the database's
-- clock.
use globaltracker.Prelude.{
  ℕ, suc, Bool, ◌||◌, List, [], ◌∷◌, ◌++◌, map, Option, none, some, Text, text_eq, is_empty, trim,
  any, select, if◌then◌else◌, or_else,
}
use globaltracker.Dispatch.Types.{KeyParams, JobInput, Status, Job, Store}
use globaltracker.Dispatch.Keys.{compute_idempotency_key}
use globaltracker.Dispatch.Process.{empty_object}

abbrev pub key_params : JobInput → KeyParams
key_params input = record {
  workspace_id = input.workspace_id;
  event_id = input.event_id;
  destination = input.destination;
  destination_resource_id = input.destination_resource_id;
  destination_subresource = input.destination_subresource;
}

abbrev pub default_max_attempts : ℕ
default_max_attempts = 5

-- The columns that both functions insert.
abbrev job_row : JobInput → Text → Text → ℕ → Status → Option Text → Job
job_row input id key now status skip_reason = record {
  id = id;
  workspace_id = input.workspace_id;
  lead_id = input.lead_id;
  event_id = input.event_id;
  event_workspace_id = input.workspace_id;
  destination = input.destination;
  destination_account_id = input.destination_account_id;
  destination_resource_id = input.destination_resource_id;
  destination_subresource = input.destination_subresource;
  idempotency_key = key;
  status = status;
  eligibility_reason = input.eligibility_reason;
  skip_reason = skip_reason;
  payload = or_else input.payload empty_object;
  attempt_count = 0;
  max_attempts = or_else input.max_attempts default_max_attempts;
  next_attempt_at = none;
  scheduled_at = now;
  created_at = now;
  updated_at = now;
  replayed_from = none;
}

abbrev pub has_key : Text → Job → Bool
has_key key j = text_eq j.idempotency_key key

-- INSERT ... ON CONFLICT DO NOTHING, row by row, against the unique index on the key.
unfoldable pub insert_new : List Job → List Job → List Job
insert_new [] jobs = jobs
insert_new (j ∷ js) jobs =
    insert_new js (if any (has_key j.idempotency_key) jobs then jobs else jobs ++ j ∷ [])

pub data Skipped : Type 0 where
  created : Job → Skipped
  empty_skip_reason conflict_existing : Skipped

abbrev pub input_key : (Text → Text) → JobInput → Text
input_key sha256 input = compute_idempotency_key sha256 (key_params input)

abbrev pub is_one_of : List Text → Job → Bool
is_one_of keys j = any (text_eq j.idempotency_key) keys

module _ (sha256 : Text → Text) (new_id : ℕ → Text) (now : ℕ) where
  unfoldable pub pending_rows : ℕ → List JobInput → List Job
  pending_rows n [] = []
  pending_rows n (input ∷ rest) =
      job_row input (new_id n) (input_key sha256 input) now Status.pending none
      ∷ pending_rows (suc n) rest

  unfoldable pub create_dispatch_jobs : List JobInput → Store → Store × List Job
  unfolding insert_new pending_rows
  create_dispatch_jobs [] s = (s, [])
  create_dispatch_jobs (input ∷ rest) s =
      let inputs = input ∷ rest in
      let jobs = insert_new (pending_rows 0 inputs) s.jobs in
      (record s { jobs = jobs }, select (is_one_of (map (input_key sha256) inputs)) jobs)

  unfoldable pub create_skipped_job : JobInput → Text → Store → Store × Skipped
  create_skipped_job input skip_reason s =
      let key = input_key sha256 input in
      let row = job_row input (new_id 0) key now Status.skipped (some (trim skip_reason)) in
      if is_empty skip_reason || is_empty (trim skip_reason)
      then (s, empty_skip_reason)
      else if any (has_key key) s.jobs
      then (s, conflict_existing)
      else (record s { jobs = s.jobs ++ row ∷ [] }, created row)
