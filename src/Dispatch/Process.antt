-- ===== src/Dispatch/Process.antt =====
-- `processDispatchJob` and `markDeadLetter` with the attempt's fields given, of
-- apps/edge/src/lib/dispatch.ts. The clock is read when the job is locked, when the dispatcher is
-- called and when it has answered; `draw` is the random number of the backoff.
use globaltracker.Prelude.{
  ℕ, ◌+◌, Bool, ◌&&◌, ◌==◌, leb, List, [], ◌∷◌, ◌++◌, map, Option, none, some, Text, text_eq, codes,
  is_empty, trim, decimal, head?, select, update, find, if◌then◌else◌,
}
use globaltracker.Payload.Json.{Json, obj, end}
use globaltracker.Payload.Sanitize.{sanitize}
use globaltracker.Dispatch.Types.{
  Status, AttemptStatus, Job, Attempt, Store, Capture, DispatchResult, success, rate_limit,
  server_error, permanent_failure, skip, Outcome, returned, threw, job_not_found,
  already_processing, Processed, recorded, refused, thrown, has_id, is_open,
}
use globaltracker.Dispatch.Backoff.{compute_backoff}

abbrev pub empty_object : Json
empty_object = obj end

abbrev sanitized_or_empty : Option Json → Json
sanitized_or_empty none = empty_object
sanitized_or_empty (some j) = sanitize j

pub record Payloads : Type 0 where
  pub request : Json
  pub response : Json

-- `buildAttemptPayloads`.
unfoldable pub build_attempt_payloads : Capture → Payloads
build_attempt_payloads c = record {
  request = sanitized_or_empty c.request;
  response = sanitized_or_empty c.response;
}

-- The WHERE of the locking UPDATE.
abbrev pub is_lockable : Text → Job → Bool
is_lockable job_id j = has_id job_id j && is_open j.status

abbrev pub take_job : ℕ → Job → Job
take_job now j = record j { status = Status.processing; updated_at = now }

-- The atomic UPDATE ... RETURNING: the new tables and the rows that were changed.
unfoldable pub lock : Text → ℕ → Store → Store × List Job
lock job_id now s = (
  record s { jobs = update (is_lockable job_id) (take_job now) s.jobs },
  map (take_job now) (select (is_lockable job_id) s.jobs),
)

-- UPDATE dispatch_jobs SET ... WHERE id = job_id.
unfoldable pub set_job : Text → (Job → Job) → Store → Store
set_job job_id f s = record s { jobs = update (has_id job_id) f s.jobs }

-- INSERT INTO dispatch_attempts.
unfoldable pub insert_attempt : Attempt → Store → Store
insert_attempt a s = record s { attempts = s.attempts ++ a ∷ [] }

-- One call of a consumer: the job, and the clock at the dispatcher's start, at its answer and at
-- the dead-letter UPDATE.
pub record Call : Type 0 where
  pub job_id : Text
  pub started_at : ℕ
  pub finished_at : ℕ
  pub marked_at : ℕ
  pub draw : ℕ

-- The attempt with neither error code nor message.
abbrev pub attempt_row : Job → Call → AttemptStatus → Payloads → Attempt
attempt_row job c status p = record {
  workspace_id = job.workspace_id;
  dispatch_job_id = c.job_id;
  attempt_number = job.attempt_count + 1;
  status = status;
  request_payload = p.request;
  response_payload = p.response;
  error_code = none;
  error_message = none;
  started_at = c.started_at;
  finished_at = c.finished_at;
}

unfoldable pub settle_success : Job → Call → Payloads → Store → Store × Processed
unfolding set_job insert_attempt
settle_success job c p s =
    let a = attempt_row job c AttemptStatus.succeeded p in
    (
      insert_attempt a (
          set_job c.job_id
            (λ j. record j {
              status = Status.succeeded;
              attempt_count = job.attempt_count + 1;
              updated_at = c.finished_at;
            })
            s),
      recorded a,
    )

-- A reason that is blank throws before anything is written.
unfoldable pub settle_skip : Job → Call → Text → Payloads → Store → Store × Processed
unfolding set_job insert_attempt
settle_skip job c reason p s =
    let skip_reason = trim reason in
    let base = attempt_row job c AttemptStatus.permanent_failure p in
    let a : Attempt = record base {
      error_code = some (codes "skipped");
      error_message = some skip_reason;
    } in
    if is_empty skip_reason then (s, thrown) else (
      insert_attempt a (
          set_job c.job_id
            (λ j. record j {
              status = Status.skipped;
              skip_reason = some skip_reason;
              attempt_count = job.attempt_count + 1;
              updated_at = c.finished_at;
            })
            s),
      recorded a,
    )

unfoldable pub settle_permanent : Job → Call → Text → Payloads → Store → Store × Processed
unfolding set_job insert_attempt
settle_permanent job c code p s =
    let base = attempt_row job c AttemptStatus.permanent_failure p in
    let a : Attempt = record base { error_code = some code } in
    (
      insert_attempt a (
          set_job c.job_id
            (λ j. record j {
              status = Status.failed;
              attempt_count = job.attempt_count + 1;
              updated_at = c.finished_at;
            })
            s),
      recorded a,
    )

-- `markDeadLetter` with `attemptOpts`: the job's attempt count is not written.
unfoldable pub mark_dead_letter_with : Job → Call → Text → Text → Payloads → Store → Store
unfolding set_job insert_attempt
mark_dead_letter_with job c reason error_code p s =
    let base = attempt_row job c AttemptStatus.permanent_failure p in
    let a : Attempt = record base { error_code = some error_code; error_message = some reason } in
    insert_attempt a (
      set_job c.job_id
        (λ j. record j {
          status = Status.dead_letter;
          next_attempt_at = none;
          updated_at = c.marked_at;
        })
        s)

-- The first attempt of the job with this number, which the dead-letter branch reads back.
abbrev pub is_attempt : Text → ℕ → Attempt → Bool
is_attempt job_id n a = text_eq a.dispatch_job_id job_id && (a.attempt_number == n)

abbrev pub found_attempt : Option Attempt → Processed
found_attempt none = refused job_not_found
found_attempt (some a) = recorded a

-- The failures that are tried again: their kind, the dead-letter reason and the message.
pub record Retryable : Type 0 where
  pub kind : Text
  pub dead_reason : Text
  pub message : Text

abbrev pub rate_limited : Retryable
rate_limited = record {
  kind = codes "rate_limit";
  dead_reason = codes "rate_limit";
  message = codes "rate_limit";
}

unfoldable pub server_failed : ℕ → Retryable
server_failed status = record {
  kind = codes "server_error";
  dead_reason = codes "server_error:" ++ decimal status;
  message = codes "HTTP " ++ decimal status;
}

unfoldable pub settle_retryable : Job → Call → Retryable → Payloads → Store → Store × Processed
unfolding set_job insert_attempt mark_dead_letter_with
settle_retryable job c r p s =
    let n = job.attempt_count + 1 in
    let dead = mark_dead_letter_with job c r.dead_reason r.kind p s in
    let base = attempt_row job c AttemptStatus.retryable_failure p in
    let a : Attempt = record base { error_code = some r.kind; error_message = some r.message } in
    if leb job.max_attempts n
    then (dead, found_attempt (find (is_attempt c.job_id n) dead.attempts))
    else (
      insert_attempt a (
          set_job c.job_id
            (λ j. record j {
              status = Status.retrying;
              attempt_count = n;
              next_attempt_at = some (c.finished_at + compute_backoff n c.draw);
              updated_at = c.finished_at;
            })
            s),
      recorded a,
    )

-- What follows the dispatcher's answer.
unfoldable pub settle : Job → Call → DispatchResult → Store → Store × Processed
unfolding settle_success settle_skip settle_permanent settle_retryable
settle job c (success cap) s = settle_success job c (build_attempt_payloads cap) s
settle job c (rate_limit cap) s = settle_retryable job c rate_limited (build_attempt_payloads cap) s
settle job c (server_error status cap) s =
    settle_retryable job c (server_failed status) (build_attempt_payloads cap) s
settle job c (permanent_failure code cap) s =
    settle_permanent job c code (build_attempt_payloads cap) s
settle job c (skip reason cap) s = settle_skip job c reason (build_attempt_payloads cap) s

abbrev pub no_capture : Capture
no_capture = record { request = none; response = none }

-- An exception of the dispatcher counts as a server error with status 0.
unfoldable pub result_of : Outcome → DispatchResult
result_of (returned r) = r
result_of threw = server_error 0 no_capture

-- The rest of the call, given the rows that the lock returned.
abbrev pub process_locked : Option Job → Call → (Job → Outcome) → Store → Store × Processed
process_locked none c dispatch s = (s, refused already_processing)
process_locked (some job) c dispatch s = settle job c (result_of (dispatch job)) s

-- `processDispatchJob`.
unfoldable pub process : ℕ → Call → (Job → Outcome) → Store → Store × Processed
unfolding lock settle result_of
process now c dispatch s =
    let (s', locked) = lock c.job_id now s in process_locked (head? locked) c dispatch s'
