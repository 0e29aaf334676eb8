-- ===== src/Dispatch/DeadLetter.antt =====
-- `markDeadLetter` called on its own, and `requeueDeadLetter`, of apps/edge/src/lib/dispatch.ts.
use globaltracker.Prelude.{ℕ, ◌+◌, Option, none, some, Text, codes, find, if◌then◌else◌}
use globaltracker.Dispatch.Types.{
  Status, AttemptStatus, Job, Attempt, Store, has_id, is_dead_letter,
}
use globaltracker.Dispatch.Process.{empty_object, set_job, insert_attempt}

-- The row that is written where the caller gives no fields.
abbrev pub lone_attempt : Text → Text → ℕ → Job → Attempt
lone_attempt job_id reason now job = record {
  workspace_id = job.workspace_id;
  dispatch_job_id = job_id;
  attempt_number = job.attempt_count + 1;
  status = AttemptStatus.permanent_failure;
  request_payload = empty_object;
  response_payload = empty_object;
  error_code = some (codes "dead_letter");
  error_message = some reason;
  started_at = now;
  finished_at = now;
}

abbrev pub add_lone_attempt : Text → Text → ℕ → Option Job → Store → Store
add_lone_attempt job_id reason now none s = s
add_lone_attempt job_id reason now (some job) s =
    insert_attempt (lone_attempt job_id reason now job) s

unfoldable pub mark_dead_letter : Text → Text → ℕ → Store → Store
unfolding set_job insert_attempt
mark_dead_letter job_id reason now s =
    let s' =
      set_job job_id
        (λ j. record j { status = Status.dead_letter; next_attempt_at = none; updated_at = now })
        s in
    add_lone_attempt job_id reason now (find (has_id job_id) s'.jobs) s'

-- The status that the refusal carries; `none` is the source's `not_found`.
pub data Requeued : Type 0 where
  requeued : Requeued
  not_in_dead_letter : Option Status → Requeued

-- The second statement, an UPDATE by id alone.
abbrev pub reset_job : ℕ → Job → Job
reset_job now j = record j {
  status = Status.pending;
  attempt_count = 0;
  next_attempt_at = some now;
  updated_at = now;
}

abbrev pub requeue_found : Text → ℕ → Option Job → Store → Store × Requeued
requeue_found job_id now none s = (s, not_in_dead_letter none)
requeue_found job_id now (some job) s =
    if is_dead_letter job.status
    then (set_job job_id (reset_job now) s, requeued)
    else (s, not_in_dead_letter (some job.status))

unfoldable pub requeue_dead_letter : Text → ℕ → Store → Store × Requeued
unfolding set_job
requeue_dead_letter job_id now s = requeue_found job_id now (find (has_id job_id) s.jobs) s
