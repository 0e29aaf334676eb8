-- ===== src/Dispatch/Lifecycle.antt =====
-- The life of one job, as the rules BR-DISPATCH-003 and BR-DISPATCH-004 describe it, beside the
-- settling of a call in apps/edge/src/lib/dispatch.ts.
use globaltracker.Prelude.{
  ◌+◌, ◌≡◌, refl, Bool, true, false, none, some, Text, is_empty, trim, leb, if◌then◌else◌,
  Bool-cases, inl, inr,
}
use globaltracker.Dispatch.Types.{
  Status, Job, Store, DispatchResult, success, rate_limit, server_error, permanent_failure, skip,
}
use globaltracker.Dispatch.Backoff.{compute_backoff}
use globaltracker.Dispatch.Process.{
  Call, Retryable, Payloads, settle, settle_skip, settle_retryable,
}
use globaltracker.Dispatch.Rows.{job_at, job_at-set_job}

abbrev counted : Job → Call → Status → Job
counted job c status = record job {
  status = status;
  attempt_count = job.attempt_count + 1;
  updated_at = c.finished_at;
}

-- A failure that may be tried again ends the job only when the attempts are used up.
abbrev pub retried : Job → Call → Job
retried job c =
    if leb job.max_attempts (job.attempt_count + 1)
    then record job {
      status = Status.dead_letter;
      next_attempt_at = none;
      updated_at = c.marked_at;
    }
    else record job {
      status = Status.retrying;
      attempt_count = job.attempt_count + 1;
      next_attempt_at = some (c.finished_at + compute_backoff (job.attempt_count + 1) c.draw);
      updated_at = c.finished_at;
    }

-- The job after the dispatcher's answer.
abbrev pub after : Job → Call → DispatchResult → Job
after job c (success cap) = counted job c Status.succeeded
after job c (rate_limit cap) = retried job c
after job c (server_error status cap) = retried job c
after job c (permanent_failure code cap) = counted job c Status.failed
after job c (skip reason cap) = if is_empty (trim reason) then job else record job {
  status = Status.skipped;
  skip_reason = some (trim reason);
  attempt_count = job.attempt_count + 1;
  updated_at = c.finished_at;
}

module _ (job : Job) (c : Call) (s : Store) (h : job_at c.job_id s ≡ some job) where
  settle_retryable-retried :
      (r : Retryable) (p : Payloads)
      → job_at c.job_id (settle_retryable job c r p s).0 ≡ some (retried job c)
  unfolding settle_retryable
  settle_retryable-retried r p = elim (Bool-cases (leb job.max_attempts (job.attempt_count + 1))) [
    | inl e ↦ rw e (job_at-set_job c.job_id _ s (λ j. refl) job h)
    | inr e ↦ rw e (job_at-set_job c.job_id _ s (λ j. refl) job h)
  ]

  settle_skip-after :
      (reason : Text) (p : Payloads) (b : Bool)
      → is_empty (trim reason) ≡ b
      → job_at c.job_id (settle_skip job c reason p s).0
        ≡ some (
            if b then job else record job {
              status = Status.skipped;
              skip_reason = some (trim reason);
              attempt_count = job.attempt_count + 1;
              updated_at = c.finished_at;
            })
  unfolding settle_skip
  settle_skip-after reason p true e = rw e h
  settle_skip-after reason p false e = rw e (job_at-set_job c.job_id _ s (λ j. refl) job h)

  -- What the settling of a call leaves in the job's row is the job's next state.
  pub settle-after :
      (r : DispatchResult) → job_at c.job_id (settle job c r s).0 ≡ some (after job c r)
  unfolding settle
  settle-after (success cap) = job_at-set_job c.job_id _ s (λ j. refl) job h
  settle-after (rate_limit cap) = settle_retryable-retried _ _
  settle-after (server_error status cap) = settle_retryable-retried _ _
  settle-after (permanent_failure code cap) = job_at-set_job c.job_id _ s (λ j. refl) job h
  settle-after (skip reason cap) = settle_skip-after reason _ _ refl
