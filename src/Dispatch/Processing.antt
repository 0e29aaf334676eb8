-- ===== src/Dispatch/Processing.antt =====
-- `processDispatchJob` of apps/edge/src/lib/dispatch.ts as a whole: which calls reach the platform,
-- and what the table of jobs holds after a call.
use globaltracker.Prelude.{
  ℕ, ◌+◌, ◌≡◌, refl, ◌≢◌, ◌∙◌, ap, true, false, Option, none, some, Text, is_empty, trim, leb,
  head?, Bool-cases, inl, inr,
}
use globaltracker.Dispatch.Types.{
  Attempt, Job, Store, DispatchResult, success, rate_limit, server_error, permanent_failure, skip,
  Outcome, refused, already_processing, is_open,
}
use globaltracker.Dispatch.Process.{
  Call, Retryable, Payloads, take_job, lock, set_job, insert_attempt, settle, settle_skip,
  settle_retryable, result_of, process_locked, process,
}
use globaltracker.Dispatch.Rows.{
  UniqueIds, job_at, lock_open, lock_closed, lock_missing, lock_other, lock-UniqueIds,
  job_at-set_job_other, set_job-UniqueIds,
}
use globaltracker.Dispatch.Lifecycle.{after, settle-after}

-- A call that finds the job open settles it with what the dispatcher answers on the taken job.
pub process_open :
    (now : ℕ) (c : Call) (dispatch : Job → Outcome) (s : Store) (j : Job)
    → UniqueIds s
    → job_at c.job_id s ≡ some j
    → is_open j.status ≡ true
    → process now c dispatch s
      ≡ settle (take_job now j) c (result_of (dispatch (take_job now j))) (lock c.job_id now s).0
unfolding process
process_open now c dispatch s j u h o =
    ap (λ o. process_locked o c dispatch (lock c.job_id now s).0)
      (lock_open c.job_id now s j u h o).0

-- With unique identifiers, a call on an open job leaves its row in the next state of its life,
-- computed from the dispatcher's answer: succeeded, failed, skipped (or taken still, where the
-- reason is blank), retrying with the backoff, or dead.
pub process-after :
    (now : ℕ) (c : Call) (dispatch : Job → Outcome) (s : Store) (j : Job)
    → UniqueIds s
    → job_at c.job_id s ≡ some j
    → is_open j.status ≡ true
    → job_at c.job_id (process now c dispatch s).0
      ≡ some (after (take_job now j) c (result_of (dispatch (take_job now j))))
process-after now c dispatch s j u h o = rw (process_open now c dispatch s j u h o) (
    settle-after (take_job now j) c (lock c.job_id now s).0 (lock_open c.job_id now s j u h o).1
      (result_of (dispatch (take_job now j))))

-- A call on a job that is being processed, settled or dead, or that does not exist, is refused and
-- changes nothing, whatever the dispatcher would answer.
pub process_closed :
    (now : ℕ) (c : Call) (dispatch : Job → Outcome) (s : Store)
    → UniqueIds s
    → ((j : Job) → job_at c.job_id s ≡ some j → is_open j.status ≡ false)
    → process now c dispatch s ≡ (s, refused already_processing)
process_closed now c dispatch s u closed = go (job_at c.job_id s) refl
  where
    of_lock :
        (head? (lock c.job_id now s).1 ≡ none) × ((lock c.job_id now s).0 ≡ s)
        → process now c dispatch s ≡ (s, refused already_processing)
    of_lock (unread, same) =
        unfold process in
        ap (λ o. process_locked o c dispatch (lock c.job_id now s).0) unread
        ∙ ap (λ t. (t, refused already_processing)) same

    go :
        (o : Option Job)
        → job_at c.job_id s ≡ o
        → process now c dispatch s ≡ (s, refused already_processing)
    go none e = of_lock (lock_missing c.job_id now s e)
    go (some j) e = of_lock (lock_closed c.job_id now s j u e (closed j e))

-- The writes of a settled call: an update by the call's identifier, then an insertion.
module _ (P : Store → Type 0) (job : Job) (c : Call)
    (upd : (f : Job → Job) (t : Store)
      → ((j : Job) → (f j).id ≡ j.id)
      → P t
      → P (set_job c.job_id f t))
    (ins : (t : Store) (a : Attempt) → P t → P (insert_attempt a t)) where
  settle_retryable_keeps :
      (r : Retryable) (p : Payloads) (s : Store) → P s → P (settle_retryable job c r p s).0
  unfolding settle_retryable
  settle_retryable_keeps r p s h =
      elim (Bool-cases (leb job.max_attempts (job.attempt_count + 1))) [
        | inl e ↦ rw e (ins _ _ (upd _ s (λ j. refl) h))
        | inr e ↦ rw e (ins _ _ (upd _ s (λ j. refl) h))
      ]

  settle_skip_keeps :
      (reason : Text) (p : Payloads) (s : Store) → P s → P (settle_skip job c reason p s).0
  unfolding settle_skip
  settle_skip_keeps reason p s h = elim (Bool-cases (is_empty (trim reason))) [
    | inl e ↦ rw e h
    | inr e ↦ rw e (ins _ _ (upd _ s (λ j. refl) h))
  ]

  settle_keeps : (r : DispatchResult) (s : Store) → P s → P (settle job c r s).0
  unfolding settle
  settle_keeps (success cap) s h = ins _ _ (upd _ s (λ j. refl) h)
  settle_keeps (rate_limit cap) s h = settle_retryable_keeps _ _ s h
  settle_keeps (server_error status cap) s h = settle_retryable_keeps _ _ s h
  settle_keeps (permanent_failure code cap) s h = ins _ _ (upd _ s (λ j. refl) h)
  settle_keeps (skip reason cap) s h = settle_skip_keeps reason _ s h

pub settle-UniqueIds :
    (job : Job) (c : Call) (r : DispatchResult) (s : Store)
    → UniqueIds s
    → UniqueIds (settle job c r s).0
settle-UniqueIds job c r s =
    settle_keeps UniqueIds job c (λ f t keep. set_job-UniqueIds c.job_id f t keep)
      (λ t a. unfold insert_attempt in λ u. u) r s

pub settle_other :
    (job : Job) (c : Call) (r : DispatchResult) (s : Store) (other : Text)
    → other ≢ c.job_id
    → job_at other (settle job c r s).0 ≡ job_at other s
settle_other job c r s other ne =
    settle_keeps (λ t. job_at other t ≡ job_at other s) job c
      (λ f t keep e. job_at-set_job_other c.job_id f t keep other ne ∙ e)
      (λ t a. unfold insert_attempt in λ e. e) r s refl

-- What a call does to the table when its lock is refused, and when it is not.
process_keeps :
    (P : Store → Type 0) (now : ℕ) (c : Call) (dispatch : Job → Outcome) (s : Store)
    → ((job : Job) (r : DispatchResult) (t : Store) → P t → P (settle job c r t).0)
    → P (lock c.job_id now s).0
    → P (process now c dispatch s).0
unfolding process
process_keeps P now c dispatch s settled h = go (head? (lock c.job_id now s).1)
  where
    go : (o : Option Job) → P (process_locked o c dispatch (lock c.job_id now s).0).0
    go none = h
    go (some job) = settled job _ _ h

-- A call keeps the identifiers unique.
pub process-UniqueIds :
    (now : ℕ) (c : Call) (dispatch : Job → Outcome) (s : Store)
    → UniqueIds s
    → UniqueIds (process now c dispatch s).0
process-UniqueIds now c dispatch s u =
    process_keeps UniqueIds now c dispatch s (λ job r t. settle-UniqueIds job c r t)
      (lock-UniqueIds c.job_id now s u)

-- A call on one job leaves every other job as it was, whatever the dispatcher does.
pub process_other :
    (now : ℕ) (c : Call) (dispatch : Job → Outcome) (s : Store) (other : Text)
    → other ≢ c.job_id
    → job_at other (process now c dispatch s).0 ≡ job_at other s
process_other now c dispatch s other ne =
    process_keeps (λ t. job_at other t ≡ job_at other s) now c dispatch s
      (λ job r t e. settle_other job c r t other ne ∙ e) (lock_other c.job_id now s other ne)
