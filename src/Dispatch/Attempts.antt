-- ===== src/Dispatch/Attempts.antt =====
-- How the attempts that apps/edge/src/lib/dispatch.ts records relate to the count on the job's row.
-- INV-DISPATCH-005 asks that the count be the number of attempts.
use globaltracker.Prelude.{
  ℕ, suc, ◌+◌, ◌≡◌, refl, ◌∙◌, ap, Bool, true, some, Text, text_eq, text_eq_refl, is_empty, trim,
  leb, arith, if◌then◌else◌, Bool-cases, inl, inr, List, [], ◌∷◌, ◌++◌, length, select,
}
use globaltracker.Dispatch.Types.{
  Status, Job, Attempt, Store, DispatchResult, success, rate_limit, server_error, permanent_failure,
  skip, Outcome, is_open, is_dead_letter,
}
use globaltracker.Dispatch.Process.{
  Call, Retryable, Payloads, take_job, lock, settle, settle_skip, settle_retryable, result_of,
  process, no_capture,
}
use globaltracker.Dispatch.Rows.{UniqueIds, job_at}
use globaltracker.Dispatch.Lifecycle.{retried, after}
use globaltracker.Dispatch.Processing.{process_open, process-after}

abbrev is_of : Text → Attempt → Bool
is_of id a = text_eq a.dispatch_job_id id

-- SELECT count(*) FROM dispatch_attempts WHERE dispatch_job_id = id.
abbrev pub attempts_of : Text → Store → ℕ
attempts_of id s = length (select (is_of id) s.attempts)

count-append :
    (id : Text) (rows : List Attempt) (a : Attempt)
    → a.dispatch_job_id ≡ id
    → length (select (is_of id) (rows ++ a ∷ [])) ≡ suc (length (select (is_of id) rows))
count-append id [] a h = ground (arith, text_eq_refl id)
count-append id (x ∷ rows) a h = ground (arith, count-append id rows a h)

-- The count that a row in this state goes with.
abbrev pub expected : Job → ℕ
expected k = if is_dead_letter k.status then k.attempt_count + 1 else k.attempt_count

module _ (job : Job) (c : Call) (s : Store) (h : attempts_of c.job_id s ≡ job.attempt_count) where
  one_more :
      (a : Attempt)
      → a.dispatch_job_id ≡ c.job_id
      → length (select (is_of c.job_id) (s.attempts ++ a ∷ [])) ≡ job.attempt_count + 1
  one_more a e = omega (arith, count-append c.job_id s.attempts a e, h)

  settle_retryable_count :
      (r : Retryable) (p : Payloads)
      → attempts_of c.job_id (settle_retryable job c r p s).0 ≡ expected (retried job c)
  unfolding settle_retryable
  settle_retryable_count r p = elim (Bool-cases (leb job.max_attempts (job.attempt_count + 1))) [
    | inl e ↦ rw e (one_more _ refl)
    | inr e ↦ rw e (one_more _ refl)
  ]

  settle_skip_count :
      (reason : Text) (p : Payloads)
      → job.status ≡ Status.processing
      → attempts_of c.job_id (settle_skip job c reason p s).0
        ≡ expected (after job c (skip reason no_capture))
  unfolding settle_skip
  settle_skip_count reason p e = elim (Bool-cases (is_empty (trim reason))) [
    | inl b ↦ rw (b, e) h
    | inr b ↦ rw b (one_more _ refl)
  ]

  settle_count :
      (r : DispatchResult)
      → job.status ≡ Status.processing
      → attempts_of c.job_id (settle job c r s).0 ≡ expected (after job c r)
  unfolding settle
  settle_count (success cap) e = one_more _ refl
  settle_count (rate_limit cap) e = settle_retryable_count _ _
  settle_count (server_error status cap) e = settle_retryable_count _ _
  settle_count (permanent_failure code cap) e = one_more _ refl
  settle_count (skip reason cap) e = settle_skip_count reason _ e

-- With unique identifiers, and where the attempts recorded for an open job are as many as its
-- count says, they still are after a call, unless the job has died of that call: then there is one
-- more than the count.
pub process_attempts :
    (now : ℕ) (c : Call) (dispatch : Job → Outcome) (s : Store) (j : Job)
    → UniqueIds s
    → job_at c.job_id s ≡ some j
    → is_open j.status ≡ true
    → attempts_of c.job_id s ≡ j.attempt_count
    → let s' = (process now c dispatch s).0 in
      (k : Job) × (job_at c.job_id s' ≡ some k)
      × (attempts_of c.job_id s'
          ≡ (if is_dead_letter k.status then k.attempt_count + 1 else k.attempt_count))
process_attempts now c dispatch s j u h o e =
    let taken = take_job now j in
    let r = result_of (dispatch taken) in
    let s1 = (lock c.job_id now s).0 in
    let e1 : attempts_of c.job_id s1 ≡ taken.attempt_count = unfold lock in e in
    (
      after taken c r,
      process-after now c dispatch s j u h o,
      ap (λ t. attempts_of c.job_id t.0) (process_open now c dispatch s j u h o)
          ∙ settle_count taken c s1 e1 r refl,
    )
