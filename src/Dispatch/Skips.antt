-- ===== src/Dispatch/Skips.antt =====
-- INV-DISPATCH-004 and BR-DISPATCH-004: the reasons of the skipped jobs of
-- apps/edge/src/lib/dispatch.ts, and a dispatcher that skips with a blank one.
use globaltracker.Prelude.{
  ℕ, ◌+◌, ◌≡◌, ◌∙◌, ap, Bool, true, false, ◌||◌, Option, none, some, Text, is_empty, trim, leb,
  Bool-cases, inl, inr, List, [], ◌∷◌, ◌++◌, All, All-append, arith, any, head?, update,
}
use globaltracker.Dispatch.Blank.{HasVisible, trim-HasVisible}
use globaltracker.Dispatch.Types.{
  Status, Job, JobInput, Store, DispatchResult, success, rate_limit, server_error,
  permanent_failure, skip, Outcome, returned, is_open, is_dead_letter, has_id, refused, thrown,
  already_processing, Capture,
}
use globaltracker.Dispatch.Process.{
  Call, Retryable, Payloads, take_job, lock, set_job, is_lockable, settle, settle_skip,
  settle_retryable, process_locked, process, result_of,
}
use globaltracker.Dispatch.DeadLetter.{
  requeue_dead_letter, requeue_found, reset_job, mark_dead_letter, add_lone_attempt,
}
use globaltracker.Dispatch.Create.{
  has_key, input_key, insert_new, pending_rows, create_dispatch_jobs, create_skipped_job,
}
use globaltracker.Dispatch.Rows.{UniqueIds, job_at, lock_open}
use globaltracker.Dispatch.Processing.{process_open, process_closed, process-UniqueIds}

-- A reason beside a status: a skipped job has one that is not blank.
abbrev ReasonFor : Status → Option Text → Type 0
ReasonFor Status.skipped none = ⊥
ReasonFor Status.skipped (some reason) = HasVisible reason
ReasonFor _ _ = Unit

abbrev pub HasReason : Job → Type 0
HasReason j = ReasonFor j.status j.skip_reason

abbrev pub AllReasoned : Store → Type 0
AllReasoned s = All HasReason s.jobs

All-update :
    (P : Job → Type 0) (p : Job → Bool) (f : Job → Job) (js : List Job)
    → ((j : Job) → P (f j))
    → All P js
    → All P (update p f js)
All-update P p f [] keep h = tt
All-update P p f (j ∷ js) keep h = elim (Bool-cases (p j)) [
  | inl e ↦ rw e (keep j, All-update P p f js keep h.1)
  | inr e ↦ rw e (h.0, All-update P p f js keep h.1)
]

set_job-AllReasoned :
    (id : Text) (f : Job → Job) (s : Store)
    → ((j : Job) → HasReason (f j))
    → AllReasoned s
    → AllReasoned (set_job id f s)
unfolding set_job
set_job-AllReasoned id f s keep = All-update HasReason (has_id id) f s.jobs keep

module _ (job : Job) (c : Call) (s : Store) (h : AllReasoned s) where
  settle_retryable-AllReasoned :
      (r : Retryable) (p : Payloads) → AllReasoned (settle_retryable job c r p s).0
  unfolding settle_retryable
  settle_retryable-AllReasoned r p =
      elim (Bool-cases (leb job.max_attempts (job.attempt_count + 1))) [
        | inl e ↦ rw e (set_job-AllReasoned c.job_id _ s (λ j. tt) h)
        | inr e ↦ rw e (set_job-AllReasoned c.job_id _ s (λ j. tt) h)
      ]

  settle_skip-AllReasoned :
      (reason : Text) (p : Payloads) → AllReasoned (settle_skip job c reason p s).0
  unfolding settle_skip
  settle_skip-AllReasoned reason p = elim (Bool-cases (is_empty (trim reason))) [
    | inl e ↦ rw e h
    | inr e ↦ rw e (set_job-AllReasoned c.job_id _ s (λ j. trim-HasVisible reason e) h)
  ]

  settle-AllReasoned : (r : DispatchResult) → AllReasoned (settle job c r s).0
  unfolding settle
  settle-AllReasoned (success cap) = set_job-AllReasoned c.job_id _ s (λ j. tt) h
  settle-AllReasoned (rate_limit cap) = settle_retryable-AllReasoned _ _
  settle-AllReasoned (server_error status cap) = settle_retryable-AllReasoned _ _
  settle-AllReasoned (permanent_failure code cap) = set_job-AllReasoned c.job_id _ s (λ j. tt) h
  settle-AllReasoned (skip reason cap) = settle_skip-AllReasoned reason _

process-AllReasoned :
    (now : ℕ) (c : Call) (dispatch : Job → Outcome) (s : Store)
    → AllReasoned s
    → AllReasoned (process now c dispatch s).0
unfolding process
process-AllReasoned now c dispatch s h = go (head? (lock c.job_id now s).1)
  where
    taken : AllReasoned (lock c.job_id now s).0
    taken =
        unfold lock in All-update HasReason (is_lockable c.job_id) (take_job now) s.jobs (λ j. tt) h

    go : (o : Option Job) → AllReasoned (process_locked o c dispatch (lock c.job_id now s).0).0
    go none = taken
    go (some job) = settle-AllReasoned job c (lock c.job_id now s).0 taken _

requeue-AllReasoned :
    (id : Text) (now : ℕ) (s : Store) → AllReasoned s → AllReasoned (requeue_dead_letter id now s).0
unfolding requeue_dead_letter
requeue-AllReasoned id now s h = go (job_at id s)
  where
    go : (o : Option Job) → AllReasoned (requeue_found id now o s).0
    go none = h
    go (some j) = elim (Bool-cases (is_dead_letter j.status)) [
      | inl d ↦ rw d (set_job-AllReasoned id (reset_job now) s (λ k. tt) h)
      | inr d ↦ rw d h
    ]

mark_dead_letter-AllReasoned :
    (id reason : Text) (now : ℕ) (s : Store)
    → AllReasoned s
    → AllReasoned (mark_dead_letter id reason now s)
unfolding mark_dead_letter
mark_dead_letter-AllReasoned id reason now s h = go _ _ (set_job-AllReasoned id _ s (λ k. tt) h)
  where
    go :
        (o : Option Job) (t : Store)
        → AllReasoned t
        → AllReasoned (add_lone_attempt id reason now o t)
    go none t r = r
    go (some j) t r = r

insert_new-AllReasoned :
    (js jobs : List Job)
    → All HasReason js
    → All HasReason jobs
    → All HasReason (insert_new js jobs)
unfolding insert_new
insert_new-AllReasoned [] jobs hs h = h
insert_new-AllReasoned (j ∷ js) jobs hs h =
    elim (Bool-cases (any (has_key j.idempotency_key) jobs)) [
      | inl e ↦ rw e (insert_new-AllReasoned js jobs hs.1 h)
      | inr e ↦ rw e (
          insert_new-AllReasoned js (jobs ++ j ∷ []) hs.1
            (All-append HasReason jobs (j ∷ []) h (hs.0, tt)))
    ]

module _ (sha256 : Text → Text) (new_id : ℕ → Text) (now : ℕ) where
  pending_rows-AllReasoned :
      (n : ℕ) (inputs : List JobInput) → All HasReason (pending_rows sha256 new_id now n inputs)
  unfolding pending_rows
  pending_rows-AllReasoned n [] = tt
  pending_rows-AllReasoned n (input ∷ rest) = (tt, pending_rows-AllReasoned _ rest)

  create-AllReasoned :
      (inputs : List JobInput) (s : Store)
      → AllReasoned s
      → AllReasoned (create_dispatch_jobs sha256 new_id now inputs s).0
  unfolding create_dispatch_jobs
  create-AllReasoned [] s h = h
  create-AllReasoned (input ∷ rest) s h =
      insert_new-AllReasoned (pending_rows sha256 new_id now 0 (input ∷ rest)) s.jobs
        (pending_rows-AllReasoned 0 (input ∷ rest)) h

  create_skipped-AllReasoned :
      (input : JobInput) (reason : Text) (s : Store)
      → AllReasoned s
      → AllReasoned (create_skipped_job sha256 new_id now input reason s).0
  unfolding create_skipped_job
  create_skipped-AllReasoned input reason s h =
      elim (Bool-cases (is_empty reason || is_empty (trim reason))) [
        | inl e ↦ rw e h
        | inr e ↦ elim (Bool-cases (any (has_key (input_key sha256 input)) s.jobs)) [
          | inl k ↦ rw (e, k) h
          | inr k ↦
              rw (e, k)
                (All-append HasReason s.jobs (_ ∷ []) h (trim-HasVisible reason (blank_last e), tt))
        ]
      ]
    where
      blank_last :
          is_empty reason || is_empty (trim reason) ≡ false → is_empty (trim reason) ≡ false
      blank_last e = ground arith

-- Where each skipped job has a reason that is not blank, it still is so after every operation on
-- the tables: a call, the two ways to create jobs, the dead-letter mark and the requeue.
pub operations-AllReasoned :
    (sha256 : Text → Text) (new_id : ℕ → Text) (now : ℕ) (s : Store)
    → AllReasoned s
    → ((c : Call) (dispatch : Job → Outcome) → AllReasoned (process now c dispatch s).0)
      × ((inputs : List JobInput) → AllReasoned (create_dispatch_jobs sha256 new_id now inputs s).0)
      × ((input : JobInput) (reason : Text)
          → AllReasoned (create_skipped_job sha256 new_id now input reason s).0)
      × ((id reason : Text) → AllReasoned (mark_dead_letter id reason now s))
      × ((id : Text) → AllReasoned (requeue_dead_letter id now s).0)
operations-AllReasoned sha256 new_id now s h = (
  (λ c dispatch. process-AllReasoned now c dispatch s h),
  (λ inputs. create-AllReasoned sha256 new_id now inputs s h),
  (λ input reason. create_skipped-AllReasoned sha256 new_id now input reason s h),
  (λ id reason. mark_dead_letter-AllReasoned id reason now s h),
  λ id. requeue-AllReasoned id now s h,
)

settle_blank :
    (job : Job) (c : Call) (reason : Text) (attached : Capture) (s : Store)
    → is_empty (trim reason) ≡ true
    → settle job c (skip reason attached) s ≡ (s, thrown)
unfolding settle
settle_blank job c reason attached s blank = rw blank

-- With unique identifiers, a dispatcher that skips an open job with a blank reason makes the call
-- throw after the lock and before any other write, and every later call on the job is refused: it
-- stays in processing.
pub blank_skip_sticks :
    (now later : ℕ) (c d : Call) (reason : Text) (attached : Capture) (dispatch : Job → Outcome)
    (s : Store) (j : Job)
    → UniqueIds s
    → job_at c.job_id s ≡ some j
    → is_open j.status ≡ true
    → is_empty (trim reason) ≡ true
    → d.job_id ≡ c.job_id
    → let s' = (process now c (λ _. returned (skip reason attached)) s).0 in
      ((process now c (λ _. returned (skip reason attached)) s).1 ≡ thrown)
      × (job_at c.job_id s' ≡ some (take_job now j))
      × (process later d dispatch s' ≡ (s', refused already_processing))
unfolding result_of
blank_skip_sticks now later c d reason attached dispatch s j u h o blank same =
    let skips : Job → Outcome = λ k. returned (skip reason attached) in
    let s' = (process now c skips s).0 in
    let t = (lock c.job_id now s).0 in
    let settled : process now c skips s ≡ (t, thrown) =
      process_open now c skips s j u h o
      ∙ settle_blank (take_job now j) c reason attached t blank in
    let stuck : job_at c.job_id s' ≡ some (take_job now j) =
      ap (λ p. job_at c.job_id p.0) settled ∙ (lock_open c.job_id now s j u h o).1 in
    let same_job : (k : Job) → job_at d.job_id s' ≡ some k → k ≡ take_job now j =
      λ k e. cc (e, ap (λ i. job_at i s') same, stuck) in
    (
      ap (λ p. p.1) settled,
      stuck,
      process_closed later d dispatch s' (process-UniqueIds now c skips s u)
          (λ k e. ap (λ r. is_open r.status) (same_job k e)),
    )
