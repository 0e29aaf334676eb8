-- ===== src/Dispatch/Requeue.antt =====
-- `requeueDeadLetter` of apps/edge/src/lib/dispatch.ts: whom it resets, and what two of them can do.
use globaltracker.Prelude.{
  ℕ, ◌≡◌, refl, sym, subst, ◌∙◌, ap, some, Text, head?, true, false, ◌<◌, List, All, length, arith,
}
use globaltracker.Dispatch.Types.{Status, Job, Store, Outcome, is_open, is_dead_letter}
use globaltracker.Dispatch.DeadLetter.{
  requeue_dead_letter, requeue_found, reset_job, requeued, not_in_dead_letter,
}
use globaltracker.Dispatch.Process.{take_job, lock, set_job, result_of}
use globaltracker.Dispatch.Retries.{IsRetryable, IsFor, Delivery, deliver, retries_continue}
use globaltracker.Dispatch.Rows.{
  UniqueIds, job_at, lock_open, lock-UniqueIds, job_at-set_job, set_job-UniqueIds,
}

requeue_dead :
    (s : Store) (id : Text) (now : ℕ) (j : Job)
    → job_at id s ≡ some j
    → j.status ≡ Status.dead_letter
    → (requeue_dead_letter id now s).0 ≡ set_job id (reset_job now) s
unfolding requeue_dead_letter
requeue_dead s id now j h d = ap (λ o. (requeue_found id now o s).0) h ∙ rw d

-- With unique identifiers, where every call fails in a way that may be tried again: a dead job that is
-- requeued has all its attempts again, however many it had used up. It is open, and counts just the
-- deliveries since, as long as they are fewer than its attempts.
pub requeue_renews :
    (dispatch : Job → Outcome)
    → ((k : Job) → IsRetryable (result_of (dispatch k)))
    → (id : Text) (now : ℕ) (ds : List Delivery) (s : Store) (j : Job) → UniqueIds s
    → All (IsFor id) ds
    → job_at id s ≡ some j
    → j.status ≡ Status.dead_letter
    → length ds < j.max_attempts
    → ((requeue_dead_letter id now s).1 ≡ requeued)
      × ((k : Job) × (job_at id (deliver dispatch ds (requeue_dead_letter id now s).0) ≡ some k)
          × (is_open k.status ≡ true)
          × (k.attempt_count ≡ length ds))
unfolding requeue_dead_letter
requeue_renews dispatch fails id now ds s j u fors h d left =
    let reset = requeue_dead s id now j h d in
    let again : job_at id (requeue_dead_letter id now s).0 ≡ some (reset_job now j) =
      ap (job_at id) reset ∙ job_at-set_job id (reset_job now) s (λ r. refl) j h in
    let u' : UniqueIds (requeue_dead_letter id now s).0 =
      subst UniqueIds (sym reset) (set_job-UniqueIds id (reset_job now) s (λ r. refl) u) in
    (
      ap (λ o. (requeue_found id now o s).1) h ∙ rw d,
      let (k, at, opens, counts) =
            retries_continue dispatch fails id ds (requeue_dead_letter id now s).0 (reset_job now j)
              u' fors again refl (omega (arith, left)) in
          (k, at, opens, counts ∙ omega arith),
    )

-- A job that is not dead is not requeued: the error names the status found, and nothing is written.
pub requeue_refused :
    (s : Store) (id : Text) (now : ℕ) (j : Job)
    → job_at id s ≡ some j
    → is_dead_letter j.status ≡ false
    → requeue_dead_letter id now s ≡ (s, not_in_dead_letter (some j.status))
unfolding requeue_dead_letter
requeue_refused s id now j h d = ap (λ o. requeue_found id now o s) h ∙ rw d

-- `requeueDeadLetter` reads the status in one statement and resets the row in another, by its
-- identifier alone. With unique identifiers, where two operators have both read a dead job: the
-- first resets it, a consumer takes it, and the second resets it while the platform is being
-- called, so that another consumer takes it too.
pub requeue_race :
    (id : Text) (first taken second again : ℕ) (s : Store) (j : Job)
    → UniqueIds s
    → job_at id s ≡ some j
    → j.status ≡ Status.dead_letter
    → let s1 = (requeue_dead_letter id first s).0 in
      let s2 = (lock id taken s1).0 in
      let s3 = set_job id (reset_job second) s2 in
      (head? (lock id taken s1).1 ≡ some (take_job taken (reset_job first j)))
      × (head? (lock id again s3).1 ≡ some (take_job again (reset_job second j)))
requeue_race id first taken second again s j u h d =
    let s1 = (requeue_dead_letter id first s).0 in
    let s2 = (lock id taken s1).0 in
    let s3 = set_job id (reset_job second) s2 in
    let reset = requeue_dead s id first j h d in
    let u1 : UniqueIds s1 =
      subst UniqueIds (sym reset) (set_job-UniqueIds id (reset_job first) s (λ r. refl) u) in
    let h1 : job_at id s1 ≡ some (reset_job first j) =
      ap (job_at id) reset ∙ job_at-set_job id (reset_job first) s (λ r. refl) j h in
    let (found, h2) = lock_open id taken s1 (reset_job first j) u1 h1 refl in
    let u2 : UniqueIds s2 = lock-UniqueIds id taken s1 u1 in
    let u3 : UniqueIds s3 = set_job-UniqueIds id (reset_job second) s2 (λ r. refl) u2 in
    let h3 : job_at id s3 ≡ some (reset_job second j) =
      job_at-set_job id (reset_job second) s2 (λ r. refl) (take_job taken (reset_job first j)) h2 in
    (found, (lock_open id again s3 (reset_job second j) u3 h3 refl).0)
