-- ===== src/Dispatch/Retries.antt =====
-- How `processDispatchJob` of apps/edge/src/lib/dispatch.ts retries: one job over any number of
-- deliveries of its queue message.
use native.Mathlib.Decide.{dec_le}
use globaltracker.Prelude.{
  ℕ, suc, ◌+◌, ◌<◌, ◌≤◌, ◌≡◌, refl, sym, subst, ◌∙◌, ap, true, false, some, Text, arith, List, [],
  ◌∷◌, All, length,
}
use globaltracker.Dispatch.Types.{
  Status, Job, Store, DispatchResult, success, rate_limit, server_error, permanent_failure, skip,
  Outcome, is_open,
}
use globaltracker.Dispatch.Process.{Call, take_job, result_of, process}
use globaltracker.Dispatch.Rows.{UniqueIds, job_at}
use globaltracker.Dispatch.Lifecycle.{retried, after}
use globaltracker.Dispatch.Processing.{process-after, process_closed, process-UniqueIds}

-- One delivery of the queue message: the clock at the lock, and the call.
pub record Delivery : Type 0 where
  pub now : ℕ
  pub call : Call

pub deliver : (Job → Outcome) → List Delivery → Store → Store
deliver dispatch [] s = s
deliver dispatch (d ∷ ds) s = deliver dispatch ds (process d.now d.call dispatch s).0

abbrev pub IsRetryable : DispatchResult → Type 0
IsRetryable (success cap) = ⊥
IsRetryable (rate_limit cap) = Unit
IsRetryable (server_error status cap) = Unit
IsRetryable (permanent_failure code cap) = ⊥
IsRetryable (skip reason cap) = ⊥

abbrev pub IsFor : Text → Delivery → Type 0
IsFor id d = d.call.job_id ≡ id

after_retryable :
    (job : Job) (c : Call) (r : DispatchResult) → IsRetryable r → after job c r ≡ retried job c
after_retryable job c (success cap) h = absurd h
after_retryable job c (rate_limit cap) h = refl
after_retryable job c (server_error status cap) h = refl
after_retryable job c (permanent_failure code cap) h = absurd h
after_retryable job c (skip reason cap) h = absurd h

-- INV-DISPATCH-003, INV-DISPATCH-008: with unique identifiers, no number of deliveries of a job
-- that is being processed, settled or dead changes the tables.
pub deliver_closed :
    (dispatch : Job → Outcome) (id : Text) (ds : List Delivery) (s : Store) (j : Job)
    → UniqueIds s
    → All (IsFor id) ds
    → job_at id s ≡ some j
    → is_open j.status ≡ false
    → deliver dispatch ds s ≡ s
unfolding deliver
deliver_closed dispatch id [] s j u fors h o = refl
deliver_closed dispatch id (d ∷ ds) s j u fors h o =
    let same = process_closed d.now d.call dispatch s u (λ k e. still_closed k e) in
    ap (λ r. deliver dispatch ds r.0) same ∙ deliver_closed dispatch id ds s j u fors.1 h o
  where
    still_closed : (k : Job) → job_at d.call.job_id s ≡ some k → is_open k.status ≡ false
    still_closed k e =
        let same_job : k ≡ j = cc (e, fors.0, h) in ap (λ r. is_open r.status) same_job ∙ o

module _ (dispatch : Job → Outcome) (fails : (j : Job) → IsRetryable (result_of (dispatch j))) where
  -- One delivery to an open job.
  deliver_one :
      (d : Delivery) (s : Store) (j : Job)
      → UniqueIds s
      → job_at d.call.job_id s ≡ some j
      → is_open j.status ≡ true
      → job_at d.call.job_id (process d.now d.call dispatch s).0
        ≡ some (retried (take_job d.now j) d.call)
  deliver_one d s j u h o =
      process-after d.now d.call dispatch s j u h o
      ∙ ap some (after_retryable (take_job d.now j) d.call _ (fails (take_job d.now j)))

  -- With attempts left the job stays open and has one more attempt counted; with none left it dies.
  retried_open :
      (j : Job) (d : Delivery)
      → suc (suc j.attempt_count) ≤ j.max_attempts
      → let j' = retried (take_job d.now j) d.call in
        (is_open j'.status ≡ true)
        × (j'.attempt_count ≡ suc j.attempt_count)
        × (j'.max_attempts ≡ j.max_attempts)
  retried_open j d h = ground arith

  retried_dead :
      (j : Job) (d : Delivery)
      → j.max_attempts ≤ suc j.attempt_count
      → (retried (take_job d.now j) d.call).status ≡ Status.dead_letter
  retried_dead j d h = ground arith

  -- What the deliveries have made of the job that stood at `j`.
  abbrev Progress : Job → ℕ → Job → Type 0
  Progress j n k =
      (j.attempt_count + n < j.max_attempts
        → (is_open k.status ≡ true) × (k.attempt_count ≡ j.attempt_count + n))
      × (j.max_attempts ≤ j.attempt_count + n → k.status ≡ Status.dead_letter)

  exhaust_step :
      (j : Job) (d : Delivery) (n : ℕ) (At : Job → Type 0)
      → let j' = retried (take_job d.now j) d.call in
        ((is_open j'.status ≡ true)
          → j'.attempt_count < j'.max_attempts
          → (k : Job) × At k × Progress j' n k)
        → (j'.status ≡ Status.dead_letter → At j')
        → (k : Job) × At k × Progress j (suc n) k
  exhaust_step j d n At more dead = elim (dec_le (suc (suc j.attempt_count)) j.max_attempts) [
    | yes p ↦
        let (opens, counts, same_max) = retried_open j d p in
        let (k, at, (early, late)) = more opens (omega (arith, counts, same_max)) in
        (
          k,
          at,
          (
            (λ l.
                let (o, n_calls) = early (omega (arith, counts, same_max)) in
                (o, omega (arith, counts, n_calls))),
            λ l. late (omega (arith, counts, same_max)),
          ),
        )
    | no p ↦
        let e = retried_dead j d (omega arith) in
        (retried (take_job d.now j) d.call, dead e, ((λ l. absurd (omega arith)), λ l. e))
  ]

  progress :
      (id : Text) (ds : List Delivery) (s : Store) (j : Job)
      → UniqueIds s
      → All (IsFor id) ds
      → job_at id s ≡ some j
      → is_open j.status ≡ true
      → j.attempt_count < j.max_attempts
      → (k : Job) × (job_at id (deliver dispatch ds s) ≡ some k) × Progress j (length ds) k
  unfolding deliver
  progress id [] s j u fors h o left = (j, h, ((λ e. (o, omega arith)), λ e. absurd (omega arith)))
  progress id (d ∷ ds) s j u fors h o left =
      exhaust_step j d (length ds) (λ k. job_at id (deliver dispatch ds s') ≡ some k)
        (λ o' left'. progress id ds s' j' u' fors.1 h' o' left')
        (λ dead.
          ap (job_at id) (deliver_closed dispatch id ds s' j' u' fors.1 h' (ap is_open dead)) ∙ h')
    where
      j' : Job
      j' = retried (take_job d.now j) d.call

      s' : Store
      s' = (process d.now d.call dispatch s).0

      u' : UniqueIds s'
      u' = process-UniqueIds d.now d.call dispatch s u

      h' : job_at id s' ≡ some j'
      h' =
          subst (λ i. job_at i s' ≡ some j') fors.0
            (deliver_one d s j u (subst (λ i. job_at i s ≡ some j) (sym fors.0) h) o)

  -- With unique identifiers, and where every call fails in a way that may be tried again, an open
  -- job stays open, with each delivery counted, while the deliveries are fewer than the attempts
  -- it has left.
  pub retries_continue :
      (id : Text) (ds : List Delivery) (s : Store) (j : Job)
      → UniqueIds s
      → All (IsFor id) ds
      → job_at id s ≡ some j
      → is_open j.status ≡ true
      → j.attempt_count + length ds < j.max_attempts
      → (k : Job) × (job_at id (deliver dispatch ds s) ≡ some k)
        × (is_open k.status ≡ true)
        × (k.attempt_count ≡ j.attempt_count + length ds)
  retries_continue id ds s j u fors h o left =
      let (k, at, (early, late)) = progress id ds s j u fors h o (omega (arith, left)) in
      let (opens, counts) = early left in (k, at, opens, counts)

  -- With unique identifiers, and where every call fails in a way that may be tried again, an open
  -- job with attempts left is dead after as many deliveries as it had attempts left, and after
  -- more.
  pub retries_exhaust :
      (id : Text) (ds : List Delivery) (s : Store) (j : Job)
      → UniqueIds s
      → All (IsFor id) ds
      → job_at id s ≡ some j
      → is_open j.status ≡ true
      → j.attempt_count < j.max_attempts
      → j.max_attempts ≤ j.attempt_count + length ds
      → (k : Job) × (job_at id (deliver dispatch ds s) ≡ some k) × (k.status ≡ Status.dead_letter)
  retries_exhaust id ds s j u fors h o left used =
      let (k, at, (early, late)) = progress id ds s j u fors h o left in (k, at, late used)
