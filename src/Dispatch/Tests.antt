-- ===== src/Dispatch/Tests.antt =====
-- Runs of the consumers of apps/edge/src/lib/dispatch.ts.
use globaltracker.Prelude.{
  arith, ℕ, ◌≡◌, ◌+◌, ◌*◌, ◌^◌, ◌≤◌, refl, true, Option, none, some, List, [], ◌∷◌, Text, codes,
  text_eq, head?, is_space, or_else, if◌then◌else◌, trim,
}
use globaltracker.Payload.Json.{obj, end}
use globaltracker.Dispatch.Types.{
  Destination, Status, Job, JobInput, KeyParams, Store, server_error, success, skip, Outcome,
  returned, is_open, is_dead_letter, refused, thrown, already_processing,
}
use globaltracker.Dispatch.Keys.{key_text}
use globaltracker.Dispatch.Process.{Call, no_capture, take_job, lock, process, result_of, set_job}
use globaltracker.Dispatch.Create.{create_dispatch_jobs, create_skipped_job}
use globaltracker.Dispatch.DeadLetter.{requeue_dead_letter, reset_job, requeued, mark_dead_letter}
use globaltracker.Dispatch.Rows.{UniqueIds, job_at}
use globaltracker.Dispatch.Lifecycle.{after}
use globaltracker.Dispatch.Backoff.{compute_backoff, compute_backoff_bounds}
use globaltracker.Dispatch.Processing.{process-after}
use globaltracker.Dispatch.Retries.{
  Delivery, deliver, deliver_closed, retries_continue, retries_exhaust,
}
use globaltracker.Dispatch.Exclusion.{System, Distinct, Step, Reach, at_most_one_call}
use globaltracker.Dispatch.Uniqueness.{create_dispatch_jobs_again}
use globaltracker.Dispatch.Separation.{key_text-injective}
use globaltracker.Dispatch.Attempts.{attempts_of, process_attempts}
use globaltracker.Dispatch.Requeue.{requeue_renews, requeue_race}
use globaltracker.Dispatch.Skips.{AllReasoned, operations-AllReasoned, blank_skip_sticks}

abbrev fresh : Text → Job
fresh id = record {
  id = id;
  workspace_id = codes "w";
  lead_id = none;
  event_id = codes "e";
  event_workspace_id = codes "w";
  destination = Destination.meta_capi;
  destination_account_id = codes "a";
  destination_resource_id = codes "r";
  destination_subresource = none;
  idempotency_key = id;
  status = Status.pending;
  eligibility_reason = none;
  skip_reason = none;
  payload = obj end;
  attempt_count = 0;
  max_attempts = 2;
  next_attempt_at = none;
  scheduled_at = 1;
  created_at = 1;
  updated_at = 1;
  replayed_from = none;
}

abbrev j_id : Text
j_id = 1 ∷ []

abbrev k_id : Text
k_id = 2 ∷ []

abbrev dead : Job
dead = record (fresh j_id) { status = Status.dead_letter }

abbrev two_jobs : Store
two_jobs = record { jobs = fresh j_id ∷ fresh k_id ∷ []; attempts = [] }

abbrev dead_store : Store
dead_store = record { jobs = dead ∷ []; attempts = [] }

two_jobs-UniqueIds : UniqueIds two_jobs
unfolding text_eq
two_jobs-UniqueIds = (refl, (refl, tt))

abbrev call : Text → Call
call id = record { job_id = id; started_at = 5; finished_at = 6; marked_at = 7; draw = 0 }

abbrev fails : Job → Outcome
fails j = returned (server_error 503 no_capture)

abbrev answers : Job → Outcome
answers j = returned (success no_capture)

abbrev delivery : Delivery
delivery = record { now = 4; call = call j_id }

abbrev idle : System
idle = record { store = two_jobs; calling = [] }

j_at : job_at j_id two_jobs ≡ some (fresh j_id)
unfolding text_eq
j_at = refl

-- The first job is taken, and then the second one beside it.
at_most_one_call_example : Distinct (k_id ∷ j_id ∷ [])
unfolding lock text_eq
at_most_one_call_example = at_most_one_call {a = idle} two_jobs-UniqueIds refl (
    Reach.next (Reach.next Reach.start (Step.take j_id 3 (take_job 3 (fresh j_id)) refl))
      (Step.take k_id 4 (take_job 4 (fresh k_id)) refl))

process-after_example :
    job_at j_id (process 4 (call j_id) answers two_jobs).0
    ≡ some (after (take_job 4 (fresh j_id)) (call j_id) (success no_capture))
unfolding result_of
process-after_example =
    process-after 4 (call j_id) answers two_jobs (fresh j_id) two_jobs-UniqueIds j_at refl

retries_continue_example :
    (k : Job) × (job_at j_id (deliver fails (delivery ∷ []) two_jobs) ≡ some k)
    × (is_open k.status ≡ true)
    × (k.attempt_count ≡ 1)
unfolding result_of
retries_continue_example =
    retries_continue fails (λ j. tt) j_id (delivery ∷ []) two_jobs (fresh j_id) two_jobs-UniqueIds
      (refl, tt) j_at refl (omega arith)

retries_exhaust_example :
    (k : Job) × (job_at j_id (deliver fails (delivery ∷ delivery ∷ delivery ∷ []) two_jobs)
      ≡ some k)
    × (k.status ≡ Status.dead_letter)
unfolding result_of
retries_exhaust_example =
    retries_exhaust fails (λ j. tt) j_id (delivery ∷ delivery ∷ delivery ∷ []) two_jobs (fresh j_id)
      two_jobs-UniqueIds (refl, (refl, (refl, tt))) j_at refl (omega arith) (omega arith)

deliver_closed_example : deliver answers (delivery ∷ delivery ∷ []) dead_store ≡ dead_store
unfolding text_eq
deliver_closed_example =
    deliver_closed answers j_id (delivery ∷ delivery ∷ []) dead_store dead (refl, tt)
      (refl, (refl, tt)) refl refl

abbrev input : JobInput
input = record {
  workspace_id = codes "w";
  event_id = codes "e";
  lead_id = none;
  destination = Destination.ga4_mp;
  destination_account_id = codes "a";
  destination_resource_id = codes "r";
  destination_subresource = none;
  payload = none;
  eligibility_reason = none;
  max_attempts = none;
}

abbrev new_id : ℕ → Text
new_id n = n ∷ []

abbrev plain : Text → Text
plain t = t

create_dispatch_jobs_again_example :
    create_dispatch_jobs plain new_id 9
      (input ∷ [])
      (create_dispatch_jobs plain new_id 3 (input ∷ []) two_jobs).0
    ≡ create_dispatch_jobs plain new_id 3 (input ∷ []) two_jobs
create_dispatch_jobs_again_example =
    create_dispatch_jobs_again plain new_id new_id 3 9 (input ∷ []) two_jobs

compute_backoff_bounds_example :
    (800 * 2 ^ 3 ≤ compute_backoff 3 17) × (compute_backoff 3 17 ≤ 1200 * 2 ^ 3)
compute_backoff_bounds_example = compute_backoff_bounds 3 17 (omega arith)

abbrev params : Option Text → KeyParams
params subresource = record {
  workspace_id = codes "w";
  event_id = codes "e";
  destination = Destination.ga4_mp;
  destination_resource_id = codes "r";
  destination_subresource = subresource;
}

-- A missing subresource and an empty one.
key_text-injective_example :
    (codes "w" ≡ codes "w")
    × (codes "e" ≡ codes "e")
    × (Destination.ga4_mp ≡ Destination.ga4_mp)
    × (codes "r" ≡ codes "r")
    × (or_else (params none).destination_subresource [] ≡ [])
unfolding key_text
key_text-injective_example =
    key_text-injective (params none) (params (some [])) (omega arith) (omega arith) (omega arith)
      (omega arith) (omega arith) (omega arith) refl

process_attempts_example :
    (k : Job) × (job_at j_id (process 4 (call j_id) fails two_jobs).0 ≡ some k)
    × (attempts_of j_id (process 4 (call j_id) fails two_jobs).0
        ≡ (if is_dead_letter k.status then k.attempt_count + 1 else k.attempt_count))
process_attempts_example =
    process_attempts 4 (call j_id) fails two_jobs (fresh j_id) two_jobs-UniqueIds j_at refl refl

requeue_renews_example :
    ((requeue_dead_letter j_id 8 dead_store).1 ≡ requeued)
    × ((k : Job) × (job_at j_id
            (deliver fails (delivery ∷ []) (requeue_dead_letter j_id 8 dead_store).0)
          ≡ some k)
        × (is_open k.status ≡ true)
        × (k.attempt_count ≡ 1))
unfolding result_of text_eq
requeue_renews_example =
    requeue_renews fails (λ j. tt) j_id 8 (delivery ∷ []) dead_store dead (refl, tt) (refl, tt) refl
      refl (omega arith)

requeue_race_example :
    let s1 = (requeue_dead_letter j_id 8 dead_store).0 in
    let s2 = (lock j_id 9 s1).0 in
    let s3 = set_job j_id (reset_job 10) s2 in
    (head? (lock j_id 9 s1).1 ≡ some (take_job 9 (reset_job 8 dead)))
    × (head? (lock j_id 11 s3).1 ≡ some (take_job 11 (reset_job 10 dead)))
unfolding text_eq
requeue_race_example = requeue_race j_id 8 9 10 11 dead_store dead (refl, tt) refl refl

operations-AllReasoned_example :
    ((c : Call) (dispatch : Job → Outcome) → AllReasoned (process 4 c dispatch two_jobs).0)
    × ((inputs : List JobInput)
        → AllReasoned (create_dispatch_jobs plain new_id 4 inputs two_jobs).0)
    × ((i : JobInput) (reason : Text)
        → AllReasoned (create_skipped_job plain new_id 4 i reason two_jobs).0)
    × ((id reason : Text) → AllReasoned (mark_dead_letter id reason 4 two_jobs))
    × ((id : Text) → AllReasoned (requeue_dead_letter id 4 two_jobs).0)
operations-AllReasoned_example = operations-AllReasoned plain new_id 4 two_jobs (tt, (tt, tt))

-- The reason is one space.
blank_skip_sticks_example :
    let skips = λ (j : Job). returned (skip (32 ∷ []) no_capture) in
    let s' = (process 4 (call j_id) skips two_jobs).0 in
    ((process 4 (call j_id) skips two_jobs).1 ≡ thrown)
    × (job_at j_id s' ≡ some (take_job 4 (fresh j_id)))
    × (process 9 (call j_id) answers s' ≡ (s', refused already_processing))
unfolding trim is_space
blank_skip_sticks_example =
    blank_skip_sticks 4 9 (call j_id) (call j_id) (32 ∷ []) no_capture answers two_jobs (fresh j_id)
      two_jobs-UniqueIds j_at refl refl refl
