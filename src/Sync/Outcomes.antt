-- ===== src/Sync/Outcomes.antt =====
-- What becomes of a job, by apps/edge/src/dispatchers/audience-sync.
use globaltracker.Prelude.{
  ◌≡◌, refl, sym, ◌∙◌, ap, subst, ℕ, ◌+◌, Bool, true, false, List, [], ◌∷◌, Option, none, some,
  Text, codes, text_eq_refl, eq_of_text_eq, find_fits, if◌then◌else◌, or_else, find,
  find-append_none, find-update_key, update,
}
use globaltracker.Audience.Types.{
  Platform, Audience, SyncStatus, SyncJob, SnapshotTables, Result, eq_of_ok,
}
use globaltracker.Audience.Jobs.{Plan, sync_plan, acquire_sync_lock, job_row, create_sync_job}
use globaltracker.Audience.Cron.{is_disabled}
use globaltracker.Sync.Client.{SyncError, Outcome}
use globaltracker.Sync.Store.{
  Direction, Delivery, Reads, SyncStore, Ran, job_key, is_job, set_job, processing, succeeded,
  failed_until,
}
use globaltracker.Sync.Process.{
  World, is_audience_id, retry_backoff, both_sent, send_members, send_plan, meta_sent,
  meta_of_audience, is_pending, meta_job_found, process_meta_sync_job, google_of_audience,
  google_job_found, process_google_sync_job, on_platform, routed, route_of, process_sync_job,
}

-- The row of a job after two writes to it.
twice :
    (id : Text) (f g : SyncJob → SyncJob) (rows : List SyncJob) (job : SyncJob)
    → ((j : SyncJob) → (f j).id ≡ j.id)
    → ((j : SyncJob) → (g j).id ≡ j.id)
    → find (is_job id) rows ≡ some job
    → find (is_job id) (update (is_job id) g (update (is_job id) f rows)) ≡ some (g (f job))
twice id f g rows job keep keep' h =
    find-update_key job_key id g (update (is_job id) f rows) (f job) keep'
      (find-update_key job_key id f rows job keep h)

module _ (world : World) (reads : Reads) where
  meta_settled :
      (id : Text) (job : SyncJob) (st : SyncStore)
      → find (is_job id) st.jobs ≡ some job
      → is_pending job.status ≡ false
      → (process_meta_sync_job world reads id st).1 ≡ st
  unfolding process_meta_sync_job meta_job_found
  meta_settled id job st found still =
      subst (λ o. (meta_job_found world reads o st).1 ≡ st) (sym found) (rw still refl)

  google_settled :
      (id : Text) (job : SyncJob) (st : SyncStore)
      → find (is_job id) st.jobs ≡ some job
      → is_pending job.status ≡ false
      → (process_google_sync_job world reads id st).1 ≡ st
  unfolding process_google_sync_job google_job_found
  google_settled id job st found still =
      subst (λ o. (google_job_found world reads o st).1 ≡ st) (sym found) (rw still refl)

  on_platform_settled :
      (platform : Platform) (id : Text) (job : SyncJob) (st : SyncStore)
      → find (is_job id) st.jobs ≡ some job
      → is_pending job.status ≡ false
      → (on_platform world reads platform id st).1 ≡ st
  on_platform_settled Platform.meta id job st found still = meta_settled id job st found still
  on_platform_settled Platform.google id job st found still = google_settled id job st found still

  routed_settled :
      (o : Option Audience) (id : Text) (job : SyncJob) (st : SyncStore)
      → find (is_job id) st.jobs ≡ some job
      → is_pending job.status ≡ false
      → (routed world reads id o st).1 ≡ st
  routed_settled none id job st found still = refl
  routed_settled (some a) id job st found still =
      on_platform_settled a.platform id job st found still

  -- A job that is not pending is left as it is, and no platform is called for it.
  pub settled_job_stays :
      (id : Text) (job : SyncJob) (st : SyncStore)
      → find (is_job id) st.jobs ≡ some job
      → is_pending job.status ≡ false
      → (process_sync_job world reads id st).1 ≡ st
  unfolding process_sync_job
  settled_job_stays id job st found still =
      subst (λ o. (route_of world reads id o st).1 ≡ st) (sym found)
        (routed_settled (find (is_audience_id job.audience_id) st.audiences) id job st found still)

  -- The route of a job whose audience is there.
  route :
      (id : Text) (job : SyncJob) (a : Audience) (st : SyncStore)
      → find (is_job id) st.jobs ≡ some job
      → find (is_audience_id job.audience_id) st.audiences ≡ some a
      → process_sync_job world reads id st ≡ on_platform world reads a.platform id st
  unfolding process_sync_job
  route id job a st found there =
      ap (λ o. route_of world reads id o st) found ∙ ap (λ o. routed world reads id o st) there

  both_sent_jobs :
      (a b : Outcome ℕ × List Delivery) (st : SyncStore) → (both_sent a b st).1.jobs ≡ st.jobs
  both_sent_jobs (Outcome.err e, r) b st = refl
  both_sent_jobs (Outcome.ok n, r) (Outcome.err e, q) st = refl
  both_sent_jobs (Outcome.ok n, r) (Outcome.ok m, q) st = refl

  send_plan_jobs :
      (resource : Text) (plan : Plan) (st : SyncStore)
      → (send_plan world reads resource plan st).1.jobs ≡ st.jobs
  unfolding send_plan
  send_plan_jobs resource plan st =
      let adds = send_members world reads Direction.addition resource plan.additions st.requests in
      both_sent_jobs adds (send_members world reads Direction.removal resource plan.removals adds.1)
        st

  -- A pending job at Meta comes to the transaction where the destination is enabled and the lock free.
  meta_run :
      (id : Text) (job : SyncJob) (a : Audience) (st : SyncStore)
      → find (is_job id) st.jobs ≡ some job
      → job.status ≡ SyncStatus.pending
      → find (is_audience_id job.audience_id) st.audiences ≡ some a
      → is_disabled a.destination_strategy ≡ false
      → acquire_sync_lock job.audience_id job.platform_resource_id world.locks ≡ true
      → process_meta_sync_job world reads id st
        ≡ meta_sent world reads job (
            send_plan world reads
              (or_else job.platform_resource_id a.public_id)
              (sync_plan job.snapshot_id job.prev_snapshot_id reads.snapshot_members)
              (set_job job.id (processing world.now) st))
  unfolding process_meta_sync_job meta_job_found meta_of_audience set_job
  meta_run id job a st found pending there enabled free =
      let begun : SyncStore = set_job job.id (processing world.now) st in
      ap (λ o. meta_job_found world reads o st) found
      ∙ rw (ap is_pending pending)
          (ap (λ o. meta_of_audience world reads job o begun) there ∙ rw (enabled, free) refl)

both_false : (b : Bool) → (if b then false else false) ≡ false
both_false true = refl
both_false false = refl

google_run :
    (world : World) (reads : Reads) (id : Text) (job : SyncJob) (a : Audience) (st : SyncStore)
    → find (is_job id) st.jobs ≡ some job
    → job.status ≡ SyncStatus.pending
    → job.platform_resource_id ≡ none
    → find (is_audience_id job.audience_id) st.audiences ≡ some a
    → process_google_sync_job world reads id st ≡ (
      Ran.finished,
      set_job job.id (succeeded world.now 0 0) (set_job job.id (processing world.now) st),
    )
unfolding process_google_sync_job google_job_found google_of_audience set_job
google_run world reads id job a st found pending bare there =
    let begun : SyncStore = set_job job.id (processing world.now) st in
    ap (λ o. google_job_found world reads o st) found
    ∙ rw (ap is_pending pending) (
        ap (λ o. google_of_audience world reads job o begun) there
        ∙ rw (bare, both_false (is_disabled a.destination_strategy)) refl)

-- Where the identifier of a new job is not taken and its audience, on Google, is found: the job as
-- `createSyncJob` makes it, which has no resource, is marked by the consumer as succeeded with
-- nobody sent, and Google is not called.
pub google_job_unsent :
    (world : World) (reads : Reads) (a : Audience) (snapshot_id id : Text) (prev_id : Option Text)
    (tables after : SnapshotTables) (job : SyncJob) (st : SyncStore)
    → create_sync_job a.workspace_id a.id snapshot_id prev_id id false tables
      ≡ (Result.ok job, after)
    → find (is_job id) tables.sync_jobs ≡ none
    → st.jobs ≡ after.sync_jobs
    → find (is_audience_id a.id) st.audiences ≡ some a
    → a.platform ≡ Platform.google
    → (find (is_job id) (process_sync_job world reads id st).1.jobs
        ≡ some (succeeded world.now 0 0 (processing world.now job)))
      × ((process_sync_job world reads id st).1.requests ≡ st.requests)
unfolding create_sync_job set_job
google_job_unsent world reads a snapshot_id id prev_id tables after job st made new here there
      google =
    let plan : Plan = sync_plan snapshot_id prev_id tables.members in
    let row : SyncJob = job_row a.workspace_id a.id snapshot_id prev_id id plan in
    let found : (find (is_job id) st.jobs ≡ some row) =
      ap (find (is_job id)) (here ∙ sym (ap (λ r. r.1.sync_jobs) made))
      ∙ (find-append_none (is_job id) tables.sync_jobs (row ∷ []) new
          ∙ rw (text_eq_refl id) refl) in
    let run : (process_sync_job world reads id st ≡ (
      Ran.finished,
      set_job id (succeeded world.now 0 0) (set_job id (processing world.now) st),
    )) =
      route world reads id row a st found there
      ∙ (ap (λ p. on_platform world reads p id st) google
          ∙ google_run world reads id row a st found refl refl there) in
    let is_row : (row ≡ job) = eq_of_ok (ap (λ r. r.0) made) in
    (
      ap (λ r. find (is_job id) r.1.jobs) run
          ∙ (twice id (processing world.now) (succeeded world.now 0 0) st.jobs row (λ j. refl)
                (λ j. refl) found
              ∙ ap (λ j. some (succeeded world.now 0 0 (processing world.now j))) is_row),
      ap (λ r. r.1.requests) run,
    )

-- For a pending job of a Meta audience whose destination is enabled and whose lock is free, where
-- sending the plan ends with an error that may be tried again: the job is failed with the time of a
-- next attempt, and no later call on it, at whatever time, changes anything.
pub retry_never_comes :
    (world later : World) (reads more : Reads) (id : Text) (job : SyncJob) (a : Audience)
    (code : Text) (st sent : SyncStore)
    → find (is_job id) st.jobs ≡ some job
    → job.status ≡ SyncStatus.pending
    → find (is_audience_id job.audience_id) st.audiences ≡ some a
    → a.platform ≡ Platform.meta
    → is_disabled a.destination_strategy ≡ false
    → acquire_sync_lock job.audience_id job.platform_resource_id world.locks ≡ true
    → send_plan world reads
        (or_else job.platform_resource_id a.public_id)
        (sync_plan job.snapshot_id job.prev_snapshot_id reads.snapshot_members)
        (set_job job.id (processing world.now) st)
      ≡ (Outcome.err (SyncError.audience_error code true), sent)
    → (find (is_job id) (process_sync_job world reads id st).1.jobs
        ≡ some
            (failed_until (world.now + retry_backoff world reads) code (processing world.now job)))
      × ((process_sync_job later more id (process_sync_job world reads id st).1).1
          ≡ (process_sync_job world reads id st).1)
unfolding meta_sent set_job
retry_never_comes world later reads more id job a code st sent found pending there meta enabled free
      failed =
    let begun : SyncStore = set_job id (processing world.now) st in
    let next : SyncJob → SyncJob = failed_until (world.now + retry_backoff world reads) code in
    let is_id : (job.id ≡ id) = eq_of_text_eq job.id id (find_fits (is_job id) st.jobs job found) in
    let run : (process_sync_job world reads id st
        ≡ (Ran.threw (codes "sync_failed"), set_job job.id next sent)) =
      route world reads id job a st found there
      ∙ (ap (λ p. on_platform world reads p id st) meta
          ∙ (meta_run world reads id job a st found pending there enabled free
              ∙ ap (meta_sent world reads job) failed)) in
    let kept : (sent.jobs ≡ begun.jobs) =
      sym (ap (λ r. r.1.jobs) failed)
      ∙ (send_plan_jobs world reads _ _ _
          ∙ ap (λ k. update (is_job k) (processing world.now) st.jobs) is_id) in
    let row : (find (is_job id) (process_sync_job world reads id st).1.jobs
        ≡ some (next (processing world.now job))) =
      ap (λ r. find (is_job id) r.1.jobs) run
      ∙ (ap (λ k. find (is_job id) (update (is_job k) next sent.jobs)) is_id
          ∙ (ap (λ js. find (is_job id) (update (is_job id) next js)) kept
              ∙ twice id (processing world.now) next st.jobs job (λ j. refl) (λ j. refl) found)) in
    (
      row,
      settled_job_stays later more id (next (processing world.now job))
          (process_sync_job world reads id st).1 row refl,
    )
