-- ===== src/Sync/Store.antt =====
-- What the consumer of apps/edge/src/dispatchers/audience-sync reads and writes, and the writes that
-- its two adapters share. Times are milliseconds; a run has one time.
use globaltracker.Prelude.{
  ℕ, ◌+◌, Bool, List, [], ◌∷◌, map, Option, none, some, Text, text_eq, select, update,
}
use globaltracker.Identity.Types.{Lead}
use globaltracker.Audience.Types.{Audience, SnapshotMember, SyncStatus, SyncJob}
use globaltracker.Audience.Jobs.{is_in}

-- A member as the platforms take it.
pub record Member : Type 0 where
  pub email_hash : Option Text
  pub phone_hash : Option Text

pub data Direction : Type 0 where
  addition removal : Direction

-- What a request carries.
pub record Delivery : Type 0 where
  pub direction : Direction
  pub resource_id : Text
  pub members : List Member

-- What is read only.
pub record Reads : Type 0 where
  pub snapshot_members : List SnapshotMember
  pub leads : List Lead

-- The tables, and every request that was made, whatever was answered.
pub record SyncStore : Type 0 where
  pub jobs : List SyncJob
  pub audiences : List Audience
  pub requests : List Delivery

-- A call returns or throws.
pub data Ran : Type 0 where
  finished : Ran
  threw : Text → Ran

abbrev pub job_key : SyncJob → Text
job_key j = j.id

abbrev pub is_job : Text → SyncJob → Bool
is_job id j = text_eq j.id id

unfoldable pub set_job : Text → (SyncJob → SyncJob) → SyncStore → SyncStore
set_job id f st = record st { jobs = update (is_job id) f st.jobs }

abbrev pub processing : ℕ → SyncJob → SyncJob
processing now j = record j { status = SyncStatus.processing; started_at = some now }

abbrev pub succeeded : ℕ → ℕ → ℕ → SyncJob → SyncJob
succeeded now additions removals j = record j {
  status = SyncStatus.succeeded;
  sent_additions = additions;
  sent_removals = removals;
  finished_at = some now;
}

-- Lock contention: back for another try in a minute.
abbrev pub requeued : ℕ → SyncJob → SyncJob
requeued now j = record j {
  status = SyncStatus.pending;
  started_at = none;
  next_attempt_at = some (now + 60000);
}

-- `markFailed`, without and with a next attempt.
abbrev pub failed_for_good : ℕ → Text → SyncJob → SyncJob
failed_for_good now code j = record j {
  status = SyncStatus.failed;
  error_code = some code;
  finished_at = some now;
  next_attempt_at = none;
}

abbrev pub failed_until : ℕ → Text → SyncJob → SyncJob
failed_until next code j = record j {
  status = SyncStatus.failed;
  error_code = some code;
  next_attempt_at = some next;
}

abbrev pub member_of_lead : Lead → Member
member_of_lead l = record { email_hash = l.email_hash; phone_hash = l.phone_hash }

-- `toMetaMembers` and `toGoogleMembers`.
unfoldable pub to_members : List Text → List Lead → List Member
to_members [] leads = []
to_members (id ∷ ids) leads =
    map member_of_lead (select (λ (l : Lead). is_in l.id (id ∷ ids)) leads)
