-- ===== src/Audience/Jobs.antt =====
-- `createSyncJob` and `acquireSyncLock` of apps/edge/src/lib/audience.ts.
use globaltracker.Prelude.{
  ℕ, ◌+◌, ◌-◌, ◌*◌, ◌%◌, ◌^◌, ◌==◌, Bool, not, ltb, List, [], ◌∷◌, ◌++◌, map, Option, none, some,
  Text, codes, text_eq, if◌then◌else◌, or_else, any, select, length,
}
use globaltracker.Audience.Types.{
  SnapshotMember, SyncStatus, SyncJob, SnapshotTables, AudienceError, Result,
}

abbrev pub is_in : Text → List Text → Bool
is_in t ts = any (text_eq t) ts

abbrev pub member_lead : SnapshotMember → Text
member_lead m = m.lead_id

unfoldable pub members_of : Text → List SnapshotMember → List Text
members_of snapshot_id rows =
    map member_lead (select (λ (m : SnapshotMember). text_eq m.snapshot_id snapshot_id) rows)

-- SELECT DISTINCT.
unfoldable pub distinct_texts : List Text → List Text
distinct_texts [] = []
distinct_texts (t ∷ ts) = if is_in t ts then distinct_texts ts else t ∷ distinct_texts ts

-- `xs EXCEPT ys`, which has no row twice.
unfoldable pub except : List Text → List Text → List Text
unfolding distinct_texts
except xs ys = distinct_texts (select (λ t. not (is_in t ys)) xs)

pub record Plan : Type 0 where
  pub additions : List Text
  pub removals : List Text

-- The two differences, of which `createSyncJob` stores the sizes. Without a previous snapshot all
-- members are additions.
unfoldable pub sync_plan : Text → Option Text → List SnapshotMember → Plan
unfolding members_of except
sync_plan snapshot_id none rows = record { additions = members_of snapshot_id rows; removals = [] }
sync_plan snapshot_id (some prev_id) rows = record {
  additions = except (members_of snapshot_id rows) (members_of prev_id rows);
  removals = except (members_of prev_id rows) (members_of snapshot_id rows);
}

module _ (workspace_id audience_id snapshot_id : Text) (prev_id : Option Text) (new_id : Text) where
  abbrev pub job_row : Plan → SyncJob
  job_row plan = record {
    id = new_id;
    workspace_id = workspace_id;
    audience_id = audience_id;
    snapshot_id = snapshot_id;
    prev_snapshot_id = prev_id;
    status = SyncStatus.pending;
    planned_additions = length plan.additions;
    planned_removals = length plan.removals;
    sent_additions = 0;
    sent_removals = 0;
    platform_resource_id = none;
    error_code = none;
    started_at = none;
    finished_at = none;
    next_attempt_at = none;
  }

  unfoldable pub create_sync_job : Bool → SnapshotTables → Result SyncJob × SnapshotTables
  unfolding sync_plan
  create_sync_job fails tables =
      let job = job_row (sync_plan snapshot_id prev_id tables.members) in
      if fails
      then (Result.err AudienceError.insert_failed, tables)
      else (Result.ok job, record tables { sync_jobs = tables.sync_jobs ++ job ∷ [] })

-- The 32 bits of `hash`, as a number below 2 ^ 32: a round is `(hash << 5) + hash + code`, cut to 32
-- bits by `|= 0`.
unfoldable pub djb2_bits : ℕ → Text → ℕ
djb2_bits hash [] = hash
djb2_bits hash (c ∷ s) = djb2_bits ((hash * 33 + c) % 2 ^ 32) s

-- `Math.abs` of the signed reading.
unfoldable pub djb2 : Text → ℕ
unfolding djb2_bits
djb2 s = let bits = djb2_bits 5381 s in if ltb bits (2 ^ 31) then bits else 2 ^ 32 - bits

-- The advisory locks that other transactions hold, by their keys.
unfoldable pub acquire_sync_lock : Text → Option Text → List ℕ → Bool
unfolding djb2
acquire_sync_lock audience_id platform_resource_id held = not (
    any
      (λ k.
        (djb2 (audience_id ++ (codes "|" ++ or_else platform_resource_id (codes "default")))) == k)
      held)
