-- ===== src/Audience/Snapshots.antt =====
-- `generateSnapshot` and `findPreviousSnapshot` of apps/edge/src/lib/audience.ts. Of snapshots of one
-- time the later row counts as the newer, where the database promises no order. `fails` says that the
-- transaction is refused, which leaves the tables as they were.
use globaltracker.Prelude.{
  ℕ, zero, suc, Bool, true, false, ◌&&◌, not, ltb, List, [], ◌∷◌, ◌++◌, map, Option, none, some,
  Text, text_eq, if◌then◌else◌, any, select, update, take, drop, length,
}
use globaltracker.Audience.Types.{
  Sources, RetentionStatus, Snapshot, SnapshotMember, SnapshotTables, AudienceError, Result,
}
use globaltracker.Audience.Evaluate.{Outside, EvalResult, evaluate_audience}

-- ORDER BY generated_at DESC.
unfoldable pub insert_newest : Snapshot → List Snapshot → List Snapshot
insert_newest s [] = s ∷ []
insert_newest s (r ∷ rs) =
    if ltb r.generated_at s.generated_at then s ∷ r ∷ rs else r ∷ insert_newest s rs

unfoldable pub newest_first : List Snapshot → List Snapshot
unfolding insert_newest
newest_first [] = []
newest_first (s ∷ ss) = insert_newest s (newest_first ss)

-- ORDER BY generated_at DESC LIMIT 1.
abbrev pub newer : Snapshot → Option Snapshot → Snapshot
newer s none = s
newer s (some q) = if ltb q.generated_at s.generated_at then s else q

unfoldable pub newest : List Snapshot → Option Snapshot
newest [] = none
newest (s ∷ ss) = some (newer s (newest ss))

abbrev pub is_active_status : RetentionStatus → Bool
is_active_status RetentionStatus.active = true
is_active_status _ = false

abbrev pub is_snapshot_of : Text → Text → Snapshot → Bool
is_snapshot_of workspace_id audience_id s =
    text_eq s.audience_id audience_id && text_eq s.workspace_id workspace_id

-- The query for the active ones names the audience alone.
abbrev pub is_active_of : Text → Snapshot → Bool
is_active_of audience_id s =
    text_eq s.audience_id audience_id && is_active_status s.retention_status

abbrev pub archived : Snapshot → Snapshot
archived s = record s { retention_status = RetentionStatus.archived }

abbrev pub is_one_of : List Text → Snapshot → Bool
is_one_of ids s = any (text_eq s.id) ids

abbrev pub snapshot_id_of : Snapshot → Text
snapshot_id_of s = s.id

-- Those beyond the two newest are archived.
unfoldable pub retain_two : Text → List Snapshot → List Snapshot
unfolding newest_first
retain_two audience_id rows =
    let ordered = newest_first (select (is_active_of audience_id) rows) in
    if ltb 2 (length ordered)
    then update (is_one_of (map snapshot_id_of (drop 2 ordered))) archived rows
    else rows

abbrev pub member_row : Text → Text → SnapshotMember
member_row snapshot_id lead_id = record { snapshot_id = snapshot_id; lead_id = lead_id }

-- The inserts, in chunks of `size`. The rounds are at most as many as there are members.
unfoldable pub insert_members : ℕ → ℕ → Text → List Text → List SnapshotMember → List SnapshotMember
insert_members zero size snapshot_id members rows = rows
insert_members (suc fuel) size snapshot_id [] rows = rows
insert_members (suc fuel) size snapshot_id (m ∷ ms) rows =
    insert_members fuel size snapshot_id (drop size (m ∷ ms))
      (rows ++ map (member_row snapshot_id) (take size (m ∷ ms)))

abbrev pub chunk_size : ℕ
chunk_size = 1000

pub data GenerateResult : Type 0 where
  created : Snapshot → GenerateResult
  noop : Text → GenerateResult

module _ (workspace_id audience_id : Text) (now : ℕ) (new_id : Text) where
  abbrev pub snapshot_row : EvalResult → Snapshot
  snapshot_row e = record {
    id = new_id;
    workspace_id = workspace_id;
    audience_id = audience_id;
    snapshot_hash = e.snapshot_hash;
    generated_at = now;
    member_count = e.member_count;
    retention_status = RetentionStatus.active;
  }

  -- The transaction.
  unfoldable pub write_snapshot : EvalResult → SnapshotTables → SnapshotTables
  unfolding retain_two insert_members
  write_snapshot e tables = record {
    snapshots = retain_two audience_id (tables.snapshots ++ snapshot_row e ∷ []);
    members = insert_members (length e.members) chunk_size new_id e.members tables.members;
    sync_jobs = tables.sync_jobs;
  }

  unfoldable pub create_snapshot :
      Bool → EvalResult → SnapshotTables → Result GenerateResult × SnapshotTables
  unfolding write_snapshot
  create_snapshot fails e tables =
      if fails
      then (Result.err AudienceError.insert_failed, tables)
      else (Result.ok (GenerateResult.created (snapshot_row e)), write_snapshot e tables)

  -- Beside the latest snapshot: nothing to do where the hash is the same.
  unfoldable pub compare_snapshot :
      Bool → EvalResult → Option Snapshot → SnapshotTables → Result GenerateResult × SnapshotTables
  unfolding create_snapshot
  compare_snapshot fails e none tables = create_snapshot fails e tables
  compare_snapshot fails e (some latest) tables =
      if text_eq latest.snapshot_hash e.snapshot_hash
      then (Result.ok (GenerateResult.noop latest.id), tables)
      else create_snapshot fails e tables

  unfoldable pub evaluated :
      Bool → Result EvalResult → SnapshotTables → Result GenerateResult × SnapshotTables
  unfolding newest compare_snapshot
  evaluated fails (Result.err x) tables = (Result.err x, tables)
  evaluated fails (Result.ok e) tables =
      compare_snapshot fails e
        (newest (select (is_snapshot_of workspace_id audience_id) tables.snapshots)) tables

  unfoldable pub generate_snapshot :
      Outside → Sources → Bool → SnapshotTables → Result GenerateResult × SnapshotTables
  unfolding evaluated
  generate_snapshot out src fails tables =
      evaluated fails (evaluate_audience out src workspace_id audience_id) tables

unfoldable pub find_previous_snapshot : Text → Text → List Snapshot → Option Snapshot
unfolding newest
find_previous_snapshot audience_id current_id rows = newest (
    select (λ (s : Snapshot). text_eq s.audience_id audience_id && not (text_eq s.id current_id))
      rows)
