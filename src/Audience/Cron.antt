-- ===== src/Audience/Cron.antt =====
-- `runAudienceSync` of apps/edge/src/crons/audience-sync.ts, with `listActiveAudiences` and
-- `listWorkspacesWithActiveAudiences`. The faults say which statements the database refuses. The
-- clock and the generated identifiers are functions of how many rows there are already.
use globaltracker.Prelude.{
  ℕ, suc, Bool, true, false, ◌&&◌, List, [], ◌∷◌, map, Text, text_eq, if◌then◌else◌, select, length,
}
use mathlib.Core.Option
use globaltracker.Audience.Types.{
  AudienceStatus, DestinationStrategy, Audience, Sources, Snapshot, SyncJob, SnapshotTables, Result,
}
use globaltracker.Audience.Evaluate.{Outside}
use globaltracker.Audience.Snapshots.{
  GenerateResult, snapshot_id_of, generate_snapshot, find_previous_snapshot,
}
use globaltracker.Audience.Jobs.{distinct_texts, create_sync_job}

pub record Faults : Type 0 where
  pub workspace_list_fails : Bool
  pub list_fails : Text → Bool
  pub snapshot_fails : Text → Bool
  pub job_fails : Text → Bool

pub record Supply : Type 0 where
  pub times : ℕ → ℕ
  pub snapshot_ids : ℕ → Text
  pub job_ids : ℕ → Text

-- The counters of the run.
pub record Totals : Type 0 where
  pub snapshots : ℕ
  pub noops : ℕ
  pub jobs : ℕ
  pub errors : ℕ

pub record RunState : Type 0 where
  pub tables : SnapshotTables
  pub totals : Totals

abbrev pub count_noop : Totals → Totals
count_noop t = record t { noops = suc t.noops }

abbrev pub count_snapshot : Totals → Totals
count_snapshot t = record t { snapshots = suc t.snapshots }

abbrev pub count_job : Totals → Totals
count_job t = record t { jobs = suc t.jobs }

abbrev pub count_error : Totals → Totals
count_error t = record t { errors = suc t.errors }

abbrev pub is_active_audience : AudienceStatus → Bool
is_active_audience AudienceStatus.active = true
is_active_audience _ = false

unfoldable pub list_active_audiences : Text → List Audience → List Audience
list_active_audiences workspace_id rows =
    select (λ (a : Audience). text_eq a.workspace_id workspace_id && is_active_audience a.status)
      rows

abbrev pub audience_workspace : Audience → Text
audience_workspace a = a.workspace_id

unfoldable pub list_workspaces_with_active_audiences : List Audience → List Text
unfolding distinct_texts
list_workspaces_with_active_audiences rows =
    distinct_texts
      (map audience_workspace (select (λ (a : Audience). is_active_audience a.status) rows))

abbrev pub is_disabled : DestinationStrategy → Bool
is_disabled DestinationStrategy.disabled_not_eligible = true
is_disabled _ = false

module _ (out : Outside) (src : Sources) (faults : Faults) (supply : Supply) where
  abbrev pub job_done : Result SyncJob × SnapshotTables → Totals → RunState
  job_done (Result.ok job, tables) totals = record { tables = tables; totals = count_job totals }
  job_done (Result.err x, tables) totals = record { tables = tables; totals = count_error totals }

  -- After a new snapshot: the job, unless the destination is disabled.
  unfoldable pub snapshot_created : Text → Audience → Snapshot → SnapshotTables → Totals → RunState
  unfolding create_sync_job find_previous_snapshot
  snapshot_created workspace_id a s tables totals =
      if is_disabled a.destination_strategy
      then record { tables = tables; totals = totals }
      else job_done
          (create_sync_job workspace_id a.id s.id
            (Option.map snapshot_id_of (find_previous_snapshot a.id s.id tables.snapshots))
            (supply.job_ids (length tables.sync_jobs)) (faults.job_fails a.id) tables)
          totals

  unfoldable pub audience_done :
      Text → Audience → Result GenerateResult × SnapshotTables → Totals → RunState
  unfolding snapshot_created
  audience_done workspace_id a (Result.err x, tables) totals = record {
    tables = tables;
    totals = count_error totals;
  }
  audience_done workspace_id a (Result.ok (GenerateResult.noop id), tables) totals = record {
    tables = tables;
    totals = count_noop totals;
  }
  audience_done workspace_id a (Result.ok (GenerateResult.created s), tables) totals =
      snapshot_created workspace_id a s tables (count_snapshot totals)

  unfoldable pub process_audience : Text → Audience → RunState → RunState
  unfolding audience_done generate_snapshot
  process_audience workspace_id a st =
      audience_done workspace_id a
        (generate_snapshot workspace_id a.id (supply.times (length st.tables.snapshots))
          (supply.snapshot_ids (length st.tables.snapshots)) out src (faults.snapshot_fails a.id)
          st.tables)
        st.totals

  unfoldable pub process_audiences : Text → List Audience → RunState → RunState
  unfolding process_audience
  process_audiences workspace_id [] st = st
  process_audiences workspace_id (a ∷ rest) st =
      process_audiences workspace_id rest (process_audience workspace_id a st)

  unfoldable pub process_workspaces : List Text → RunState → RunState
  unfolding process_audiences list_active_audiences
  process_workspaces [] st = st
  process_workspaces (w ∷ ws) st = process_workspaces ws (
      if faults.list_fails w
      then record st { totals = count_error st.totals }
      else process_audiences w (list_active_audiences w src.audiences) st)

  unfoldable pub run_audience_sync : SnapshotTables → RunState
  unfolding process_workspaces list_workspaces_with_active_audiences
  run_audience_sync tables =
      let start : RunState = record {
        tables = tables;
        totals = record { snapshots = 0; noops = 0; jobs = 0; errors = 0 };
      } in
      if faults.workspace_list_fails
      then start
      else process_workspaces (list_workspaces_with_active_audiences src.audiences) start
