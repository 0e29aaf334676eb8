-- ===== src/Audience/Losses.antt =====
-- A sync job that could not be written, by apps/edge/src/crons/audience-sync.ts.
use globaltracker.Prelude.{
  ◌≡◌, refl, ◌∙◌, ap, subst, inl, inr, ℕ, Bool, true, false, Option, none, some, Text, text_eq,
  text_eq_refl, select, length, Bool-cases, eq_of_some,
}
use mathlib.Core.Option
use globaltracker.Audience.Types.{Audience, Sources, Snapshot, SnapshotTables, Result}
use globaltracker.Audience.Evaluate.{Outside, EvalResult, evaluate_audience}
use globaltracker.Audience.Snapshots.{
  newest, is_snapshot_of, GenerateResult, write_snapshot, create_snapshot, compare_snapshot,
  evaluated, generate_snapshot,
}
use globaltracker.Audience.Jobs.{create_sync_job}
use globaltracker.Audience.Growth.{hash_of, latest_hash, NotAfter}
use globaltracker.Audience.Currency.{generate_snapshot-latest_hash}
use globaltracker.Audience.Cron.{
  Faults, Supply, Totals, RunState, is_disabled, snapshot_created, audience_done, process_audience,
}
use globaltracker.Audience.Runs.{process_audience_snapshots}

module _ (workspace_id audience_id : Text) (now : ℕ) (new_id : Text) (fails : Bool) where
  compare_snapshot-known :
      (e : EvalResult) (latest : Option Snapshot) (tables : SnapshotTables)
      → Option.map hash_of latest ≡ some e.snapshot_hash
      → (id : Text) × (compare_snapshot workspace_id audience_id now new_id fails e latest tables
          ≡ (Result.ok (GenerateResult.noop id), tables))
  unfolding compare_snapshot
  compare_snapshot-known e none tables h = cc
  compare_snapshot-known e (some s) tables h =
      let same : (text_eq s.snapshot_hash e.snapshot_hash ≡ true) =
        subst (λ t. text_eq s.snapshot_hash t ≡ true) (eq_of_some h)
          (text_eq_refl s.snapshot_hash) in
      (s.id, rw same refl)

  -- Where the latest snapshot is up to date there is nothing to do.
  generate_snapshot-known :
      (out : Outside) (src : Sources) (e : EvalResult) (tables : SnapshotTables)
      → evaluate_audience out src workspace_id audience_id ≡ Result.ok e
      → latest_hash workspace_id audience_id tables.snapshots ≡ some e.snapshot_hash
      → (id : Text) × (generate_snapshot workspace_id audience_id now new_id out src fails tables
          ≡ (Result.ok (GenerateResult.noop id), tables))
  unfolding generate_snapshot evaluated latest_hash
  generate_snapshot-known out src e tables h current =
      let (id, is) =
        compare_snapshot-known e
          (newest (select (is_snapshot_of workspace_id audience_id) tables.snapshots)) tables
          current in
      (id, ap (λ r. evaluated workspace_id audience_id now new_id fails r tables) h ∙ is)

  create_snapshot_jobs :
      (e : EvalResult) (tables : SnapshotTables)
      → (create_snapshot workspace_id audience_id now new_id fails e tables).1.sync_jobs
        ≡ tables.sync_jobs
  unfolding create_snapshot write_snapshot
  create_snapshot_jobs e tables = elim (Bool-cases fails) [ inl f ↦ rw f refl | inr f ↦ rw f refl ]

  compare_snapshot_jobs :
      (e : EvalResult) (latest : Option Snapshot) (tables : SnapshotTables)
      → (compare_snapshot workspace_id audience_id now new_id fails e latest tables).1.sync_jobs
        ≡ tables.sync_jobs
  unfolding compare_snapshot
  compare_snapshot_jobs e none tables = create_snapshot_jobs e tables
  compare_snapshot_jobs e (some s) tables =
      elim (Bool-cases (text_eq s.snapshot_hash e.snapshot_hash)) [
        | inl q ↦ rw q refl
        | inr q ↦ rw q (create_snapshot_jobs e tables)
      ]

  evaluated_jobs :
      (r : Result EvalResult) (tables : SnapshotTables)
      → (evaluated workspace_id audience_id now new_id fails r tables).1.sync_jobs
        ≡ tables.sync_jobs
  unfolding evaluated
  evaluated_jobs (Result.err x) tables = refl
  evaluated_jobs (Result.ok e) tables =
      compare_snapshot_jobs e
        (newest (select (is_snapshot_of workspace_id audience_id) tables.snapshots)) tables

  generate_snapshot_jobs :
      (out : Outside) (src : Sources) (tables : SnapshotTables)
      → (generate_snapshot workspace_id audience_id now new_id out src fails tables).1.sync_jobs
        ≡ tables.sync_jobs
  unfolding generate_snapshot
  generate_snapshot_jobs out src tables =
      evaluated_jobs (evaluate_audience out src workspace_id audience_id) tables

module _ (out : Outside) (src : Sources) (supply : Supply) where
  audience_done_jobs :
      (faults : Faults) (w : Text) (a : Audience) (r : Result GenerateResult)
      (tables : SnapshotTables) (t : Totals)
      → faults.job_fails a.id ≡ true
      → (audience_done out src faults supply w a (r, tables) t).tables.sync_jobs ≡ tables.sync_jobs
  unfolding audience_done snapshot_created create_sync_job
  audience_done_jobs faults w a (Result.err x) tables t h = refl
  audience_done_jobs faults w a (Result.ok (GenerateResult.noop id)) tables t h = refl
  audience_done_jobs faults w a (Result.ok (GenerateResult.created s)) tables t h =
      elim (Bool-cases (is_disabled a.destination_strategy)) [
        | inl e ↦ rw e refl
        | inr e ↦ rw (e, h) refl
      ]

  -- Where no snapshot is newer than the clock, the audience can be evaluated and its snapshot is
  -- accepted, but the sync job is refused: there is no job, and processing the audience again, with any
  -- faults or none, while its members are the same, makes none and changes nothing.
  pub refused_job_is_lost :
      (faults later : Faults) (w : Text) (a : Audience) (e : EvalResult) (st : RunState)
      → NotAfter (supply.times (length st.tables.snapshots)) st.tables.snapshots
      → evaluate_audience out src w a.id ≡ Result.ok e
      → faults.snapshot_fails a.id ≡ false
      → faults.job_fails a.id ≡ true
      → ((process_audience out src faults supply w a st).tables.sync_jobs ≡ st.tables.sync_jobs)
        × ((process_audience out src later supply w a
              (process_audience out src faults supply w a st)).tables
            ≡ (process_audience out src faults supply w a st).tables)
  unfolding process_audience audience_done
  refused_job_is_lost faults later w a e st late h works refused =
      let now = supply.times (length st.tables.snapshots) in
      let id = supply.snapshot_ids (length st.tables.snapshots) in
      let made = generate_snapshot w a.id now id out src (faults.snapshot_fails a.id) st.tables in
      let st1 = process_audience out src faults supply w a st in
      let current : (latest_hash w a.id st1.tables.snapshots ≡ some e.snapshot_hash) =
        ap (latest_hash w a.id) (process_audience_snapshots out src faults supply w a st)
        ∙ rw works (generate_snapshot-latest_hash w a.id now id out src e st.tables late h) in
      let known =
        generate_snapshot-known w a.id (supply.times (length st1.tables.snapshots))
          (supply.snapshot_ids (length st1.tables.snapshots)) (later.snapshot_fails a.id) out src e
          st1.tables h current in
      (
        audience_done_jobs faults w a made.0 made.1 st.totals refused
            ∙ generate_snapshot_jobs w a.id now id (faults.snapshot_fails a.id) out src st.tables,
        ap (λ r. (audience_done out src later supply w a r st1.totals).tables) known.1,
      )
