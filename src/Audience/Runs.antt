-- ===== src/Audience/Runs.antt =====
-- A whole run of the cron of apps/edge/src/crons/audience-sync.ts.
use globaltracker.Prelude.{
  ◌≡◌, refl, sym, ◌∙◌, ap, subst, inl, inr, ℕ, suc, ◌≤◌, Bool, true, false, List, [], ◌∷◌, Option,
  some, Text, text_eq, text_eq_iff, text_eq_refl, any_iff, mem_select, length, Bool-cases,
  if◌then◌else◌, arith,
}
use mathlib.Core.List.{Memᴰ}
use mathlib.Core.List.Memᴰ
use globaltracker.Audience.Types.{Audience, Sources, SnapshotTables, Result}
use globaltracker.Audience.Evaluate.{Outside, EvalResult, evaluate_audience}
use globaltracker.Audience.Snapshots.{GenerateResult, generate_snapshot}
use globaltracker.Audience.Jobs.{is_in, distinct_texts, create_sync_job}
use globaltracker.Audience.Retention.{AtMostTwoActive, generate_snapshot-AtMostTwoActive}
use globaltracker.Audience.Growth.{latest_hash, NotAfter}
use globaltracker.Audience.Currency.{
  Grown, generate_snapshot-Grown, generate_snapshot-latest_hash, Grown-NotAfter, Grown-length,
  Grown-latest_hash,
}
use globaltracker.Audience.Cron.{
  Faults, Supply, Totals, RunState, is_active_audience, list_active_audiences, audience_workspace,
  list_workspaces_with_active_audiences, is_disabled, job_done, snapshot_created, audience_done,
  process_audience, process_audiences, process_workspaces, run_audience_sync,
}

mem_distinct : (x : Text) (ts : List Text) → Memᴰ x ts → Memᴰ x (distinct_texts ts)
unfolding distinct_texts
mem_distinct x [] m = m
mem_distinct x (t ∷ ts) m = elim (Bool-cases (is_in t ts)) [
  | inl e ↦ rw e (elim (Memᴰ.cases_cons m) [
    | inl q ↦
        let (u, n, r) = (any_iff (text_eq t) (text_eq_iff t) ts).0 e in
        mem_distinct x ts (Memᴰ.cast (q ∙ r) n)
    | inr n ↦ mem_distinct x ts n
  ])
  | inr e ↦
      rw e
        (elim (Memᴰ.cases_cons m) [ inl q ↦ Memᴰ.head q | inr n ↦ Memᴰ.tail (mem_distinct x ts n) ])
]

module _ (out : Outside) (src : Sources) (faults : Faults) (supply : Supply) where
  job_done_snapshots :
      (w a s : Text) (prev : Option Text) (id : Text) (fails : Bool) (tables : SnapshotTables)
      (t : Totals)
      → (job_done out src faults supply
          (create_sync_job w a s prev id fails tables)
          t).tables.snapshots
        ≡ tables.snapshots
  unfolding create_sync_job
  job_done_snapshots w a s prev id fails tables t = elim (Bool-cases fails) [
    | inl e ↦ rw e refl
    | inr e ↦ rw e refl
  ]

  audience_done_snapshots :
      (w : Text) (a : Audience) (r : Result GenerateResult) (tables : SnapshotTables) (t : Totals)
      → (audience_done out src faults supply w a (r, tables) t).tables.snapshots ≡ tables.snapshots
  unfolding audience_done snapshot_created
  audience_done_snapshots w a (Result.err x) tables t = refl
  audience_done_snapshots w a (Result.ok (GenerateResult.noop id)) tables t = refl
  audience_done_snapshots w a (Result.ok (GenerateResult.created s)) tables t =
      elim (Bool-cases (is_disabled a.destination_strategy)) [
        | inl e ↦ rw e refl
        | inr e ↦ rw e (job_done_snapshots w a.id s.id _ _ (faults.job_fails a.id) tables _)
      ]

  -- The clock at a state.
  abbrev pub now_at : RunState → ℕ
  now_at st = supply.times (length st.tables.snapshots)

  abbrev pub id_at : RunState → Text
  id_at st = supply.snapshot_ids (length st.tables.snapshots)

  pub process_audience_snapshots :
      (w : Text) (a : Audience) (st : RunState)
      → (process_audience out src faults supply w a st).tables.snapshots
        ≡ (generate_snapshot w a.id
            (now_at st)
            (id_at st)
            out
            src
            (faults.snapshot_fails a.id)
            st.tables).1.snapshots
  unfolding process_audience
  process_audience_snapshots w a st =
      let r =
        generate_snapshot w a.id (now_at st) (id_at st) out src (faults.snapshot_fails a.id)
          st.tables in
      audience_done_snapshots w a r.0 r.1 st.totals

  process_audience-Grown :
      (w : Text) (a : Audience) (st : RunState)
      → Grown w a.id
          (now_at st)
          (id_at st)
          out
          src
          st.tables.snapshots
          (process_audience out src faults supply w a st).tables.snapshots
  process_audience-Grown w a st =
      subst (Grown w a.id (now_at st) (id_at st) out src st.tables.snapshots)
        (sym (process_audience_snapshots w a st))
        (generate_snapshot-Grown w a.id (now_at st) (id_at st) out src (faults.snapshot_fails a.id)
          st.tables)

  -- A property of the state that every audience's step keeps holds after a run.
  module _ (P : RunState → Type 0)
      (keeps : (w : Text) (a : Audience) (st : RunState)
        → P st
        → P (process_audience out src faults supply w a st))
      (counts : (st : RunState) (t : Totals) → P st → P (record st { totals = t })) where
    process_audiences-keeps :
        (w : Text) (more : List Audience) (st : RunState)
        → P st
        → P (process_audiences out src faults supply w more st)
    unfolding process_audiences
    process_audiences-keeps w [] st h = h
    process_audiences-keeps w (a ∷ rest) st h =
        process_audiences-keeps w rest (process_audience out src faults supply w a st)
          (keeps w a st h)

    workspace-keeps :
        (w : Text) (st : RunState)
        → P st
        → P (
            if faults.list_fails w
            then record st { totals = record st.totals { errors = suc st.totals.errors } }
            else process_audiences out src faults supply w
                (list_active_audiences w src.audiences)
                st)
    workspace-keeps w st h = elim (Bool-cases (faults.list_fails w)) [
      | inl e ↦ rw e (counts st _ h)
      | inr e ↦ rw e (process_audiences-keeps w (list_active_audiences w src.audiences) st h)
    ]

    process_workspaces-keeps :
        (ws : List Text) (st : RunState) → P st → P (process_workspaces out src faults supply ws st)
    unfolding process_workspaces
    process_workspaces-keeps [] st h = h
    process_workspaces-keeps (w ∷ ws) st h = process_workspaces-keeps ws _ (workspace-keeps w st h)

  -- INV-AUDIENCE-006: where no audience has more than two active snapshots, none has after a run of the
  -- cron, whatever fails in it.
  pub run_audience_sync-AtMostTwoActive :
      (tables : SnapshotTables)
      → AtMostTwoActive tables.snapshots
      → AtMostTwoActive (run_audience_sync out src faults supply tables).tables.snapshots
  unfolding run_audience_sync
  run_audience_sync-AtMostTwoActive tables h = elim (Bool-cases faults.workspace_list_fails) [
    | inl e ↦ rw e h
    | inr e ↦ rw e (
        process_workspaces-keeps (λ st. AtMostTwoActive st.tables.snapshots)
          (λ w a st k. subst AtMostTwoActive (sym (process_audience_snapshots w a st)) (
            generate_snapshot-AtMostTwoActive w a.id (now_at st) (id_at st)
              (faults.snapshot_fails a.id) out src st.tables k))
          (λ st t k. k) (list_workspaces_with_active_audiences src.audiences) _ h)
  ]

  module _ (forward : (n : ℕ) → supply.times n ≤ supply.times (suc n)) where
    abbrev Timely : RunState → Type 0
    Timely st = NotAfter (now_at st) st.tables.snapshots

    process_audience-now :
        (w : Text) (a : Audience) (st : RunState)
        → now_at st ≤ now_at (process_audience out src faults supply w a st)
    process_audience-now w a st =
        elim (Grown-length w a.id (now_at st) (id_at st) out src st.tables.snapshots _
          (process_audience-Grown w a st)) [
            | inl e ↦ subst (λ n. now_at st ≤ supply.times n) (sym e) (omega arith)
            | inr e ↦
                subst (λ n. now_at st ≤ supply.times n) (sym e)
                  (forward (length st.tables.snapshots))
          ]

    process_audience-Timely :
        (w : Text) (a : Audience) (st : RunState)
        → Timely st
        → Timely (process_audience out src faults supply w a st)
    process_audience-Timely w a st h =
        Grown-NotAfter w a.id (now_at st) (id_at st) out src _ st.tables.snapshots _
          (process_audience-now w a st) h (process_audience-Grown w a st)

    module _ (b : Audience) (e : EvalResult)
        (is_e : evaluate_audience out src b.workspace_id b.id ≡ Result.ok e) where
      abbrev Right : RunState → Type 0
      Right st =
          Timely st × (latest_hash b.workspace_id b.id st.tables.snapshots ≡ some e.snapshot_hash)

      process_audience-Right :
          (w : Text) (a : Audience) (st : RunState)
          → Right st
          → Right (process_audience out src faults supply w a st)
      process_audience-Right w a st h = (
        process_audience-Timely w a st h.0,
        Grown-latest_hash w a.id (now_at st) (id_at st) out src b.workspace_id b.id e
            st.tables.snapshots _ h.0 is_e h.1 (process_audience-Grown w a st),
      )

      process_audience-reaches :
          (st : RunState)
          → faults.snapshot_fails b.id ≡ false
          → Timely st
          → Right (process_audience out src faults supply b.workspace_id b st)
      process_audience-reaches st works h = (
        process_audience-Timely b.workspace_id b st h,
        ap (latest_hash b.workspace_id b.id) (process_audience_snapshots b.workspace_id b st)
            ∙ (rw works (
                generate_snapshot-latest_hash b.workspace_id b.id (now_at st) (id_at st) out src e
                  st.tables h is_e)),
      )

      process_audiences-reaches :
          (more : List Audience) (st : RunState)
          → faults.snapshot_fails b.id ≡ false
          → Memᴰ b more
          → Timely st
          → Right (process_audiences out src faults supply b.workspace_id more st)
      unfolding process_audiences
      process_audiences-reaches [] st works m h = absurd (Memᴰ.not-nil m)
      process_audiences-reaches (a ∷ rest) st works m h = elim (Memᴰ.cases_cons m) [
        | inl q ↦
            subst
              (λ x. Right (
                process_audiences out src faults supply b.workspace_id rest
                  (process_audience out src faults supply b.workspace_id x st)))
              q
              (process_audiences-keeps Right process_audience-Right (λ s t k. k) b.workspace_id rest
                _ (process_audience-reaches st works h))
        | inr n ↦
            process_audiences-reaches rest _ works n (process_audience-Timely b.workspace_id a st h)
      ]

      process_workspaces-reaches :
          (ws : List Text) (st : RunState)
          → faults.list_fails b.workspace_id ≡ false
          → faults.snapshot_fails b.id ≡ false
          → Memᴰ b (list_active_audiences b.workspace_id src.audiences)
          → Memᴰ b.workspace_id ws
          → Timely st
          → Right (process_workspaces out src faults supply ws st)
      unfolding process_workspaces
      process_workspaces-reaches [] st listed works m n h = absurd (Memᴰ.not-nil n)
      process_workspaces-reaches (w ∷ ws) st listed works m n h = elim (Memᴰ.cases_cons n) [
        | inl q ↦
            process_workspaces-keeps Right process_audience-Right (λ s t k. k) ws _
              (subst
                (λ x. Right (
                  if faults.list_fails x
                  then record st { totals = record st.totals { errors = suc st.totals.errors } }
                  else process_audiences out src faults supply x
                      (list_active_audiences x src.audiences) st))
                q
                (rw listed (
                  process_audiences-reaches (list_active_audiences b.workspace_id src.audiences) st
                    works m h)))
        | inr k ↦
            process_workspaces-reaches ws _ listed works m k
              (workspace-keeps Timely process_audience-Timely (λ s t x. x) w st h)
      ]

    -- Each active audience is brought up to date by a run, whatever fails for the others. Where the
    -- clock does not go back, no snapshot is newer than it, the lists of workspaces and of the
    -- audiences of its workspace can be read, its snapshot is not refused, and it can be evaluated: its
    -- latest snapshot has the hash of its members.
    pub run_audience_sync-latest_hash :
        (b : Audience) (e : EvalResult) (tables : SnapshotTables)
        → NotAfter (supply.times (length tables.snapshots)) tables.snapshots
        → Memᴰ b src.audiences
        → is_active_audience b.status ≡ true
        → faults.workspace_list_fails ≡ false
        → faults.list_fails b.workspace_id ≡ false
        → faults.snapshot_fails b.id ≡ false
        → evaluate_audience out src b.workspace_id b.id ≡ Result.ok e
        → latest_hash b.workspace_id b.id
            (run_audience_sync out src faults supply tables).tables.snapshots
          ≡ some e.snapshot_hash
    unfolding run_audience_sync list_active_audiences list_workspaces_with_active_audiences
    run_audience_sync-latest_hash b e tables late m live found listed works is_e =
        rw found
          (process_workspaces-reaches b e is_e _ _ listed works
            ((mem_select _ src.audiences b).1
              (m, (ground (arith, text_eq_refl b.workspace_id, live))))
            (mem_distinct b.workspace_id _
              (Memᴰ.map audience_workspace ((mem_select _ src.audiences b).1 (m, live))))
            late).1
