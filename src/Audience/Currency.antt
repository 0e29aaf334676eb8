-- ===== src/Audience/Currency.antt =====
-- The cron of apps/edge/src/crons/audience-sync.ts, audience by audience: each step leaves the
-- snapshots alone or adds one, and what that gives after a whole run.
use globaltracker.Prelude.{
  ◌≡◌, refl, sym, ◌∙◌, ap, subst, ◌⊎◌, inl, inr, ℕ, suc, ◌≤◌, Bool, true, false, List, [], ◌∷◌,
  ◌++◌, Option, none, some, Text, text_eq, text_eq_refl, eq_of_text_eq, ◌&&◌, All-append, select,
  length, length-append, Bool-cases, arith,
}
use mathlib.Core.Option
use globaltracker.Audience.Types.{Sources, Snapshot, SnapshotTables, Result, eq_of_ok}
use globaltracker.Audience.Evaluate.{Outside, EvalResult, evaluate_audience}
use globaltracker.Audience.Snapshots.{
  newest, is_snapshot_of, retain_two, snapshot_row, write_snapshot, create_snapshot,
  compare_snapshot, evaluated, generate_snapshot,
}
use globaltracker.Audience.Growth.{
  hash_of, latest_hash, NotAfter, NotAfter-mono, retain_two-latest_hash, retain_two_rows,
  retain_two-NotAfter, latest_hash-append,
}

module _ (workspace_id audience_id : Text) (now : ℕ) (new_id : Text) (out : Outside)
    (src : Sources) where
  -- The rows after `generateSnapshot`: as before, or with one more, of the evaluation.
  pub Grown : List Snapshot → List Snapshot → Type 0
  Grown rows after =
      (after ≡ rows)
      ⊎ ((e : EvalResult) × (evaluate_audience out src workspace_id audience_id ≡ Result.ok e)
          × (after
              ≡ retain_two audience_id
                  (rows ++ snapshot_row workspace_id audience_id now new_id e ∷ [])))

  module _ (fails : Bool) where
    create_snapshot-Grown :
        (e : EvalResult) (tables : SnapshotTables)
        → evaluate_audience out src workspace_id audience_id ≡ Result.ok e
        → Grown tables.snapshots
            (create_snapshot workspace_id audience_id now new_id fails e tables).1.snapshots
    unfolding Grown create_snapshot write_snapshot
    create_snapshot-Grown e tables h = elim (Bool-cases fails) [
      | inl f ↦ rw f (inl refl)
      | inr f ↦ rw f (inr (e, h, refl))
    ]

    compare_snapshot-Grown :
        (e : EvalResult) (latest : Option Snapshot) (tables : SnapshotTables)
        → evaluate_audience out src workspace_id audience_id ≡ Result.ok e
        → Grown tables.snapshots
            (compare_snapshot workspace_id audience_id now new_id fails e latest tables).1.snapshots
    unfolding Grown compare_snapshot
    compare_snapshot-Grown e none tables h = create_snapshot-Grown e tables h
    compare_snapshot-Grown e (some s) tables h =
        elim (Bool-cases (text_eq s.snapshot_hash e.snapshot_hash)) [
          | inl q ↦ rw q (inl refl)
          | inr q ↦ rw q (create_snapshot-Grown e tables h)
        ]

    evaluated-Grown :
        (r : Result EvalResult) (tables : SnapshotTables)
        → evaluate_audience out src workspace_id audience_id ≡ r
        → Grown tables.snapshots
            (evaluated workspace_id audience_id now new_id fails r tables).1.snapshots
    unfolding Grown evaluated
    evaluated-Grown (Result.err x) tables h = inl refl
    evaluated-Grown (Result.ok e) tables h =
        compare_snapshot-Grown e
          (newest (select (is_snapshot_of workspace_id audience_id) tables.snapshots)) tables h

    pub generate_snapshot-Grown :
        (tables : SnapshotTables)
        → Grown tables.snapshots
            (generate_snapshot workspace_id audience_id now new_id out src fails tables).1.snapshots
    unfolding generate_snapshot
    generate_snapshot-Grown tables =
        evaluated-Grown (evaluate_audience out src workspace_id audience_id) tables refl

  same_evaluation :
      (w a : Text) (e f : EvalResult)
      → evaluate_audience out src w a ≡ Result.ok e
      → evaluate_audience out src workspace_id audience_id ≡ Result.ok f
      → (text_eq audience_id a && text_eq workspace_id w) ≡ true
      → f ≡ e
  same_evaluation w a e f h k q =
      let here : ((text_eq audience_id a ≡ true) × (text_eq workspace_id w ≡ true)) =
        (ground arith, ground arith) in
      let there : (evaluate_audience out src workspace_id audience_id
          ≡ evaluate_audience out src w a) =
        ap (evaluate_audience out src workspace_id) (eq_of_text_eq audience_id a here.0)
        ∙ ap (λ v. evaluate_audience out src v a) (eq_of_text_eq workspace_id w here.1) in
      eq_of_ok (sym k ∙ (there ∙ h))

  -- A new snapshot is the latest.
  pub added-latest_hash :
      (e : EvalResult) (rows : List Snapshot)
      → NotAfter now rows
      → latest_hash workspace_id audience_id
          (retain_two audience_id (rows ++ snapshot_row workspace_id audience_id now new_id e ∷ []))
        ≡ some e.snapshot_hash
  added-latest_hash e rows late =
      let new : Snapshot = snapshot_row workspace_id audience_id now new_id e in
      retain_two-latest_hash audience_id workspace_id audience_id (rows ++ new ∷ [])
      ∙ (latest_hash-append workspace_id audience_id rows new late
          ∙ rw (text_eq_refl audience_id, text_eq_refl workspace_id) refl)

  compare_snapshot-latest_hash :
      (e : EvalResult) (latest : Option Snapshot) (tables : SnapshotTables)
      → NotAfter now tables.snapshots
      → Option.map hash_of latest ≡ latest_hash workspace_id audience_id tables.snapshots
      → latest_hash workspace_id audience_id
          (compare_snapshot workspace_id audience_id now new_id false e latest tables).1.snapshots
        ≡ some e.snapshot_hash
  unfolding compare_snapshot create_snapshot write_snapshot
  compare_snapshot-latest_hash e none tables late h = added-latest_hash e tables.snapshots late
  compare_snapshot-latest_hash e (some s) tables late h =
      elim (Bool-cases (text_eq s.snapshot_hash e.snapshot_hash)) [
        | inl q ↦ rw q (sym h ∙ ap some (eq_of_text_eq s.snapshot_hash e.snapshot_hash q))
        | inr q ↦ rw q (added-latest_hash e tables.snapshots late)
      ]

  -- The latest hash after a call that the database accepts.
  pub generate_snapshot-latest_hash :
      (e : EvalResult) (tables : SnapshotTables)
      → NotAfter now tables.snapshots
      → evaluate_audience out src workspace_id audience_id ≡ Result.ok e
      → latest_hash workspace_id audience_id
          (generate_snapshot workspace_id audience_id now new_id out src false tables).1.snapshots
        ≡ some e.snapshot_hash
  unfolding generate_snapshot evaluated latest_hash
  generate_snapshot-latest_hash e tables late h =
      subst
        (λ r.
          latest_hash workspace_id audience_id
            (evaluated workspace_id audience_id now new_id false r tables).1.snapshots
          ≡ some e.snapshot_hash)
        (sym h)
        (compare_snapshot-latest_hash e
          (newest (select (is_snapshot_of workspace_id audience_id) tables.snapshots)) tables late
          refl)

  -- What stays as it was, or goes on, through a growth.
  pub Grown-NotAfter :
      (later : ℕ) (rows after : List Snapshot)
      → now ≤ later
      → NotAfter now rows
      → Grown rows after
      → NotAfter later after
  unfolding Grown
  Grown-NotAfter later rows after h late g = elim g [
    | inl e ↦ subst (NotAfter later) (sym e) (NotAfter-mono now later rows h late)
    | inr t ↦ subst (NotAfter later) (sym t.2) (
        retain_two-NotAfter later audience_id _
          (All-append _ rows _ (NotAfter-mono now later rows h late) (h, tt)))
  ]

  pub Grown-length :
      (rows after : List Snapshot)
      → Grown rows after
      → (length after ≡ length rows) ⊎ (length after ≡ suc (length rows))
  unfolding Grown
  Grown-length rows after g = elim g [
    | inl e ↦ inl (ap length e)
    | inr t ↦ inr (
        ap length t.2
        ∙ (retain_two_rows audience_id _
            ∙ (omega (
              arith,
              length-append rows (snapshot_row workspace_id audience_id now new_id t.0 ∷ []),
            ))))
  ]

  -- The audience that a growth is for, and any other whose latest snapshot is right.
  pub Grown-latest_hash :
      (w a : Text) (e : EvalResult) (rows after : List Snapshot)
      → NotAfter now rows
      → evaluate_audience out src w a ≡ Result.ok e
      → latest_hash w a rows ≡ some e.snapshot_hash
      → Grown rows after
      → latest_hash w a after ≡ some e.snapshot_hash
  unfolding Grown
  Grown-latest_hash w a e rows after late h current g = elim g [
    | inl q ↦ ap (latest_hash w a) q ∙ current
    | inr t ↦
        let new : Snapshot = snapshot_row workspace_id audience_id now new_id t.0 in
        ap (latest_hash w a) t.2
        ∙ (retain_two-latest_hash audience_id w a (rows ++ new ∷ [])
            ∙ (latest_hash-append w a rows new late ∙ elim (Bool-cases (is_snapshot_of w a new)) [
              | inl q ↦ rw q (ap (λ x. some x.snapshot_hash) (same_evaluation w a e t.0 h t.1 q))
              | inr q ↦ rw q current
            ]))
  ]
