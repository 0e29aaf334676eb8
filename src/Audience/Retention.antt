-- ===== src/Audience/Retention.antt =====
-- How many snapshots of an audience are active, after `generateSnapshot` and after a run of the cron.
use globaltracker.Prelude.{
  ◌≡◌, refl, ◌∙◌, ap, subst, inl, inr, ℕ, zero, suc, ◌+◌, ◌≤◌, Bool, true, false, not, ltb, List,
  [], ◌∷◌, ◌++◌, map, Option, none, some, Text, text_eq, text_eq_refl, eq_of_text_eq, All, select,
  update, drop, length, Bool-cases, arith,
}
use globaltracker.Audience.Types.{Snapshot, SnapshotTables, Sources, Result}
use globaltracker.Audience.Evaluate.{Outside, EvalResult, evaluate_audience}
use globaltracker.Audience.Snapshots.{
  insert_newest, newest_first, newest, is_active_of, is_snapshot_of, archived, is_one_of,
  snapshot_id_of, retain_two, snapshot_row, write_snapshot, create_snapshot, compare_snapshot,
  evaluated, generate_snapshot,
}

-- INV-AUDIENCE-006: no audience has more than two active snapshots.
unfoldable pub AtMostTwoActive : List Snapshot → Type 0
AtMostTwoActive rows = (audience_id : Text) → length (select (is_active_of audience_id) rows) ≤ 2

module _ {ℓ} {R : Type ℓ} where
  All-mono : {P Q : R → Type 0} → ((r : R) → P r → Q r) → (rs : List R) → All P rs → All Q rs
  All-mono f [] h = tt
  All-mono f (r ∷ rs) h = (f r h.0, All-mono f rs h.1)

  select-none : (p : R → Bool) (rs : List R) → All (λ r. p r ≡ false) rs → select p rs ≡ []
  select-none p [] h = refl
  select-none p (r ∷ rs) h = ground (arith, select-none p rs)

  length-select-drop :
      (p : R → Bool) (n : ℕ) (rs : List R)
      → length (select p rs) ≤ n + length (select p (drop n rs))
  length-select-drop p zero rs = omega arith
  length-select-drop p (suc n) [] = omega arith
  length-select-drop p (suc n) (r ∷ rs) = ground (arith, length-select-drop p n rs)

  pub select_append :
      (p : R → Bool) (rs ss : List R) → select p (rs ++ ss) ≡ select p rs ++ select p ss
  select_append p [] ss = refl
  select_append p (r ∷ rs) ss = ground (arith, select_append p rs ss)

  pub select_append_none :
      (p : R → Bool) (rs : List R) (s : R) → p s ≡ false → select p (rs ++ s ∷ []) ≡ select p rs
  select_append_none p [] s h = ground arith
  select_append_none p (r ∷ rs) s h = ground (arith, select_append_none p rs s h)

length-insert_newest :
    (p : Snapshot → Bool) (s : Snapshot) (rows : List Snapshot)
    → length (select p (insert_newest s rows)) ≡ length (select p (s ∷ rows))
unfolding insert_newest
length-insert_newest p s [] = refl
length-insert_newest p s (r ∷ rows) = ground (arith, length-insert_newest p s rows)

length-newest_first :
    (p : Snapshot → Bool) (rows : List Snapshot)
    → length (select p (newest_first rows)) ≡ length (select p rows)
unfolding newest_first
length-newest_first p [] = refl
length-newest_first p (s ∷ rows) =
    length-insert_newest p s (newest_first rows) ∙ (ground (arith, length-newest_first p rows))

All-listed : (rows : List Snapshot) → All (λ s. is_one_of (map snapshot_id_of rows) s ≡ true) rows
All-listed [] = tt
All-listed (s ∷ rows) =
    (ground (arith, text_eq_refl s.id), All-mono (λ r h. ground arith) rows (All-listed rows))

-- The active rows after an archival are those that it spares.
select-archive :
    (p : Snapshot → Bool) (audience_id : Text) (rows : List Snapshot)
    → length (select (is_active_of audience_id) (update p archived rows))
      ≡ length (select (λ s. not (p s)) (select (is_active_of audience_id) rows))
select-archive p audience_id [] = refl
select-archive p audience_id (s ∷ rows) = ground (arith, select-archive p audience_id rows)

length-select : {R : Type 0} (p : R → Bool) (rs : List R) → length (select p rs) ≤ length rs
length-select p [] = omega arith
length-select p (r ∷ rs) = ground (arith, length-select p rs)

insert_newest_rows :
    (s : Snapshot) (rows : List Snapshot) → length (insert_newest s rows) ≡ suc (length rows)
unfolding insert_newest
insert_newest_rows s [] = refl
insert_newest_rows s (r ∷ rows) = ground (arith, insert_newest_rows s rows)

newest_first_rows : (rows : List Snapshot) → length (newest_first rows) ≡ length rows
unfolding newest_first
newest_first_rows [] = refl
newest_first_rows (s ∷ rows) =
    insert_newest_rows s (newest_first rows) ∙ ap suc (newest_first_rows rows)

-- Of rows in order, an archival of those after the second leaves two at most.
spared_length :
    (rows : List Snapshot)
    → length (select (λ s. not (is_one_of (map snapshot_id_of (drop 2 rows)) s)) rows) ≤ 2
spared_length rows =
    let p : Snapshot → Bool = λ s. not (is_one_of (map snapshot_id_of (drop 2 rows)) s) in
    omega (
      arith,
      length-select-drop p 2 rows,
      ap length (
          select-none p (drop 2 rows)
            (All-mono (λ r h. ap not h) (drop 2 rows) (All-listed (drop 2 rows)))),
    )

not_less : (n : ℕ) → ltb 2 n ≡ false → n ≤ 2
not_less n h = ground arith

retain_two-length :
    (audience_id : Text) (rows : List Snapshot)
    → length (select (is_active_of audience_id) (retain_two audience_id rows)) ≤ 2
unfolding retain_two
retain_two-length audience_id rows =
    let active : List Snapshot = select (is_active_of audience_id) rows in
    let p : Snapshot → Bool =
      λ s. not (is_one_of (map snapshot_id_of (drop 2 (newest_first active))) s) in
    elim (Bool-cases (ltb 2 (length (newest_first active)))) [
      | inl e ↦ rw e (
          omega (
            arith,
            select-archive (is_one_of (map snapshot_id_of (drop 2 (newest_first active))))
                audience_id rows,
            length-newest_first p active,
            spared_length (newest_first active),
          ))
      | inr e ↦
          rw e (omega (arith, newest_first_rows active, not_less (length (newest_first active)) e))
    ]

-- No archival adds an active row.
archive-length :
    (p : Snapshot → Bool) (other : Text) (rows : List Snapshot)
    → length (select (is_active_of other) (update p archived rows))
      ≤ length (select (is_active_of other) rows)
archive-length p other rows = omega (
  arith,
  select-archive p other rows,
  length-select (λ s. not (p s)) (select (is_active_of other) rows),
)

retain_two-length_other :
    (audience_id other : Text) (rows : List Snapshot)
    → length (select (is_active_of other) (retain_two audience_id rows))
      ≤ length (select (is_active_of other) rows)
unfolding retain_two
retain_two-length_other audience_id other rows =
    let ordered : List Snapshot = newest_first (select (is_active_of audience_id) rows) in
    elim (Bool-cases (ltb 2 (length ordered))) [
      | inl e ↦ rw e (archive-length (is_one_of (map snapshot_id_of (drop 2 ordered))) other rows)
      | inr e ↦ rw e (omega arith)
    ]

pub retain_two-AtMostTwoActive :
    (audience_id : Text) (rows : List Snapshot) (s : Snapshot)
    → s.audience_id ≡ audience_id
    → AtMostTwoActive rows
    → AtMostTwoActive (retain_two audience_id (rows ++ s ∷ []))
unfolding AtMostTwoActive
retain_two-AtMostTwoActive audience_id rows s of h other =
    elim (Bool-cases (text_eq audience_id other)) [
      | inl e ↦
          subst
            (λ a. length (select (is_active_of a) (retain_two audience_id (rows ++ s ∷ []))) ≤ 2)
            (eq_of_text_eq audience_id other e) (retain_two-length audience_id (rows ++ s ∷ []))
      | inr e ↦ omega (
        arith,
        retain_two-length_other audience_id other (rows ++ s ∷ []),
        ap length (select_append_none (is_active_of other) rows s (ground arith)),
        h other,
      )
    ]

module _ (workspace_id audience_id : Text) (now : ℕ) (new_id : Text) (fails : Bool) where
  create_snapshot-AtMostTwoActive :
      (e : EvalResult) (tables : SnapshotTables)
      → AtMostTwoActive tables.snapshots
      → AtMostTwoActive
          (create_snapshot workspace_id audience_id now new_id fails e tables).1.snapshots
  unfolding AtMostTwoActive create_snapshot write_snapshot
  create_snapshot-AtMostTwoActive e tables h = elim (Bool-cases fails) [
    | inl f ↦ rw f h
    | inr f ↦ rw f (
        retain_two-AtMostTwoActive audience_id tables.snapshots
          (snapshot_row workspace_id audience_id now new_id e) refl h)
  ]

  compare_snapshot-AtMostTwoActive :
      (e : EvalResult) (latest : Option Snapshot) (tables : SnapshotTables)
      → AtMostTwoActive tables.snapshots
      → AtMostTwoActive
          (compare_snapshot workspace_id audience_id now new_id fails e latest tables).1.snapshots
  unfolding compare_snapshot
  compare_snapshot-AtMostTwoActive e none tables h = create_snapshot-AtMostTwoActive e tables h
  compare_snapshot-AtMostTwoActive e (some latest) tables h =
      elim (Bool-cases (text_eq latest.snapshot_hash e.snapshot_hash)) [
        | inl q ↦ rw q h
        | inr q ↦ rw q (create_snapshot-AtMostTwoActive e tables h)
      ]

  evaluated-AtMostTwoActive :
      (r : Result EvalResult) (tables : SnapshotTables)
      → AtMostTwoActive tables.snapshots
      → AtMostTwoActive (evaluated workspace_id audience_id now new_id fails r tables).1.snapshots
  unfolding evaluated
  evaluated-AtMostTwoActive (Result.err x) tables h = h
  evaluated-AtMostTwoActive (Result.ok e) tables h =
      compare_snapshot-AtMostTwoActive e
        (newest (select (is_snapshot_of workspace_id audience_id) tables.snapshots)) tables h

  -- INV-AUDIENCE-006: where no audience has more than two active snapshots, none has after
  -- `generateSnapshot`, whatever it returns.
  pub generate_snapshot-AtMostTwoActive :
      (out : Outside) (src : Sources) (tables : SnapshotTables)
      → AtMostTwoActive tables.snapshots
      → AtMostTwoActive
          (generate_snapshot workspace_id audience_id now new_id out src fails tables).1.snapshots
  unfolding generate_snapshot
  generate_snapshot-AtMostTwoActive out src tables h =
      evaluated-AtMostTwoActive (evaluate_audience out src workspace_id audience_id) tables h
