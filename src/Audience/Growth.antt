-- ===== src/Audience/Growth.antt =====
-- What one audience of the cron's loop does to the snapshots: nothing, or one more, with a retention.
use globaltracker.Prelude.{
  ◌≡◌, refl, ◌∙◌, ap, inl, inr, ℕ, suc, ◌≤◌, Bool, ltb, List, [], ◌∷◌, ◌++◌, map, Option, none,
  some, Text, All, select, update, drop, length, if◌then◌else◌, Bool-cases, arith,
}
use mathlib.Core.Option
use globaltracker.Audience.Types.{Snapshot}
use globaltracker.Audience.Snapshots.{
  newer, newest, newest_first, is_snapshot_of, is_active_of, archived, is_one_of, snapshot_id_of,
  retain_two,
}
use globaltracker.Audience.Retention.{select_append, select_append_none}

abbrev pub hash_of : Snapshot → Text
hash_of s = s.snapshot_hash

-- The hash of the latest snapshot of an audience, if it has one.
unfoldable pub latest_hash : Text → Text → List Snapshot → Option Text
latest_hash workspace_id audience_id rows =
    Option.map hash_of (newest (select (is_snapshot_of workspace_id audience_id) rows))

-- No row is newer than a time.
abbrev pub NotAfter : ℕ → List Snapshot → Type 0
NotAfter t rows = All (λ (s : Snapshot). s.generated_at ≤ t) rows

pub NotAfter-mono : (t u : ℕ) (rows : List Snapshot) → t ≤ u → NotAfter t rows → NotAfter u rows
NotAfter-mono t u [] h k = tt
NotAfter-mono t u (s ∷ rows) h k = (omega arith, NotAfter-mono t u rows h k.1)

-- The effect of an archival on a row.
abbrev touched : (Snapshot → Bool) → Snapshot → Snapshot
touched p s = if p s then archived s else s

select-update :
    (p : Snapshot → Bool) (workspace_id audience_id : Text) (rows : List Snapshot)
    → select (is_snapshot_of workspace_id audience_id) (update p archived rows)
      ≡ update p archived (select (is_snapshot_of workspace_id audience_id) rows)
select-update p w a [] = refl
select-update p w a (s ∷ rows) = ground (arith, select-update p w a rows)

newer-touched :
    (p : Snapshot → Bool) (s : Snapshot) (o : Option Snapshot)
    → newer (touched p s) (Option.map (touched p) o) ≡ touched p (newer s o)
newer-touched p s none = refl
newer-touched p s (some q) = ground arith

newest-update :
    (p : Snapshot → Bool) (rows : List Snapshot)
    → newest (update p archived rows) ≡ Option.map (touched p) (newest rows)
unfolding newest
newest-update p [] = refl
newest-update p (s ∷ rows) =
    ap some (ap (newer (touched p s)) (newest-update p rows) ∙ newer-touched p s (newest rows))

hash-touched :
    (p : Snapshot → Bool) (o : Option Snapshot)
    → Option.map hash_of (Option.map (touched p) o) ≡ Option.map hash_of o
hash-touched p none = refl
hash-touched p (some s) = ground arith

latest_hash-update :
    (p : Snapshot → Bool) (w a : Text) (rows : List Snapshot)
    → latest_hash w a (update p archived rows) ≡ latest_hash w a rows
unfolding latest_hash
latest_hash-update p w a rows =
    ap (λ ss. Option.map hash_of (newest ss)) (select-update p w a rows)
    ∙ (ap (Option.map hash_of) (newest-update p (select (is_snapshot_of w a) rows))
        ∙ hash-touched p (newest (select (is_snapshot_of w a) rows)))

-- A retention is an archival, or nothing.
pub retain_two-latest_hash :
    (of w a : Text) (rows : List Snapshot)
    → latest_hash w a (retain_two of rows) ≡ latest_hash w a rows
unfolding retain_two
retain_two-latest_hash of w a rows =
    let ordered : List Snapshot = newest_first (select (is_active_of of) rows) in
    elim (Bool-cases (ltb 2 (length ordered))) [
      | inl e ↦ rw e (latest_hash-update (is_one_of (map snapshot_id_of (drop 2 ordered))) w a rows)
      | inr e ↦ rw e refl
    ]

update_rows :
    (p : Snapshot → Bool) (rows : List Snapshot) → length (update p archived rows) ≡ length rows
update_rows p [] = refl
update_rows p (s ∷ rows) = ap suc (update_rows p rows)

pub retain_two_rows : (of : Text) (rows : List Snapshot) → length (retain_two of rows) ≡ length rows
unfolding retain_two
retain_two_rows of rows =
    let ordered : List Snapshot = newest_first (select (is_active_of of) rows) in
    elim (Bool-cases (ltb 2 (length ordered))) [
      | inl e ↦ rw e (update_rows (is_one_of (map snapshot_id_of (drop 2 ordered))) rows)
      | inr e ↦ rw e refl
    ]

update-NotAfter :
    (t : ℕ) (p : Snapshot → Bool) (rows : List Snapshot)
    → NotAfter t rows
    → NotAfter t (update p archived rows)
update-NotAfter t p [] h = tt
update-NotAfter t p (s ∷ rows) h = (ground (arith, h.0), update-NotAfter t p rows h.1)

pub retain_two-NotAfter :
    (t : ℕ) (of : Text) (rows : List Snapshot) → NotAfter t rows → NotAfter t (retain_two of rows)
unfolding retain_two
retain_two-NotAfter t of rows h =
    let ordered : List Snapshot = newest_first (select (is_active_of of) rows) in
    elim (Bool-cases (ltb 2 (length ordered))) [
      | inl e ↦ rw e (update-NotAfter t (is_one_of (map snapshot_id_of (drop 2 ordered))) rows h)
      | inr e ↦ rw e h
    ]

newest-append :
    (rows : List Snapshot) (s : Snapshot)
    → NotAfter s.generated_at rows
    → newest (rows ++ s ∷ []) ≡ some s
unfolding newest
newest-append [] s h = refl
newest-append (r ∷ rows) s h =
    ap (λ o. some (newer r o)) (newest-append rows s h.1) ∙ (ground (arith, h.0))

select-NotAfter :
    (t : ℕ) (p : Snapshot → Bool) (rows : List Snapshot)
    → NotAfter t rows
    → NotAfter t (select p rows)
select-NotAfter t p [] h = tt
select-NotAfter t p (s ∷ rows) h = elim (Bool-cases (p s)) [
  | inl e ↦ rw e (h.0, select-NotAfter t p rows h.1)
  | inr e ↦ rw e (select-NotAfter t p rows h.1)
]

-- A new row that is not older is the latest of its audience.
pub latest_hash-append :
    (w a : Text) (rows : List Snapshot) (s : Snapshot)
    → NotAfter s.generated_at rows
    → latest_hash w a (rows ++ s ∷ [])
      ≡ (if is_snapshot_of w a s then some s.snapshot_hash else latest_hash w a rows)
unfolding latest_hash
latest_hash-append w a rows s h = elim (Bool-cases (is_snapshot_of w a s)) [
  | inl e ↦
      rw (e, select_append (is_snapshot_of w a) rows (s ∷ []), e)
        (ap (Option.map hash_of) (
          newest-append (select (is_snapshot_of w a) rows) s
            (select-NotAfter s.generated_at (is_snapshot_of w a) rows h)))
  | inr e ↦
      rw e (
        ap (λ ss. Option.map hash_of (newest ss))
          (select_append_none (is_snapshot_of w a) rows s e))
]
