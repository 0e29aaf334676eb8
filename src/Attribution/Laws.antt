-- ===== src/Attribution/Laws.antt =====
-- The first and the last touch over the calls of apps/edge/src/lib/attribution.ts.
use globaltracker.Prelude.{
  find-update, find-update_other, or_else, ℕ, ◌≡◌, refl, ◌∙◌, inl, inr, Bool, true, false, not,
  List, [], ◌∷◌, none, some, Text, text_eq_refl, any, find, update, arith, Bool-cases, find-append,
  find-append_none,
}
use globaltracker.Attribution.Types.{
  TouchType, touch_eq, RecordTouchesInput, RecordTouchesOutcome, Touch, in_scope,
}
use globaltracker.Attribution.Touches.{
  attribution_params_to_row, touch_row, scope_of, insert_first, overwrite, upsert_last, is_invalid,
  record_touches,
}

first-insert_first :
    (now : ℕ) (input : RecordTouchesInput) (p : Touch → Bool) (rows : List Touch) (t : Touch)
    → find p rows ≡ some t
    → find p (insert_first now input rows) ≡ some t
unfolding insert_first
first-insert_first now input p rows t h =
    elim (Bool-cases (any (scope_of input TouchType.first) rows)) [
      | inl e ↦ rw e h
      | inr e ↦ rw e (find-append p rows _ t h)
    ]

-- An update of the last touches does not reach the others.
find-overwrite :
    (now : ℕ) (input : RecordTouchesInput) (type : TouchType) (w l d : Text) (rows : List Touch)
    → touch_eq TouchType.last type ≡ false
    → find (in_scope type w l d) (update (scope_of input TouchType.last) (overwrite now input) rows)
      ≡ find (in_scope type w l d) rows
find-overwrite now input type w l d rows ne =
    find-update_other (scope_of input TouchType.last) (in_scope type w l d) (overwrite now input)
      rows (λ r h. other_type r (ground arith)) (λ r. refl)
  where
    type_apart :
        (t u : TouchType)
        → touch_eq TouchType.last u ≡ false
        → touch_eq t TouchType.last ≡ true
        → touch_eq t u ≡ false
    type_apart TouchType.first u n e = cc e
    type_apart TouchType.last u n e = n
    type_apart TouchType.all u n e = cc e

    other_type :
        (r : Touch) → touch_eq r.touch_type TouchType.last ≡ true → in_scope type w l d r ≡ false
    other_type r e = rw (type_apart r.touch_type type ne e)

any-find :
    (p : Touch → Bool) (rows : List Touch)
    → any p rows ≡ true
    → (t : Touch) × (find p rows ≡ some t)
any-find p [] h = absurd (cc h)
any-find p (r ∷ rs) h = elim (Bool-cases (p r)) [
  | inl e ↦ (r, rw e)
  | inr e ↦ let (t, f) = any-find p rs (ground (arith, h, e)) in (t, rw e f)
]

find_of_not_any : (p : Touch → Bool) (rows : List Touch) → any p rows ≡ false → find p rows ≡ none
find_of_not_any p [] h = refl
find_of_not_any p (r ∷ rs) h = ground (arith, find_of_not_any p rs)

first-upsert_last :
    (now : ℕ) (input : RecordTouchesInput) (w l d : Text) (rows : List Touch) (t : Touch)
    → find (in_scope TouchType.first w l d) rows ≡ some t
    → find (in_scope TouchType.first w l d) (upsert_last now input rows) ≡ some t
unfolding upsert_last
first-upsert_last now input w l d rows t h =
    elim (Bool-cases (any (scope_of input TouchType.last) rows)) [
      | inl e ↦ rw e (find-overwrite now input TouchType.first w l d rows refl ∙ h)
      | inr e ↦ rw e (find-append (in_scope TouchType.first w l d) rows _ t h)
    ]

-- BR-ATTRIBUTION-001: once a lead has a first touch in a launch, no later call, of any input and
-- at whichever statement it fails, changes it.
pub first_touch_stays :
    (fails : TouchType → Bool) (now : ℕ) (input : RecordTouchesInput)
    (workspace_id launch_id lead_id : Text) (rows : List Touch) (t : Touch)
    → find (in_scope TouchType.first workspace_id launch_id lead_id) rows ≡ some t
    → find
        (in_scope TouchType.first workspace_id launch_id lead_id)
        (record_touches fails now input rows).1
      ≡ some t
unfolding record_touches
first_touch_stays fails now input w l d rows t h =
    let p = in_scope TouchType.first w l d in
    let h1 = first-insert_first now input p rows t h in
    let h2 = first-upsert_last now input w l d (insert_first now input rows) t h1 in
    let h3 =
      find-append p (upsert_last now input (insert_first now input rows))
        (touch_row now input TouchType.all ∷ []) t h2 in
    ground (arith, h, h1, h2, h3)

-- The last touch after the upsert.
last-upsert_last :
    (now : ℕ) (input : RecordTouchesInput) (rows : List Touch)
    → (t : Touch) × (find (scope_of input TouchType.last) (upsert_last now input rows) ≡ some t)
      × (t.ts ≡ input.event_time)
      × (t.columns ≡ attribution_params_to_row input.attribution)
unfolding upsert_last
last-upsert_last now input rows = elim (Bool-cases (any (scope_of input TouchType.last) rows)) [
  | inl e ↦
      let (t, f) = any-find (scope_of input TouchType.last) rows e in
      rw e (
        overwrite now input t,
        find-update (scope_of input TouchType.last) (overwrite now input) rows (λ r. refl) ∙ rw f,
        refl,
        refl,
      )
  | inr e ↦ rw e (
    touch_row now input TouchType.last,
    find-append_none (scope_of input TouchType.last) rows _ (find_of_not_any _ rows e)
        ∙ rw (
          text_eq_refl input.workspace_id,
          text_eq_refl input.launch_id,
          text_eq_refl input.lead_id,
        ),
    refl,
    refl,
  )
]

first_after-insert_first :
    (now : ℕ) (input : RecordTouchesInput) (rows : List Touch)
    → find (scope_of input TouchType.first) (insert_first now input rows)
      ≡ some (
          or_else
            (find (scope_of input TouchType.first) rows)
            (touch_row now input TouchType.first))
unfolding insert_first
first_after-insert_first now input rows =
    elim (Bool-cases (any (scope_of input TouchType.first) rows)) [
      | inl e ↦ let (t, f) = any-find (scope_of input TouchType.first) rows e in rw (e, f)
      | inr e ↦
          rw (e, find_of_not_any (scope_of input TouchType.first) rows e)
            (find-append_none (scope_of input TouchType.first) rows _ (find_of_not_any _ rows e)
              ∙ rw (
                text_eq_refl input.workspace_id,
                text_eq_refl input.launch_id,
                text_eq_refl input.lead_id,
              ))
    ]

-- A call that is valid and that the database does not refuse succeeds, and says whether it made the
-- first touch: the first touch afterwards is the one that was there, or else the call's. The last
-- touch afterwards is that of the call, also where the one before was of a later event.
pub record_touches_ok :
    (fails : TouchType → Bool) (now : ℕ) (input : RecordTouchesInput) (rows : List Touch)
    → is_invalid input ≡ false
    → ((type : TouchType) → fails type ≡ false)
    → let result = record_touches fails now input rows in
      (result.0
        ≡ RecordTouchesOutcome.ok (record {
          first_created = not (any (scope_of input TouchType.first) rows);
          last_updated = true;
        }))
      × (find (scope_of input TouchType.first) result.1
          ≡ some (
              or_else
                (find (scope_of input TouchType.first) rows)
                (touch_row now input TouchType.first)))
      × ((t : Touch) × (find (scope_of input TouchType.last) result.1 ≡ some t)
          × (t.ts ≡ input.event_time)
          × (t.columns ≡ attribution_params_to_row input.attribution))
unfolding record_touches
record_touches_ok fails now input rows valid works =
    let rows1 = insert_first now input rows in
    let rows2 = upsert_last now input rows1 in
    let last = touch_row now input TouchType.all ∷ [] in
    let (t, found, at, columns) = last-upsert_last now input rows1 in
    rw (valid, works TouchType.first, works TouchType.last, works TouchType.all)
      (
        refl,
        find-append (scope_of input TouchType.first) rows2 last _ (
            first-upsert_last now input input.workspace_id input.launch_id input.lead_id rows1 _
              (first_after-insert_first now input rows)),
        (t, find-append (scope_of input TouchType.last) rows2 last t found, at, columns),
      )
