-- ===== src/Attribution/History.antt =====
-- What `recordTouches` of apps/edge/src/lib/attribution.ts makes of the touches of type `all`, which are
-- the history of a lead's visits.
use globaltracker.Prelude.{
  select-append, append-nil, ℕ, ◌≡◌, refl, sym, ◌∙◌, ap, Bool, true, false, ◌&&◌, List, [], ◌∷◌,
  ◌++◌, Text, any, select, update, if◌then◌else◌, Bool-cases, inl, inr,
}
use globaltracker.Attribution.Types.{
  TouchType, touch_eq, RecordTouchesInput, RecordTouchesOutcome, Touch, in_scope,
}
use globaltracker.Attribution.Touches.{
  touch_row, scope_of, insert_first, overwrite, upsert_last, is_invalid, record_touches,
}

abbrev pub is_ok : RecordTouchesOutcome → Bool
is_ok (RecordTouchesOutcome.ok r) = true
is_ok _ = false

-- An update of other rows, which stay other rows, is not seen.
select-update_other :
    (p q : Touch → Bool) (f : Touch → Touch) (rs : List Touch)
    → ((t : Touch) → q t ≡ true → p t ≡ false)
    → ((t : Touch) → p (f t) ≡ p t)
    → select p (update q f rs) ≡ select p rs
select-update_other p q f [] apart keep = refl
select-update_other p q f (r ∷ rs) apart keep = elim (Bool-cases (q r)) [
  | inl e ↦ rw (e, keep r, apart r e) (select-update_other p q f rs apart keep)
  | inr e ↦ rw (e, select-update_other p q f rs apart keep) refl
]

last_not_all :
    (t : TouchType) (b c : Bool)
    → touch_eq t TouchType.last && b ≡ true
    → touch_eq t TouchType.all && c ≡ false
last_not_all TouchType.first b c h = refl
last_not_all TouchType.last b c h = refl
last_not_all TouchType.all b c h = cc

module _ (w l d : Text) where
  abbrev visits : List Touch → List Touch
  visits rows = select (in_scope TouchType.all w l d) rows

  visits-insert_first :
      (now : ℕ) (input : RecordTouchesInput) (rows : List Touch)
      → visits (insert_first now input rows) ≡ visits rows
  unfolding insert_first
  visits-insert_first now input rows =
      elim (Bool-cases (any (scope_of input TouchType.first) rows)) [
        | inl e ↦ rw e refl
        | inr e ↦ rw e (
            select-append (in_scope TouchType.all w l d) rows
              (touch_row now input TouchType.first ∷ [])
            ∙ append-nil (visits rows))
      ]

  visits-upsert_last :
      (now : ℕ) (input : RecordTouchesInput) (rows : List Touch)
      → visits (upsert_last now input rows) ≡ visits rows
  unfolding upsert_last
  visits-upsert_last now input rows = elim (Bool-cases (any (scope_of input TouchType.last) rows)) [
    | inl e ↦ rw e (
        select-update_other (in_scope TouchType.all w l d) (scope_of input TouchType.last)
          (overwrite now input) rows (λ t h. last_not_all t.touch_type _ _ h) (λ t. refl))
    | inr e ↦ rw e (
        select-append (in_scope TouchType.all w l d) rows (touch_row now input TouchType.last ∷ [])
        ∙ append-nil (visits rows))
  ]

-- The history of any lead in any launch is only added to, and only by its own events: a call that returns
-- without an error adds the event's touch at its end where the event is of that lead, launch and
-- workspace, and no other call, at whichever statement it fails, changes it.
pub record_touches-history :
    (fails : TouchType → Bool) (now : ℕ) (input : RecordTouchesInput) (rows : List Touch)
    (workspace_id launch_id lead_id : Text)
    → let result = record_touches fails now input rows in
      let history = select (in_scope TouchType.all workspace_id launch_id lead_id) in
      history result.1
      ≡ history rows
        ++ (if is_ok result.0 then history (touch_row now input TouchType.all ∷ []) else [])
unfolding record_touches
record_touches-history fails now input rows w l d =
    let first = visits-insert_first w l d now input rows in
    let both = visits-upsert_last w l d now input (insert_first now input rows) ∙ first in
    elim (Bool-cases (is_invalid input)) [
      | inl a ↦ rw a (sym (append-nil (visits w l d rows)))
      | inr a ↦ elim (Bool-cases (fails TouchType.first)) [
        | inl b ↦ rw (a, b) (sym (append-nil (visits w l d rows)))
        | inr b ↦ elim (Bool-cases (fails TouchType.last)) [
          | inl c ↦ rw (a, b, c) (first ∙ sym (append-nil (visits w l d rows)))
          | inr c ↦ elim (Bool-cases (fails TouchType.all)) [
            | inl e ↦ rw (a, b, c, e) (both ∙ sym (append-nil (visits w l d rows)))
            | inr e ↦
                rw (a, b, c, e)
                  (select-append (in_scope TouchType.all w l d)
                      (upsert_last now input (insert_first now input rows))
                      (touch_row now input TouchType.all ∷ [])
                    ∙ ap (λ t. t ++ visits w l d (touch_row now input TouchType.all ∷ [])) both)
          ]
        ]
      ]
    ]
