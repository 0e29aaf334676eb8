-- ===== src/Lifecycle/Promotion.antt =====
-- What `promoteLeadLifecycle` of apps/edge/src/lib/lifecycle-promoter.ts does to the leads, alone
-- and when two calls overlap.
use globaltracker.Prelude.{
  ℕ, ◌≡◌, ◌≢◌, refl, sym, ap, ◌∙◌, ◌<◌, inl, inr, true, false, List, some, Text, arith, Bool-cases,
  find-update_key, find-update_key_other, subst, ◌⊎◌, max,
}
use globaltracker.Lifecycle.Rules.{
  LifecycleStatus, lifecycle_rank, status_text, promote, as_lifecycle_status,
}
use globaltracker.Lifecycle.Order.{
  as_lifecycle_status-status_text, lifecycle_rank-injective, lifecycle_rank-promote,
}
use globaltracker.Lifecycle.Promoter.{
  Row, Outcome, PromoteResult, row_at, decide, decided, decide_row, read_lifecycle, write_lifecycle,
  set_status, promote_lead_lifecycle, same_status,
}

-- The row of a lead with a status.
abbrev pub Stands : Text → LifecycleStatus → List Row → Type 0
Stands id s rows = (r : Row) × (row_at id rows ≡ some r) × (r.lifecycle_status ≡ status_text s)

read_known :
    (id : Text) (current candidate : LifecycleStatus) (rows : List Row)
    → Stands id current rows
    → read_lifecycle id candidate rows
      ≡ Outcome.returned (decide current (promote current candidate))
unfolding read_lifecycle
read_known id current candidate rows (r, at, is) =
    ap (decide_row candidate) at
    ∙ ap (λ t. decided candidate (as_lifecycle_status t)) is
    ∙ ap (decided candidate) (as_lifecycle_status-status_text current)

write_known :
    (now : ℕ) (id : Text) (next : LifecycleStatus) (result : PromoteResult) (rows : List Row)
    → result.updated ≡ true
    → result.current ≡ next
    → (r : Row) → row_at id rows ≡ some r
    → Stands id next (write_lifecycle now id (Outcome.returned result) rows)
unfolding write_lifecycle
write_known now id next result rows u c r at =
    rw (u, c)
      (
        set_status now next r,
        find-update_key (λ (x : Row). x.id) id (set_status now next) rows r (λ x. refl) at,
        refl,
      )

-- Where the promotion is to the status that stands already, nothing is written.
write_same :
    (now : ℕ) (id : Text) (result : PromoteResult) (rows : List Row)
    → result.updated ≡ false
    → write_lifecycle now id (Outcome.returned result) rows ≡ rows
unfolding write_lifecycle
write_same now id result rows u = rw u

write_decided :
    (now : ℕ) (id : Text) (current next : LifecycleStatus) (rows : List Row)
    → (next ≡ current) ⊎ (same_status next current ≡ false)
    → Stands id current rows
    → Stands id next (write_lifecycle now id (Outcome.returned (decide current next)) rows)
write_decided now id current next rows (inl e) stands =
    subst (λ rs. Stands id next rs)
      (sym (write_same now id (decide current next) rows (rw e (ground arith))))
      (subst (λ s. Stands id s rows) (sym e) stands)
write_decided now id current next rows (inr e) (r, at, is) =
    write_known now id next (decide current next) rows (rw e) (rw e) r at

same_or_not :
    (next current : LifecycleStatus) → (next ≡ current) ⊎ (same_status next current ≡ false)
same_or_not next current = elim (Bool-cases (same_status next current)) [
  | inl e ↦ inl (lifecycle_rank-injective next current (ground arith))
  | inr e ↦ inr e
]

write_other :
    (now : ℕ) (id other : Text) (outcome : Outcome) (rows : List Row)
    → other ≢ id
    → row_at other (write_lifecycle now id outcome rows) ≡ row_at other rows
unfolding write_lifecycle
write_other now id other (Outcome.returned r) rows ne = elim (Bool-cases r.updated) [
  | inl e ↦ rw e (
      find-update_key_other (λ (x : Row). x.id) id other (set_status now r.current) rows (λ x. refl)
        ne)
  | inr e ↦ rw e
]
write_other now id other Outcome.lead_not_found rows ne = refl
write_other now id other Outcome.non_canonical rows ne = refl

-- BR-PRODUCT-001, for a call that nothing interrupts: a lead with a status stands at the promoted
-- one afterwards, whose rank is the greater of the two, and the call returns the decision on it.
pub promote_lead_lifecycle-Stands :
    (now : ℕ) (id : Text) (current candidate : LifecycleStatus) (rows : List Row)
    → Stands id current rows
    → let next = promote current candidate in
      Stands id next (promote_lead_lifecycle now id candidate rows).1
      × ((promote_lead_lifecycle now id candidate rows).0 ≡ Outcome.returned (decide current next))
      × (lifecycle_rank next ≡ max (lifecycle_rank current) (lifecycle_rank candidate))
unfolding promote_lead_lifecycle
promote_lead_lifecycle-Stands now id current candidate rows stands =
    let known = read_known id current candidate rows stands in
    let next = promote current candidate in
    (
      subst (λ o. Stands id next (write_lifecycle now id o rows)) (sym known)
          (write_decided now id current next rows (same_or_not next current) stands),
      known,
      lifecycle_rank-promote current candidate,
    )

-- No promotion, of whatever outcome, touches another lead.
pub promote_lead_lifecycle_other :
    (now : ℕ) (id other : Text) (candidate : LifecycleStatus) (rows : List Row)
    → other ≢ id
    → row_at other (promote_lead_lifecycle now id candidate rows).1 ≡ row_at other rows
unfolding promote_lead_lifecycle
promote_lead_lifecycle_other now id other candidate rows ne =
    write_other now id other (read_lifecycle id candidate rows) rows ne

promote_higher : (s t : LifecycleStatus) → lifecycle_rank s < lifecycle_rank t → promote s t ≡ t
unfolding promote
promote_higher s t h = ground (arith, h)

-- Where two calls for one lead both read before either writes, and both promote, the one that
-- writes last decides, whatever the other promoted to: a lead that one of them makes a `mentorado`
-- ends as the `cliente` of the other.
pub promotions_race :
    (now later : ℕ) (id : Text) (current a b : LifecycleStatus) (rows : List Row)
    → Stands id current rows
    → lifecycle_rank current < lifecycle_rank a
    → lifecycle_rank current < lifecycle_rank b
    → Stands id b (
        write_lifecycle later id
          (read_lifecycle id b rows)
          (write_lifecycle now id (read_lifecycle id a rows) rows))
promotions_race now later id current a b rows stands ha hb =
    let rows' = write_lifecycle now id (Outcome.returned (decide current a)) rows in
    let first =
      read_known id current a rows stands
      ∙ ap (λ n. Outcome.returned (decide current n)) (promote_higher current a ha) in
    let second =
      read_known id current b rows stands
      ∙ ap (λ n. Outcome.returned (decide current n)) (promote_higher current b hb) in
    let (r, at, is) = write_decided now id current a rows (same_or_not a current) stands in
    subst
      (λ o.
        Stands id b
          (write_lifecycle later id o (write_lifecycle now id (read_lifecycle id a rows) rows)))
      (sym second)
      (subst
        (λ o. Stands id b (
          write_lifecycle later id (Outcome.returned (decide current b))
            (write_lifecycle now id o rows)))
        (sym first)
        (write_known later id b (decide current b) rows' (ground (arith, hb)) (ground (arith, hb)) r
          at))
